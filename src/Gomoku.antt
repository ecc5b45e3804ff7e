-- ===== src/Gomoku.antt =====
-- The game of the web application: WebAPP/Gomoku/include/AiGame.h and WebAPP/Gomoku/src/AiGame.cpp.
pub mod Board
pub mod Win
pub mod Evaluate
pub mod Minimax
pub mod Game
mod Tests
