-- ===== src/WebApp.antt =====
-- The web application: `GomokuServer` and its handlers, HttpServer/WebAPP/Gomoku.

pub mod IntMap
pub mod Libraries
pub mod State
pub mod Account
pub mod Play
pub mod Pages
pub mod Routes
pub mod Turns
pub mod Invariant
pub mod Safe
pub mod Login
pub mod Logout
pub mod Playing
pub mod Own
mod Tests
