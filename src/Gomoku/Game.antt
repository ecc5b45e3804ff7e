-- ===== src/Gomoku/Game.antt =====
-- The class `AiGame`: its fields, the human move and the computer's move. The mutex guards each
-- accessor on its own and is left out. `std::sort` and the result of `rand()` are parameters.
pub mod BestMove
pub mod Optimal
pub mod Invariant
pub mod Moves
use workplace.Common.{Bool, List, Option, [], false, get_elem?, if◌then◌else◌, leb, length, ltb}
use workplace.Common.{none, not, some, true, ℕ, ◌%◌, ◌&&◌, ◌*◌, ◌+◌, ◌-◌, ◌||◌, ◌∷◌}
use workplace.Common.Int.{ltb_ℤ, negsuc, pos, ℤ}
use workplace.Gomoku.Board.{Board, Cell, Pos, ai_player, board_size, candidates, cell_at, cells}
use workplace.Gomoku.Board.{empty, empty_board, human_player, is_cell, is_in_board, is_some_cell}
use workplace.Gomoku.Board.{put}
use workplace.Gomoku.Minimax.{Sort, int_max, int_min, minimax, prefers}
use workplace.Gomoku.Win.{check_win}

-- The texts "none", "human" and "ai".
pub data Winner : Type 0 where
  nobody human ai : Winner

pub record AiGame : Type 0 where
  pub board : Board
  pub game_over : Bool
  pub user_id : ℤ
  pub move_count : ℕ
  pub winner : Winner
  pub last_move : ℤ × ℤ

-- The constructor.
unfoldable pub new_game : ℤ → AiGame
new_game user_id = record {
  board = empty_board;
  game_over = false;
  user_id = user_id;
  move_count = 0;
  winner = nobody;
  last_move = (negsuc 0, negsuc 0);
}

abbrev pub is_draw : AiGame → Bool
is_draw g = leb (board_size * board_size) g.move_count

unfoldable pub is_valid_move : AiGame → ℤ → ℤ → Bool
is_valid_move g x y =
    if not (is_in_board x y)
    then false
    else if not (is_cell g.board x y empty)
    then false
    else if g.game_over || is_draw g
    then false
    else true

-- `board_[x][y] = c`; off the board it changes nothing (the source has no defined behaviour there,
-- and `is_valid_move` stands before it).
abbrev pub put_at : Board → ℤ → ℤ → Cell → Board
put_at b (pos x) (pos y) c = put b x y c
put_at b _ _ c = b

-- Count the stone, remember the place, and look for a win.
abbrev pub after_move : AiGame → Board → ℤ → ℤ → Cell → Winner → AiGame
after_move g b x y player who =
    let moved = record g { board = b; last_move = (x, y); move_count = g.move_count + 1 } in
    if check_win b x y player then record moved { game_over = true; winner = who } else moved

unfoldable pub human_move : AiGame → ℤ → ℤ → AiGame × Bool
unfolding is_valid_move
human_move g x y =
    if not (is_valid_move g x y)
    then (g, false)
    else (after_move g (put_at g.board x y human_player) x y human_player human, true)

-- Steps 1 and 2 of `getBestMove`: the first empty cell where a stone of the player wins. The stone
-- is taken off again before the loop goes on or returns.
unfoldable pub first_win : Board → Cell → List Pos → Option Pos
first_win b player [] = none
first_win b player ((i, j) ∷ ps) =
    let rest = first_win b player ps in
    if is_some_cell (cell_at b i j) empty && check_win (put b i j player) (pos i) (pos j) player
    then some (i, j)
    else rest

-- The loop of step 5 over the sorted candidates: the best score so far, its move (`none` is
-- {-1, -1}) and the board.
unfoldable pub choose : (Board → ℤ × Board) → List Pos → ℤ → Option Pos → Board → Option Pos × Board
choose search [] best_score best_move b = (best_move, b)
choose search ((i, j) ∷ ps) best_score best_move b =
    let (score, b') = search (put b i j ai_player) in
    let b'' = put b' i j empty in
    let better = choose search ps score (some (i, j)) b'' in
    let same = choose search ps best_score best_move b'' in
    if ltb_ℤ best_score score then better else same

-- Step 6: the empty cells, in the order of the loops.
unfoldable pub empty_cells : Board → List Pos → List Pos
empty_cells b [] = []
empty_cells b ((i, j) ∷ ps) =
    let rest = empty_cells b ps in
    if is_some_cell (cell_at b i j) empty then (i, j) ∷ rest else rest

unfoldable pub fallback : ℕ → Board → Option Pos
unfolding empty_cells
fallback rand b = let free = empty_cells b cells in get_elem? free (rand % length free)

abbrev pub or_else : Option Pos → Option Pos → Option Pos
or_else none other = other
or_else (some p) other = some p

-- The depth of step 5.
abbrev pub max_depth : AiGame → ℕ
max_depth g = if ltb g.move_count 10 then 5 else 3

module _ (sort : Sort) where
  -- Step 5, with the search at one level less.
  unfoldable pub searched : AiGame → Option Pos × Board
  unfolding choose
  searched g =
      choose (minimax sort (g.game_over || is_draw g) (max_depth g - 1) false int_min int_max)
        (sort (prefers true g.board) (candidates g.board)) int_min none g.board

  -- `getBestMove`: the move and the board that it leaves.
  unfoldable pub get_best_move : ℕ → AiGame → Option Pos × Board
  get_best_move rand g = elim (first_win g.board ai_player cells) [
    | some p ↦ (some p, g.board)
    | none ↦ elim (first_win g.board human_player cells) [
      | some p ↦ (some p, g.board)
      | none ↦ (or_else (searched g).0 (fallback rand (searched g).1), (searched g).1)
    ]
  ]

  -- `aiMove`; `none` is a write to `board_[-1][-1]`.
  unfoldable pub ai_move : ℕ → AiGame → Option AiGame
  ai_move rand g = if g.game_over || is_draw g then some g else elim (get_best_move rand g).0 [
    | none ↦ none
    | some (x, y) ↦
        some
          (after_move g (put (get_best_move rand g).1 x y ai_player) (pos x) (pos y) ai_player ai)
  ]
