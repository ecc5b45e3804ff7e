-- ===== src/Gomoku/Evaluate.antt =====
-- `AiGame::evaluateBoard` and its table `PATTERN_SCORE`.
pub mod Bounds
use workplace.Common.{Bool, List, Option, [], false, if◌then◌else◌, leb, none, not, some, suc, true}
use workplace.Common.{zero, ℕ, ◌&&◌, ◌+◌, ◌==◌, ◌||◌, ◌∷◌}
use workplace.Common.Int.{pos, ℤ, ◌+ℤ◌, ◌-ℤ◌}
use workplace.Gomoku.Board.{Board, Cell, Pos, ai_player, cell_at, cell_eq, cells, empty}
use workplace.Gomoku.Board.{human_player, is_cell, is_in_board, is_some_cell}
use workplace.Gomoku.Win.{directions, scale}

pub data PatternType : Type 0 where
  live_one live_two live_three live_four : PatternType
  blocked_one blocked_two blocked_three blocked_four : PatternType
  five : PatternType

-- `PATTERN_SCORE.at(type)`: the table has no entry for `BLOCKED_ONE`, and `at` throws there.
unfoldable pub pattern_score : PatternType → Option ℕ
pattern_score live_one = some 10
pattern_score live_two = some 100
pattern_score live_three = some 1000
pattern_score live_four = some 100000
pattern_score blocked_one = none
pattern_score blocked_two = some 50
pattern_score blocked_three = some 500
pattern_score blocked_four = some 50000
pattern_score five = some 1000000

-- `player == HUMAN_PLAYER ? AI_PLAYER : HUMAN_PLAYER`.
abbrev pub opponent : Cell → Cell
opponent player = if cell_eq player human_player then ai_player else human_player

-- What one of the two inner loops adds to `count`, and whether it was blocked.
pub record Ray : Type 0 where
  pub stones : ℕ
  pub blocked : Bool

ray : (ℤ → ℤ → ℤ) → Board → Cell → ℤ × ℤ → ℤ × ℤ → ℕ → ℕ → Ray
ray op b player at dir i zero = record { stones = 0; blocked = false }
ray op b player (x, y) (dx, dy) i (suc left) =
    let nx = op x (scale i dx) in
    let ny = op y (scale i dy) in
    let rest = ray op b player (x, y) (dx, dy) (i + 1) left in
    if not (is_in_board nx ny) || is_cell b nx ny (opponent player)
    then record { stones = 0; blocked = true }
    else if is_cell b nx ny empty
    then record { stones = 0; blocked = false }
    else record rest { stones = suc rest.stones }

-- The pattern of `count` stones between two ends.
unfoldable pub classify : ℕ → Bool → Bool → PatternType
classify count left_block right_block =
    if leb 5 count
    then five
    else if count == 4
    then (if not left_block && not right_block then live_four else blocked_four)
    else if count == 3
    then (if not left_block && not right_block then live_three else blocked_three)
    else if count == 2
    then (if not left_block && not right_block then live_two else blocked_two)
    else live_one

pattern_at : Board → Cell → ℤ × ℤ → ℤ × ℤ → PatternType
unfolding ray classify ◌+ℤ◌ ◌-ℤ◌
pattern_at b player at dir =
    let left = ray ◌-ℤ◌ b player at dir 1 4 in
    let right = ray ◌+ℤ◌ b player at dir 1 4 in
    classify (1 + left.stones + right.stones) left.blocked right.blocked

infixl 5 ◌>>=◌
abbrev ◌>>=◌ {ℓ κ} : {A : Type ℓ} {B : Type κ} → Option A → (A → Option B) → Option B
none >>= k = none
some a >>= k = k a

-- The loop over `dir`, which adds to `score`.
score_dirs : Board → Cell → ℤ × ℤ → List (ℤ × ℤ) → ℕ → Option ℕ
unfolding pattern_at pattern_score
score_dirs b player at [] score = some score
score_dirs b player at (dir ∷ dirs) score = do
  points ← pattern_score (pattern_at b player at dir)
  score_dirs b player at dirs (score + points)

-- The loops over `x` and `y`; a cell of another kind is passed over.
score_cells : Board → Cell → List Pos → ℕ → Option ℕ
unfolding score_dirs
score_cells b player [] score = some score
score_cells b player ((x, y) ∷ ps) score = do
  next ←
      if is_some_cell (cell_at b x y) player
      then score_dirs b player (pos x, pos y) directions score
      else some score
  score_cells b player ps next

-- `evaluateBoard`; `none` stands for an exception of `at`.
unfoldable pub evaluate : Board → Cell → Option ℕ
unfolding score_cells
evaluate b player = score_cells b player cells 0

-- Its value, for the callers; after an exception there is none, and 0 stands in its place.
unfoldable pub evaluate_board : Board → Cell → ℕ
unfolding evaluate
evaluate_board b player = elim (evaluate b player) [ none ↦ 0 | some score ↦ score ]
