-- ===== src/Gomoku/Evaluate/Bounds.antt =====
-- The evaluation neither throws nor overflows.
use workplace.Common.{Bool, Bool-cases, List, [], arith, inl, inr, length, refl, some, ℕ, ◌*◌, ◌+◌}
use workplace.Common.{◌∷◌, ◌≡◌, ◌≢◌, ◌≤◌}
use workplace.Common.Int.{pos, ℤ, ◌+ℤ◌, ◌-ℤ◌}
use workplace.Gomoku.Board.{Board, Cell, Pos, cell_at, cells, is_some_cell}
use workplace.Gomoku.Evaluate.{PatternType, blocked_four, blocked_one, blocked_three, blocked_two}
use workplace.Gomoku.Evaluate.{classify, evaluate, evaluate_board, five, live_four, live_one}
use workplace.Gomoku.Evaluate.{live_three, live_two, pattern_at, pattern_score, ray, score_cells}
use workplace.Gomoku.Evaluate.{score_dirs}
use workplace.Gomoku.Win.{directions}

abbrev max_points : ℕ
max_points = 1000000

scored :
    (t : PatternType)
    → t ≢ blocked_one
    → (points : ℕ) × (pattern_score t ≡ some points) × (points ≤ max_points)
unfolding pattern_score
scored live_one h = (10, refl, omega arith)
scored live_two h = (100, refl, omega arith)
scored live_three h = (1000, refl, omega arith)
scored live_four h = (100000, refl, omega arith)
scored blocked_one h = absurd (h refl)
scored blocked_two h = (50, refl, omega arith)
scored blocked_three h = (500, refl, omega arith)
scored blocked_four h = (50000, refl, omega arith)
scored five h = (1000000, refl, omega arith)

-- The one missing entry of the table is never asked for.
classify-ne : (count : ℕ) (l r : Bool) → classify count l r ≢ blocked_one
unfolding classify
classify-ne count l r = ground arith

classify-scored :
    (count : ℕ) (l r : Bool)
    → (points : ℕ) × (pattern_score (classify count l r) ≡ some points) × (points ≤ max_points)
classify-scored count l r = scored (classify count l r) (classify-ne count l r)

length-cells : length cells ≡ 225
unfolding cells
length-cells = refl

score_dirs_total :
    (b : Board) (player : Cell) (at : ℤ × ℤ) (dirs : List (ℤ × ℤ)) (score : ℕ)
    → (s : ℕ) × (score_dirs b player at dirs score ≡ some s)
      × (s ≤ score + length dirs * max_points)
unfolding score_dirs pattern_at
score_dirs_total b player at [] score = (score, refl, omega arith)
score_dirs_total b player at (dir ∷ dirs) score =
    let left = ray ◌-ℤ◌ b player at dir 1 4 in
    let right = ray ◌+ℤ◌ b player at dir 1 4 in
    let (points, e, h) =
      classify-scored (1 + left.stones + right.stones) left.blocked right.blocked in
    let (s, f, k) = score_dirs_total b player at dirs (score + points) in (s, rw e f, omega arith)

score_cells_total :
    (b : Board) (player : Cell) (ps : List Pos) (score : ℕ)
    → (s : ℕ) × (score_cells b player ps score ≡ some s)
      × (s ≤ score + length ps * (4 * max_points))
unfolding score_cells
score_cells_total b player [] score = (score, refl, omega arith)
score_cells_total b player ((x, y) ∷ ps) score =
    elim (Bool-cases (is_some_cell (cell_at b x y) player)) [
      | inl own ↦
          let (n, e, h) = score_dirs_total b player (pos x, pos y) directions score in
          let (s, f, k) = score_cells_total b player ps n in (s, rw (own, e) f, omega arith)
      | inr other ↦
          let (s, f, k) = score_cells_total b player ps score in (s, rw other f, omega arith)
    ]

abbrev pub max_score : ℕ
max_score = 900000000

-- `evaluateBoard` returns a score of at most 900,000,000 for every board: `PATTERN_SCORE.at` is
-- never called where the table has no entry, and the sum stays within an `int`.
pub evaluate_total :
    (b : Board) (player : Cell)
    → (evaluate b player ≡ some (evaluate_board b player)) × (evaluate_board b player ≤ max_score)
unfolding evaluate_board evaluate
evaluate_total b player =
    let (s, e, h) = score_cells_total b player cells 0 in
    rw (e, evaluate_board) (refl, omega (arith, length-cells))
