-- ===== src/Gomoku/Win/Line.antt =====
-- `checkwin` finds exactly the lines of five or more stones.
use workplace.Common.{Bool-cases, List, [], arith, dec_lt, inl, inr, leb, leb→le, refl, suc, true}
use workplace.Common.{zero, ℕ, ℕ_discrete, ◌+◌, ◌<◌, ◌↔◌, ◌∈◌, ◌∷◌, ◌≡◌, ◌≤◌, ◌⊎◌}
use workplace.Common.Int.{ℤ, ◌+ℤ◌, ◌-ℤ◌}
use workplace.Gomoku.Board.{Board, Cell}
use workplace.Gomoku.Win.{any_line, check_win, directions, is_stone, line_count, walk}

-- The first `n` cells from `at` in one direction hold the player's stones.
abbrev pub Run : (ℤ → ℤ → ℤ) → Board → Cell → ℤ × ℤ → ℤ × ℤ → ℕ → Type 0
Run op b player at dir n = (i : ℕ) → 1 ≤ i → i ≤ n → is_stone op b player at dir i ≡ true

-- A line of at least five cells through a position: `f` cells on one side of it and `g` on the
-- other hold the player's stones. The position itself is the one just played.
pub record Five (b : Board) (x y : ℤ) (player : Cell) : Type 0 where
  pub dir : ℤ × ℤ
  pub listed : dir ∈ directions
  pub ahead : ℕ
  pub behind : ℕ
  pub enough : 5 ≤ 1 + ahead + behind
  pub run_ahead : Run ◌+ℤ◌ b player (x, y) dir ahead
  pub run_behind : Run ◌-ℤ◌ b player (x, y) dir behind

module _ (op : ℤ → ℤ → ℤ) (b : Board) (player : Cell) (at dir : ℤ × ℤ) where
  walk-le : (i left : ℕ) → walk op b player at dir i left ≤ left
  unfolding walk
  walk-le i zero = omega arith
  walk-le i (suc left) = ground (arith, walk-le (i + 1) left)

  walk_sound :
      (i left k : ℕ)
      → i ≤ k
      → k < i + walk op b player at dir i left
      → is_stone op b player at dir k ≡ true
  unfolding walk
  walk_sound i zero k h l = absurd (omega arith)
  walk_sound i (suc left) k h l = elim (Bool-cases (is_stone op b player at dir i)) [
    | inr stop ↦ absurd (omega (arith, rw (stop, walk) at l))
    | inl go ↦ elim (ℕ_discrete i k) [
      | yes e ↦ rw (← e) go
      | no ne ↦ walk_sound (i + 1) left k (omega arith) (omega (arith, rw (go, walk) at l))
    ]
  ]

  -- The loop breaks no sooner than it must.
  walk_complete :
      (i left n : ℕ)
      → n ≤ left
      → ((k : ℕ) → i ≤ k → k < i + n → is_stone op b player at dir k ≡ true)
      → n ≤ walk op b player at dir i left
  unfolding walk
  walk_complete i left zero h all = omega arith
  walk_complete i zero (suc n) h all = absurd (omega arith)
  walk_complete i (suc left) (suc n) h all =
      rw (all i (omega arith) (omega arith), walk)
        (omega (
          arith,
          walk_complete (i + 1) left n (omega arith) (λ k p q. all k (omega arith) (omega arith)),
        ))

Five-of_line :
    (b : Board) (x y : ℤ) (player : Cell) (dir : ℤ × ℤ)
    → dir ∈ directions
    → 5 ≤ line_count b player (x, y) dir
    → Five b x y player
unfolding line_count
Five-of_line b x y player dir m h = record {
  dir = dir;
  listed = m;
  ahead = walk ◌+ℤ◌ b player (x, y) dir 1 4;
  behind = walk ◌-ℤ◌ b player (x, y) dir 1 4;
  enough = h;
  run_ahead = λ i p q. walk_sound ◌+ℤ◌ b player (x, y) dir 1 4 i p (omega arith);
  run_behind = λ i p q. walk_sound ◌-ℤ◌ b player (x, y) dir 1 4 i p (omega arith);
}

-- A run of `n` cells is walked to its end, or for the four rounds.
walk-Run :
    (op : ℤ → ℤ → ℤ) (b : Board) (player : Cell) (at dir : ℤ × ℤ) (n : ℕ)
    → Run op b player at dir n
    → (n ≤ walk op b player at dir 1 4) ⊎ (4 ≤ walk op b player at dir 1 4)
walk-Run op b player at dir n run = elim (dec_lt n 5) [
  | yes p ↦
      inl (walk_complete op b player at dir 1 4 n (omega arith) (λ k l u. run k l (omega arith)))
  | no p ↦
      inr (walk_complete op b player at dir 1 4 4 (omega arith) (λ k l u. run k l (omega arith)))
]

line_of_Five :
    (b : Board) (x y : ℤ) (player : Cell) (f : Five b x y player)
    → 5 ≤ line_count b player (x, y) f.dir
unfolding line_count
line_of_Five b x y player f = omega (
  arith,
  f.enough,
  walk-Run ◌+ℤ◌ b player (x, y) f.dir f.ahead f.run_ahead,
  walk-Run ◌-ℤ◌ b player (x, y) f.dir f.behind f.run_behind,
)

any_line_sound :
    (b : Board) (player : Cell) (at : ℤ × ℤ) (dirs : List (ℤ × ℤ))
    → any_line b player at dirs ≡ true
    → (dir : ℤ × ℤ) × (dir ∈ dirs) × (5 ≤ line_count b player at dir)
unfolding any_line
any_line_sound b player at [] e = absurd (cc)
any_line_sound b player at (dir ∷ dirs) e = elim (Bool-cases (leb 5 (line_count b player at dir))) [
  | inl h ↦ (dir, inl refl, leb→le _ _ h)
  | inr h ↦ let (d, m, l) = any_line_sound b player at dirs (rw (h, any_line) at e) in (d, inr m, l)
]

any_line_complete :
    (b : Board) (player : Cell) (at : ℤ × ℤ) (dirs : List (ℤ × ℤ)) (dir : ℤ × ℤ)
    → dir ∈ dirs
    → 5 ≤ line_count b player at dir
    → any_line b player at dirs ≡ true
unfolding any_line
any_line_complete b player at [] dir m h = absurd m
any_line_complete b player at (d ∷ ds) dir (inl e) h = ground arith
any_line_complete b player at (d ∷ ds) dir (inr m) h =
    ground (arith, any_line_complete b player at ds dir m h)

-- `checkwin` answers true exactly when the stone at (x, y) stands in an unbroken line of five or
-- more stones of the player, in a row, a column or a diagonal; the position itself is not read.
pub check_win_iff :
    (b : Board) (x y : ℤ) (player : Cell) → (check_win b x y player ≡ true) ↔ Five b x y player
unfolding check_win
check_win_iff b x y player = (
  λ e.
      let (dir, m, h) = any_line_sound b player (x, y) directions e in
      Five-of_line b x y player dir m h,
  λ f. any_line_complete b player (x, y) directions f.dir f.listed (line_of_Five b x y player f),
)
