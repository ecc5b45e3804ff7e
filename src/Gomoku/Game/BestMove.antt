-- ===== src/Gomoku/Game/BestMove.antt =====
-- What `getBestMove` returns: always an empty cell, and a winning or a blocking move where there
-- is one. The board is left as it was.
use native.Mathlib.Nat.{mod-lt}
use workplace.Common.{Bool-cases, List, Option, [], and_parts, ap, arith, get_elem?-mem}
use workplace.Common.{get_elem?_total, if◌then◌else◌, inl, inr, length, none, refl, some, some_inj}
use workplace.Common.{subst, sym, true, ℕ, ◌%◌, ◌&&◌, ◌*◌, ◌<◌, ◌∈◌, ◌∷◌, ◌≡◌, ◌⊎◌}
use workplace.Common.Int.{ltb_ℤ, ltb_ℤ→le, ltb_ℤ→lt, pos, ℤ, ◌<ℤ◌, ◌≤ℤ◌}
use workplace.Gomoku.Board.{Board, Cell, Pos, ai_player, board_size, cell_at, cells, empty}
use workplace.Gomoku.Board.{is_some_cell, put}
use workplace.Gomoku.Board.Count.{free_cell, occupied}
use workplace.Gomoku.Board.Laws.{IsBoard, cell_at-lt, is_some_cell_lem, mem-cells_iff, put_undo}
use workplace.Gomoku.Game.{choose, empty_cells, fallback, first_win}
use workplace.Gomoku.Win.{check_win}

some_ne_none : {p : Pos} → some p ≡ none → ⊥
some_ne_none e = cc

-- A stone of the player on this cell, which is empty, wins.
abbrev pub Wins : Board → Cell → Pos → Type 0
Wins b player p =
    (cell_at b p.0 p.1 ≡ some empty)
    × (check_win (put b p.0 p.1 player) (pos p.0) (pos p.1) player ≡ true)

pub first_win_found :
    (b : Board) (player : Cell) (ps : List Pos) (p : Pos)
    → first_win b player ps ≡ some p
    → Wins b player p
unfolding first_win
first_win_found b player [] p e = absurd (cc)
first_win_found b player ((i, j) ∷ ps) p e =
    elim (Bool-cases
      (is_some_cell (cell_at b i j) empty && check_win (put b i j player) (pos i) (pos j) player)) [
        | inr no_win ↦ first_win_found b player ps p (rw (no_win, first_win) at e)
        | inl win ↦
            let (free, line) = and_parts _ _ win in
            let q : (i, j) ≡ p = some_inj (rw (win, first_win) at e) in
            subst (Wins b player) q (is_some_cell_lem _ empty free, line)
      ]

pub first_win-none :
    (b : Board) (player : Cell) (ps : List Pos) (p : Pos)
    → first_win b player ps ≡ none
    → p ∈ ps
    → ¬ Wins b player p
unfolding first_win
first_win-none b player [] p e m w = absurd m
first_win-none b player ((i, j) ∷ ps) p e m (free, line) =
    elim (Bool-cases
      (is_some_cell (cell_at b i j) empty && check_win (put b i j player) (pos i) (pos j) player)) [
        | inl win ↦ absurd (some_ne_none (rw (win, first_win) at e))
        | inr no_win ↦ elim m [
          | inr later ↦
              first_win-none b player ps p (rw (no_win, first_win) at e) later (free, line)
          | inl here ↦ ground arith
        ]
      ]

-- A search that returns the value `v` and the board that it was given.
abbrev pub Exact : (Board → ℤ × Board) → (Board → ℤ) → Type 0
Exact search v = (b : Board) → search b ≡ (v b, b)

module _ (v : Board → ℤ) (b : Board) where
  -- The value of a move of the computer.
  abbrev pub worth : Pos → ℤ
  worth p = v (put b p.0 p.1 ai_player)

  -- The loop of step 5, with the values in place of the searches.
  pub choose_plain : List Pos → ℤ → Option Pos → Option Pos
  choose_plain [] score move = move
  choose_plain (p ∷ ps) score move =
      let here = worth p in
      let better = choose_plain ps here (some p) in
      let same = choose_plain ps score move in if ltb_ℤ score here then better else same

  pub choose_plain-mem :
      (ps : List Pos) (score : ℤ) (move : Option Pos) (p : Pos)
      → choose_plain ps score move ≡ some p
      → (move ≡ some p) ⊎ (p ∈ ps)
  unfolding choose_plain
  choose_plain-mem [] score move p e = inl e
  choose_plain-mem (q ∷ ps) score move p e =
      elim (Bool-cases (ltb_ℤ score (v (put b q.0 q.1 ai_player)))) [
        | inl more ↦
            elim (choose_plain-mem ps (v (put b q.0 q.1 ai_player)) (some q) p
              (rw (more, choose_plain) at e)) [
                | inl first ↦ inr (inl (sym (some_inj first)))
                | inr later ↦ inr (inr later)
              ]
        | inr less ↦ elim (choose_plain-mem ps score move p (rw (less, choose_plain) at e)) [
          | inl old ↦ inl old
          | inr later ↦ inr (inr later)
        ]
      ]

  -- The chosen move has the greatest value of all the candidates.
  pub choose_plain-max :
      (ps : List Pos) (score : ℤ) (move : Option Pos) (p : Pos)
      → choose_plain ps score move ≡ some p
      → (move ≡ some p → worth p ≡ score)
      → (score ≤ℤ worth p) × ((q : Pos) → q ∈ ps → worth q ≤ℤ worth p)
  unfolding choose_plain
  choose_plain-max [] score move p e start =
      (subst (λ s. s ≤ℤ worth p) (start e) (omega arith), λ q m. absurd m)
  choose_plain-max (q ∷ ps) score move p e start = elim (Bool-cases (ltb_ℤ score (worth q))) [
    | inl more ↦
        let (low, rest) =
          choose_plain-max ps (worth q) (some q) p (rw (more, choose_plain) at e)
            (λ f. ap worth (sym (some_inj f))) in
        (
          omega (arith, ltb_ℤ→lt score (worth q) more),
          λ r m. elim m [ inl h ↦ rw h low | inr h ↦ rest r h ],
        )
    | inr less ↦
        let (low, rest) = choose_plain-max ps score move p (rw (less, choose_plain) at e) start in
        let bound = ltb_ℤ→le score (worth q) less in
        (low, λ r m. elim m [ inl h ↦ rw h (omega arith) | inr h ↦ rest r h ])
  ]

  -- One candidate above the first score is enough for a move.
  pub choose_plain-some :
      (ps : List Pos) (score : ℤ) (move : Option Pos)
      → ((p : Pos) × (move ≡ some p)) ⊎ ((q : Pos) × (q ∈ ps) × (score <ℤ worth q))
      → (p : Pos) × (choose_plain ps score move ≡ some p)
  unfolding choose_plain
  choose_plain-some [] score move (inl (p, e)) = (p, e)
  choose_plain-some [] score move (inr (q, m, h)) = absurd m
  choose_plain-some (r ∷ ps) score move h = elim (Bool-cases (ltb_ℤ score (worth r))) [
    | inl more ↦ rw more (choose_plain-some ps (worth r) (some r) (inl (r, refl)))
    | inr less ↦ rw less (choose_plain-some ps score move (later h (ltb_ℤ→le score (worth r) less)))
  ]
    where
      later :
          ((p : Pos) × (move ≡ some p)) ⊎ ((q : Pos) × (q ∈ (r ∷ ps)) × (score <ℤ worth q))
          → worth r ≤ℤ score
          → ((p : Pos) × (move ≡ some p)) ⊎ ((q : Pos) × (q ∈ ps) × (score <ℤ worth q))
      later (inl old) k = inl old
      later (inr (q, inl e, l)) k = absurd (omega (arith, subst (λ s. score <ℤ worth s) e l))
      later (inr (q, inr m, l)) k = inr (q, m, l)

module _ (search : Board → ℤ × Board) (v : Board → ℤ) (exact : Exact search v) (b : Board) where
  pub choose_lem :
      (ps : List Pos) (score : ℤ) (move : Option Pos)
      → ((p : Pos) → p ∈ ps → cell_at b p.0 p.1 ≡ some empty)
      → choose search ps score move b ≡ (choose_plain v b ps score move, b)
  unfolding choose choose_plain
  choose_lem [] score move free = refl
  choose_lem ((i, j) ∷ ps) score move free =
      let undo = put_undo b i j ai_player (free (i, j) (inl refl)) in
      elim (Bool-cases (ltb_ℤ score (v (put b i j ai_player)))) [
        | inl more ↦
            rw (exact (put b i j ai_player), undo, more)
              (choose_lem ps (v (put b i j ai_player)) (some (i, j)) (λ p m. free p (inr m)))
        | inr less ↦
            rw (exact (put b i j ai_player), undo, less)
              (choose_lem ps score move (λ p m. free p (inr m)))
      ]

empty_cells-mem :
    (b : Board) (ps : List Pos) (p : Pos) → p ∈ empty_cells b ps → cell_at b p.0 p.1 ≡ some empty
unfolding empty_cells
empty_cells-mem b [] p m = absurd m
empty_cells-mem b ((i, j) ∷ ps) p m = elim (Bool-cases (is_some_cell (cell_at b i j) empty)) [
  | inr taken ↦ empty_cells-mem b ps p (rw (taken, empty_cells) at m)
  | inl free ↦ elim (let q : p ∈ ((i, j) ∷ empty_cells b ps) = rw (free, empty_cells) at m in q) [
    | inl e ↦ ground (arith, is_some_cell_lem (cell_at b i j) empty free)
    | inr later ↦ empty_cells-mem b ps p later
  ]
]

mem-empty_cells :
    (b : Board) (ps : List Pos) (p : Pos)
    → p ∈ ps
    → cell_at b p.0 p.1 ≡ some empty
    → p ∈ empty_cells b ps
unfolding empty_cells
mem-empty_cells b [] p m free = absurd m
mem-empty_cells b ((i, j) ∷ ps) p (inl e) free =
    let here : is_some_cell (cell_at b i j) empty ≡ true = ground arith in rw here (inl e)
mem-empty_cells b ((i, j) ∷ ps) p (inr m) free =
    elim (Bool-cases (is_some_cell (cell_at b i j) empty)) [
      | inl here ↦ rw here (inr (mem-empty_cells b ps p m free))
      | inr taken ↦ rw taken (mem-empty_cells b ps p m free)
    ]

length-pos : (ps : List Pos) (p : Pos) → p ∈ ps → 0 < length ps
length-pos [] p m = absurd m
length-pos (q ∷ ps) p m = omega arith

-- Step 6 finds an empty cell on every board that has one.
pub fallback_total :
    (rand : ℕ) (b : Board)
    → IsBoard b
    → occupied b < board_size * board_size
    → (p : Pos) × (fallback rand b ≡ some p) × (cell_at b p.0 p.1 ≡ some empty)
unfolding fallback
fallback_total rand b v h =
    let free = empty_cells b cells in
    let (x, y, e) = free_cell b v h in
    let m = mem-empty_cells b cells (x, y) ((mem-cells_iff x y).1 (cell_at-lt b x y v e)) e in
    let (p, q) =
      get_elem?_total free (rand % length free) (mod-lt rand (length-pos free (x, y) m)) in
    (p, q, empty_cells-mem b cells p (get_elem?-mem free (rand % length free) q))
