-- ===== src/Gomoku/Board/Laws.antt =====
-- Reads, writes and the list of all cells on a board of full size.
use workplace.Common.{All, All-mem, Bool-cases, List, Option, Option-cases, [], and_parts, ap}
use workplace.Common.{arith, get_elem?, get_elem?-lt, get_elem?-mem, get_elem?-set_ne}
use workplace.Common.{get_elem?-set_self, get_elem?_total, inl, inr, length, length-set, mem-append}
use workplace.Common.{mem-append_left, mem-append_right, none, set, set-set, set_same, some, subst}
use workplace.Common.{suc, sym, true, zero, ℕ, ℕ_discrete, ◌&&◌, ◌+◌, ◌<◌, ◌↔◌, ◌∈◌, ◌∙◌, ◌∷◌, ◌≡◌}
use workplace.Common.{◌≢◌, ◌≤◌, ◌⊎◌}
use workplace.Gomoku.Board.{Board, Cell, Pos, board_size, candidates, candidates_in, cell_at}
use workplace.Gomoku.Board.{cell_eq, cells, empty, is_near_occupied, is_some_cell, put, row_cells}
use workplace.Gomoku.Board.{rows_cells}

-- Fifteen rows of fifteen cells.
pub record IsBoard (b : Board) : Type 0 where
  pub rows : length b ≡ board_size
  pub columns : (x : ℕ) (row : List Cell) → get_elem? b x ≡ some row → length row ≡ board_size

pub row_read :
    (b : Board) (x y : ℕ) {c : Cell}
    → cell_at b x y ≡ some c
    → (row : List Cell) × (get_elem? b x ≡ some row) × (get_elem? row y ≡ some c)
unfolding cell_at
row_read b x y e = elim (Option-cases (get_elem? b x)) [
  | inl missing ↦ absurd (ground arith)
  | inr (row, found) ↦ (row, found, rw (found, cell_at) at e)
]

pub cell_at_total :
    (b : Board) (x y : ℕ)
    → IsBoard b
    → x < board_size
    → y < board_size
    → (c : Cell) × (cell_at b x y ≡ some c)
unfolding cell_at
cell_at_total b x y v hx hy =
    let (row, found) = get_elem?_total b x (omega (arith, v.rows)) in
    let (c, read) = get_elem?_total row y (omega (arith, v.columns x row found)) in
    (c, rw (found, cell_at) read)

pub cell_at-lt :
    (b : Board) (x y : ℕ) {c : Cell}
    → IsBoard b
    → cell_at b x y ≡ some c
    → (x < board_size) × (y < board_size)
cell_at-lt b x y v e =
    let (row, found, read) = row_read b x y e in
    (
      omega (arith, get_elem?-lt b x found, v.rows),
      omega (arith, get_elem?-lt row y read, v.columns x row found),
    )

pub cell_at-put_self :
    (b : Board) (x y : ℕ) (c : Cell) {d : Cell}
    → cell_at b x y ≡ some d
    → cell_at (put b x y c) x y ≡ some c
unfolding cell_at put
cell_at-put_self b x y c e =
    let (row, found, read) = row_read b x y e in
    rw (found, put)
      (rw (get_elem?-set_self b x (set row y c) (get_elem?-lt b x found), cell_at)
        (get_elem?-set_self row y c (get_elem?-lt row y read)))

pub put_eq :
    (b : Board) (x y : ℕ) (c : Cell) {row : List Cell}
    → get_elem? b x ≡ some row
    → put b x y c ≡ set b x (set row y c)
unfolding put
put_eq b x y c found = rw (found, put)

cell_at_eq :
    (b : Board) (x y : ℕ) {row : List Cell}
    → get_elem? b x ≡ some row
    → cell_at b x y ≡ get_elem? row y
unfolding cell_at
cell_at_eq b x y found = rw (found, cell_at)

put-put :
    (b : Board) (x y : ℕ) (c d : Cell) {e : Cell}
    → cell_at b x y ≡ some e
    → put (put b x y c) x y d ≡ put b x y d
put-put b x y c d e =
    let (row, found, read) = row_read b x y e in
    let here = get_elem?-set_self b x (set row y c) (get_elem?-lt b x found) in
    ap (λ q. put q x y d) (put_eq b x y c found)
    ∙ put_eq (set b x (set row y c)) x y d here
    ∙ set-set b x (set row y c) (set (set row y c) y d)
    ∙ ap (λ r. set b x r) (set-set row y c d)
    ∙ sym (put_eq b x y d found)

-- Writing back what stood there gives the old board.
pub put_same : (b : Board) (x y : ℕ) {c : Cell} → cell_at b x y ≡ some c → put b x y c ≡ b
unfolding put
put_same b x y {c} e =
    let (row, found, read) = row_read b x y e in
    rw (found, put) (rw (set_same row y c read) (set_same b x row found))

-- A stone that is set on an empty cell and taken off again leaves no trace.
pub put_undo :
    (b : Board) (x y : ℕ) (c : Cell) {d : Cell}
    → cell_at b x y ≡ some d
    → put (put b x y c) x y d ≡ b
put_undo b x y c {d} e = put-put b x y c d e ∙ put_same b x y e

pub cell_at-put_ne :
    (b : Board) (x y i j : ℕ) (c : Cell)
    → (x ≢ i) ⊎ (y ≢ j)
    → cell_at (put b x y c) i j ≡ cell_at b i j
unfolding put cell_at
cell_at-put_ne b x y i j c ne = elim (Option-cases (get_elem? b x)) [
  | inl missing ↦ rw (missing, put)
  | inr (row, found) ↦
      let now = put_eq b x y c found in
      elim (ℕ_discrete x i) [
        | no far ↦ rw now (rw (get_elem?-set_ne b {i = x} {j = i} (set row y c) far, cell_at))
        | yes same ↦
            let other : y ≢ j = ground arith in
            let here = get_elem?-set_self b x (set row y c) (get_elem?-lt b x found) in
            rw now (
              cell_at_eq (set b x (set row y c)) i j (cc here)
              ∙ get_elem?-set_ne row c other
              ∙ sym (cell_at_eq b i j (cc found)))
      ]
]

pub put-IsBoard : (b : Board) (x y : ℕ) (c : Cell) → IsBoard b → IsBoard (put b x y c)
unfolding put
put-IsBoard b x y c v = elim (Option-cases (get_elem? b x)) [
  | inl missing ↦ rw (missing, put) v
  | inr (row, found) ↦
      rw (found, put)
        (record {
          rows = length-set b x (set row y c) ∙ v.rows;
          columns = λ i r e. elim (ℕ_discrete x i) [
            | yes same ↦
                let here = get_elem?-set_self b x (set row y c) (get_elem?-lt b x found) in
                let eq : r ≡ set row y c = ground (arith, here) in
                rw eq (length-set row y c ∙ v.columns x row found)
            | no far ↦
                v.columns i r (sym (get_elem?-set_ne b {i = x} {j = i} (set row y c) far) ∙ e)
          ];
        })
]

-- Every position of the board is visited, and no other.
row_cells-mem :
    (x y left i j : ℕ) → (i, j) ∈ row_cells x y left → (i ≡ x) × (y ≤ j) × (j < y + left)
unfolding row_cells
row_cells-mem x y zero i j m = absurd m
row_cells-mem x y (suc left) i j (inl e) = ground arith
row_cells-mem x y (suc left) i j (inr m) = omega (arith, row_cells-mem x (y + 1) left i j m)

mem-row_cells : (x y left j : ℕ) → y ≤ j → j < y + left → (x, j) ∈ row_cells x y left
unfolding row_cells
mem-row_cells x y zero j h k = absurd (omega arith)
mem-row_cells x y (suc left) j h k = elim (ℕ_discrete y j) [
  | yes e ↦ inl (rw e)
  | no ne ↦ inr (mem-row_cells x (y + 1) left j (omega arith) (omega arith))
]

rows_cells-mem : (x left i j : ℕ) → (i, j) ∈ rows_cells x left → (i < x + left) × (j < board_size)
unfolding rows_cells
rows_cells-mem x zero i j m = absurd m
rows_cells-mem x (suc left) i j m = elim (mem-append (i, j) (row_cells x 0 board_size) _ m) [
  | inl here ↦ omega (arith, row_cells-mem x 0 board_size i j here)
  | inr later ↦ omega (arith, rows_cells-mem (x + 1) left i j later)
]

mem-rows_cells :
    (x left i j : ℕ) → x ≤ i → i < x + left → j < board_size → (i, j) ∈ rows_cells x left
unfolding rows_cells
mem-rows_cells x zero i j h k l = absurd (omega arith)
mem-rows_cells x (suc left) i j h k l = elim (ℕ_discrete x i) [
  | yes e ↦
      mem-append_left (i, j) (row_cells x 0 board_size) _
        (subst (λ a. (i, j) ∈ row_cells a 0 board_size) (sym e)
          (mem-row_cells i 0 board_size j (omega arith) l))
  | no ne ↦
      mem-append_right (i, j) (row_cells x 0 board_size) _
        (mem-rows_cells (x + 1) left i j (omega arith) (omega arith) l)
]

pub mem-cells_iff : (i j : ℕ) → ((i, j) ∈ cells) ↔ ((i < board_size) × (j < board_size))
unfolding cells
mem-cells_iff i j = (
  λ m. omega (arith, rows_cells-mem 0 board_size i j m),
  λ h. mem-rows_cells 0 board_size i j (omega arith) (omega arith) h.1,
)

cell_eq_lem : (c d : Cell) → cell_eq c d ≡ true → c ≡ d
cell_eq_lem c d e = ground arith

pub is_some_cell_lem : (o : Option Cell) (c : Cell) → is_some_cell o c ≡ true → o ≡ some c
is_some_cell_lem none c e = cc
is_some_cell_lem (some d) c e = ap some (cell_eq_lem d c e)

candidates_in-empty :
    (b : Board) (ps : List Pos) (p : Pos) → p ∈ candidates_in b ps → cell_at b p.0 p.1 ≡ some empty
unfolding candidates_in
candidates_in-empty b [] p m = absurd m
candidates_in-empty b ((i, j) ∷ ps) p m =
    elim (Bool-cases (is_some_cell (cell_at b i j) empty && is_near_occupied b i j)) [
      | inr out ↦ candidates_in-empty b ps p (rw (out, candidates_in) at m)
      | inl kept ↦
          let free = is_some_cell_lem (cell_at b i j) empty (and_parts _ _ kept).0 in
          elim (let q : p ∈ ((i, j) ∷ candidates_in b ps) = rw (kept, candidates_in) at m in q) [
            | inl e ↦ ground arith
            | inr later ↦ candidates_in-empty b ps p later
          ]
    ]

-- The candidates are empty cells.
pub candidates-empty : (b : Board) (p : Pos) → p ∈ candidates b → cell_at b p.0 p.1 ≡ some empty
unfolding candidates
candidates-empty b p = candidates_in-empty b cells p

-- The same, row by row.
pub IsBoard-rows :
    (b : Board) → length b ≡ board_size → All (λ row. length row ≡ board_size) b → IsBoard b
IsBoard-rows b e all = record {
  rows = e;
  columns = λ x row f. All-mem (λ r. length r ≡ board_size) row b all (get_elem?-mem b x f);
}
