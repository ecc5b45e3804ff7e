-- ===== src/Gomoku/Board/Count.antt =====
-- How many cells of a board hold a stone.
use workplace.Common.{List, [], ap, arith, dec_lt, get_elem?, if◌then◌else◌, length, refl, set}
use workplace.Common.{some, suc, zero, ℕ, ◌*◌, ◌+◌, ◌<◌, ◌∙◌, ◌∷◌, ◌≡◌, ◌≢◌}
use workplace.Gomoku.Board.{Board, Cell, black, board_size, cell_at, cell_eq, empty, put, white}
use workplace.Gomoku.Board.Laws.{IsBoard, put_eq, row_read}

pub occupied_row : List Cell → ℕ
occupied_row [] = 0
occupied_row (c ∷ cs) = (if cell_eq c empty then 0 else 1) + occupied_row cs

unfoldable pub occupied : Board → ℕ
unfolding occupied_row
occupied [] = 0
occupied (row ∷ rows) = occupied_row row + occupied rows

occupied_row-set :
    (row : List Cell) (y : ℕ) (c : Cell)
    → get_elem? row y ≡ some empty
    → c ≢ empty
    → occupied_row (set row y c) ≡ occupied_row row + 1
unfolding occupied_row
occupied_row-set [] y c e ne = cc
occupied_row-set (d ∷ cs) zero c e ne = ground arith
occupied_row-set (d ∷ cs) (suc y) c e ne = omega (arith, occupied_row-set cs y c e ne)

occupied-set :
    (b : Board) (x y : ℕ) (c : Cell) (row : List Cell)
    → get_elem? b x ≡ some row
    → get_elem? row y ≡ some empty
    → c ≢ empty
    → occupied (set b x (set row y c)) ≡ occupied b + 1
unfolding occupied
occupied-set [] x y c row e f ne = cc
occupied-set (r ∷ rs) zero y c row e f ne = ground (arith, occupied_row-set row y c f ne)
occupied-set (r ∷ rs) (suc x) y c row e f ne = omega (arith, occupied-set rs x y c row e f ne)

-- A stone on an empty cell adds one.
pub occupied-put :
    (b : Board) (x y : ℕ) (c : Cell)
    → cell_at b x y ≡ some empty
    → c ≢ empty
    → occupied (put b x y c) ≡ occupied b + 1
occupied-put b x y c e ne =
    let (row, found, read) = row_read b x y e in
    ap occupied (put_eq b x y c found) ∙ occupied-set b x y c row found read ne

free_in_row :
    (row : List Cell) → occupied_row row < length row → (y : ℕ) × (get_elem? row y ≡ some empty)
unfolding occupied_row
free_in_row [] h = absurd (omega arith)
free_in_row (empty ∷ cs) h = (0, refl)
free_in_row (white ∷ cs) h = let (y, e) = free_in_row cs (omega arith) in (suc y, e)
free_in_row (black ∷ cs) h = let (y, e) = free_in_row cs (omega arith) in (suc y, e)

free_in_rows :
    (b : Board)
    → ((x : ℕ) (row : List Cell) → get_elem? b x ≡ some row → length row ≡ board_size)
    → occupied b < board_size * length b
    → (x : ℕ) × (y : ℕ) × (cell_at b x y ≡ some empty)
unfolding occupied cell_at
free_in_rows [] h k = absurd (omega arith)
free_in_rows (row ∷ rows) h k = elim (dec_lt (occupied_row row) board_size) [
  | yes p ↦ let (y, e) = free_in_row row (omega (arith, h 0 row refl)) in (0, y, e)
  | no p ↦ let (x, y, e) = free_in_rows rows (λ x r q. h (suc x) r q) (omega arith) in (suc x, y, e)
]

-- A board with fewer than 225 stones has an empty cell.
pub free_cell :
    (b : Board)
    → IsBoard b
    → occupied b < board_size * board_size
    → (x : ℕ) × (y : ℕ) × (cell_at b x y ≡ some empty)
free_cell b v h = free_in_rows b v.columns (omega (arith, v.rows))
