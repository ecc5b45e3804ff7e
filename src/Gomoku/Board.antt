-- ===== src/Gomoku/Board.antt =====
-- The board of `AiGame`: its cells, reads and writes, and the loops over all cells.
-- The texts " ", "white" and "black" of the source are the three cells. A position inside the
-- board is a pair of numbers; the walks along a line use signed coordinates, as the `int`s do.
pub mod Laws
pub mod Count
use workplace.Common.{Bool, List, Option, [], false, get_elem?, none, not, replicate, set, some}
use workplace.Common.{suc, true, zero, ℕ, ◌&&◌, ◌++◌, ◌+◌, ◌||◌, ◌∷◌}
use workplace.Common.Int.{ltb_ℤ, negsuc, pos, ℤ, ◌+ℤ◌}

pub data Cell : Type 0 where
  empty white black : Cell

abbrev pub board_size : ℕ
board_size = 15

abbrev pub ai_player : Cell
ai_player = white

abbrev pub human_player : Cell
human_player = black

abbrev pub cell_eq : Cell → Cell → Bool
cell_eq empty empty = true
cell_eq white white = true
cell_eq black black = true
cell_eq _ _ = false

abbrev pub Board : Type 0
Board = List (List Cell)

abbrev pub Pos : Type 0
Pos = ℕ × ℕ

-- The board that the constructor makes.
abbrev pub empty_board : Board
empty_board = replicate board_size (replicate board_size empty)

-- `board[x][y]`, or `none` out of range, where the source has no defined behaviour.
unfoldable pub cell_at : Board → ℕ → ℕ → Option Cell
cell_at b x y = elim (get_elem? b x) [ none ↦ none | some row ↦ get_elem? row y ]

abbrev pub look : Board → ℤ → ℤ → Option Cell
look b (pos x) (pos y) = cell_at b x y
look b _ _ = none

-- `board[x][y] == c`, for a read that stands behind a test of the bounds.
abbrev pub is_some_cell : Option Cell → Cell → Bool
is_some_cell none c = false
is_some_cell (some d) c = cell_eq d c

abbrev pub is_cell : Board → ℤ → ℤ → Cell → Bool
is_cell b x y c = is_some_cell (look b x y) c

-- `board[x][y] = c`.
unfoldable pub put : Board → ℕ → ℕ → Cell → Board
put b x y c = elim (get_elem? b x) [ none ↦ b | some row ↦ set b x (set row y c) ]

abbrev pub is_in_board : ℤ → ℤ → Bool
is_in_board x y =
    not (ltb_ℤ x (pos 0))
    && ltb_ℤ x (pos board_size)
    && not (ltb_ℤ y (pos 0))
    && ltb_ℤ y (pos board_size)

-- The nested loops over `i` and `j` visit these positions, in this order.
row_cells : ℕ → ℕ → ℕ → List Pos
row_cells x y zero = []
row_cells x y (suc left) = (x, y) ∷ row_cells x (y + 1) left

rows_cells : ℕ → ℕ → List Pos
rows_cells x zero = []
rows_cells x (suc left) = row_cells x 0 board_size ++ rows_cells (x + 1) left

unfoldable pub cells : List Pos
unfolding row_cells rows_cells
cells = rows_cells 0 board_size

-- The eight neighbours of `isNearOccupied`, and the loop over them.
abbrev minus_one : ℤ
minus_one = negsuc 0

abbrev neighbours : List (ℤ × ℤ)
neighbours =
    (minus_one, minus_one)
    ∷ (minus_one, pos 0)
    ∷ (minus_one, pos 1)
    ∷ (pos 0, minus_one)
    ∷ (pos 0, pos 1)
    ∷ (pos 1, minus_one)
    ∷ (pos 1, pos 0)
    ∷ (pos 1, pos 1)
    ∷ []

any_occupied : Board → ℤ → ℤ → List (ℤ × ℤ) → Bool
any_occupied b r c [] = false
any_occupied b r c ((dr, dc) ∷ ds) =
    (is_in_board (r +ℤ dr) (c +ℤ dc) && not (is_cell b (r +ℤ dr) (c +ℤ dc) empty))
    || any_occupied b r c ds

unfoldable pub is_near_occupied : Board → ℕ → ℕ → Bool
unfolding any_occupied ◌+ℤ◌
is_near_occupied b r c = any_occupied b (pos r) (pos c) neighbours

-- The empty cells next to a stone, as `getBestMove` and `minimax` collect them.
candidates_in : Board → List Pos → List Pos
candidates_in b [] = []
candidates_in b ((i, j) ∷ ps) =
    let rest = candidates_in b ps in
    elim (is_some_cell (cell_at b i j) empty && is_near_occupied b i j) [
      | true ↦ (i, j) ∷ rest
      | false ↦ rest
    ]

unfoldable pub candidates : Board → List Pos
unfolding candidates_in is_near_occupied
candidates b = candidates_in b cells
