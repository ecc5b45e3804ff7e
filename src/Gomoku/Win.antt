-- ===== src/Gomoku/Win.antt =====
-- `AiGame::checkwin`.
pub mod Line
use workplace.Common.{Bool, List, [], false, if◌then◌else◌, leb, suc, true, zero, ℕ, ◌&&◌, ◌*◌, ◌+◌}
use workplace.Common.{◌∷◌}
use workplace.Common.Int.{neg_part, negsuc, pos, pos_part, sub_ℕ, ℤ, ◌+ℤ◌, ◌-ℤ◌}
use workplace.Gomoku.Board.{Board, Cell, is_cell, is_in_board}

-- `i * d`, for the loop counter `i`.
abbrev pub scale : ℕ → ℤ → ℤ
scale i d = sub_ℕ (i * pos_part d) (i * neg_part d)

-- The pairs of `dx` and `dy`: row, column and the two diagonals.
abbrev pub directions : List (ℤ × ℤ)
directions = (pos 1, pos 0) ∷ (pos 0, pos 1) ∷ (pos 1, pos 1) ∷ (pos 1, negsuc 0) ∷ []

-- `isInBoard(nx, ny) && board_[nx][ny] == player` at `nx = x ± i * dx`, `ny = y ± i * dy`; the
-- sign is the operation `op`.
abbrev pub is_stone : (ℤ → ℤ → ℤ) → Board → Cell → ℤ × ℤ → ℤ × ℤ → ℕ → Bool
is_stone op b player (x, y) (dx, dy) i =
    is_in_board (op x (scale i dx)) (op y (scale i dy))
    && is_cell b (op x (scale i dx)) (op y (scale i dy)) player

-- One of the two inner loops, from the counter `i` on with `left` rounds to go: by how much it
-- raises `count` before it breaks.
walk : (ℤ → ℤ → ℤ) → Board → Cell → ℤ × ℤ → ℤ × ℤ → ℕ → ℕ → ℕ
walk op b player at dir i zero = 0
walk op b player at dir i (suc left) =
    let rest = walk op b player at dir (i + 1) left in
    if is_stone op b player at dir i then suc rest else 0

-- The body of the loop over `dir`: `count` after the two inner loops.
line_count : Board → Cell → ℤ × ℤ → ℤ × ℤ → ℕ
unfolding walk ◌+ℤ◌ ◌-ℤ◌
line_count b player at dir = 1 + walk ◌+ℤ◌ b player at dir 1 4 + walk ◌-ℤ◌ b player at dir 1 4

any_line : Board → Cell → ℤ × ℤ → List (ℤ × ℤ) → Bool
any_line b player at [] = false
any_line b player at (dir ∷ dirs) =
    if leb 5 (line_count b player at dir) then true else any_line b player at dirs

unfoldable pub check_win : Board → ℤ → ℤ → Cell → Bool
unfolding any_line line_count
check_win b x y player = any_line b player (x, y) directions
