-- ===== src/Gomoku/Tests.antt =====
-- Runs and instances of the theorems on concrete boards, with insertion sort for `std::sort`.
use workplace.Common.{Bool, Bool-cases, List, [], arith, false, if◌then◌else◌, inl, inr, map, refl}
use workplace.Common.{set, some, true, ◌↔◌, ◌∈◌, ◌∷◌, ◌≡◌, ◌≤◌, ◌⊎◌}
use workplace.Common.Int.{max_ℤ, min_ℤ, negsuc, pos, ◌-ℤ◌, ◌≤ℤ◌}
use workplace.Gomoku.Board.{Board, Cell, Pos, ai_player, black, candidates, cell_at, cell_eq, cells}
use workplace.Gomoku.Board.{empty, empty_board, human_player, put, white}
use workplace.Gomoku.Board.Count.{occupied}
use workplace.Gomoku.Board.Laws.{IsBoard, IsBoard-rows}
use workplace.Gomoku.Evaluate.{evaluate, evaluate_board}
use workplace.Gomoku.Evaluate.Bounds.{evaluate_total}
use workplace.Gomoku.Game.{AiGame, ai_move, first_win, get_best_move, human_move, new_game, nobody}
use workplace.Gomoku.Game.BestMove.{Wins, worth}
use workplace.Gomoku.Game.Invariant.{IsGame}
use workplace.Gomoku.Game.Moves.{Answers, Reach-IsGame, ai_move_total, human_moves, start}
use workplace.Gomoku.Game.Optimal.{NoWin, NoWin-first_win, get_best_move_blocks}
use workplace.Gomoku.Game.Optimal.{get_best_move_optimal, reply_value}
use workplace.Gomoku.Minimax.{Rearranges, Sort, int_max, int_min, leaf, minimax, value}
use workplace.Gomoku.Minimax.Pruning.{minimax_lem}
use workplace.Gomoku.Win.{check_win}
use workplace.Gomoku.Win.Line.{Five, check_win_iff}

place : (Pos → Pos → Bool) → Pos → List Pos → List Pos
place less p [] = p ∷ []
place less p (q ∷ qs) = let rest = place less p qs in if less p q then p ∷ q ∷ qs else q ∷ rest

insertion_sort : Sort
unfolding place
insertion_sort less [] = []
insertion_sort less (p ∷ ps) = place less p (insertion_sort less ps)

place-mem :
    (less : Pos → Pos → Bool) (p : Pos) (qs : List Pos) (r : Pos)
    → (r ∈ place less p qs) ↔ ((r ≡ p) ⊎ (r ∈ qs))
unfolding place
place-mem less p [] r = (λ m. m, λ m. m)
place-mem less p (q ∷ qs) r = elim (Bool-cases (less p q)) [
  | inl before ↦ rw before (λ m. m, λ m. m)
  | inr later ↦ rw later (
    elim [
      | inl e ↦ inr (inl e)
      | inr m ↦ elim ((place-mem less p qs r).0 m) [ inl e ↦ inl e | inr k ↦ inr (inr k) ]
    ],
    elim [
      | inl e ↦ inr ((place-mem less p qs r).1 (inl e))
      | inr m ↦ elim m [ inl e ↦ inl e | inr k ↦ inr ((place-mem less p qs r).1 (inr k)) ]
    ],
  )
]

insertion_sort-Rearranges : Rearranges insertion_sort
unfolding insertion_sort
insertion_sort-Rearranges less [] r = (λ m. m, λ m. m)
insertion_sort-Rearranges less (p ∷ ps) r =
    let (to, from) = place-mem less p (insertion_sort less ps) r in
    let (down, up) = insertion_sort-Rearranges less ps r in
    (
      λ m. elim (to m) [ inl e ↦ inl e | inr k ↦ inr (down k) ],
      elim [ inl e ↦ from (inl e) | inr k ↦ from (inr (up k)) ],
    )

-- Four black stones in row 7, from column 3.
abbrev four_row : List Cell
four_row =
    empty ∷ empty ∷ empty ∷ black ∷ black ∷ black ∷ black ∷ empty ∷ empty ∷ empty ∷ empty ∷ empty
    ∷ empty ∷ empty ∷ empty ∷ []

abbrev four_board : Board
four_board = set empty_board 7 four_row

abbrev four_game : AiGame
four_game = record {
  board = four_board;
  game_over = false;
  user_id = pos 1;
  move_count = 4;
  winner = nobody;
  last_move = (pos 7, pos 6);
}

four_wins : check_win four_board (pos 7) (pos 7) black ≡ true
unfolding check_win cell_at
four_wins = refl

no_four : check_win four_board (pos 7) (pos 8) black ≡ false
unfolding check_win cell_at
no_four = refl

scores : (evaluate_board four_board black ≡ 400120) × (evaluate_board four_board white ≡ 0)
unfolding evaluate_board cells cell_at
scores = (refl, refl)

-- A board with three empty cells and no line of five anywhere.
abbrev row_b : List Cell
row_b =
    black ∷ white ∷ black ∷ white ∷ black ∷ white ∷ black ∷ white ∷ black ∷ white ∷ black ∷ white
    ∷ black ∷ white ∷ black ∷ []

abbrev row_w : List Cell
row_w =
    white ∷ black ∷ white ∷ black ∷ white ∷ black ∷ white ∷ black ∷ white ∷ black ∷ white ∷ black
    ∷ white ∷ black ∷ white ∷ []

abbrev late_board : Board
late_board =
    row_b
    ∷ row_b
    ∷ row_w
    ∷ row_w
    ∷ row_b
    ∷ row_b
    ∷ row_w
    ∷ set (set row_w 7 empty) 8 empty
    ∷ set row_b 7 empty
    ∷ row_b
    ∷ row_w
    ∷ row_w
    ∷ row_b
    ∷ row_b
    ∷ row_w
    ∷ []

abbrev late_game : AiGame
late_game = record {
  board = late_board;
  game_over = false;
  user_id = pos 1;
  move_count = 222;
  winner = nobody;
  last_move = (pos 0, pos 0);
}

four_shape : IsBoard four_board
four_shape = IsBoard-rows four_board refl (omega arith)

four_IsGame : IsGame four_game
unfolding occupied
four_IsGame = record { shape = four_shape; counted = refl; decided = refl; line = tt }

late_shape : IsBoard late_board
late_shape = IsBoard-rows late_board refl (omega arith)

late-NoWin : NoWin late_board ai_player
unfolding first_win check_win cell_at put cells
late-NoWin = NoWin-first_win late_board ai_player late_shape refl

late_no_threat : NoWin late_board human_player
unfolding first_win check_win cell_at put cells
late_no_threat = NoWin-first_win late_board human_player late_shape refl

four-NoWin : NoWin four_board ai_player
unfolding first_win check_win cell_at put cells
four-NoWin = NoWin-first_win four_board ai_player four_shape refl

four_threat : Wins four_board human_player (7, 7)
unfolding check_win cell_at put
four_threat = (refl, refl)

late_candidates : candidates late_board ≡ (7, 7) ∷ (7, 8) ∷ (8, 7) ∷ []
unfolding candidates cells cell_at
late_candidates = refl

late_worth : worth (reply_value late_game) late_board (7, 7) ≡ negsuc 119
unfolding value leaf evaluate_board candidates cells cell_at put max_ℤ min_ℤ ◌-ℤ◌
late_worth = refl

get_best_move_optimal_example :
    (p : Pos) × (get_best_move insertion_sort 5 late_game ≡ (some p, late_board))
    × (p ∈ candidates late_board)
    × ((q : Pos)
        → q ∈ candidates late_board
        → worth (reply_value late_game) late_board q ≤ℤ worth (reply_value late_game) late_board p)
get_best_move_optimal_example =
    get_best_move_optimal insertion_sort insertion_sort-Rearranges 5 late_game (7, 7) late-NoWin
      late_no_threat (rw late_candidates (inl refl)) (rw late_worth (omega arith))

check_win_iff_example :
    (check_win four_board (pos 7) (pos 7) black ≡ true) ↔ Five four_board (pos 7) (pos 7) black
check_win_iff_example = check_win_iff four_board (pos 7) (pos 7) black

evaluate_total_example :
    (evaluate four_board black ≡ some (evaluate_board four_board black))
    × (evaluate_board four_board black ≤ 900000000)
evaluate_total_example = evaluate_total four_board black

minimax_lem_example :
    minimax insertion_sort false 4 false int_min int_max four_board
    ≡ (value false 4 false four_board, four_board)
minimax_lem_example = minimax_lem insertion_sort insertion_sort-Rearranges false 4 false four_board

-- The four stones are white.
abbrev white_board : Board
white_board = set empty_board 7 (map (λ c. if cell_eq c black then white else c) four_row)

abbrev white_game : AiGame
white_game = record four_game { board = white_board }

white_win : Wins white_board ai_player (7, 7)
unfolding check_win cell_at put
white_win = (refl, refl)

get_best_move_blocks_example :
    (q : Pos) × (get_best_move insertion_sort 5 four_game ≡ (some q, four_board))
    × Wins four_board human_player q
get_best_move_blocks_example =
    get_best_move_blocks insertion_sort insertion_sort-Rearranges 5 four_game (7, 7) four_shape
      four-NoWin four_threat

ai_move_total_example :
    (g' : AiGame) × (ai_move insertion_sort 5 four_game ≡ some g') × Answers four_game g'
ai_move_total_example =
    ai_move_total insertion_sort insertion_sort-Rearranges 5 four_game four_IsGame

Reach-IsGame_example : IsGame (human_move (new_game (pos 1)) (pos 7) (pos 7)).0
Reach-IsGame_example =
    Reach-IsGame insertion_sort insertion_sort-Rearranges (pos 1)
      (human_moves (pos 7) (pos 7) start)
