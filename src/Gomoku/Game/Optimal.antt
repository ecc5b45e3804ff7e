-- ===== src/Gomoku/Game/Optimal.antt =====
-- `getBestMove` as a whole: a legal move, the win if there is one, the block if one is needed, and
-- otherwise a candidate of the greatest value.
use workplace.Common.{List, Option-cases, arith, false, inl, inr, none, some, true, ℕ, ◌*◌, ◌-◌}
use workplace.Common.{◌<◌, ◌||◌, ◌↔◌, ◌∈◌, ◌≡◌}
use workplace.Common.Int.{ℤ, ◌<ℤ◌, ◌≤ℤ◌}
use workplace.Gomoku.Board.{Board, Cell, Pos, ai_player, board_size, candidates, cell_at, cells}
use workplace.Gomoku.Board.{empty, human_player}
use workplace.Gomoku.Board.Count.{occupied}
use workplace.Gomoku.Board.Laws.{IsBoard, candidates-empty, cell_at-lt, mem-cells_iff}
use workplace.Gomoku.Game.{AiGame, fallback, first_win, get_best_move, is_draw, max_depth, or_else}
use workplace.Gomoku.Game.{searched}
use workplace.Gomoku.Game.BestMove.{Exact, Wins, choose_lem, choose_plain, choose_plain-max}
use workplace.Gomoku.Game.BestMove.{choose_plain-mem, choose_plain-some, fallback_total}
use workplace.Gomoku.Game.BestMove.{first_win_found, first_win-none, worth}
use workplace.Gomoku.Minimax.{Rearranges, Sort, int_max, int_min, minimax, prefers, value}
use workplace.Gomoku.Minimax.Pruning.{minimax_lem}

-- There is room for a move.
pub record IsOpen (b : Board) : Type 0 where
  pub shape : IsBoard b
  pub room : occupied b < board_size * board_size

-- No stone of the player wins at once.
abbrev pub NoWin : Board → Cell → Type 0
NoWin b player = (p : Pos) → ¬ Wins b player p

listed : (b : Board) (player : Cell) (p : Pos) → IsBoard b → Wins b player p → p ∈ cells
listed b player (x, y) v w = (mem-cells_iff x y).1 (cell_at-lt b x y v w.0)

-- The value of the position after a move, as step 5 computes it.
abbrev pub reply_value : AiGame → Board → ℤ
reply_value g = value (g.game_over || is_draw g) (max_depth g - 1) false

first_win_ne :
    (b : Board) (player : Cell) (p : Pos)
    → IsBoard b
    → Wins b player p
    → (q : Pos) × (first_win b player cells ≡ some q) × Wins b player q
first_win_ne b player p v w = elim (Option-cases (first_win b player cells)) [
  | inl e ↦ absurd (first_win-none b player cells p e (listed b player p v w) w)
  | inr (q, e) ↦ (q, e, first_win_found b player cells q e)
]

-- The converse, for boards where the loop has been run.
pub NoWin-first_win :
    (b : Board) (player : Cell) → IsBoard b → first_win b player cells ≡ none → NoWin b player
NoWin-first_win b player v e p w = first_win-none b player cells p e (listed b player p v w) w

first_win_no : (b : Board) (player : Cell) → NoWin b player → first_win b player cells ≡ none
first_win_no b player no_win = elim (Option-cases (first_win b player cells)) [
  | inl e ↦ e
  | inr (q, e) ↦ absurd (no_win q (first_win_found b player cells q e))
]

module _ (sort : Sort) (rearranges : Rearranges sort) where
  exact :
      (g : AiGame)
      → Exact
          (minimax sort (g.game_over || is_draw g) (max_depth g - 1) false int_min int_max)
          (reply_value g)
  exact g = minimax_lem sort rearranges (g.game_over || is_draw g) (max_depth g - 1) false

  sorted : AiGame → List Pos
  sorted g = sort (prefers true g.board) (candidates g.board)

  sorted-mem : (g : AiGame) (p : Pos) → (p ∈ sorted g) ↔ (p ∈ candidates g.board)
  unfolding sorted
  sorted-mem g p = rearranges (prefers true g.board) (candidates g.board) p

  searched_lem :
      (g : AiGame)
      → searched sort g ≡ (choose_plain (reply_value g) g.board (sorted g) int_min none, g.board)
  unfolding searched sorted
  searched_lem g =
      choose_lem _ (reply_value g) (exact g) g.board (sorted g) int_min none
        (λ p m. candidates-empty g.board p ((sorted-mem g p).0 m))

  searched-empty :
      (g : AiGame) (p : Pos) → (searched sort g).0 ≡ some p → cell_at g.board p.0 p.1 ≡ some empty
  searched-empty g p e =
      elim (choose_plain-mem (reply_value g) g.board (sorted g) int_min none p
        (rw (searched_lem g) at e)) [
          | inl absent ↦ absurd (ground arith)
          | inr m ↦ candidates-empty g.board p ((sorted-mem g p).0 m)
        ]

  -- Without a win at once for either side, steps 3 to 6 decide.
  late_move :
      (rand : ℕ) (g : AiGame)
      → first_win g.board ai_player cells ≡ none
      → first_win g.board human_player cells ≡ none
      → get_best_move sort rand g ≡ (
        or_else
            (choose_plain (reply_value g) g.board (sorted g) int_min none)
            (fallback rand g.board),
        g.board,
      )
  unfolding get_best_move
  late_move rand g e f = rw (e, f, searched_lem g, get_best_move)

  -- On an open board `getBestMove` returns an empty cell, never {-1, -1}, whatever `std::sort` and
  -- `rand` do, and leaves the board as it was; `std::sort` is assumed to rearrange its range.
  pub get_best_move_legal :
      (rand : ℕ) (g : AiGame)
      → IsOpen g.board
      → (p : Pos) × (get_best_move sort rand g ≡ (some p, g.board))
        × (cell_at g.board p.0 p.1 ≡ some empty)
  unfolding get_best_move
  get_best_move_legal rand g v = elim (Option-cases (first_win g.board ai_player cells)) [
    | inr (p, e) ↦ (p, rw (e, get_best_move), (first_win_found g.board ai_player cells p e).0)
    | inl no_win ↦ elim (Option-cases (first_win g.board human_player cells)) [
      | inr (p, e) ↦
          (p, rw (no_win, e, get_best_move), (first_win_found g.board human_player cells p e).0)
      | inl no_threat ↦
          let late = late_move rand g no_win no_threat in
          elim (Option-cases (choose_plain (reply_value g) g.board (sorted g) int_min none)) [
            | inr (p, e) ↦ (p, rw e at late, searched-empty g p (rw (searched_lem g) e))
            | inl e ↦
                let (p, f, free) = fallback_total rand g.board v.shape v.room in
                (p, rw f at (rw e at late), free)
          ]
    ]
  ]

  -- If some cell wins at once for the computer, `getBestMove` returns such a cell and leaves the
  -- board as it was. The board has full size, and `std::sort` is assumed to rearrange its range.
  pub get_best_move-Wins :
      (rand : ℕ) (g : AiGame) (p : Pos)
      → IsBoard g.board
      → Wins g.board ai_player p
      → (q : Pos) × (get_best_move sort rand g ≡ (some q, g.board)) × Wins g.board ai_player q
  unfolding get_best_move
  get_best_move-Wins rand g p v w =
      let (q, e, found) = first_win_ne g.board ai_player p v w in (q, rw (e, get_best_move), found)

  -- If no cell wins at once for the computer and some cell would win for the human player,
  -- `getBestMove` returns a cell where the human player would win and leaves the board as it was.
  -- The board has full size, and `std::sort` is assumed to rearrange its range.
  pub get_best_move_blocks :
      (rand : ℕ) (g : AiGame) (p : Pos)
      → IsBoard g.board
      → NoWin g.board ai_player
      → Wins g.board human_player p
      → (q : Pos) × (get_best_move sort rand g ≡ (some q, g.board)) × Wins g.board human_player q
  unfolding get_best_move
  get_best_move_blocks rand g p v no_win w =
      let (q, e, found) = first_win_ne g.board human_player p v w in
      (q, rw (first_win_no g.board ai_player no_win, e, get_best_move), found)

  -- Where no cell wins at once for either side, and some candidate has a value above the least
  -- `int`, `getBestMove` returns a candidate of the greatest value: the value of full search for
  -- the human player's reply, four plies deep before the tenth stone and two plies after it.
  -- `std::sort` is assumed to rearrange its range.
  pub get_best_move_optimal :
      (rand : ℕ) (g : AiGame) (r : Pos)
      → NoWin g.board ai_player
      → NoWin g.board human_player
      → r ∈ candidates g.board
      → int_min <ℤ worth (reply_value g) g.board r
      → (p : Pos) × (get_best_move sort rand g ≡ (some p, g.board))
        × (p ∈ candidates g.board)
        × ((q : Pos)
            → q ∈ candidates g.board
            → worth (reply_value g) g.board q ≤ℤ worth (reply_value g) g.board p)
  get_best_move_optimal rand g r no_win no_threat m h =
      let late =
        late_move rand g (first_win_no g.board ai_player no_win)
          (first_win_no g.board human_player no_threat) in
      let (p, e) =
        choose_plain-some (reply_value g) g.board (sorted g) int_min none
          (inr (r, (sorted-mem g r).1 m, h)) in
      let best = choose_plain-max (reply_value g) g.board (sorted g) int_min none p e (λ f. cc) in
      (
        p,
        rw e at late,
        elim (choose_plain-mem (reply_value g) g.board (sorted g) int_min none p e) [
          | inl absent ↦ cc
          | inr k ↦ (sorted-mem g p).0 k
        ],
        λ q k. best.1 q ((sorted-mem g q).1 k),
      )
