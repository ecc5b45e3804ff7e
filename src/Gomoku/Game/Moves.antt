-- ===== src/Gomoku/Game/Moves.antt =====
-- Both moves on every branch, and all the games that they can reach.
use workplace.Common.{Bool-cases, ap, arith, false, false_ne_true, if◌then◌else◌, inl, inr, refl}
use workplace.Common.{some, some_inj, subst, sym, true, ℕ, ◌*◌, ◌+◌, ◌<◌, ◌||◌, ◌↔◌, ◌∙◌, ◌≡◌}
use workplace.Common.Int.{pos, ℤ}
use workplace.Gomoku.Board.{Board, Cell, Pos, ai_player, board_size, cell_at, empty, human_player}
use workplace.Gomoku.Board.{put}
use workplace.Gomoku.Board.Laws.{IsBoard}
use workplace.Gomoku.Game.{AiGame, Winner, after_move, ai, ai_move, get_best_move, human}
use workplace.Gomoku.Game.{human_move, is_draw, is_valid_move, new_game, put_at}
use workplace.Gomoku.Game.Invariant.{IsGame, Playable, after_move-IsGame, new_game-IsGame, playable}
use workplace.Gomoku.Game.Invariant.{valid_of_Playable}
use workplace.Gomoku.Game.Optimal.{get_best_move_legal}
use workplace.Gomoku.Minimax.{Rearranges, Sort}
use workplace.Gomoku.Win.{check_win}

pub human_move-IsGame : (g : AiGame) (x y : ℤ) → IsGame g → IsGame (human_move g x y).0
unfolding human_move
human_move-IsGame g x y v = elim (Bool-cases (is_valid_move g x y)) [
  | inr refused ↦ rw (refused, human_move) v
  | inl valid ↦
      let p = playable g x y valid in
      let next =
        after_move-IsGame g p.row p.column human_player human v p.going p.free (λ e. cc) refl in
      rw (valid, human_move) (rw (p.at_x, p.at_y) next)
]

after_move-fields :
    (g : AiGame) (b : Board) (x y : ℤ) (c : Cell) (who : Winner)
    → ((after_move g b x y c who).board ≡ b)
      × ((after_move g b x y c who).move_count ≡ g.move_count + 1)
      × ((after_move g b x y c who).last_move ≡ (x, y))
after_move-fields g b x y c who = elim (Bool-cases (check_win b x y c)) [
  | inl win ↦ rw win (refl, refl, refl)
  | inr no_win ↦ rw no_win (refl, refl, refl)
]

put_at-eq :
    (b : Board) (x y : ℤ) (i j : ℕ) (c : Cell)
    → x ≡ pos i
    → y ≡ pos j
    → put_at b x y c ≡ put b i j c
put_at-eq b x y i j c e f = rw (e, f)

-- `humanMove` returns true exactly when the cell is on the board and empty, the game is not over
-- and there are fewer than 225 stones; it then adds one black stone there and counts it, and
-- otherwise it changes nothing. The board has full size.
pub human_move_lem :
    (g : AiGame) (x y : ℤ)
    → IsBoard g.board
    → (((human_move g x y).1 ≡ true) ↔ Playable g x y)
      × ((human_move g x y).1 ≡ false → (human_move g x y).0 ≡ g)
      × ((p : Playable g x y)
          → ((human_move g x y).0.board ≡ put g.board p.row p.column human_player)
            × ((human_move g x y).0.move_count ≡ g.move_count + 1)
            × ((human_move g x y).0.last_move ≡ (x, y)))
unfolding human_move
human_move_lem g x y v = elim (Bool-cases (is_valid_move g x y)) [
  | inr refused ↦
      rw (refused, human_move)
        (
          (λ e. cc, λ p. absurd (false_ne_true (sym refused ∙ valid_of_Playable g x y v p))),
          λ e. refl,
          λ p. absurd (false_ne_true (sym refused ∙ valid_of_Playable g x y v p)),
        )
  | inl valid ↦
      rw (valid, human_move)
        (
          (λ e. playable g x y valid, λ p. refl),
          λ e. absurd (cc),
          λ p.
              let f =
                after_move-fields g (put_at g.board x y human_player) x y human_player human in
              (f.0 ∙ put_at-eq g.board x y p.row p.column human_player p.at_x p.at_y, f.1, f.2),
        )
]

-- What one computer move does to a game: nothing once it is over or drawn, and otherwise one white
-- stone on an empty cell.
pub record Answers (g g' : AiGame) : Type 0 where
  pub valid : IsGame g'
  pub idle : (g.game_over || is_draw g) ≡ true → g' ≡ g
  pub plays :
      (g.game_over || is_draw g) ≡ false
      → (p : Pos) × (cell_at g.board p.0 p.1 ≡ some empty)
        × (g'.board ≡ put g.board p.0 p.1 ai_player)
        × (g'.move_count ≡ g.move_count + 1)
  pub decides :
      (g.game_over || is_draw g) ≡ false → g'.winner ≡ (if g'.game_over then ai else g.winner)

pub after_move-winner :
    (g : AiGame) (b : Board) (x y : ℤ) (c : Cell) (who : Winner)
    → g.game_over ≡ false
    → (after_move g b x y c who).winner
      ≡ (if (after_move g b x y c who).game_over then who else g.winner)
after_move-winner g b x y c who going = elim (Bool-cases (check_win b x y c)) [
  | inl win ↦ rw win refl
  | inr no_win ↦ rw (no_win, going) refl
]

-- Who has won after a legal move of the player.
pub human_move-winner :
    (g : AiGame) (x y : ℤ)
    → is_valid_move g x y ≡ true
    → g.game_over ≡ false
    → (human_move g x y).0.winner ≡ (if (human_move g x y).0.game_over then human else g.winner)
unfolding human_move
human_move-winner g x y valid going =
    rw (valid, human_move)
      (after_move-winner g (put_at g.board x y human_player) x y human_player human going)

going_parts :
    (g : AiGame)
    → (g.game_over || is_draw g) ≡ false
    → (g.game_over ≡ false) × (g.move_count < board_size * board_size)
going_parts g e = ground arith

ai_move_eq :
    (sort : Sort) (rand : ℕ) (g : AiGame) (p : Pos) (b : Board)
    → (g.game_over || is_draw g) ≡ false
    → get_best_move sort rand g ≡ (some p, b)
    → ai_move sort rand g
      ≡ some (after_move g (put b p.0 p.1 ai_player) (pos p.0) (pos p.1) ai_player ai)
unfolding ai_move
ai_move_eq sort rand g p b go e =
    let first : (get_best_move sort rand g).0 ≡ some p = ap (λ r. r.0) e in
    let second : (get_best_move sort rand g).1 ≡ b = ap (λ r. r.1) e in
    rw (go, first, second, ai_move)

module _ (sort : Sort) (rearranges : Rearranges sort) where
  -- In every valid game `aiMove` returns, without a write off the board: it leaves a game that is
  -- over or drawn as it is, and otherwise sets one white stone on an empty cell and counts it. The
  -- game stays valid. `std::sort` is assumed to rearrange its range; `rand` is arbitrary.
  pub ai_move_total :
      (rand : ℕ) (g : AiGame)
      → IsGame g
      → (g' : AiGame) × (ai_move sort rand g ≡ some g') × Answers g g'
  unfolding ai_move
  ai_move_total rand g v = elim (Bool-cases (g.game_over || is_draw g)) [
    | inl stop ↦ (
      g,
      rw (stop, ai_move),
      record {
        valid = v;
        idle = λ e. refl;
        plays = λ e. absurd (false_ne_true (sym e ∙ stop));
        decides = λ e. absurd (false_ne_true (sym e ∙ stop));
      },
    )
    | inr go ↦
        let (going, room) = going_parts g go in
        let (p, e, free) =
          get_best_move_legal sort rearranges rand g
            (record { shape = v.shape; room = omega (arith, v.counted) }) in
        let f =
          after_move-fields g (put g.board p.0 p.1 ai_player) (pos p.0) (pos p.1) ai_player ai in
        (
          after_move g (put g.board p.0 p.1 ai_player) (pos p.0) (pos p.1) ai_player ai,
          ai_move_eq sort rand g p g.board go e,
          record {
            valid = after_move-IsGame g p.0 p.1 ai_player ai v going free (λ q. cc) refl;
            idle = λ q. absurd (false_ne_true (sym go ∙ q));
            plays = λ q. (p, free, f.0, f.1);
            decides = λ q. after_move-winner g _ _ _ ai_player ai going;
          },
        )
  ]

  -- The games that a player and the computer reach: the human moves at any place, legal or not,
  -- and in any order with the computer's moves.
  pub data Reach (user_id : ℤ) : AiGame → Type 0 where
    start : Reach user_id (new_game user_id)
    human_moves : {g : AiGame} (x y : ℤ) → Reach user_id g → Reach user_id (human_move g x y).0
    computer_moves :
        {g g' : AiGame} (rand : ℕ)
        → Reach user_id g
        → ai_move sort rand g ≡ some g'
        → Reach user_id g'

  -- Every game that can be reached is valid: a full-size board, `moveCount_` the number of stones,
  -- `gameOver_` set exactly when there is a winner, and a winner with a line of five through the
  -- last move. `std::sort` is assumed to rearrange its range.
  pub Reach-IsGame : (user_id : ℤ) {g : AiGame} → Reach user_id g → IsGame g
  Reach-IsGame user_id start = new_game-IsGame user_id
  Reach-IsGame user_id (human_moves {g} x y r) = human_move-IsGame g x y (Reach-IsGame user_id r)
  Reach-IsGame user_id (computer_moves {g} {g'} rand r e) =
      let (q, f, answers) = ai_move_total rand g (Reach-IsGame user_id r) in
      subst IsGame (some_inj (sym f ∙ e)) answers.valid

-- Once `gameOver_` is set no move of either side changes the game, and the human move is refused.
pub game_over_frozen :
    (sort : Sort) (rand : ℕ) (g : AiGame) (x y : ℤ)
    → g.game_over ≡ true
    → (human_move g x y ≡ (g, false)) × (ai_move sort rand g ≡ some g)
unfolding human_move is_valid_move ai_move
game_over_frozen sort rand g x y over = ground arith
