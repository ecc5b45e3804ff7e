-- ===== src/WebApp/Turns.antt =====
-- How a turn of the player and the computer ends.
use workplace.Common.{Bool-cases, ap, arith, false, false_ne_true, inl, inr, refl, some, subst, sym}
use workplace.Common.{true, ℕ, ◌*◌, ◌+◌, ◌<◌, ◌||◌, ◌∙◌, ◌≡◌}
use workplace.Common.Int.{ℤ}
use workplace.Gomoku.Board.{Pos, ai_player, board_size, cell_at, empty, human_player, put}
use workplace.Gomoku.Game.{AiGame, Winner, ai, ai_move, human, human_move, is_draw, nobody}
use workplace.Gomoku.Game.Invariant.{IsGame, Playable, is_decided, valid_of_Playable}
use workplace.Gomoku.Game.Moves.{Answers, ai_move_total, human_move-IsGame, human_move-winner}
use workplace.Gomoku.Game.Moves.{human_move_lem}
use workplace.Gomoku.Minimax.{Rearranges, Sort}
use workplace.WebApp.Play.{Turn, after_ai, drawn_by_ai, drawn_by_human, going, refused, take_turn}
use workplace.WebApp.Play.{won_by_ai, won_by_human}

-- A valid game with one stone more: the player's, at a playable place.
pub record OneMore (g : AiGame) (x y : ℤ) (g' : AiGame) : Type 0 where
  pub place : Playable g x y
  pub valid : IsGame g'
  pub board : g'.board ≡ put g.board place.row place.column human_player
  pub count : g'.move_count ≡ g.move_count + 1

-- A valid game with two stones more: the player's at a playable place, and the computer's on a cell
-- that is empty after it.
pub record TwoMore (g : AiGame) (x y : ℤ) (g' : AiGame) : Type 0 where
  pub place : Playable g x y
  pub answer : Pos
  pub valid : IsGame g'
  pub free :
      cell_at (put g.board place.row place.column human_player) answer.0 answer.1 ≡ some empty
  pub board :
      g'.board ≡ put (put g.board place.row place.column human_player) answer.0 answer.1 ai_player
  pub count : g'.move_count ≡ g.move_count + 2

-- The ends of a turn; nobody has won a game that goes on or is drawn, and a drawn game has 225
-- stones.
pub data Ends (g : AiGame) (x y : ℤ) : Turn → Type 0 where
  illegal : (Playable g x y → ⊥) → Ends g x y (refused g)
  human_wins : {g' : AiGame} → OneMore g x y g' → g'.winner ≡ human → Ends g x y (won_by_human g')
  human_draws :
      {g' : AiGame}
      → OneMore g x y g'
      → g'.winner ≡ nobody
      → g'.move_count ≡ board_size * board_size
      → Ends g x y (drawn_by_human g')
  ai_wins : {g' : AiGame} → TwoMore g x y g' → g'.winner ≡ ai → Ends g x y (won_by_ai g')
  ai_draws :
      {g' : AiGame}
      → TwoMore g x y g'
      → g'.winner ≡ nobody
      → g'.move_count ≡ board_size * board_size
      → Ends g x y (drawn_by_ai g')
  goes_on :
      {g' : AiGame}
      → TwoMore g x y g'
      → g'.winner ≡ nobody
      → g'.move_count < board_size * board_size
      → Ends g x y (going g')

undecided_winner : (g : AiGame) → IsGame g → g.game_over ≡ false → g.winner ≡ nobody
undecided_winner g v on = nobody_of g.winner (sym v.decided ∙ on)
  where
    nobody_of : (w : Winner) → is_decided w ≡ false → w ≡ nobody
    nobody_of nobody e = refl
    nobody_of human e = absurd (false_ne_true (sym e))
    nobody_of ai e = absurd (false_ne_true (sym e))

one_more : (g : AiGame) (x y : ℤ) → IsGame g → Playable g x y → OneMore g x y (human_move g x y).0
one_more g x y v p =
    let f = (human_move_lem g x y v.shape).2 p in
    record { place = p; valid = human_move-IsGame g x y v; board = f.0; count = f.1 }

module _ (sort : Sort) (rearranges : Rearranges sort) (rand : ℕ) where
  two_more :
      (g : AiGame) (x y : ℤ) {g1 g2 : AiGame}
      → OneMore g x y g1
      → Answers g1 g2
      → (g1.game_over || is_draw g1) ≡ false
      → TwoMore g x y g2
  two_more g x y {g1} {g2} one answers go =
      let (p, free, board, count) = answers.plays go in
      record {
        place = one.place;
        answer = p;
        valid = answers.valid;
        free = ap (λ b. cell_at b p.0 p.1) (sym one.board) ∙ free;
        board = board ∙ ap (λ b. put b p.0 p.1 ai_player) one.board;
        count = omega (arith, count, one.count);
      }

  after_ai-Ends :
      (g : AiGame) (x y : ℤ) {g1 g2 : AiGame}
      → OneMore g x y g1
      → Answers g1 g2
      → g1.game_over ≡ false
      → is_draw g1 ≡ false
      → Ends g x y (after_ai (some g2))
  after_ai-Ends g x y {g1} {g2} one answers on space =
      let go : (g1.game_over || is_draw g1) ≡ false = rw (on, space) refl in
      let two = two_more g x y one answers go in
      let (p, free, board, count) = answers.plays go in
      let winner = answers.decides go in
      let before = undecided_winner g1 one.valid on in
      elim (Bool-cases g2.game_over) [
        | inl over ↦
            let run : after_ai (some g2) ≡ won_by_ai g2 = rw over refl in
            subst (Ends g x y) (sym run) (ai_wins two (winner ∙ rw over refl))
        | inr off ↦ elim (Bool-cases (is_draw g2)) [
          | inl full ↦
              let run : after_ai (some g2) ≡ drawn_by_ai g2 = rw (off, full) refl in
              subst (Ends g x y) (sym run) (
                ai_draws two (winner ∙ rw off before)
                  (ground (arith, count, one.place.room, one.count)))
          | inr room ↦
              let run : after_ai (some g2) ≡ going g2 = rw (off, room) refl in
              subst (Ends g x y) (sym run) (goes_on two (winner ∙ rw off before) (ground arith))
        ]
      ]

  legal-Ends :
      (g : AiGame) (x y : ℤ)
      → IsGame g
      → (human_move g x y).1 ≡ true
      → Playable g x y
      → Ends g x y (take_turn sort rand x y g)
  unfolding take_turn
  legal-Ends g x y v ok p =
      let one = one_more g x y v p in
      let g1 = (human_move g x y).0 in
      let winner = human_move-winner g x y (valid_of_Playable g x y v.shape p) p.going in
      elim (Bool-cases g1.game_over) [
        | inl over ↦ rw (ok, over) (human_wins one (winner ∙ rw over refl))
        | inr on ↦ elim (Bool-cases (is_draw g1)) [
          | inl full ↦
              rw (ok, on, full)
                (human_draws one (winner ∙ rw on (undecided_winner g v p.going))
                  (ground (arith, one.count, p.room)))
          | inr room ↦
              let (g2, e, answers) = ai_move_total sort rearranges rand g1 one.valid in
              let run : take_turn sort rand x y g ≡ after_ai (ai_move sort rand g1) =
                rw (ok, on, room, take_turn) refl in
              subst (Ends g x y) (sym (run ∙ ap after_ai e))
                (after_ai-Ends g x y one answers on room)
        ]
      ]

  -- A turn in a valid game is refused, with the game as it was, exactly when the place is not
  -- playable, and never writes off the board. Otherwise it ends with the player's win or a draw after
  -- the player's stone, or with the computer's win, a draw or an open game after a stone of each;
  -- the game stays valid. `std::sort` is assumed to rearrange its range.
  pub take_turn-Ends : (g : AiGame) (x y : ℤ) → IsGame g → Ends g x y (take_turn sort rand x y g)
  unfolding take_turn
  take_turn-Ends g x y v =
      let lem = human_move_lem g x y v.shape in
      elim (Bool-cases (human_move g x y).1) [
        | inl ok ↦ legal-Ends g x y v ok (lem.0.0 ok)
        | inr no_move ↦
            rw (no_move, lem.1 no_move) (illegal (λ p. false_ne_true (sym no_move ∙ lem.0.1 p)))
      ]
