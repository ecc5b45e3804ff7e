-- ===== src/Gomoku/Game/Invariant.antt =====
-- The invariant of a game, that both moves keep it, and what each move does.
use workplace.Common.{Bool, Bool-cases, List, ap, arith, false, get_elem?, inl, inr, length, refl}
use workplace.Common.{replicate, some, some_inj, subst, suc, sym, true, zero, ℕ, ◌*◌, ◌+◌, ◌<◌, ◌∙◌}
use workplace.Common.{◌≡◌, ◌≢◌}
use workplace.Common.Int.{negsuc, pos, ℤ}
use workplace.Gomoku.Board.{Board, Cell, ai_player, board_size, cell_at, empty, human_player, put}
use workplace.Gomoku.Board.Count.{occupied, occupied-put}
use workplace.Gomoku.Board.Laws.{IsBoard, cell_at-lt, is_some_cell_lem, put-IsBoard}
use workplace.Gomoku.Game.{AiGame, Winner, after_move, ai, human, is_valid_move, new_game, nobody}
use workplace.Gomoku.Win.{check_win}
use workplace.Gomoku.Win.Line.{Five, check_win_iff}

abbrev pub is_decided : Winner → Bool
is_decided nobody = false
is_decided _ = true

-- The winner has a line of five through the last move.
abbrev pub HasLine : Winner → Board → ℤ × ℤ → Type 0
HasLine nobody b (x, y) = Unit
HasLine human b (x, y) = Five b x y human_player
HasLine ai b (x, y) = Five b x y ai_player

pub record IsGame (g : AiGame) : Type 0 where
  pub shape : IsBoard g.board
  pub counted : occupied g.board ≡ g.move_count
  pub decided : g.game_over ≡ is_decided g.winner
  pub line : HasLine g.winner g.board g.last_move

replicate-row : (n x : ℕ) (row r : List Cell) → get_elem? (replicate n row) x ≡ some r → r ≡ row
replicate-row zero x row r e = absurd (cc)
replicate-row (suc n) zero row r e = sym (some_inj e)
replicate-row (suc n) (suc x) row r e = replicate-row n x row r e

pub new_game-IsGame : (user_id : ℤ) → IsGame (new_game user_id)
unfolding new_game occupied
new_game-IsGame user_id = record {
  shape = record {
    rows = refl;
    columns = λ x row e. ap length (replicate-row board_size x (replicate board_size empty) row e);
  };
  counted = refl;
  decided = refl;
  line = tt;
}

-- Whose stone makes this winner.
abbrev pub Plays : Winner → Cell → Type 0
Plays nobody c = ⊥
Plays human c = c ≡ human_player
Plays ai c = c ≡ ai_player

Plays-line :
    (who : Winner) (b : Board) (x y : ℤ) (c : Cell)
    → Plays who c
    → Five b x y c
    → HasLine who b (x, y) × (is_decided who ≡ true)
Plays-line nobody b x y c p f = absurd p
Plays-line human b x y c p f = (subst (Five b x y) p f, refl)
Plays-line ai b x y c p f = (subst (Five b x y) p f, refl)

undecided : (w : Winner) (b : Board) (l : ℤ × ℤ) → is_decided w ≡ false → HasLine w b l
undecided nobody b l e = tt
undecided human b l e = absurd (cc)
undecided ai b l e = absurd (cc)

pub after_move-IsGame :
    (g : AiGame) (x y : ℕ) (c : Cell) (who : Winner)
    → IsGame g
    → g.game_over ≡ false
    → cell_at g.board x y ≡ some empty
    → c ≢ empty
    → Plays who c
    → IsGame (after_move g (put g.board x y c) (pos x) (pos y) c who)
after_move-IsGame g x y c who v going free ne plays =
    let b = put g.board x y c in
    let shape = put-IsBoard g.board x y c v.shape in
    let counted : occupied b ≡ g.move_count + 1 =
      omega (arith, occupied-put g.board x y c free ne, v.counted) in
    elim (Bool-cases (check_win b (pos x) (pos y) c)) [
      | inl win ↦
          let line =
            Plays-line who b (pos x) (pos y) c plays ((check_win_iff b (pos x) (pos y) c).0 win) in
          rw win (record { shape = shape; counted = counted; decided = sym line.1; line = line.0 })
      | inr no_win ↦ rw no_win (record {
        shape = shape;
        counted = counted;
        decided = v.decided;
        line = undecided g.winner b (pos x, pos y) (sym v.decided ∙ going);
      })
    ]

-- What `isValidMove` accepts: an empty cell of the board, while the game goes on.
pub record Playable (g : AiGame) (x y : ℤ) : Type 0 where
  pub row : ℕ
  pub column : ℕ
  pub at_x : x ≡ pos row
  pub at_y : y ≡ pos column
  pub free : cell_at g.board row column ≡ some empty
  pub going : g.game_over ≡ false
  pub room : g.move_count < board_size * board_size

pub playable : (g : AiGame) (x y : ℤ) → is_valid_move g x y ≡ true → Playable g x y
unfolding is_valid_move
playable g (pos x) (pos y) e = record {
  row = x;
  column = y;
  at_x = refl;
  at_y = refl;
  free = is_some_cell_lem (cell_at g.board x y) empty (ground arith);
  going = ground arith;
  room = ground arith;
}
playable g (negsuc x) (pos y) e = absurd (ground arith)
playable g (pos x) (negsuc y) e = absurd (ground arith)
playable g (negsuc x) (negsuc y) e = absurd (ground arith)

pub valid_of_Playable :
    (g : AiGame) (x y : ℤ) → IsBoard g.board → Playable g x y → is_valid_move g x y ≡ true
unfolding is_valid_move
valid_of_Playable g x y v p =
    let lt = cell_at-lt g.board p.row p.column v p.free in
    rw (p.at_x, p.at_y) (rw p.free (ground arith))
