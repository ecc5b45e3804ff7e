-- ===== src/WebApp/Play.antt =====
-- Playing against the computer: `AiGameStartHandler`, `AiMoveHandler` and
-- `GomokuServer::restartChessGameVsAi`, HttpServer/WebAPP/Gomoku/src. A game is looked up, changed
-- and put back where the source changes it through a reference.
use workplace.Common.{List, Option, [], false, if◌then◌else◌, inl, inr, length, none, not, some}
use workplace.Common.{true, ℕ, ◌++◌, ◌+◌, ◌∷◌}
use workplace.Common.Int.{ℤ}
use workplace.Common.Text.{Text, codes}
use workplace.Gomoku.Board.{Board, Cell, black, empty, white}
use workplace.Gomoku.Game.{AiGame, Winner, ai, ai_move, human, human_move, is_draw, new_game}
use workplace.Gomoku.Game.{nobody}
use workplace.Gomoku.Minimax.{Sort}
use workplace.Http.Handler.{Call, Handler, done, thrown}
use workplace.Http.Request.{HttpRequest}
use workplace.Http.Response.{HttpResponse, bad_request_400, ok_200, server_error_500}
use workplace.Http.Response.{unauthorized_401}
use workplace.WebApp.IntMap.{erase_int, find_int, set_int}
use workplace.WebApp.Libraries.{Libraries, Tried, ◌>>=◌}
use workplace.WebApp.State.{App, application_json, error_body, is_logged_in, message_json}
use workplace.WebApp.State.{open_session, package_resp, page, reply, text_html, user_id_at}

-- `erase` if there, and then `game_map_[userId] = make_shared<AiGame>(userId)`.
abbrev pub fresh_game : {L : Libraries} → ℤ → App L → App L
fresh_game id w = record w { game_map = set_int id (new_game id) (erase_int id w.game_map) }

abbrev pub unauthorized : (L : Libraries) → Text
unauthorized L = error_body L (codes "Unauthorized")

abbrev pub game_page : Text
game_page = codes "/home/yebidang/workplace/HttpServer/WebAPP/Gomoku/resource/ChessGameVsAi.html"

-- The page of a file, or the exception of a buffer of the size -1.
abbrev pub show_page : {W : Type 0} → Option Text → Handler W
show_page none req resp w = thrown resp w
show_page (some html) req resp w = done (reply req ok_200 (codes "OK") false text_html html resp) w

-- What a turn of the player and the computer makes of a game: the move is refused, the player or
-- the computer has ended it by a win or a draw, or it goes on. `undefined` is the write off the
-- board in `aiMove`.
pub data Turn : Type 0 where
  refused won_by_human drawn_by_human won_by_ai drawn_by_ai going : AiGame → Turn
  undefined : Turn

abbrev pub after_ai : Option AiGame → Turn
after_ai none = undefined
after_ai (some g) =
    if g.game_over then won_by_ai g else if is_draw g then drawn_by_ai g else going g

-- The calls of the game in `AiMoveHandler::handle`.
unfoldable pub take_turn : Sort → ℕ → ℤ → ℤ → AiGame → Turn
unfolding human_move ai_move
take_turn sort rand x y g =
    let (moved, ok) = human_move g x y in
    let answered = after_ai (ai_move sort rand moved) in
    if not ok
    then refused moved
    else if moved.game_over
    then won_by_human moved
    else if is_draw moved
    then drawn_by_human moved
    else answered

-- The games afterwards: an ended game is erased. `undefined` is not reached and changes nothing.
abbrev pub keep_turn : ℤ → Turn → List (ℤ × AiGame) → List (ℤ × AiGame)
keep_turn id (refused g) games = set_int id g games
keep_turn id (won_by_human g) games = erase_int id games
keep_turn id (drawn_by_human g) games = erase_int id games
keep_turn id (won_by_ai g) games = erase_int id games
keep_turn id (drawn_by_ai g) games = erase_int id games
keep_turn id (going g) games = set_int id g games
keep_turn id undefined games = games

-- The texts of a cell and of a winner.
abbrev pub cell_text : Cell → Text
cell_text empty = codes " "
cell_text white = codes "white"
cell_text black = codes "black"

abbrev pub winner_text : Winner → Text
winner_text nobody = codes "none"
winner_text human = codes "human"
winner_text ai = codes "ai"

unfoldable pub map_to : {A B : Type 0} → (A → B) → List A → List B
map_to f [] = []
map_to f (a ∷ as') = f a ∷ map_to f as'

abbrev pub board_json : (L : Libraries) → Board → L.Json
unfolding map_to
board_json L b =
    L.json_array (map_to (λ row. L.json_array (map_to (λ c. L.json_text (cell_text c)) row)) b)

-- The fields of every answer, and the last move.
abbrev pub turn_fields : (L : Libraries) → AiGame → Text → Text → List (Text × L.Json)
turn_fields L g winner next =
    (codes "status", L.json_text (codes "ok"))
    ∷ (codes "board", board_json L g.board)
    ∷ (codes "winner", L.json_text winner)
    ∷ (codes "next_turn", L.json_text next)
    ∷ []

abbrev pub last_move_field : (L : Libraries) → AiGame → List (Text × L.Json)
last_move_field L g =
    (
      codes "last_move",
      L.json_object
          ((codes "x", L.json_int g.last_move.0) ∷ (codes "y", L.json_int g.last_move.1) ∷ []),
    )
    ∷ []

-- The object in the body of an answer.
abbrev pub turn_object : (L : Libraries) → Turn → List (Text × L.Json)
turn_object L (refused g) =
    (codes "status", L.json_text (codes "error"))
    ∷ (codes "message", L.json_text (codes "Invalid move"))
    ∷ []
turn_object L (won_by_human g) = turn_fields L g (winner_text g.winner) (codes "none")
turn_object L (drawn_by_human g) = turn_fields L g (codes "draw") (codes "none")
turn_object L (won_by_ai g) =
    turn_fields L g (winner_text g.winner) (codes "none") ++ last_move_field L g
turn_object L (drawn_by_ai g) = turn_fields L g (codes "draw") (codes "none") ++ last_move_field L g
turn_object L (going g) = turn_fields L g (codes "none") (codes "human") ++ last_move_field L g
turn_object L undefined = []

abbrev pub turn_reply : (L : Libraries) → Turn → HttpRequest → HttpResponse → HttpResponse
turn_reply L (refused g) req =
    reply req bad_request_400 (codes "Bad Request") false application_json
      (L.dump (L.json_object (turn_object L (refused g))))
turn_reply L t req =
    reply req ok_200 (codes "OK") false application_json (L.dump (L.json_object (turn_object L t)))

-- `request["x"]` and `request["y"]`.
unfoldable pub place : (L : Libraries) → Text → Tried (ℤ × ℤ)
place L body = do
  parsed ← L.parse body
  x ← L.int_at parsed (codes "x")
  y ← L.int_at parsed (codes "y")
  inr (x, y)

module _ {L : Libraries} where
  -- `AiGameStartHandler::handle`: a text that is no number throws.
  unfoldable pub start_game : Handler (App L)
  unfolding open_session package_resp user_id_at page
  start_game req resp w =
      let (a, resp', w') = open_session req resp w in
      let error = unauthorized L in
      if not (is_logged_in a w')
      then done
          (package_resp req.version bad_request_400 (codes "Unauthorized") true error
            application_json (length error) resp')
          w'
      else elim (user_id_at a w') [
        | inl what ↦ thrown resp' w'
        | inr id ↦ show_page (page L.read_file game_page) req resp' (fresh_game id w')
      ]

  -- `restartChessGameVsAi`: `packageResp` is given the type as the body and the body as the type.
  unfoldable pub restart : Handler (App L)
  unfolding open_session package_resp user_id_at
  restart req resp w =
      let (a, resp', w') = open_session req resp w in
      let error = unauthorized L in
      let ok = L.dump_indented (message_json L (codes "ok") (codes "Restarted chess game vs AI")) in
      if not (is_logged_in a w')
      then done
          (package_resp req.version unauthorized_401 (codes "Unauthorized") true application_json
            error (length error) resp')
          w'
      else elim (user_id_at a w') [
        | inl what ↦ thrown resp' w'
        | inr id ↦
            done
              (package_resp req.version ok_200 (codes "OK") true application_json ok (length ok)
                resp')
              (fresh_game id w')
      ]

  -- The game of a user, a new one if there is none.
  unfoldable pub game_of : ℤ → App L → AiGame
  game_of id w = elim (find_int id w.game_map) [ none ↦ new_game id | some g ↦ g ]

  -- Each turn takes one result of `rand()`, needed or not.
  abbrev pub turn_of : ℤ → ℤ → ℤ → App L → Turn
  turn_of id x y w = take_turn L.sort (L.rand w.rands) x y (game_of id w)

  abbrev pub played : ℤ → Turn → HttpRequest → HttpResponse → App L → Call (App L)
  played id t req resp w =
      done (turn_reply L t req resp)
        (record w { game_map = keep_turn id t w.game_map; rands = w.rands + 1 })

  -- The user and the place, or the text of an exception.
  unfoldable pub move_request : ℕ → HttpRequest → App L → Tried (ℤ × ℤ × ℤ)
  unfolding user_id_at place
  move_request a req w = do id ← user_id_at a w; (x, y) ← place L req.content; inr (id, x, y)

  -- `AiMoveHandler::handle`, with the same exchange in two of its calls of `packageResp`.
  unfoldable pub move : Handler (App L)
  unfolding open_session package_resp move_request game_of take_turn
  move req resp w =
      let (a, resp', w') = open_session req resp w in
      let error = unauthorized L in
      let failure = λ (what : Text). L.dump (message_json L (codes "error") what) in
      if not (is_logged_in a w')
      then done
          (package_resp req.version unauthorized_401 (codes "Unauthorized") true application_json
            error (length error) resp')
          w'
      else elim (move_request a req w') [
        | inl what ↦
            done
              (package_resp req.version server_error_500 (codes "Internal Server Error") false
                application_json (failure what) (length (failure what)) resp')
              w'
        | inr (id, x, y) ↦ played id (turn_of id x y w') req resp' w'
      ]
