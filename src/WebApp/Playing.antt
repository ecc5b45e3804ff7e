-- ===== src/WebApp/Playing.antt =====
-- What the handlers of the game do to the games.
use workplace.Common.{Bool-cases, List, Option, if◌then◌else◌, inl, inr, length, none, refl, some}
use workplace.Common.{true, ◌∙◌, ◌≡◌}
use workplace.Common.Int.{int_eq, ℤ}
use workplace.Common.Text.{codes, lookup, lookup-insert, text_eq}
use workplace.Gomoku.Game.{AiGame, new_game}
use workplace.Gomoku.Minimax.{Rearranges}
use workplace.Http.Handler.{done}
use workplace.Http.Request.{HttpRequest}
use workplace.Http.Response.{HttpResponse, StatusCode, bad_request_400, decimal, ok_200}
use workplace.WebApp.IntMap.{erase_int, find_int, find_int-erase_int, find_int-set_int, set_int}
use workplace.WebApp.Invariant.{IsApp}
use workplace.WebApp.Libraries.{Libraries}
use workplace.WebApp.Play.{Turn, drawn_by_ai, drawn_by_human, game_of, going, keep_turn, move}
use workplace.WebApp.Play.{move_request, refused, restart, turn_of, turn_reply, undefined}
use workplace.WebApp.Play.{won_by_ai, won_by_human}
use workplace.WebApp.Safe.{game_of-IsGame}
use workplace.WebApp.State.{App, application_json, is_logged_in, message_json, open_session}
use workplace.WebApp.State.{package_resp, reply, user_id_at}
use workplace.WebApp.Turns.{Ends, ai_draws, ai_wins, goes_on, human_draws, human_wins, illegal}
use workplace.WebApp.Turns.{take_turn-Ends}

-- The game that a turn keeps.
abbrev pub kept : Turn → Option AiGame
kept (refused g) = some g
kept (going g) = some g
kept _ = none

-- The status of the answer to a turn.
abbrev pub turn_status : Turn → StatusCode
turn_status (refused g) = bad_request_400
turn_status _ = ok_200

turn_reply-status :
    (L : Libraries) (t : Turn) (req : HttpRequest) (resp : HttpResponse)
    → (turn_reply L t req resp).status_code ≡ turn_status t
unfolding reply
turn_reply-status L (refused g) req resp = refl
turn_reply-status L (won_by_human g) req resp = refl
turn_reply-status L (drawn_by_human g) req resp = refl
turn_reply-status L (won_by_ai g) req resp = refl
turn_reply-status L (drawn_by_ai g) req resp = refl
turn_reply-status L (going g) req resp = refl
turn_reply-status L undefined req resp = refl

pub find_int-fresh :
    (id j : ℤ) (games : List (ℤ × AiGame))
    → find_int j (set_int id (new_game id) (erase_int id games))
      ≡ (if int_eq id j then some (new_game id) else find_int j games)
find_int-fresh id j games =
    find_int-set_int id j (new_game id) (erase_int id games) ∙ (elim (Bool-cases (int_eq id j)) [
      | inl e ↦ rw e refl
      | inr e ↦ rw e (find_int-erase_int id j games ∙ rw e refl)
    ])

find_int-keep_turn :
    {g : AiGame} {x y : ℤ} {t : Turn} (id j : ℤ) (games : List (ℤ × AiGame))
    → Ends g x y t
    → find_int j (keep_turn id t games) ≡ (if int_eq id j then kept t else find_int j games)
find_int-keep_turn {g} id j games (illegal h) = find_int-set_int id j g games
find_int-keep_turn id j games (human_wins one e) = find_int-erase_int id j games
find_int-keep_turn id j games (human_draws one e f) = find_int-erase_int id j games
find_int-keep_turn id j games (ai_wins two e) = find_int-erase_int id j games
find_int-keep_turn id j games (ai_draws two e f) = find_int-erase_int id j games
find_int-keep_turn id j games (goes_on two e f) = find_int-set_int id j _ games

module _ {L : Libraries} where
  -- A restart by a user who is logged in always ends with the status 200 and a new game for that
  -- user and no other change of a game, but the body of the response is the text
  -- `application/json`, and the JSON text stands in its content type.
  pub restart_lem :
      (req : HttpRequest) (resp : HttpResponse) (id : ℤ) (w : App L)
      → is_logged_in (open_session req resp w).0 (open_session req resp w).2 ≡ true
      → user_id_at (open_session req resp w).0 (open_session req resp w).2 ≡ inr id
      → (resp' : HttpResponse) × (w' : App L) × (restart req resp w ≡ done resp' w')
        × (resp'.status_code ≡ ok_200)
        × (resp'.body ≡ application_json)
        × (lookup (codes "Content-Type") resp'.headers
            ≡ some (
                L.dump_indented (message_json L (codes "ok") (codes "Restarted chess game vs AI"))))
        × ((j : ℤ)
            → find_int j w'.game_map
              ≡ (if int_eq id j then some (new_game id) else find_int j w.game_map))
  unfolding restart open_session package_resp text_eq
  restart_lem req resp id w logged named =
      let ok = L.dump_indented (message_json L (codes "ok") (codes "Restarted chess game vs AI")) in
      let (a, resp0, w0) = open_session req resp w in
      rw (logged, named, restart)
        (
          _,
          _,
          refl,
          refl,
          refl,
          lookup-insert (codes "Content-Length") (codes "Content-Type") (decimal (length ok)) _
              ∙ lookup-insert (codes "Content-Type") (codes "Content-Type") ok resp0.headers,
          λ j. find_int-fresh id j w.game_map,
        )

  -- A move of a user who is logged in, in the game of that user or in a new one, is answered after one
  -- turn: with the status 400 when it is refused and else 200. The map keeps the game that the turn
  -- leaves when it is refused or the game goes on, and none when the game has ended; no other game
  -- changes. Sessions and games are in order, and `std::sort` rearranges its range.
  pub move_lem :
      (rearranges : Rearranges L.sort) (req : HttpRequest) (resp : HttpResponse) (id x y : ℤ)
      (w : App L)
      → IsApp w
      → is_logged_in (open_session req resp w).0 (open_session req resp w).2 ≡ true
      → move_request (open_session req resp w).0 req (open_session req resp w).2 ≡ inr (id, x, y)
      → (t : Turn) × (resp' : HttpResponse) × (w' : App L) × (move req resp w ≡ done resp' w')
        × Ends (game_of id w) x y t
        × (resp'.status_code ≡ turn_status t)
        × ((j : ℤ)
            → find_int j w'.game_map ≡ (if int_eq id j then kept t else find_int j w.game_map))
  unfolding move open_session game_of
  move_lem rearranges req resp id x y w v logged named =
      let (a, resp0, w0) = open_session req resp w in
      let ends =
        take_turn-Ends L.sort rearranges (L.rand w0.rands) (game_of id w0) x y
          (game_of-IsGame rearranges id w v) in
      rw (logged, named, move)
        (
          turn_of id x y w0,
          _,
          _,
          refl,
          ends,
          turn_reply-status L (turn_of id x y w0) req resp0,
          λ j. find_int-keep_turn id j w.game_map ends,
        )
