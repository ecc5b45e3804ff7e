-- ===== src/WebApp/Tests.antt =====
-- Instances of the theorems, with plain functions for the libraries.
use workplace.Common.{Bool-cases, Option, [], ap, arith, false, get_elem?, if◌then◌else◌, inl, inr}
use workplace.Common.{none, refl, some, some_inj, suc, sym, true, ℕ, ◌%◌, ◌∙◌, ◌∷◌, ◌≡◌}
use workplace.Common.Int.{int_eq, pos, ℤ}
use workplace.Common.Text.{Text, codes, cut, find_or_empty, lookup, text_eq, text_eq_iff}
use workplace.Gomoku.Game.{new_game}
use workplace.Gomoku.Game.Invariant.{new_game-IsGame}
use workplace.Gomoku.Minimax.{Rearranges}
use workplace.Http.Context.{digits, number, stoi}
use workplace.Http.Cors.{to_string}
use workplace.Http.Handler.{done}
use workplace.Http.Middleware.{add_middleware}
use workplace.Http.Request.{HttpRequest, new_request}
use workplace.Http.Response.{HttpResponse, forbidden_403, new_response, ok_200}
use workplace.Http.Router.{Regexes}
use workplace.Http.Server.{handle_request}
use workplace.Http.Server.Answers.{handle_request_total}
use workplace.Http.Server.Invariant.{Left}
use workplace.Http.Session.{Session, behind_first, find_id, get_session, load, modify, save}
use workplace.Http.Session.{session_id_of, set_id, strip}
use workplace.Http.Session.Storage.{IsStore}
use workplace.WebApp.Account.{credentials, end_session, game_type, id_at, lacks_json, login, logout}
use workplace.WebApp.Account.{query_user, server_error}
use workplace.WebApp.IntMap.{find_int}
use workplace.WebApp.Invariant.{IsApp}
use workplace.WebApp.Libraries.{Libraries, Tried}
use workplace.WebApp.Login.{SignedIn, login-SignedIn}
use workplace.WebApp.Logout.{logout_locks_out}
use workplace.WebApp.Own.{Untouched, play_spares_others}
use workplace.WebApp.Play.{Turn, game_of, move, move_request, place, restart, start_game, take_turn}
use workplace.WebApp.Playing.{kept, move_lem, restart_lem, turn_status}
use workplace.WebApp.Routes.{gomoku_server, initialize_middleware}
use workplace.WebApp.Safe.{handle_request-IsApp}
use workplace.WebApp.State.{App, application_json, is_logged_in, open_session, user_id_at, value_at}
use workplace.WebApp.Turns.{Ends, take_turn-Ends}

-- Every text parses; the texts of an object are their keys, and its numbers are 7, but there is no
-- `gameType`. Every query finds one row, with numbers 7.
abbrev plain : Libraries
plain = record {
  Json = Text;
  parse = λ t. inr t;
  text_at = λ j key. inr key;
  int_at = λ j key. if text_eq key (codes "gameType") then inl (codes "missing") else inr (pos 7);
  json_text = λ t. t;
  json_int = λ i. to_string i;
  json_bool = λ b. [];
  json_array = λ js. [];
  json_object = λ fields. codes "object";
  dump = λ j. j;
  dump_indented = λ j. j;
  Database = Unit;
  Row = Unit;
  execute_query = λ d sql. inr (tt ∷ []);
  execute_update = λ d sql. inr d;
  get_int = λ row column. inr (pos 7);
  read_file = λ path. none;
  stoi_what = λ t. codes "stoi";
  clock = λ n. n;
  second = 10;
  rand = λ n. n;
  Random = ℕ;
  draw = λ g. (g % 16, suc g);
  sort = λ less ps. ps;
}

plain-Rearranges : Rearranges plain.sort
plain-Rearranges less ps p = (λ m. m, λ m. m)

-- A session of the user 7 under the id "ab", who is online.
abbrev seven : Session
seven = record {
  session_id = codes "ab";
  session_data = (codes "isLoggedIn", codes "true") ∷ (codes "userId", codes "7") ∷ [];
  expiry_time = 1000;
  max_age = 3600;
  managed = true;
}

abbrev playing : App plain
playing = record {
  store = record { heap = seven ∷ []; sessions = (codes "ab", 0) ∷ [] };
  online_users = (pos 7, true) ∷ [];
  game_map = [];
  max_online = 1;
  database = tt;
  random = 0;
  readings = 0;
  rands = 0;
}

-- A request of that session, with a body.
abbrev from_seven : HttpRequest
from_seven = record new_request {
  headers =
      (codes "Content-Type", codes "application/json")
      ∷ (codes "Cookie", codes "sessionId=ab")
      ∷ [];
  content = codes "{}";
}

abbrev fresh_response : HttpResponse
fresh_response = new_response true

playing-IsStore : IsStore playing.store
unfolding find_id
playing-IsStore id a e = elim (Bool-cases (text_eq (codes "ab") id)) [
  | inl same ↦ (
    seven,
    ap (get_elem? playing.store.heap) (sym (some_inj (rw same at e))),
    (text_eq_iff (codes "ab") id).0 same,
  )
  | inr other ↦ absurd (nothing (rw other at e))
]
  where
    nothing : {a : ℕ} → none ≡ some a → ⊥
    nothing q = cc

playing-IsApp : IsApp playing
unfolding find_int
playing-IsApp = record { in_order = playing-IsStore; games = λ id g e. absurd (cc) }

seven_logged_in :
    is_logged_in
      (open_session from_seven fresh_response playing).0
      (open_session from_seven fresh_response playing).2
    ≡ true
unfolding open_session get_session value_at text_eq session_id_of find_or_empty lookup cut find_id
    load behind_first strip modify save set_id
seven_logged_in = refl

seven_named :
    user_id_at
      (open_session from_seven fresh_response playing).0
      (open_session from_seven fresh_response playing).2
    ≡ inr (pos 7)
unfolding open_session get_session value_at text_eq session_id_of find_or_empty lookup cut find_id
    load behind_first strip modify save set_id user_id_at stoi number digits
seven_named = refl

seven_ne_eight : ¬ (◌≡◌ {A = Tried ℤ} (inr (pos 7)) (inr (pos 8)))
seven_ne_eight e = cc

seven_sends_json : lacks_json from_seven ≡ false
unfolding text_eq lookup find_or_empty
seven_sends_json = refl

seven_credentials : (w : App plain) → credentials from_seven w ≡ inr (codes "username", pos 7)
unfolding credentials query_user
seven_credentials w = refl

no_game_type : game_type plain from_seven ≡ inl (codes "missing")
unfolding game_type text_eq
no_game_type = refl

seven_moves :
    move_request
      (open_session from_seven fresh_response playing).0
      from_seven
      (open_session from_seven fresh_response playing).2
    ≡ inr (pos 7, pos 7, pos 7)
unfolding move_request place text_eq
seven_moves = rw (seven_named, move_request) refl

take_turn-Ends_example :
    Ends
      (new_game (pos 7))
      (pos 7)
      (pos 7)
      (take_turn plain.sort 0 (pos 7) (pos 7) (new_game (pos 7)))
take_turn-Ends_example =
    take_turn-Ends plain.sort plain-Rearranges 0 (new_game (pos 7)) (pos 7) (pos 7)
      (new_game-IsGame (pos 7))

no_regexes : Regexes
no_regexes = record {
  Regex = Text;
  regex = λ t. t;
  regex_replace = λ t r u. t;
  regex_match = λ t r. none;
}

abbrev answered_request : Option (HttpResponse × App plain)
answered_request = handle_request (gomoku_server no_regexes plain) from_seven fresh_response playing

answered : (outcome : HttpResponse × App plain) × (answered_request ≡ some outcome)
unfolding gomoku_server initialize_middleware add_middleware
answered =
    handle_request_total (gomoku_server no_regexes plain) tt from_seven fresh_response playing

handle_request-IsApp_example :
    (outcome : HttpResponse × App plain) × (answered_request ≡ some outcome) × IsApp outcome.1
handle_request-IsApp_example = (
  answered.0,
  answered.1,
  handle_request-IsApp plain-Rearranges no_regexes from_seven fresh_response answered.0.0 playing
      answered.0.1 playing-IsApp answered.1,
)

login-SignedIn_example :
    (resp' : HttpResponse) × (w' : App plain) × (login from_seven fresh_response playing
      ≡ done resp' w')
    × SignedIn from_seven fresh_response (pos 7) playing w' resp'
login-SignedIn_example =
    login-SignedIn from_seven fresh_response (codes "username") (pos 7) playing playing-IsStore
      (omega arith) seven_sends_json (seven_credentials playing) refl

logout_locks_out_example :
    let (a, resp', w') = open_session from_seven fresh_response playing in
    (logout from_seven fresh_response playing
      ≡ done (server_error plain (codes "missing") from_seven resp') (end_session a w'))
    × (find_id (id_at a w') (end_session a w').store.sessions ≡ none)
    × (find_int (pos 7) (end_session a w').game_map ≡ find_int (pos 7) playing.game_map)
    × ((resp3 : HttpResponse) × (w3 : App plain) × (login from_seven fresh_response
            (end_session a w')
          ≡ done resp3 w3)
        × (resp3.status_code ≡ forbidden_403))
unfolding find_int
logout_locks_out_example =
    logout_locks_out from_seven fresh_response (pos 7) (codes "missing") playing from_seven
      fresh_response (codes "username") playing-IsApp (omega arith) seven_sends_json seven_named
      no_game_type refl seven_sends_json (seven_credentials _) refl

-- The user 8 is spared by what the user 7 does.
play_spares_others_example :
    Left (Untouched (pos 8) playing) (start_game from_seven fresh_response playing)
    × Left (Untouched (pos 8) playing) (restart from_seven fresh_response playing)
    × Left (Untouched (pos 8) playing) (move from_seven fresh_response playing)
play_spares_others_example =
    play_spares_others from_seven fresh_response playing (pos 8)
      (λ logged own. absurd (seven_ne_eight (sym seven_named ∙ own)))

restart_lem_example :
    (resp' : HttpResponse) × (w' : App plain) × (restart from_seven fresh_response playing
      ≡ done resp' w')
    × (resp'.status_code ≡ ok_200)
    × (resp'.body ≡ application_json)
    × (lookup (codes "Content-Type") resp'.headers ≡ some (codes "object"))
    × ((j : ℤ)
        → find_int j w'.game_map
          ≡ (if int_eq (pos 7) j then some (new_game (pos 7)) else find_int j playing.game_map))
restart_lem_example =
    restart_lem from_seven fresh_response (pos 7) playing seven_logged_in seven_named

move_lem_example :
    (t : Turn) × (resp' : HttpResponse) × (w' : App plain) × (move from_seven fresh_response playing
      ≡ done resp' w')
    × Ends (game_of (pos 7) playing) (pos 7) (pos 7) t
    × (resp'.status_code ≡ turn_status t)
    × ((j : ℤ)
        → find_int j w'.game_map
          ≡ (if int_eq (pos 7) j then kept t else find_int j playing.game_map))
move_lem_example =
    move_lem plain-Rearranges from_seven fresh_response (pos 7) (pos 7) (pos 7) playing
      playing-IsApp seven_logged_in seven_moves
