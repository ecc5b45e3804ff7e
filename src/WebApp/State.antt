-- ===== src/WebApp/State.antt =====
-- `GomokuServer`: HttpServer/WebAPP/Gomoku/include/GomokuServer.h and src/GomokuServer.cpp, with
-- HttpServer/HTTP/include/utils/FileUtils.h. The locks are left out: each handler is one step.
use workplace.Common.{Bool, List, Option, [], get_elem?, if◌then◌else◌, inl, inr, length, ltb, none}
use workplace.Common.{some, ℕ, ◌+◌, ◌∷◌}
use workplace.Common.Int.{pos, ℤ}
use workplace.Common.Text.{Text, codes, text_eq}
use workplace.Gomoku.Game.{AiGame}
use workplace.Http.Context.{stoi}
use workplace.Http.Request.{HttpRequest}
use workplace.Http.Response.{HttpResponse, StatusCode, set_close_connection, set_content_length}
use workplace.Http.Response.{set_content_type, set_response_body, set_status_code, set_status_line}
use workplace.Http.Response.{set_status_message}
use workplace.Http.Session.{Store, get_session, get_value, set_value}
use workplace.WebApp.Libraries.{Libraries, Tried, ◌>>=◌}

-- The fields of `GomokuServer`, the sessions, and how far the libraries' sources were read. The
-- games are held by value, since no pointer to one outlives the call of a handler.
pub record App (L : Libraries) : Type 0 where
  pub store : Store
  pub online_users : List (ℤ × Bool)
  pub game_map : List (ℤ × AiGame)
  pub max_online : ℕ
  pub database : L.Database
  pub random : L.Random
  pub readings : ℕ
  pub rands : ℕ

abbrev pub application_json : Text
application_json = codes "application/json"

abbrev pub text_html : Text
text_html = codes "text/html"

-- `packageResp`; nothing in it throws.
unfoldable pub package_resp :
    Text → StatusCode → Text → Bool → Text → Text → ℕ → HttpResponse → HttpResponse
package_resp version code message close body content_type n resp =
    let r0 = set_content_type (set_status_line resp code message version) content_type in
    let r1 = set_content_length (set_response_body (set_status_code r0 code) body) n in
    set_close_connection (set_status_message r1 message) close

-- The status line, the connection, the type, the length and the body, as the handlers set them.
unfoldable pub reply :
    HttpRequest → StatusCode → Text → Bool → Text → Text → HttpResponse → HttpResponse
reply req code message close content_type body resp =
    let r0 = set_close_connection (set_status_line resp code message req.version) close in
    set_response_body (set_content_length (set_content_type r0 content_type) (length body)) body

-- `FileUtil`: the file, or the default one; `none` when neither opens, and its size is no size.
unfoldable pub page : (Text → Option Text) → Text → Option Text
page files path = elim (files path) [
  | some content ↦ some content
  | none ↦ files (codes "/Gomoku/GomokuServer/resource/NotFound.html")
]

-- The bodies of errors: a status and a message, and the same without indentation.
abbrev pub message_json : (L : Libraries) → Text → Text → L.Json
message_json L status message =
    L.json_object
      ((codes "status", L.json_text status) ∷ (codes "message", L.json_text message) ∷ [])

abbrev pub error_body : (L : Libraries) → Text → Text
error_body L message = L.dump_indented (message_json L (codes "error") message)

abbrev pub first_int : (L : Libraries) → Text → ℤ → List L.Row → Tried ℤ
first_int L column missing [] = inr missing
first_int L column missing (row ∷ rows) = L.get_int row column

module _ {L : Libraries} where
  -- `getSession`, which reads the clock four times at most.
  unfoldable pub open_session : HttpRequest → HttpResponse → App L → ℕ × HttpResponse × App L
  unfolding get_session
  open_session req resp w =
      let t = w.readings in
      let got =
        get_session L.draw L.second (L.clock t) (L.clock (t + 1)) (L.clock (t + 2))
          (L.clock (t + 3)) req resp w.random w.store in
      (
        got.session,
        got.response,
        record w { store = got.store; random = got.generator; readings = t + 4 },
      )

  -- `session->getValue(key)`.
  unfoldable pub value_at : ℕ → Text → App L → Text
  value_at a key w = elim (get_elem? w.store.heap a) [ none ↦ [] | some s ↦ get_value s key ]

  -- `session->setValue(key, value)`.
  abbrev pub put_value : ℕ → Text → Text → App L → App L
  put_value a key value w = record w { store = set_value key value a w.store }

  abbrev pub is_logged_in : ℕ → App L → Bool
  is_logged_in a w = text_eq (value_at a (codes "isLoggedIn") w) (codes "true")

  -- `std::stoi(session->getValue("userId"))`.
  unfoldable pub user_id_at : ℕ → App L → Tried ℤ
  user_id_at a w = elim (stoi (value_at a (codes "userId") w)) [
    | none ↦ inl (L.stoi_what (value_at a (codes "userId") w))
    | some id ↦ inr id
  ]

  abbrev pub update_max_online : ℕ → App L → App L
  update_max_online n w = record w { max_online = if ltb w.max_online n then n else w.max_online }

  -- `getUserTotal`.
  unfoldable pub get_user_total : App L → Tried ℤ
  get_user_total w = do
    rows ← L.execute_query w.database (codes "SELECT COUNT(*) as count FROM users")
    first_int L (codes "count") (pos 0) rows
