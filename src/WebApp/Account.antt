-- ===== src/WebApp/Account.antt =====
-- Logging in and out and registering: `LoginHandler`, `LogoutHandler` and `RegisterHandler`,
-- HttpServer/WebAPP/Gomoku/src/handlers.
use workplace.Common.{Bool, List, [], false, get_elem?, if◌then◌else◌, inl, inr, length, none, not}
use workplace.Common.{some, true, ℕ, ◌++◌, ◌||◌, ◌∷◌}
use workplace.Common.Int.{int_eq, negsuc, pos, ℤ}
use workplace.Common.Text.{Text, codes, text_eq}
use workplace.Http.Cors.{to_string}
use workplace.Http.Handler.{Call, Handler, done, thrown}
use workplace.Http.Request.{HttpRequest, get_header, is_empty}
use workplace.Http.Response.{HttpResponse, bad_request_400, conflict_409, forbidden_403, ok_200}
use workplace.Http.Response.{server_error_500, unauthorized_401}
use workplace.Http.Session.{clear, remove, set_value}
use workplace.WebApp.IntMap.{erase_int, find_int, set_int}
use workplace.WebApp.Libraries.{Libraries, Tried, ◌>>=◌}
use workplace.WebApp.State.{App, application_json, error_body, first_int, open_session}
use workplace.WebApp.State.{package_resp, put_value, reply, update_max_online, user_id_at}

-- No JSON content, or no content.
abbrev pub lacks_json : HttpRequest → Bool
lacks_json req =
    let content_type = get_header req (codes "Content-Type") in
    is_empty content_type || not (text_eq content_type application_json) || is_empty req.content

abbrev pub empty_reply : HttpRequest → HttpResponse → HttpResponse
empty_reply req = reply req bad_request_400 (codes "Bad Request") true application_json []

abbrev pub is_online : ℤ → List (ℤ × Bool) → Bool
is_online id users = elim (find_int id users) [ none ↦ false | some online ↦ online ]

abbrev pub no_user : ℤ
no_user = negsuc 0

-- The statement of `queryUser`: both texts are put in as they are.
abbrev pub query_user_sql : Text → Text → Text
query_user_sql username password =
    codes "SELECT * FROM users WHERE username = '"
    ++ (username ++ (codes "' AND password = '" ++ (password ++ codes "'")))

abbrev pub find_user_sql : Text → Text → Text
find_user_sql column username =
    codes "SELECT "
    ++ (column ++ (codes " FROM users WHERE username = '" ++ (username ++ codes "'")))

abbrev pub insert_user_sql : Text → Text → Text
insert_user_sql username password =
    codes "INSERT INTO users (username, password) VALUES ('"
    ++ (username ++ (codes "', '" ++ (password ++ codes "')")))

abbrev pub server_error : (L : Libraries) → Text → HttpRequest → HttpResponse → HttpResponse
server_error L what req =
    reply req server_error_500 (codes "Internal Server Error") true application_json
      (error_body L what)

unfoldable pub game_type : (L : Libraries) → HttpRequest → Tried ℤ
game_type L req = do parsed ← L.parse req.content; L.int_at parsed (codes "gameType")

-- `insertUser`, with the database as it leaves it.
abbrev pub last_id : (L : Libraries) → Tried (List L.Row) → Tried ℤ
last_id L rows = rows >>= first_int L (codes "id") no_user

unfoldable pub insert_user : (L : Libraries) → Text → Text → L.Database → Tried ℤ × L.Database
insert_user L username password d = elim (L.execute_query d (find_user_sql (codes "*") username)) [
  | inl what ↦ (inl what, d)
  | inr (row ∷ rows) ↦ (inr no_user, d)
  | inr [] ↦ elim (L.execute_update d (insert_user_sql username password)) [
    | inl what ↦ (inl what, d)
    | inr d' ↦ (last_id L (L.execute_query d' (find_user_sql (codes "id") username)), d')
  ]
]

unfoldable pub new_user : (L : Libraries) → HttpRequest → Tried (Text × Text)
new_user L req = do
  parsed ← L.parse req.content
  username ← L.text_at parsed (codes "username")
  password ← L.text_at parsed (codes "password")
  inr (username, password)

abbrev pub registered : (L : Libraries) → ℤ → Text
registered L id = L.dump_indented (
    L.json_object (
      (codes "status", L.json_text (codes "success"))
      ∷ (codes "message", L.json_text (codes "register success"))
      ∷ (codes "userId", L.json_int id)
      ∷ []))

module _ {L : Libraries} where
  unfoldable pub query_user : Text → Text → App L → Tried ℤ
  query_user username password w = do
    rows ← L.execute_query w.database (query_user_sql username password)
    first_int L (codes "id") no_user rows

  -- The body of the request, and the user that it names.
  unfoldable pub credentials : HttpRequest → App L → Tried (Text × ℤ)
  unfolding query_user
  credentials req w = do
    parsed ← L.parse req.content
    username ← L.text_at parsed (codes "username")
    password ← L.text_at parsed (codes "password")
    id ← query_user username password w
    inr (username, id)

  abbrev pub sign_in : ℕ → Text → ℤ → App L → App L
  sign_in a username id w =
      put_value a (codes "isLoggedIn") (codes "true")
        (put_value a (codes "username") username (put_value a (codes "userId") (to_string id) w))

  -- The known user: the session is signed in before the test for another login.
  unfoldable pub admit : Text → ℤ → HttpRequest → HttpResponse → App L → Call (App L)
  unfolding open_session set_value
  admit username id req resp w =
      let (a, resp', w') = open_session req resp w in
      let signed = sign_in a username id w' in
      let users = set_int id true signed.online_users in
      let welcome = L.dump_indented (
        L.json_object
          ((codes "success", L.json_bool true) ∷ (codes "userId", L.json_int id) ∷ [])) in
      let elsewhere = L.dump_indented (
        L.json_object (
          (codes "success", L.json_bool false)
          ∷ (codes "error", L.json_text (codes "账号已在其他地方登录"))
          ∷ [])) in
      if not (is_online id signed.online_users)
      then done (reply req ok_200 (codes "OK") false application_json welcome resp')
          (update_max_online (length users) (record signed { online_users = users }))
      else done (reply req forbidden_403 (codes "Forbidden") true application_json elsewhere resp')
          signed

  -- `LoginHandler::handle`.
  unfoldable pub login : Handler (App L)
  unfolding credentials admit reply
  login req resp w =
      let refused =
        reply req unauthorized_401 (codes "Unauthorized") false application_json
          (error_body L (codes "Invalid username or password")) resp in
      if lacks_json req then done (empty_reply req resp) w else elim (credentials req w) [
        | inl what ↦
            done
              (reply req bad_request_400 (codes "Bad Request") true application_json
                (error_body L what) resp)
              w
        | inr (username, id) ↦
            if not (int_eq id no_user) then admit username id req resp w else done refused w
      ]

  abbrev pub id_at : ℕ → App L → Text
  id_at a w = elim (get_elem? w.store.heap a) [ none ↦ [] | some s ↦ s.session_id ]

  -- `destroySession`; where it has no defined behaviour, the model changes nothing. `getSession`
  -- has stored the session, so that this is not reached.
  unfoldable pub destroy_session : Text → App L → App L
  unfolding remove
  destroy_session id w = elim (remove id w.store) [ none ↦ w | some st ↦ record w { store = st } ]

  -- `session->clear()`, then `destroySession`.
  abbrev pub end_session : ℕ → App L → App L
  end_session a w = destroy_session (id_at a w) (record w { store = clear a w.store })

  -- `MAN_VS_AI` is 1; for the other kinds nothing is done.
  abbrev pub leave : ℤ → ℤ → App L → App L
  leave id type w =
      let gone = record w { online_users = erase_int id w.online_users } in
      if int_eq type (pos 1) then record gone { game_map = erase_int id gone.game_map } else gone

  -- `LogoutHandler::handle`: the session is gone before the body is read.
  unfoldable pub logout : Handler (App L)
  unfolding open_session user_id_at destroy_session game_type reply
  logout req resp w =
      let (a, resp', w') = open_session req resp w in
      let bye =
        L.dump_indented
          (L.json_object ((codes "message", L.json_text (codes "Logout successful")) ∷ [])) in
      if lacks_json req then done (empty_reply req resp) w else elim (user_id_at a w') [
        | inl what ↦ done (server_error L what req resp') w'
        | inr id ↦ elim (game_type L req) [
          | inl what ↦ done (server_error L what req resp') (end_session a w')
          | inr type ↦
              done (reply req ok_200 (codes "OK") true application_json bye resp')
                (leave id type (end_session a w'))
        ]
      ]

  -- `RegisterHandler::handle`: no exception is caught, and `packageResp` is given the type as the
  -- body and the body as the type.
  unfoldable pub register : Handler (App L)
  unfolding new_user insert_user package_resp
  register req resp w = elim (new_user L req) [
    | inl what ↦ thrown resp w
    | inr (username, password) ↦
        let (id, d) = insert_user L username password w.database in
        let taken = error_body L (codes "username already exists") in
        let w' = record w { database = d } in
        elim id [
          | inl what ↦ thrown resp w'
          | inr n ↦
              if int_eq n no_user
              then done
                  (package_resp req.version conflict_409 (codes "Confilct") false application_json
                    taken (length taken) resp)
                  w'
              else done
                  (package_resp req.version ok_200 (codes "OK") false application_json
                    (registered L n) (length (registered L n)) resp)
                  w'
        ]
  ]
