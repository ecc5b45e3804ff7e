-- ===== src/Http/Server.antt =====
-- `HttpServer`: HttpServer/HTTP/include/http/HttpServer.h and src/http/HttpServer.cpp, for
-- connections without TLS. The network library delivers the bytes and carries out the actions.
pub mod Answers
pub mod Invariant
use workplace.Common.{Bool, List, Option, [], false, if◌then◌else◌, none, not, some, true, ℕ, ◌&&◌}
use workplace.Common.{◌++◌, ◌||◌, ◌∷◌}
use workplace.Common.Text.{Text, codes, text_eq}
use workplace.Http.Buffer.{Buffer, crlf}
use workplace.Http.Context.{HttpContext, Outcome, ParseState, aborts, got_all, parse_request, reset}
use workplace.Http.Context.{returns, running, throws}
use workplace.Http.Handler.{Call, answer, done, thrown}
use workplace.Http.Middleware.{Before, MiddlewareChain, answered, failed, passed, process_after}
use workplace.Http.Middleware.{process_before, then_call}
use workplace.Http.Request.{HttpRequest, get_header}
use workplace.Http.Response.{HttpResponse, append_to_buffer, new_response, not_found_404}
use workplace.Http.Response.{server_error_500, set_close_connection, set_status_code}
use workplace.Http.Response.{set_status_message}
use workplace.Http.Router.{Regexes, Router, route}

-- The fields that requests go through.
pub record HttpServer (X : Regexes) (W : Type 0) : Type 0 where
  pub router : Router X W
  pub middleware_chain : MiddlewareChain W

-- What the server does with a connection: `send` and `shutdown`.
pub data Action : Type 0 where
  send : Text → Action
  shutdown : Action

-- The response when no route takes the request.
abbrev pub not_found : HttpResponse → HttpResponse
not_found resp =
    let found = set_status_message (set_status_code resp not_found_404) (codes "Not Found") in
    set_close_connection found true

-- The response after an exception.
abbrev pub internal_error : HttpResponse → HttpResponse
internal_error resp =
    set_status_message (set_status_code resp server_error_500) (codes "Internal Server Error")

-- A status line and an empty line, sent after an error of the parser, and the shutdown.
abbrev pub bad_request : List Action
bad_request = send (codes "HTTP/1.1 400 Bad Request" ++ (crlf ++ crlf)) ∷ shutdown ∷ []

-- Is the connection closed after the response?
abbrev pub wants_close : HttpRequest → Bool
wants_close req =
    let connection = get_header req (codes "Connection") in
    text_eq connection (codes "close")
    || (text_eq req.version (codes "HTTP/1.0") && not (text_eq connection (codes "Keep-Alive")))

module _ {W : Type 0} where
  -- The `catch` clauses of `handleRequest`.
  abbrev pub settled : Call W → HttpResponse × W
  settled (done resp w) = (resp, w)
  settled (thrown resp w) = (internal_error resp, w)
  settled (answer resp w) = (resp, w)

  -- From `route` on.
  abbrev pub respond : MiddlewareChain W → HttpResponse → W → Option (Call W) → HttpResponse × W
  respond chain resp w none = settled (process_after chain (not_found resp) w)
  respond chain resp w (some call) = settled (then_call call (process_after chain))

  abbrev pub after_before :
      {X : Regexes} → HttpServer X W → HttpResponse → Before W → HttpResponse × W
  after_before s resp (passed req w) = respond s.middleware_chain resp w (route s.router req resp w)
  after_before s resp (failed w) = (internal_error resp, w)
  after_before s resp (answered res w) = (res, w)

  -- `handleRequest`; `none` is the crash on a null pointer in the chain.
  unfoldable pub handle_request :
      {X : Regexes} → HttpServer X W → HttpRequest → HttpResponse → W → Option (HttpResponse × W)
  unfolding process_before process_after route
  handle_request s req resp w = elim (process_before s.middleware_chain req w) [
    | none ↦ none
    | some b ↦ some (after_before s resp b)
  ]

-- How a call of `onMessage` ends, with the context, the buffer, the actions and the application.
pub data Handled (B : Buffer) (W : Type 0) : Type 0 where
  handled : HttpContext → B.Buf → List Action → W → Handled B W
  aborted null_crash endless : Handled B W

abbrev pub is_got_all : ParseState → Bool
is_got_all got_all = true
is_got_all _ = false

module _ (B : Buffer) (fresh : B.Buf) {X : Regexes} {W : Type 0} (s : HttpServer X W) where
  -- The bytes of the new buffer `fresh` after `appendToBuffer`, and the shutdown.
  abbrev pub actions_of : HttpResponse → List Action
  actions_of resp =
      send (B.bytes (append_to_buffer B resp fresh))
      ∷ (if resp.close_connection then shutdown ∷ [] else [])

  -- `onRequest`, with `handleRequest` as the callback, as the constructor sets it.
  unfoldable pub on_request : HttpRequest → W → Option (List Action × W)
  unfolding handle_request append_to_buffer
  on_request req w = elim (handle_request s req (new_response (wants_close req)) w) [
    | none ↦ none
    | some (resp, w') ↦ some (actions_of resp, w')
  ]

  abbrev served : HttpContext → B.Buf → List Action → Option (List Action × W) → Handled B W
  served c b before none = null_crash
  served c b before (some (actions, w)) = handled (reset c) b (before ++ actions) w

  -- What follows `parseRequest` in `onMessage`.
  after_parse : Outcome → HttpContext → B.Buf → W → Handled B W
  unfolding on_request reset
  after_parse (returns ok) c b w =
      let before = if ok then [] else bad_request in
      let answer = served c b before (on_request c.request w) in
      if is_got_all c.state then answer else handled c b before w
  after_parse throws c b w = handled c b bad_request w
  after_parse aborts c b w = aborted
  after_parse running c b w = endless

  -- `onMessage`, with a bound on the rounds of the parser.
  unfoldable pub on_message : ℕ → ℕ → HttpContext → B.Buf → W → Handled B W
  unfolding after_parse parse_request
  on_message fuel time c b w =
      let p = parse_request B fuel time c b in after_parse p.outcome p.context p.buffer w
