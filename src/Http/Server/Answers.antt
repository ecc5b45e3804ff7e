-- ===== src/Http/Server/Answers.antt =====
-- What the server answers.
use workplace.Common.{List, Option, [], ap, false, if◌then◌else◌, inl, inr, length, none, refl}
use workplace.Common.{some, suc, true, ℕ, ◌++◌, ◌+◌, ◌<◌, ◌∙◌, ◌∷◌, ◌≡◌, ◌≢◌, ◌⊎◌}
use workplace.Common.Text.{Text}
use workplace.Http.Buffer.{Buffer, BufferLaws}
use workplace.Http.Context.{HttpContext, Outcome, ParseState, Parsed, aborts, expect_body}
use workplace.Http.Context.{expect_headers, expect_request_line, got_all, new_context}
use workplace.Http.Context.{parse_request, reset, returns, running, throws, wants_body}
use workplace.Http.Context.Message.{Message, Writable, parse_bare_message, print_message, received}
use workplace.Http.Context.Progress.{parse_request-Ended}
use workplace.Http.Middleware.{Before, MiddlewareChain, answered, failed, passed, process_before}
use workplace.Http.Middleware.{then_before}
use workplace.Http.Request.{HttpRequest, method_of}
use workplace.Http.Response.{HttpResponse, append_to_buffer, new_response}
use workplace.Http.Response.Wire.{append_to_buffer_lem, response_text}
use workplace.Http.Router.{Regexes}
use workplace.Http.Server.{Action, Handled, HttpServer, aborted, actions_of, after_before}
use workplace.Http.Server.{after_parse, endless, handle_request, handled, is_got_all, null_crash}
use workplace.Http.Server.{on_message, on_request, send, served, shutdown, wants_close}

-- A chain without null pointers.
abbrev pub NoNull : {W : Type 0} → MiddlewareChain W → Type 0
NoNull [] = Unit
NoNull (none ∷ ms) = ⊥
NoNull (some m ∷ ms) = NoNull ms

-- What a chain without null pointers does on the way in.
process_before_total :
    {W : Type 0} (chain : MiddlewareChain W) (req : HttpRequest) (w : W)
    → NoNull chain
    → (b : Before W) × (process_before chain req w ≡ some b)
unfolding process_before
process_before_total [] req w h = (passed req w, refl)
process_before_total (none ∷ ms) req w h = absurd h
process_before_total (some m ∷ ms) req w h = elim (Before-cases (m.before req w)) [
  | inl (req', w', e) ↦ let (b, d) = process_before_total ms req' w' h in (b, rw e d)
  | inr stop ↦ (m.before req w, stop (process_before ms))
]
  where
    Before-cases :
        {W : Type 0} (b : Before W)
        → ((req : HttpRequest) × (w : W) × (b ≡ passed req w))
          ⊎ ((rest : HttpRequest → W → Option (Before W)) → then_before (some b) rest ≡ some b)
    Before-cases (passed req w) = inl (req, w, refl)
    Before-cases (failed w) = inr (λ rest. refl)
    Before-cases (answered resp w) = inr (λ rest. refl)

module _ {X : Regexes} {W : Type 0} (s : HttpServer X W) (valid : NoNull s.middleware_chain) where
  -- `handleRequest` always leaves a response, whatever middlewares and handlers throw: an exception
  -- never leaves it. No pointer in the chain is null.
  pub handle_request_total :
      (req : HttpRequest) (resp : HttpResponse) (w : W)
      → (reply : HttpResponse × W) × (handle_request s req resp w ≡ some reply)
  unfolding handle_request
  handle_request_total req resp w =
      let (b, e) = process_before_total s.middleware_chain req w valid in
      (after_before s resp b, rw (e, handle_request) refl)

-- Done with a message: no crash, no endless loop, and ready for the next bytes.
abbrev pub Ready : {B : Buffer} {W : Type 0} → Handled B W → Type 0
Ready (handled c b actions w) = c.state ≢ got_all
Ready aborted = Unit
Ready null_crash = ⊥
Ready endless = ⊥

module _ (B : Buffer) (fresh : B.Buf) {X : Regexes} {W : Type 0} (s : HttpServer X W)
    (valid : NoNull s.middleware_chain) where
  on_request_total :
      (req : HttpRequest) (w : W)
      → (reply : List Action × W) × (on_request B fresh s req w ≡ some reply)
  unfolding on_request
  on_request_total req w =
      let ((resp, w'), e) = handle_request_total s valid req (new_response (wants_close req)) w in
      ((actions_of B fresh s resp, w'), rw (e, on_request) refl)

  got_all-cases :
      (p : ParseState) → (is_got_all p ≡ true) ⊎ ((is_got_all p ≡ false) × (p ≢ got_all))
  got_all-cases expect_request_line = inr (refl, λ e. cc)
  got_all-cases expect_headers = inr (refl, λ e. cc)
  got_all-cases expect_body = inr (refl, λ e. cc)
  got_all-cases got_all = inl refl

  after_parse-Ready :
      (o : Outcome) (c : HttpContext) (b : B.Buf) (w : W)
      → o ≢ running
      → (o ≡ throws → c.state ≢ got_all)
      → Ready (after_parse B fresh s o c b w)
  unfolding after_parse served reset
  after_parse-Ready (returns ok) c b w h k = elim (got_all-cases c.state) [
    | inl e ↦ let ((actions, w'), d) = on_request_total c.request w in rw (e, d, served) (λ q. cc)
    | inr (e, waits) ↦ rw e waits
  ]
  after_parse-Ready throws c b w h k = k refl
  after_parse-Ready aborts c b w h k = tt
  after_parse-Ready running c b w h k = absurd (h refl)

module _ (B : Buffer) (laws : BufferLaws B) (fresh : B.Buf) {X : Regexes} {W : Type 0}
    (s : HttpServer X W) (valid : NoNull s.middleware_chain) where
  -- `onMessage` ends on whatever bytes have arrived, in every state of the parser but `kGotAll`, and
  -- leaves a state that is not `kGotAll`, so that the next call ends too; a failed assertion is the
  -- only other end. One round more than there are bytes is enough. No pointer in the chain is null,
  -- the buffer behaves as documented, and middlewares, handlers and expressions are arbitrary.
  pub on_message-Ready :
      (fuel time : ℕ) (c : HttpContext) (b : B.Buf) (w : W)
      → length (B.bytes b) < fuel
      → c.state ≢ got_all
      → Ready (on_message B fresh s fuel time c b w)
  unfolding on_message
  on_message-Ready fuel time c b w h k =
      let (ended, exception) = parse_request-Ended B laws time fuel c b h k in
      after_parse-Ready B fresh s valid _ _ _ w ended exception

  abbrev done_context : HttpRequest → HttpContext
  done_context req = record { state = got_all; request = req }

  after_run :
      (fuel time : ℕ) (c : HttpContext) (b : B.Buf) (w : W) {p : Parsed B}
      → parse_request B fuel time c b ≡ p
      → on_message B fresh s fuel time c b w ≡ after_parse B fresh s p.outcome p.context p.buffer w
  unfolding on_message
  after_run fuel time c b w e = ap (λ p. after_parse B fresh s p.outcome p.context p.buffer w) e

  after_got_all :
      (req : HttpRequest) (b : B.Buf) (w : W)
      → after_parse B fresh s (returns true) (done_context req) b w
        ≡ served B fresh s (done_context req) b [] (on_request B fresh s req w)
  unfolding after_parse
  after_got_all req b w = refl

  on_request_eq :
      (req : HttpRequest) (resp : HttpResponse) (w w' : W)
      → handle_request s req (new_response (wants_close req)) w ≡ some (resp, w')
      → on_request B fresh s req w ≡ some (actions_of B fresh s resp, w')
  unfolding on_request
  on_request_eq req resp w w' e = rw (e, on_request) refl

  module _ (empty : B.bytes fresh ≡ []) (time fuel : ℕ) (m : Message) (writable : Writable m) where
    -- A written message of a method without a body, in one piece on a new connection, is answered:
    -- the server sends the response that `handleRequest` leaves for the request that was meant, in
    -- the bytes of `appendToBuffer`, shuts down exactly if the response says so, leaves the bytes
    -- behind the message in the buffer, and the context is as new. The new buffer is empty, no
    -- pointer in the chain is null, and the buffer behaves as documented.
    pub on_message_serves :
        (b : B.Buf) (rest : Text) (w : W)
        → wants_body (method_of m.name) ≡ false
        → B.bytes b ≡ print_message m rest
        → let req = received m time in
          (resp : HttpResponse) × (w' : W) × (b' : B.Buf) × (handle_request s req
              (new_response (wants_close req))
              w
            ≡ some (resp, w'))
          × (B.bytes b' ≡ rest)
          × (on_message B fresh s (suc (length m.headers + suc fuel)) time new_context b w
              ≡ handled new_context b'
                  (send (response_text resp)
                    ∷ (if resp.close_connection then shutdown ∷ [] else []))
                  w')
    unfolding reset
    on_message_serves b rest w h e =
        let req = received m time in
        let (b', left, run) = parse_bare_message B laws time fuel m writable b rest h e in
        let ((resp, w'), d) = handle_request_total s valid req (new_response (wants_close req)) w in
        let text : B.bytes (append_to_buffer B resp fresh) ≡ response_text resp =
          append_to_buffer_lem B laws resp fresh ∙ ap (λ t. t ++ response_text resp) empty in
        let sent = ap (λ t. send t ∷ (if resp.close_connection then shutdown ∷ [] else [])) text in
        (
          resp,
          w',
          b',
          d,
          left,
          after_run (suc (length m.headers + suc fuel)) time new_context b w run
              ∙ after_got_all req b' w
              ∙ ap (served B fresh s (done_context req) b' []) (on_request_eq req resp w w' d)
              ∙ ap (λ (acts : List Action). handled new_context b' acts w') sent,
        )
