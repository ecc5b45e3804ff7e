-- ===== src/Http/Context/Reuse.antt =====
-- Reusing a context for the next request on a connection.
use workplace.Common.{Option-cases, [], ap, arith, false, inl, inr, none, refl, some, suc, take, ℕ}
use workplace.Common.{◌↔◌, ◌≡◌}
use workplace.Common.Text.{Text, cut}
use workplace.Http.Buffer.{Buffer}
use workplace.Http.Context.{HttpContext, aborts, after_line, expect_request_line, failed_assertion}
use workplace.Http.Context.{new_context, on_request_line, parse_request, process_method}
use workplace.Http.Context.{process_request_line, processed, reset, returns, round}
use workplace.Http.Request.{HttpRequest, is_invalid, new_request, set_method}

-- `reset` restores every field of a fresh request but two: the body and its length stay, since
-- `swap` does not exchange them.
pub reset_lem :
    (c : HttpContext)
    → reset c ≡ record {
      state = expect_request_line;
      request = record new_request {
        content_length = c.request.content_length;
        content = c.request.content;
      };
    }
unfolding reset
reset_lem c = refl

-- After `reset` the context is as a new one exactly when the last request had neither a body nor a
-- content length.
pub reset-eq-new_iff :
    (c : HttpContext)
    → (reset c ≡ new_context) ↔ ((c.request.content ≡ []) × (c.request.content_length ≡ 0))
unfolding reset
reset-eq-new_iff c =
    (λ e. (ap (λ d. d.request.content) e, ap (λ d. d.request.content_length) e), λ h. ground arith)

set_method-eq_none :
    (r : HttpRequest) (m : Text) → is_invalid r.method ≡ false → set_method r m ≡ none
unfolding set_method
set_method-eq_none r m h = rw h

-- A line with a space in it fails the assertion once the method has been read.
second_read :
    (r : HttpRequest) (line : Text) (parts : Text × Text)
    → cut b' ' line ≡ some parts
    → is_invalid r.method ≡ false
    → process_request_line r line ≡ failed_assertion
unfolding process_request_line process_method
second_read r line (m, rest) e h =
    rw (e, process_request_line) (rw (set_method-eq_none r m h, process_method))

-- A line that left a method in the request had a space in it.
has_space :
    (line : Text) (r : HttpRequest)
    → process_request_line new_request line ≡ processed false r
    → is_invalid r.method ≡ false
    → (parts : Text × Text) × (cut b' ' line ≡ some parts)
unfolding process_request_line
has_space line r e h = elim (Option-cases (cut b' ' line)) [
  | inr found ↦ found
  | inl missing ↦ absurd (no_method (rw (missing, process_request_line) at e))
]
  where
    no_method : processed false new_request ≡ processed false r → ⊥
    no_method q = ground arith

module _ (B : Buffer) (fuel time n : ℕ) (b : B.Buf) (r : HttpRequest) where
  -- If a fresh context refuses a request line whose method is a known one, the call returns false
  -- and keeps the method and the line; the next call of `parseRequest` on what it leaves fails the
  -- assertion of `setMethod`, with the same bytes in the buffer and with no assumption on it.
  pub refused_line_aborts :
      B.find_crlf b ≡ some n
      → process_request_line new_request (take n (B.bytes b)) ≡ processed false r
      → is_invalid r.method ≡ false
      → let first = parse_request B (suc fuel) time new_context b in
        (first.outcome ≡ returns false)
        × ((parse_request B (suc fuel) time first.context first.buffer).outcome ≡ aborts)
  unfolding parse_request round on_request_line after_line
  refused_line_aborts e p h =
      let (parts, sp) = has_space (take n (B.bytes b)) r p h in
      let again = second_read r (take n (B.bytes b)) parts sp h in
      rw (e, on_request_line)
        (rw (p, after_line) (refl, rw (e, on_request_line) (rw (again, after_line))))
