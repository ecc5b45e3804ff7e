-- ===== src/Http/Context/Progress.antt =====
-- The parsing loop ends: every round reads at least two bytes or is the last.
use workplace.Common.{Bool-cases, Option, Option-cases, ap, arith, false, inl, inr, length}
use workplace.Common.{length-drop_lt, ltb, none, not, refl, some, suc, true, zero, ℕ, ◌+◌, ◌<◌, ◌∙◌}
use workplace.Common.{◌≡◌, ◌≢◌}
use workplace.Common.Int.{ℤ}
use workplace.Common.Text.{Text, codes, cut}
use workplace.Http.Buffer.{Buffer, BufferLaws}
use workplace.Http.Context.{HttpContext, LineResult, ParseState, Parsed, after_line, expect_body}
use workplace.Http.Context.{expect_headers, expect_request_line, failed_assertion, got_all}
use workplace.Http.Context.{header_line, on_body, on_empty_line, on_headers, on_request_line}
use workplace.Http.Context.{parse_request, processed, round, running, stoi, throws, to_uint64}
use workplace.Http.Context.{wants_body, with_length}
use workplace.Http.Request.{get_header, is_empty}

module _ (B : Buffer) (laws : BufferLaws B) (time : ℕ) where
  -- The call has ended, and an exception leaves no request that looks complete.
  abbrev pub Ended : Parsed B → Type 0
  Ended p = (p.outcome ≢ running) × (p.outcome ≡ throws → p.context.state ≢ got_all)

  -- `again` ends on every shorter buffer.
  abbrev Ends : ℕ → (HttpContext → B.Buf → Parsed B) → Type 0
  Ends size again =
      (c : HttpContext) (b : B.Buf)
      → length (B.bytes b) < size
      → c.state ≢ got_all
      → Ended (again c b)

  shorter :
      (b : B.Buf) (n : ℕ)
      → B.find_crlf b ≡ some n
      → length (B.bytes (B.retrieve (n + 2) b)) < length (B.bytes b)
  shorter b n e =
      let fits = laws.found b n e in
      rw (laws.retrieved b (n + 2) fits) (omega (arith, length-drop_lt (n + 2) (B.bytes b) fits))

  module _ (again : HttpContext → B.Buf → Parsed B) (c : HttpContext) (b : B.Buf)
      (later : Ends (length (B.bytes b)) again) (going : c.state ≢ got_all) where
    after_line-ends :
        (n : ℕ) (l : LineResult) → B.find_crlf b ≡ some n → Ended (after_line B again time l c b n)
    unfolding after_line
    after_line-ends n failed_assertion e = (λ q. cc, λ q. cc)
    after_line-ends n (processed false r) e = (λ q. cc, λ q. cc)
    after_line-ends n (processed true r) e = later _ _ (shorter b n e) (λ q. cc)

    on_request_line-ends : Ended (on_request_line B again time c b)
    unfolding on_request_line
    on_request_line-ends = elim (Option-cases (B.find_crlf b)) [
      | inl waits ↦ rw (waits, on_request_line) (λ q. cc, λ q. cc)
      | inr (n, e) ↦ rw (e, on_request_line) (after_line-ends n _ e)
    ]

    with_length-ends :
        (n : ℕ) (z : Option ℤ) → B.find_crlf b ≡ some n → Ended (with_length B again time z c b n)
    unfolding with_length
    with_length-ends n none e = (λ q. cc, λ q. going)
    with_length-ends n (some z) e = elim (Bool-cases (ltb 0 (to_uint64 z))) [
      | inl body ↦ rw body (later _ _ (shorter b n e) (λ q. cc))
      | inr bare ↦ rw bare (λ q. cc, λ q. cc)
    ]

    on_empty_line-ends : (n : ℕ) → B.find_crlf b ≡ some n → Ended (on_empty_line B again time c b n)
    unfolding on_empty_line
    on_empty_line-ends n e = elim (Bool-cases (wants_body c.request.method)) [
      | inr bare ↦ rw bare (λ q. cc, λ q. cc)
      | inl body ↦
          elim (Bool-cases (not (is_empty (get_header c.request (codes "Content-Length"))))) [
            | inr missing ↦ rw (body, missing) (λ q. cc, λ q. cc)
            | inl given ↦
                rw (body, given)
                  (with_length-ends n (stoi (get_header c.request (codes "Content-Length"))) e)
          ]
    ]

    header_line-ends :
        (n : ℕ) (line : Text) → B.find_crlf b ≡ some n → Ended (header_line B again time line c b n)
    unfolding header_line
    header_line-ends n line e = elim (Option-cases (cut b':' line)) [
      | inl no_colon ↦ elim (Bool-cases (is_empty line)) [
        | inl empty_line ↦ rw (no_colon, header_line, empty_line) (on_empty_line-ends n e)
        | inr bad ↦ rw (no_colon, header_line, bad) (λ q. cc, λ q. cc)
      ]
      | inr ((field, rest), found) ↦ rw (found, header_line) (later _ _ (shorter b n e) going)
    ]

    on_headers-ends : Ended (on_headers B again time c b)
    unfolding on_headers
    on_headers-ends = elim (Option-cases (B.find_crlf b)) [
      | inl waits ↦ rw (waits, on_headers) (λ q. cc, λ q. cc)
      | inr (n, e) ↦ rw (e, on_headers) (header_line-ends n _ e)
    ]

    on_body-ends : Ended (on_body B again time c b)
    unfolding on_body
    on_body-ends = elim (Bool-cases (ltb (length (B.bytes b)) c.request.content_length)) [
      | inl waits ↦ rw waits (λ q. cc, λ q. cc)
      | inr read ↦ rw read (λ q. cc, λ q. cc)
    ]

    round-ends : (s : ParseState) → s ≢ got_all → Ended (round B again time s c b)
    unfolding round
    round-ends expect_request_line h = on_request_line-ends
    round-ends expect_headers h = on_headers-ends
    round-ends expect_body h = on_body-ends
    round-ends got_all h = absurd (h refl)

  pub parse_request-Ended :
      (fuel : ℕ) (c : HttpContext) (b : B.Buf)
      → length (B.bytes b) < fuel
      → c.state ≢ got_all
      → Ended (parse_request B fuel time c b)
  unfolding parse_request
  parse_request-Ended zero c b h s = absurd (omega arith)
  parse_request-Ended (suc fuel) c b h s =
      round-ends (parse_request B fuel time) c b
        (λ c' b' l t. parse_request-Ended fuel c' b' (omega arith) t) s c.state s

  -- In every state but `kGotAll`, `parseRequest` ends within one round more than there are readable
  -- bytes: it returns, throws or fails an assertion; the buffer behaves as documented.
  pub parse_request_ends :
      (fuel : ℕ) (c : HttpContext) (b : B.Buf)
      → length (B.bytes b) < fuel
      → c.state ≢ got_all
      → (parse_request B fuel time c b).outcome ≢ running
  parse_request_ends fuel c b h s = (parse_request-Ended fuel c b h s).0

-- In the state `kGotAll` the loop of `parseRequest` never ends, with no assumption on the buffer.
pub parse_request_spins :
    (B : Buffer) (fuel time : ℕ) (c : HttpContext) (b : B.Buf)
    → c.state ≡ got_all
    → (parse_request B fuel time c b).outcome ≡ running
unfolding parse_request
parse_request_spins B zero time c b e = refl
parse_request_spins B (suc fuel) time c b e =
    ap (λ s. (round B (parse_request B fuel time) time s c b).outcome) e
    ∙ spin (parse_request_spins B fuel time c b e)
  where
    spin :
        (parse_request B fuel time c b).outcome ≡ running
        → (round B (parse_request B fuel time) time got_all c b).outcome ≡ running
    spin h = h
