-- ===== src/Http/Context/Methods.antt =====
-- The methods that the parser can read: OPTIONS is not one of them.
use workplace.Common.{Bool-cases, Option, Option-cases, ap, arith, false, inl, inr, length, ltb}
use workplace.Common.{none, not, refl, some, suc, take, true, zero, ℕ, ◌∙◌, ◌≡◌}
use workplace.Common.Int.{ℤ}
use workplace.Common.Text.{Text, codes, cut}
use workplace.Http.Buffer.{Buffer}
use workplace.Http.Context.{HttpContext, LineResult, ParseState, Parsed, after_line, expect_body}
use workplace.Http.Context.{expect_headers, expect_request_line, failed_assertion, got_all}
use workplace.Http.Context.{header_line, on_body, on_empty_line, on_headers, on_request_line}
use workplace.Http.Context.{parse_request, process_method, process_request_line, process_target}
use workplace.Http.Context.{processed, round, set_target, set_version, stoi, to_uint64, version_of}
use workplace.Http.Context.{wants_body, with_length}
use workplace.Http.Request.{HttpRequest, add_header, get_header, is_empty, is_invalid, is_options}
use workplace.Http.Request.{method_of, set_method, set_path, set_query_path_parameters}

-- What a request line leaves has another method.
abbrev Quiet : LineResult → Type 0
Quiet failed_assertion = Unit
Quiet (processed ok r) = is_options r.method ≡ false

method_of-options : (m : Text) → is_options (method_of m) ≡ false
method_of-options m = ground arith

set_query-method : (r : HttpRequest) (t : Text) → (set_query_path_parameters r t).method ≡ r.method
unfolding set_query_path_parameters
set_query-method r t = elim (Bool-cases (is_empty t)) [ inl e ↦ rw e refl | inr e ↦ rw e refl ]

set_target-method : (r : HttpRequest) (t : Text) → (set_target r t).method ≡ r.method
unfolding set_target
set_target-method r t = elim (Option-cases (cut b'?' t)) [
  | inl e ↦ rw (e, set_target) refl
  | inr ((path, args), e) ↦ rw (e, set_target) (set_query-method (set_path r path) args)
]

set_version-Quiet :
    (r : HttpRequest) (t : Text) → is_options r.method ≡ false → Quiet (set_version r t)
unfolding set_version
set_version-Quiet r t h = elim (Option-cases (version_of t)) [
  | inl e ↦ rw (e, set_version) h
  | inr (v, e) ↦ rw (e, set_version) h
]

process_target-Quiet :
    (r : HttpRequest) (t : Text) → is_options r.method ≡ false → Quiet (process_target r t)
unfolding process_target
process_target-Quiet r t h = elim (Option-cases (cut b' ' t)) [
  | inl e ↦ rw (e, process_target) h
  | inr ((target, v), e) ↦
      rw (e, process_target)
        (set_version-Quiet (set_target r target) v (ap is_options (set_target-method r target) ∙ h))
]

process_method-Quiet :
    (r : HttpRequest) (m rest : Text) → Quiet (process_method (set_method r m) rest)
unfolding process_method set_method
process_method-Quiet r m rest = elim (Bool-cases (is_invalid r.method)) [
  | inr e ↦ rw e tt
  | inl e ↦ elim (Bool-cases (not (is_invalid (method_of m)))) [
    | inl v ↦
        rw (e, v)
          (process_target-Quiet (record r { method = method_of m }) rest (method_of-options m))
    | inr v ↦ rw (e, v) (method_of-options m)
  ]
]

process_request_line-Quiet :
    (r : HttpRequest) (line : Text)
    → is_options r.method ≡ false
    → Quiet (process_request_line r line)
unfolding process_request_line
process_request_line-Quiet r line h = elim (Option-cases (cut b' ' line)) [
  | inl e ↦ rw (e, process_request_line) h
  | inr ((m, rest), e) ↦ rw (e, process_request_line) (process_method-Quiet r m rest)
]

module _ (B : Buffer) (time : ℕ) where
  abbrev pub Keeps : (HttpContext → B.Buf → Parsed B) → Type 0
  Keeps again =
      (c : HttpContext) (b : B.Buf)
      → is_options c.request.method ≡ false
      → is_options (again c b).context.request.method ≡ false

  module _ (again : HttpContext → B.Buf → Parsed B) (later : Keeps again) (c : HttpContext)
      (b : B.Buf) (quiet : is_options c.request.method ≡ false) where
    after_line-Quiet :
        (n : ℕ) (l : LineResult)
        → Quiet l
        → is_options (after_line B again time l c b n).context.request.method ≡ false
    unfolding after_line
    after_line-Quiet n failed_assertion q = quiet
    after_line-Quiet n (processed false r) q = q
    after_line-Quiet n (processed true r) q = later _ _ q

    on_request_line-Quiet :
        is_options (on_request_line B again time c b).context.request.method ≡ false
    unfolding on_request_line
    on_request_line-Quiet = elim (Option-cases (B.find_crlf b)) [
      | inl waits ↦ rw (waits, on_request_line) quiet
      | inr (n, e) ↦
          rw (e, on_request_line)
            (after_line-Quiet n _ (process_request_line-Quiet c.request (take n (B.bytes b)) quiet))
    ]

    with_length-Quiet :
        (n : ℕ) (z : Option ℤ)
        → is_options (with_length B again time z c b n).context.request.method ≡ false
    unfolding with_length
    with_length-Quiet n none = quiet
    with_length-Quiet n (some z) = elim (Bool-cases (ltb 0 (to_uint64 z))) [
      | inl body ↦ rw body (later _ _ quiet)
      | inr bare ↦ rw bare quiet
    ]

    on_empty_line-Quiet :
        (n : ℕ) → is_options (on_empty_line B again time c b n).context.request.method ≡ false
    unfolding on_empty_line
    on_empty_line-Quiet n =
        let length_text = get_header c.request (codes "Content-Length") in
        elim (Bool-cases (wants_body c.request.method)) [
          | inr bare ↦ rw bare quiet
          | inl body ↦ elim (Bool-cases (not (is_empty length_text))) [
            | inr missing ↦ rw (body, missing) quiet
            | inl given ↦ rw (body, given) (with_length-Quiet n (stoi length_text))
          ]
        ]

    header_line-Quiet :
        (n : ℕ) (line : Text)
        → is_options (header_line B again time line c b n).context.request.method ≡ false
    unfolding header_line add_header
    header_line-Quiet n line = elim (Option-cases (cut b':' line)) [
      | inl no_colon ↦ elim (Bool-cases (is_empty line)) [
        | inl empty_line ↦ rw (no_colon, header_line, empty_line) (on_empty_line-Quiet n)
        | inr bad ↦ rw (no_colon, header_line, bad) quiet
      ]
      | inr ((field, rest), found) ↦ rw (found, header_line) (later _ _ quiet)
    ]

    on_headers-Quiet : is_options (on_headers B again time c b).context.request.method ≡ false
    unfolding on_headers
    on_headers-Quiet = elim (Option-cases (B.find_crlf b)) [
      | inl waits ↦ rw (waits, on_headers) quiet
      | inr (n, e) ↦ rw (e, on_headers) (header_line-Quiet n _)
    ]

    on_body-Quiet : is_options (on_body B again time c b).context.request.method ≡ false
    unfolding on_body
    on_body-Quiet = elim (Bool-cases (ltb (length (B.bytes b)) c.request.content_length)) [
      | inl waits ↦ rw waits quiet
      | inr read ↦ rw read quiet
    ]

    round-Quiet :
        (s : ParseState) → is_options (round B again time s c b).context.request.method ≡ false
    unfolding round
    round-Quiet expect_request_line = on_request_line-Quiet
    round-Quiet expect_headers = on_headers-Quiet
    round-Quiet expect_body = on_body-Quiet
    round-Quiet got_all = later c b quiet

  -- The parser keeps every method but OPTIONS away from OPTIONS.
  pub parse_request-Keeps : (fuel : ℕ) → Keeps (parse_request B fuel time)
  unfolding parse_request
  parse_request-Keeps zero c b h = h
  parse_request-Keeps (suc fuel) c b h =
      round-Quiet (parse_request B fuel time) (parse_request-Keeps fuel) c b h c.state
