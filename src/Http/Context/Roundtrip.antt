-- ===== src/Http/Context/Roundtrip.antt =====
-- A request that is written out by the rules of the protocol is parsed back.
use workplace.Common.{All, List, [], ap, arith, drop, false, length, length-append, ltb, lt→ltb}
use workplace.Common.{refl, some, subst, suc, sym, take, take-append, true, ℕ, ◌++◌, ◌+◌, ◌<◌, ◌∙◌}
use workplace.Common.{◌∷◌, ◌≡◌, ◌≤◌}
use workplace.Common.Int.{pos}
use workplace.Common.Text.{Lacks, Text, codes, cut, cut-append, insert}
use workplace.Http.Buffer.{Buffer, BufferLaws, crlf}
use workplace.Http.Context.{after_line, expect_headers, expect_request_line, got_all, header_line}
use workplace.Http.Context.{on_body, on_empty_line, on_headers, on_request_line, parse_request}
use workplace.Http.Context.{process_request_line, processed, returns, round, stoi, wants_body}
use workplace.Http.Context.{with_length}
use workplace.Http.Request.{HttpRequest, get_header, is_empty}
use workplace.Http.Request.Query.{Trimmed, add_header-print, insert_all}

-- "METHOD TARGET VERSION", one header line, and the header lines with the empty line.
abbrev pub print_line : Text → Text → Text → Text
print_line method target version = method ++ b' ' ∷ (target ++ b' ' ∷ version)

abbrev pub print_header : Text × Text → Text
print_header (field, value) = field ++ b':' ∷ b' ' ∷ value

unfoldable pub print_headers : List (Text × Text) → Text → Text
print_headers [] rest = crlf ++ rest
print_headers (h ∷ hs) rest = print_header h ++ (crlf ++ print_headers hs rest)

-- A header that can be written: no line end in the line, no colon in the field, and no space at
-- an end of the value.
abbrev pub PlainHeader : Text × Text → Type 0
PlainHeader h = Lacks 13 (print_header h) × Lacks b':' h.0 × Trimmed h.1

drop_line : (line rest : Text) → drop (length line + 2) (line ++ (crlf ++ rest)) ≡ rest
drop_line [] rest = refl
drop_line (c ∷ line) rest =
    let e : suc (length line) + 2 ≡ suc (length line + 2) = omega arith in
    rw e (drop_line line rest)

length-line : (line rest : Text) → length line + 2 ≤ length (line ++ (crlf ++ rest))
length-line [] rest = omega arith
length-line (c ∷ line) rest = omega (arith, length-line line rest)

not_shorter :
    (bytes body rest : Text) → bytes ≡ body ++ rest → ltb (length bytes) (length body) ≡ false
not_shorter bytes body rest e =
    let size : length bytes ≡ length body + length rest = ap length e ∙ length-append body rest in
    ground arith

module _ (B : Buffer) (laws : BufferLaws B) where
  -- What stays in the buffer behind a line.
  pub behind :
      (b : B.Buf) (line rest : Text)
      → B.bytes b ≡ line ++ (crlf ++ rest)
      → B.bytes (B.retrieve (length line + 2) b) ≡ rest
  behind b line rest e =
      laws.retrieved b (length line + 2)
        (subst (λ t. length line + 2 ≤ length t) (sym e) (length-line line rest))
      ∙ ap (drop (length line + 2)) e
      ∙ drop_line line rest

  line_read :
      (b : B.Buf) (line rest : Text)
      → B.bytes b ≡ line ++ (crlf ++ rest)
      → take (length line) (B.bytes b) ≡ line
  line_read b line rest e = ap (take (length line)) e ∙ take-append line (crlf ++ rest)

  module _ (time : ℕ) where
    pub request_line_step :
        (fuel : ℕ) (r r' : HttpRequest) (b : B.Buf) (line rest : Text)
        → Lacks 13 line
        → B.bytes b ≡ line ++ (crlf ++ rest)
        → process_request_line r line ≡ processed true r'
        → parse_request B (suc fuel) time (record { state = expect_request_line; request = r }) b
          ≡ parse_request B fuel time
              (record { state = expect_headers; request = record r' { receive_time = time } })
              (B.retrieve (length line + 2) b)
    unfolding parse_request round on_request_line after_line
    request_line_step fuel r r' b line rest h e p =
        rw (laws.finds b line rest h e, on_request_line)
          (rw (line_read b line rest e) (rw (p, after_line)))

    header_step :
        (fuel : ℕ) (r : HttpRequest) (b : B.Buf) (field value rest : Text)
        → PlainHeader (field, value)
        → B.bytes b ≡ print_header (field, value) ++ (crlf ++ rest)
        → parse_request B (suc fuel) time (record { state = expect_headers; request = r }) b
          ≡ parse_request B fuel time
              (record {
                state = expect_headers;
                request = record r { headers = insert field value r.headers };
              })
              (B.retrieve (length (print_header (field, value)) + 2) b)
    unfolding parse_request round on_headers header_line
    header_step fuel r b field value rest h e =
        let line = print_header (field, value) in
        rw (laws.finds b line rest h.0 e, on_headers)
          (rw (line_read b line rest e) (
            rw (cut-append b':' field (b' ' ∷ value) h.1, header_line)
              (rw (add_header-print r field value h.2))))

    pub headers_step :
        (fuel : ℕ) (hs : List (Text × Text)) (r : HttpRequest) (b : B.Buf) (rest : Text)
        → All PlainHeader hs
        → B.bytes b ≡ print_headers hs rest
        → (b' : B.Buf) × (B.bytes b' ≡ crlf ++ rest)
          × (parse_request B
                (length hs + fuel)
                time
                (record { state = expect_headers; request = r })
                b
              ≡ parse_request B fuel time
                  (record {
                    state = expect_headers;
                    request = record r { headers = insert_all hs r.headers };
                  })
                  b')
    unfolding print_headers insert_all
    headers_step fuel [] r b rest hs e = let z : 0 + fuel ≡ fuel = omega arith in (b, e, rw z)
    headers_step fuel ((field, value) ∷ hs) r b rest h e =
        let line = print_header (field, value) in
        let (b', left, run) =
          headers_step fuel hs (record r { headers = insert field value r.headers })
            (B.retrieve (length line + 2) b) rest h.1 (behind b line (print_headers hs rest) e) in
        (
          b',
          left,
          let z : suc (length hs) + fuel ≡ suc (length hs + fuel) = omega arith in
              rw z (
                header_step (length hs + fuel) r b field value (print_headers hs rest) h.0 e ∙ run),
        )

    -- The empty line of a request with no body.
    pub bare_step :
        (fuel : ℕ) (r : HttpRequest) (b : B.Buf) (rest : Text)
        → wants_body r.method ≡ false
        → B.bytes b ≡ crlf ++ rest
        → parse_request B (suc fuel) time (record { state = expect_headers; request = r }) b
          ≡ record {
            outcome = returns true;
            context = record { state = got_all; request = r };
            buffer = B.retrieve 2 b;
          }
    unfolding parse_request round on_headers header_line on_empty_line cut
    bare_step fuel r b rest h e = rw (laws.finds b [] rest tt e, on_headers) (rw h)

    -- The empty line of a request with a body, and the body.
    pub body_step :
        (fuel : ℕ) (r : HttpRequest) (b : B.Buf) (body rest : Text)
        → wants_body r.method ≡ true
        → is_empty (get_header r (codes "Content-Length")) ≡ false
        → stoi (get_header r (codes "Content-Length")) ≡ some (pos (length body))
        → 0 < length body
        → B.bytes b ≡ crlf ++ (body ++ rest)
        → parse_request B (suc (suc fuel)) time (record { state = expect_headers; request = r }) b
          ≡ record {
            outcome = returns true;
            context = record {
              state = got_all;
              request = record r { content_length = length body; content = body };
            };
            buffer = B.retrieve (length body) (B.retrieve 2 b);
          }
    unfolding parse_request round on_headers header_line on_empty_line with_length on_body cut
    body_step fuel r b body rest h given len some_body e =
        let left = behind b [] (body ++ rest) e in
        let read : take (length body) (B.bytes (B.retrieve 2 b)) ≡ body =
          ap (take (length body)) left ∙ take-append body rest in
        let nonzero = lt→ltb 0 (length body) some_body in
        let complete : ltb (length (B.bytes (B.retrieve 2 b))) (length body) ≡ false =
          not_shorter (B.bytes (B.retrieve 2 b)) body rest left in
        rw (laws.finds b [] (body ++ rest) tt e, on_headers)
          (rw (h, given) (rw (len, with_length) (rw nonzero (rw (complete, read)))))
