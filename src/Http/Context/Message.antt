-- ===== src/Http/Context/Message.antt =====
-- The parser on whole messages.
use workplace.Common.{All, List, [], ap, arith, drop, drop-append, false, length, length-append}
use workplace.Common.{some, suc, true, ℕ, ◌++◌, ◌+◌, ◌<◌, ◌∙◌, ◌∷◌, ◌≡◌, ◌≤◌}
use workplace.Common.Int.{pos}
use workplace.Common.Text.{Lacks, Text, codes, cut-append, cut-none}
use workplace.Http.Buffer.{Buffer, BufferLaws, crlf}
use workplace.Http.Context.{expect_headers, got_all, new_context, parse_request, process_method}
use workplace.Http.Context.{process_request_line, process_target, processed, returns, set_target}
use workplace.Http.Context.{set_version, stoi, version_of, wants_body}
use workplace.Http.Context.Roundtrip.{PlainHeader, bare_step, behind, body_step, headers_step}
use workplace.Http.Context.Roundtrip.{print_headers, print_line, request_line_step}
use workplace.Http.Request.{HttpRequest, get_header, is_empty, is_invalid, method_of, new_request}
use workplace.Http.Request.{set_method, set_path}
use workplace.Http.Request.Query.{Plain, insert_all, print_pairs, set_query-print}

-- A request as a client means it.
pub record Message : Type 0 where
  pub name : Text
  pub path : Text
  pub query : List (Text × Text)
  pub version : Text
  pub headers : List (Text × Text)

abbrev pub print_target : Text → List (Text × Text) → Text
print_target path [] = path
print_target path (p ∷ ps) = path ++ b'?' ∷ print_pairs (p ∷ ps)

abbrev pub first_line : Message → Text
first_line m = print_line m.name (print_target m.path m.query) m.version

-- The message, followed by its body and by whatever comes next on the connection.
abbrev pub print_message : Message → Text → Text
print_message m rest = first_line m ++ (crlf ++ print_headers m.headers rest)

-- A message that can be written: a known method and version, and no separator inside a part.
pub record Writable (m : Message) : Type 0 where
  pub method_known : is_invalid (method_of m.name) ≡ false
  pub version_known : version_of m.version ≡ some m.version
  pub name_plain : Lacks b' ' m.name
  pub target_plain : Lacks b' ' (print_target m.path m.query)
  pub path_plain : Lacks b'?' m.path
  pub query_plain : All Plain m.query
  pub line_plain : Lacks 13 (first_line m)
  pub headers_plain : All PlainHeader m.headers

-- The request that the message stands for.
abbrev pub received : Message → ℕ → HttpRequest
received m time = record new_request {
  method = method_of m.name;
  version = m.version;
  path = m.path;
  query_parameters = insert_all m.query [];
  headers = insert_all m.headers [];
  receive_time = time;
}

set_target-print :
    (r : HttpRequest) (path : Text) (ps : List (Text × Text))
    → Lacks b'?' path
    → All Plain ps
    → set_target r (print_target path ps)
      ≡ record r { path = path; query_parameters = insert_all ps r.query_parameters }
unfolding set_target insert_all
set_target-print r path [] h k = rw (cut-none b'?' path h, set_target)
set_target-print r path (p ∷ ps) h k =
    rw (cut-append b'?' path (print_pairs (p ∷ ps)) h, set_target)
      (set_query-print (set_path r path) p ps k)

target-print :
    (r : HttpRequest) (m : Message)
    → Writable m
    → process_target r (print_target m.path m.query ++ b' ' ∷ m.version)
      ≡ processed true (record r {
        version = m.version;
        path = m.path;
        query_parameters = insert_all m.query r.query_parameters;
      })
unfolding process_target set_version
target-print r m w =
    rw (cut-append b' ' (print_target m.path m.query) m.version w.target_plain, process_target)
      (rw (w.version_known, set_version)
        (ap (λ (q : HttpRequest). processed true (record q { version = m.version }))
          (set_target-print r m.path m.query w.path_plain w.query_plain)))

pub line-print :
    (m : Message)
    → Writable m
    → process_request_line new_request (first_line m)
      ≡ processed true (record new_request {
        method = method_of m.name;
        version = m.version;
        path = m.path;
        query_parameters = insert_all m.query [];
      })
unfolding process_request_line process_method set_method
line-print m w =
    rw
      (
        cut-append b' ' m.name (print_target m.path m.query ++ b' ' ∷ m.version) w.name_plain,
        process_request_line,
      )
      (rw w.method_known (target-print (record new_request { method = method_of m.name }) m w))

module _ (B : Buffer) (laws : BufferLaws B) (time fuel : ℕ) (m : Message) (w : Writable m) where
  -- The headers behind the first line, from the state that the line leaves.
  after_headers :
      (b : B.Buf) (rest : Text)
      → B.bytes b ≡ print_message m rest
      → (b' : B.Buf) × (B.bytes b' ≡ crlf ++ rest)
        × (parse_request B (suc (length m.headers + fuel)) time new_context b
            ≡ parse_request B fuel time
                (record { state = expect_headers; request = received m time })
                b')
  after_headers b rest e =
      let line = first_line m in
      let start =
        request_line_step B laws time (length m.headers + fuel) new_request _ b line
          (print_headers m.headers rest) w.line_plain e (line-print m w) in
      let (b', left, run) =
        headers_step B laws time fuel m.headers _ (B.retrieve (length line + 2) b) rest
          w.headers_plain (behind B laws b line (print_headers m.headers rest) e) in
      (b', left, start ∙ run)

module _ (B : Buffer) (laws : BufferLaws B) (time fuel : ℕ) (m : Message) (w : Writable m) where
  -- A written message of a method without a body, in one piece and followed by any bytes, is
  -- parsed completely: the parser returns true in the state `kGotAll` with the request that was
  -- meant, and leaves exactly the bytes behind the message. Two rounds more than there are headers
  -- are enough. The buffer behaves as documented.
  pub parse_bare_message :
      (b : B.Buf) (rest : Text)
      → wants_body (method_of m.name) ≡ false
      → B.bytes b ≡ print_message m rest
      → (b' : B.Buf) × (B.bytes b' ≡ rest)
        × (parse_request B (suc (length m.headers + suc fuel)) time new_context b ≡ record {
          outcome = returns true;
          context = record { state = got_all; request = received m time };
          buffer = b';
        })
  parse_bare_message b rest h e =
      let (b', left, run) = after_headers B laws time (suc fuel) m w b rest e in
      (
        B.retrieve 2 b',
        behind B laws b' [] rest left,
        run ∙ bare_step B laws time fuel (received m time) b' rest h left,
      )

  -- A written message of a method with a body, whose `Content-Length` header reads as the length
  -- of its body, which is not empty, is parsed completely, with the body; what follows it on the
  -- connection stays in the buffer. Three rounds more than there are headers are enough. The
  -- buffer behaves as documented.
  pub parse_message :
      (b : B.Buf) (body rest : Text)
      → wants_body (method_of m.name) ≡ true
      → is_empty (get_header (received m time) (codes "Content-Length")) ≡ false
      → stoi (get_header (received m time) (codes "Content-Length")) ≡ some (pos (length body))
      → 0 < length body
      → B.bytes b ≡ print_message m (body ++ rest)
      → (b' : B.Buf) × (B.bytes b' ≡ rest)
        × (parse_request B (suc (length m.headers + suc (suc fuel))) time new_context b ≡ record {
          outcome = returns true;
          context = record {
            state = got_all;
            request = record (received m time) { content_length = length body; content = body };
          };
          buffer = b';
        })
  parse_message b body rest h given len some_body e =
      let (b', left, run) = after_headers B laws time (suc (suc fuel)) m w b (body ++ rest) e in
      let body_left = behind B laws b' [] (body ++ rest) left in
      (
        B.retrieve (length body) (B.retrieve 2 b'),
        laws.retrieved (B.retrieve 2 b') (length body) (fits body_left)
            ∙ ap (drop (length body)) body_left
            ∙ drop-append body rest,
        run ∙ body_step B laws time fuel (received m time) b' body rest h given len some_body left,
      )
    where
      fits : {t : Text} → t ≡ body ++ rest → length body ≤ length t
      fits q = omega (arith, ap length q, length-append body rest)
