-- ===== src/Http/Response/Wire.antt =====
-- The bytes of a response, and the length that is computed for them.
use workplace.Common.{Bool, [], ap, append-nil, append_assoc, arith, false, if◌then◌else◌, length}
use workplace.Common.{length-append, refl, suc, sym, take, true, zero, ℕ, ◌*◌, ◌++◌, ◌+◌, ◌∙◌, ◌∷◌}
use workplace.Common.{◌≡◌, ◌≢◌, ◌≤◌}
use workplace.Common.Text.{Text, TextMap, codes}
use workplace.Http.Buffer.{Buffer, BufferLaws, crlf}
use workplace.Http.Response.{HttpResponse, StatusCode, append_headers, append_to_buffer}
use workplace.Http.Response.{bad_request_400, code_of, conflict_409, connection_line, decimal}
use workplace.Http.Response.{decimal_from, forbidden_403, get_content_length, header_lengths}
use workplace.Http.Response.{moved_301, no_content_204, not_found_404, ok_200, server_error_500}
use workplace.Http.Response.{status_start, unauthorized_401, unknown}

-- The header lines as one text.
unfoldable pub header_text : TextMap → Text
header_text [] = []
header_text ((key, value) ∷ hs) = key ++ (codes ": " ++ (value ++ (crlf ++ header_text hs)))

-- The whole response as one text: the status code and the message stand side by side.
abbrev pub response_text : HttpResponse → Text
response_text r =
    status_start r
    ++ (r.status_message
        ++ (crlf
            ++ (connection_line r.close_connection ++ (header_text r.headers ++ (crlf ++ r.body)))))

module _ (B : Buffer) (laws : BufferLaws B) where
  append_headers_lem :
      (hs : TextMap) (b : B.Buf) → B.bytes (append_headers B hs b) ≡ B.bytes b ++ header_text hs
  unfolding append_headers header_text
  append_headers_lem [] b = sym (append-nil (B.bytes b))
  append_headers_lem ((key, value) ∷ hs) b =
      append_headers_lem hs _ ∙ simp (laws.appended, append_assoc)

  -- `appendToBuffer` writes this text behind what the buffer holds: the version, a space and the
  -- code, cut to 31 characters, then the message with no space before it, the connection line, the
  -- headers in the order of their keys, an empty line and the body. The buffer behaves as
  -- documented.
  pub append_to_buffer_lem :
      (r : HttpResponse) (b : B.Buf)
      → B.bytes (append_to_buffer B r b) ≡ B.bytes b ++ response_text r
  unfolding append_to_buffer
  append_to_buffer_lem r b = simp (laws.appended, append_headers_lem, append_assoc)

length-header_text :
    (hs : TextMap) (n : ℕ) → length (header_text hs) + n ≡ header_lengths hs n + 2 * length hs
unfolding header_text header_lengths
length-header_text [] n = omega arith
length-header_text ((key, value) ∷ hs) n =
    let rest = value ++ (crlf ++ header_text hs) in
    omega (
      arith,
      length-append key (codes ": " ++ rest),
      length-append value (crlf ++ header_text hs),
      length-header_text hs (n + (length key + 1 + length value + 1)),
    )

length-status : (c : StatusCode) → c ≢ unknown → length (decimal (code_of c)) ≡ 3
unfolding decimal decimal_from
length-status unknown h = absurd (h refl)
length-status ok_200 h = refl
length-status no_content_204 h = refl
length-status moved_301 h = refl
length-status bad_request_400 h = refl
length-status unauthorized_401 h = refl
length-status forbidden_403 h = refl
length-status not_found_404 h = refl
length-status conflict_409 h = refl
length-status server_error_500 h = refl

-- What a closing or a kept connection writes, and `getContentLength` does not count.
abbrev pub connection_length : Bool → ℕ
connection_length close = if close then 19 else 24

length-connection : (close : Bool) → length (connection_line close) ≡ connection_length close
length-connection true = refl
length-connection false = refl

length-take : (n : ℕ) (t : Text) → length t ≤ n → take n t ≡ t
length-take zero [] h = refl
length-take zero (c ∷ t) h = absurd (omega arith)
length-take (suc n) [] h = refl
length-take (suc n) (c ∷ t) h = ap (λ l. c ∷ l) (length-take n t (omega arith))

length-start :
    (r : HttpResponse)
    → length r.http_version ≤ 27
    → r.status_code ≢ unknown
    → length (status_start r) ≡ length r.http_version + 4
length-start r short known =
    let number = decimal (code_of r.status_code) in
    let size : length (r.http_version ++ b' ' ∷ number) ≡ length r.http_version + 4 =
      omega
        (arith, length-append r.http_version (b' ' ∷ number), length-status r.status_code known) in
    ap length (length-take 31 (r.http_version ++ b' ' ∷ number) (omega (arith, size))) ∙ size

length-behind :
    (r : HttpResponse)
    → length (response_text r)
      ≡ length (status_start r)
        + (length r.status_message
            + (2
                + (connection_length r.close_connection
                    + (length (header_text r.headers) + (2 + length r.body)))))
length-behind r =
    let ending = crlf ++ r.body in
    let headers = header_text r.headers ++ ending in
    let connection = connection_line r.close_connection ++ headers in
    let message = r.status_message ++ (crlf ++ connection) in
    omega (
      arith,
      length-append (status_start r) message,
      length-append r.status_message (crlf ++ connection),
      length-append (connection_line r.close_connection) headers,
      length-append (header_text r.headers) ending,
      length-connection r.close_connection,
    )

get_content_length_lem :
    (r : HttpResponse)
    → length r.http_version ≤ 27
    → r.status_code ≢ unknown
    → length (response_text r)
      ≡ get_content_length r + 1 + 2 * length r.headers + connection_length r.close_connection
unfolding get_content_length
get_content_length_lem r short known = omega (
  arith,
  length-behind r,
  length-start r short known,
  length-header_text r.headers (length r.http_version + 1 + length r.status_message + 1 + 4 + 1),
)

-- `getContentLength` is smaller than the number of bytes that `appendToBuffer` adds to a buffer, by
-- one, by two for every header, and by the whole connection line, which has 19 bytes on a connection
-- that closes and else 24. The version has at most 27 characters, the status code is set, and the
-- buffer behaves as documented.
pub length-append_to_buffer :
    (B : Buffer) (laws : BufferLaws B) (r : HttpResponse) (b : B.Buf)
    → length r.http_version ≤ 27
    → r.status_code ≢ unknown
    → length (B.bytes (append_to_buffer B r b))
      ≡ length (B.bytes b)
        + (get_content_length r + 1 + 2 * length r.headers + connection_length r.close_connection)
length-append_to_buffer B laws r b short known =
    ap length (append_to_buffer_lem B laws r b)
    ∙ length-append (B.bytes b) (response_text r)
    ∙ ap (λ n. length (B.bytes b) + n) (get_content_length_lem r short known)
