-- ===== src/Http/Response.antt =====
-- `HttpResponse`: include/http/HttpResponse.h and src/http/HttpResponse.cpp.
pub mod Wire
use workplace.Common.{Bool, [], if◌then◌else◌, length, ltb, suc, take, zero, ℕ, ◌%◌, ◌++◌, ◌+◌, ◌/◌}
use workplace.Common.{◌∷◌}
use workplace.Common.Text.{Text, TextMap, codes, insert}
use workplace.Http.Buffer.{Buffer, crlf}

pub data StatusCode : Type 0 where
  unknown ok_200 no_content_204 moved_301 bad_request_400 unauthorized_401 : StatusCode
  forbidden_403 not_found_404 conflict_409 server_error_500 : StatusCode

-- The numbers of the enumeration.
abbrev pub code_of : StatusCode → ℕ
code_of unknown = 0
code_of ok_200 = 200
code_of no_content_204 = 204
code_of moved_301 = 301
code_of bad_request_400 = 400
code_of unauthorized_401 = 401
code_of forbidden_403 = 403
code_of not_found_404 = 404
code_of conflict_409 = 409
code_of server_error_500 = 500

-- `isFile_` is neither set nor read, and left out.
pub record HttpResponse : Type 0 where
  pub status_code : StatusCode
  pub status_message : Text
  pub http_version : Text
  pub headers : TextMap
  pub body : Text
  pub close_connection : Bool

-- The constructor.
abbrev pub new_response : Bool → HttpResponse
new_response close = record {
  status_code = unknown;
  status_message = [];
  http_version = [];
  headers = [];
  body = [];
  close_connection = close;
}

-- Decimal digits, most significant first, as `std::to_string` and `%d` write a number.
unfoldable pub decimal_from : ℕ → ℕ → Text → Text
decimal_from zero n acc = acc
decimal_from (suc fuel) n acc =
    let more = decimal_from fuel (n / 10) ((b'0' + n % 10) ∷ acc) in
    if ltb n 10 then (b'0' + n) ∷ acc else more

unfoldable pub decimal : ℕ → Text
unfolding decimal_from
decimal n = decimal_from (suc n) n []

abbrev pub set_response_version : HttpResponse → Text → HttpResponse
set_response_version r version = record r { http_version = version }

abbrev pub set_status_code : HttpResponse → StatusCode → HttpResponse
set_status_code r code = record r { status_code = code }

abbrev pub set_status_message : HttpResponse → Text → HttpResponse
set_status_message r message = record r { status_message = message }

abbrev pub set_close_connection : HttpResponse → Bool → HttpResponse
set_close_connection r on = record r { close_connection = on }

abbrev pub set_response_body : HttpResponse → Text → HttpResponse
set_response_body r body = record r { body = body }

abbrev pub add_response_header : HttpResponse → Text → Text → HttpResponse
add_response_header r key value = record r { headers = insert key value r.headers }

abbrev pub set_content_length : HttpResponse → ℕ → HttpResponse
set_content_length r n = add_response_header r (codes "Content-Length") (decimal n)

abbrev pub set_content_type : HttpResponse → Text → HttpResponse
set_content_type r t = add_response_header r (codes "Content-Type") t

abbrev pub set_status_line : HttpResponse → StatusCode → Text → Text → HttpResponse
set_status_line r code message version = record r {
  http_version = version;
  status_code = code;
  status_message = message;
}

-- `snprintf(buf, sizeof(buf), "%s %d", …)` into 32 characters, the last of which is NUL.
abbrev pub status_start : HttpResponse → Text
status_start r = take 31 (r.http_version ++ b' ' ∷ decimal (code_of r.status_code))

abbrev pub connection_line : Bool → Text
connection_line close =
    if close then codes "Connection: close" ++ crlf else codes "Connection: Keep-Alive" ++ crlf

module _ (B : Buffer) where
  append_headers : TextMap → B.Buf → B.Buf
  append_headers [] b = b
  append_headers ((key, value) ∷ hs) b =
      append_headers hs (B.append (B.append (B.append (B.append b key) (codes ": ")) value) crlf)

  -- `appendToBuffer`, one `append` after another.
  unfoldable pub append_to_buffer : HttpResponse → B.Buf → B.Buf
  unfolding append_headers
  append_to_buffer r b =
      let line = B.append (B.append (B.append b (status_start r)) r.status_message) crlf in
      let connection = B.append line (connection_line r.close_connection) in
      B.append (B.append (append_headers r.headers connection) crlf) r.body

-- `getContentLength`.
header_lengths : TextMap → ℕ → ℕ
header_lengths [] n = n
header_lengths ((key, value) ∷ hs) n = header_lengths hs (n + (length key + 1 + length value + 1))

unfoldable pub get_content_length : HttpResponse → ℕ
unfolding header_lengths
get_content_length r =
    header_lengths r.headers (length r.http_version + 1 + length r.status_message + 1 + 4 + 1)
    + length r.body
