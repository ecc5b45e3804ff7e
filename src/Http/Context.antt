-- ===== src/Http/Context.antt =====
-- `HttpContext`: include/http/HttpContext.h and src/http/HttpContext.cpp, the incremental parser of
-- a request. It reads from a buffer of the network library.
pub mod Progress
pub mod Roundtrip
pub mod Message
pub mod Reuse
pub mod Stoi
pub mod Methods
use workplace.Common.{Bool, Option, [], drop, false, if◌then◌else◌, leb, length, ltb, none, not}
use workplace.Common.{some, suc, take, true, zero, ℕ, ◌&&◌, ◌*◌, ◌+◌, ◌-◌, ◌==◌, ◌^◌, ◌∷◌}
use workplace.Common.Int.{negsuc, pos, sub_ℕ, ℤ}
use workplace.Common.Text.{Text, codes, cut, skip_space, text_eq}
use workplace.Http.Buffer.{Buffer}
use workplace.Http.Request.{HttpRequest, Method, add_header, get_header, is_empty, new_request}
use workplace.Http.Request.{post, put, set_method, set_path, set_query_path_parameters}
use workplace.Http.Request.{set_receive_time, set_request_body, set_request_length}
use workplace.Http.Request.{set_request_version, swap}

pub data ParseState : Type 0 where
  expect_request_line expect_headers expect_body got_all : ParseState

pub record HttpContext : Type 0 where
  pub state : ParseState
  pub request : HttpRequest

abbrev pub new_context : HttpContext
new_context = record { state = expect_request_line; request = new_request }

-- `reset`: only what `swap` exchanges is cleared.
unfoldable pub reset : HttpContext → HttpContext
unfolding swap
reset c = record { state = expect_request_line; request = (swap c.request new_request).0 }

-- What `processRequestLine` does: a failed assertion, or its result and the request as it leaves it.
pub data LineResult : Type 0 where
  failed_assertion : LineResult
  processed : Bool → HttpRequest → LineResult

-- The check of the protocol version: eight characters, "HTTP/1." and then 1 or 0.
unfoldable pub version_of : Text → Option Text
version_of v =
    if length v == 8 && text_eq (take 7 v) (codes "HTTP/1.")
    then (if text_eq (drop 7 v) (codes "1")
        then some (codes "HTTP/1.1")
        else if text_eq (drop 7 v) (codes "0")
        then some (codes "HTTP/1.0")
        else none)
    else none

unfoldable pub set_target : HttpRequest → Text → HttpRequest
set_target r target = elim (cut b'?' target) [
  | none ↦ set_path r target
  | some (path, args) ↦ set_query_path_parameters (set_path r path) args
]

unfoldable pub set_version : HttpRequest → Text → LineResult
set_version r text = elim (version_of text) [
  | none ↦ processed false r
  | some version ↦ processed true (set_request_version r version)
]

unfoldable pub process_target : HttpRequest → Text → LineResult
unfolding set_version
process_target r rest = elim (cut b' ' rest) [
  | none ↦ processed false r
  | some (target, version) ↦ set_version (set_target r target) version
]

unfoldable pub process_method : Option (HttpRequest × Bool) → Text → LineResult
unfolding process_target
process_method none rest = failed_assertion
process_method (some (r, valid)) rest = if valid then process_target r rest else processed false r

-- `processRequestLine`; its pointers are never null, and in order.
unfoldable pub process_request_line : HttpRequest → Text → LineResult
unfolding process_method set_method set_query_path_parameters
process_request_line r line = elim (cut b' ' line) [
  | none ↦ processed false r
  | some (method, rest) ↦ process_method (set_method r method) rest
]

-- `std::stoi`: spaces, a sign, decimal digits; `none` is the exception for no digits or for a
-- number that is no `int`.
abbrev is_digit : ℕ → Bool
is_digit c = leb b'0' c && leb c b'9'

unfoldable pub digits : ℕ → Text → ℕ
digits acc [] = acc
digits acc (c ∷ s) = let rest = digits (10 * acc + (c - b'0')) s in if is_digit c then rest else acc

unfoldable pub starts_with_digit : Text → Bool
starts_with_digit [] = false
starts_with_digit (c ∷ s) = is_digit c

abbrev signed : Bool → ℕ → Option ℤ
signed negative n =
    if negative
    then (if leb n 2147483648 then some (sub_ℕ 0 n) else none)
    else if ltb n 2147483648
    then some (pos n)
    else none

unfoldable pub number : Bool → Text → Option ℤ
unfolding digits starts_with_digit
number negative s = if starts_with_digit s then signed negative (digits 0 s) else none

unfoldable pub unsigned_part : Text → Option ℤ
unfolding number
unsigned_part [] = none
unsigned_part (c ∷ s) =
    if c == b'-' then number true s else if c == b'+' then number false s else number false (c ∷ s)

unfoldable pub stoi : Text → Option ℤ
unfolding unsigned_part skip_space
stoi s = unsigned_part (skip_space s)

-- The conversion of an `int` to `uint64_t`.
abbrev pub to_uint64 : ℤ → ℕ
to_uint64 (pos n) = n
to_uint64 (negsuc n) = 2 ^ 64 - 1 - n

-- How a call of `parseRequest` ends: it returns, an exception of `stoi` leaves it, an assertion
-- fails, or it is still running when the rounds of the model are used up.
pub data Outcome : Type 0 where
  returns : Bool → Outcome
  throws aborts running : Outcome

-- The methods whose request has a body.
abbrev pub wants_body : Method → Bool
wants_body post = true
wants_body put = true
wants_body _ = false

module _ (B : Buffer) where
  open B use {Buf, bytes, retrieve, find_crlf}

  pub record Parsed : Type 0 where
    pub outcome : Outcome
    pub context : HttpContext
    pub buffer : Buf

  abbrev ends : Outcome → HttpContext → Buf → Parsed
  ends o c b = record { outcome = o; context = c; buffer = b }

  module _ (again : HttpContext → Buf → Parsed) (time : ℕ) where
    -- The branch of `kExpectRequestLine`.
    after_line : LineResult → HttpContext → Buf → ℕ → Parsed
    after_line failed_assertion c b n = ends aborts c b
    after_line (processed ok r) c b n =
        let next =
          again (record { state = expect_headers; request = set_receive_time r time })
            (retrieve (n + 2) b) in
        if ok then next else ends (returns false) (record c { request = r }) b

    unfoldable pub on_request_line : HttpContext → Buf → Parsed
    unfolding after_line
    on_request_line c b = elim (find_crlf b) [
      | none ↦ ends (returns true) c b
      | some n ↦ after_line (process_request_line c.request (take n (bytes b))) c b n
    ]

    -- The empty line of a request with a body: the exception leaves the line in the buffer.
    with_length : Option ℤ → HttpContext → Buf → ℕ → Parsed
    with_length none c b n = ends throws c b
    with_length (some z) c b n =
        let r = set_request_length c.request (to_uint64 z) in
        let body = again (record { state = expect_body; request = r }) (retrieve (n + 2) b) in
        if ltb 0 (to_uint64 z)
        then body
        else ends (returns true) (record { state = got_all; request = r }) (retrieve (n + 2) b)

    on_empty_line : HttpContext → Buf → ℕ → Parsed
    unfolding with_length stoi
    on_empty_line c b n =
        if wants_body c.request.method
        then (if not (is_empty (get_header c.request (codes "Content-Length")))
            then with_length (stoi (get_header c.request (codes "Content-Length"))) c b n
            else ends (returns false) c (retrieve (n + 2) b))
        else ends (returns true) (record c { state = got_all }) (retrieve (n + 2) b)

    -- The branch of `kExpectHeaders`, for one line.
    header_line : Text → HttpContext → Buf → ℕ → Parsed
    unfolding on_empty_line
    header_line line c b n = elim (cut b':' line) [
      | some (field, rest) ↦
          again (record c { request = add_header c.request field rest }) (retrieve (n + 2) b)
      | none ↦
          if is_empty line then on_empty_line c b n else ends (returns false) c (retrieve (n + 2) b)
    ]

    unfoldable pub on_headers : HttpContext → Buf → Parsed
    unfolding header_line
    on_headers c b = elim (find_crlf b) [
      | none ↦ ends (returns true) c b
      | some n ↦ header_line (take n (bytes b)) c b n
    ]

    -- The branch of `kExpectBody`.
    unfoldable pub on_body : HttpContext → Buf → Parsed
    on_body c b =
        let n = c.request.content_length in
        if ltb (length (bytes b)) n
        then ends (returns true) c b
        else ends (returns true)
            (record { state = got_all; request = set_request_body c.request (take n (bytes b)) })
            (retrieve n b)

    -- One round of the loop. No branch is for `kGotAll`: the loop goes round unchanged.
    round : ParseState → HttpContext → Buf → Parsed
    round expect_request_line c b = on_request_line c b
    round expect_headers c b = on_headers c b
    round expect_body c b = on_body c b
    round got_all c b = again c b

  -- `parseRequest`, with a bound on the rounds of its loop.
  unfoldable pub parse_request : ℕ → ℕ → HttpContext → Buf → Parsed
  unfolding round
  parse_request zero time c b = ends running c b
  parse_request (suc fuel) time c b = round (parse_request fuel time) time c.state c b
