-- ===== src/Http/Tests.antt =====
-- Instances of the theorems on concrete requests and responses, with a plain text as the buffer.
mod Serving
mod Sessions
use workplace.Common.{Bool, List, Option, Option-cases, [], ap, arith, drop, false, if◌then◌else◌}
use workplace.Common.{inl, inr, length, none, refl, some, suc, true, ℕ, ℕ_discrete, ◌&&◌, ◌*◌, ◌++◌}
use workplace.Common.{◌+◌, ◌==◌, ◌↔◌, ◌∙◌, ◌∷◌, ◌≡◌, ◌≢◌, ◌≤◌}
use workplace.Common.Int.{pos}
use workplace.Common.Text.{Lacks, Text, codes, cut, find_or_empty, insert, lookup, skip_space}
use workplace.Common.Text.{text_eq, text_ltb, trim_end}
use workplace.Http.Buffer.{Buffer, BufferLaws, crlf}
use workplace.Http.Context.{HttpContext, aborts, digits, expect_request_line, got_all, new_context}
use workplace.Http.Context.{number, parse_request, process_method, process_request_line}
use workplace.Http.Context.{process_target, reset, returns, running, set_target, set_version}
use workplace.Http.Context.{starts_with_digit, stoi, unsigned_part, version_of}
use workplace.Http.Context.Message.{Message, Writable, first_line, parse_message, print_message}
use workplace.Http.Context.Message.{print_target, received}
use workplace.Http.Context.Progress.{parse_request_ends}
use workplace.Http.Context.Reuse.{refused_line_aborts, reset-eq-new_iff, reset_lem}
use workplace.Http.Context.Roundtrip.{PlainHeader, print_header}
use workplace.Http.Request.{get, get_header, is_empty, new_request, set_method}
use workplace.Http.Request.Query.{Plain, insert_all, print_pairs}
use workplace.Http.Response.{HttpResponse, append_to_buffer, get_content_length, ok_200}
use workplace.Http.Response.Wire.{length-append_to_buffer}

starts_lf : Text → Bool
starts_lf [] = false
starts_lf (c ∷ s) = c == 10

shift : Option ℕ → Option ℕ
shift none = none
shift (some n) = some (suc n)

find_text : Text → Option ℕ
unfolding starts_lf shift
find_text [] = none
find_text (c ∷ s) =
    let rest = shift (find_text s) in if c == 13 && starts_lf s then some 0 else rest

abbrev text_buffer : Buffer
text_buffer = record {
  Buf = Text;
  bytes = λ b. b;
  retrieve = λ n b. drop n b;
  find_crlf = find_text;
  append = λ b t. b ++ t;
}

find_text-found : (t : Text) (n : ℕ) → find_text t ≡ some n → n + 2 ≤ length t
unfolding find_text starts_lf shift
find_text-found [] n e = absurd (ground arith)
find_text-found (c ∷ []) n e = absurd (ground arith)
find_text-found (c ∷ d ∷ s) n e = elim (Option-cases (find_text (d ∷ s))) [
  | inl missing ↦ ground (arith)
  | inr (k, later) ↦ ground (arith, find_text-found (d ∷ s) k later)
]

find_text-finds :
    (line rest : Text) → Lacks 13 line → find_text (line ++ (crlf ++ rest)) ≡ some (length line)
unfolding find_text starts_lf shift
find_text-finds [] rest h = refl
find_text-finds (c ∷ line) rest h = ground (arith, find_text-finds line rest h.1)

text_buffer-laws : BufferLaws text_buffer
text_buffer-laws = record {
  found = find_text-found;
  finds = λ b line rest h e. ap find_text e ∙ find_text-finds line rest h;
  retrieved = λ b n h. refl;
  appended = λ b t. refl;
}

-- A test for the absence of a character, which evaluates on a given text.
is_free : ℕ → Text → Bool
is_free c [] = true
is_free c (a ∷ s) = let rest = is_free c s in if a == c then false else rest

is_free→Lacks : (c : ℕ) (s : Text) → is_free c s ≡ true → Lacks c s
unfolding is_free
is_free→Lacks c [] h = tt
is_free→Lacks c (a ∷ s) h = elim (ℕ_discrete a c) [
  | yes e ↦ absurd (ground arith)
  | no n ↦ (n, is_free→Lacks c s (ground arith))
]

abbrev login : Message
login = record {
  name = codes "POST";
  path = codes "/login";
  query = (codes "next", codes "menu") ∷ [];
  version = codes "HTTP/1.1";
  headers = (codes "Content-Length", codes "2") ∷ (codes "Host", codes "a") ∷ [];
}

abbrev menu : Message
menu = record {
  name = codes "GET";
  path = codes "/menu";
  query = [];
  version = codes "HTTP/1.0";
  headers = (codes "Host", codes "a") ∷ [];
}

next-Plain : Plain (codes "next", codes "menu")
unfolding is_free
next-Plain = (
  is_free→Lacks b'=' (codes "next") refl,
  is_free→Lacks b'&' (codes "next") refl,
  is_free→Lacks b'&' (codes "menu") refl,
)

page-Plain : Plain (codes "page", codes "2")
unfolding is_free
page-Plain = (
  is_free→Lacks b'=' (codes "page") refl,
  is_free→Lacks b'&' (codes "page") refl,
  is_free→Lacks b'&' (codes "2") refl,
)

length_plain : PlainHeader (codes "Content-Length", codes "2")
unfolding is_free skip_space trim_end
length_plain = (
  is_free→Lacks 13 (print_header (codes "Content-Length", codes "2")) refl,
  is_free→Lacks b':' (codes "Content-Length") refl,
  (refl, refl),
)

host_plain : PlainHeader (codes "Host", codes "a")
unfolding is_free skip_space trim_end
host_plain = (
  is_free→Lacks 13 (print_header (codes "Host", codes "a")) refl,
  is_free→Lacks b':' (codes "Host") refl,
  (refl, refl),
)

login-Writable : Writable login
unfolding is_free version_of text_eq print_pairs skip_space trim_end
login-Writable = record {
  method_known = refl;
  version_known = refl;
  name_plain = is_free→Lacks b' ' login.name refl;
  target_plain = is_free→Lacks b' ' (print_target login.path login.query) refl;
  path_plain = is_free→Lacks b'?' login.path refl;
  query_plain = (next-Plain, tt);
  line_plain = is_free→Lacks 13 (first_line login) refl;
  headers_plain = (length_plain, (host_plain, tt));
}

menu-Writable : Writable menu
unfolding is_free version_of text_eq print_pairs skip_space trim_end
menu-Writable = record {
  method_known = refl;
  version_known = refl;
  name_plain = is_free→Lacks b' ' menu.name refl;
  target_plain = is_free→Lacks b' ' (print_target menu.path menu.query) refl;
  path_plain = is_free→Lacks b'?' menu.path refl;
  query_plain = tt;
  line_plain = is_free→Lacks 13 (first_line menu) refl;
  headers_plain = (host_plain, tt);
}

login_length :
    (is_empty (get_header (received login 7) (codes "Content-Length")) ≡ false)
    × (stoi (get_header (received login 7) (codes "Content-Length")) ≡ some (pos 2))
unfolding insert_all insert lookup find_or_empty text_eq text_ltb stoi skip_space unsigned_part
    number digits starts_with_digit
login_length = (refl, refl)

parse_message_example :
    (b : Text) × (b ≡ codes "GET")
    × (parse_request text_buffer 6 7 new_context (print_message login (codes "hiGET")) ≡ record {
      outcome = returns true;
      context = record {
        state = got_all;
        request = record (received login 7) { content_length = 2; content = codes "hi" };
      };
      buffer = b;
    })
unfolding text_eq
parse_message_example =
    parse_message text_buffer text_buffer-laws 7 1 login login-Writable
      (print_message login (codes "hiGET")) (codes "hi") (codes "GET") refl login_length.0
      login_length.1 (omega arith) refl

parse_request_ends_example :
    (parse_request text_buffer 20 7 new_context (codes "GET / HTTP/1.1")).outcome ≢ running
parse_request_ends_example =
    parse_request_ends text_buffer text_buffer-laws 7 20 new_context (codes "GET / HTTP/1.1")
      (omega arith) (λ e. cc)

abbrev finished : HttpContext
finished = record {
  state = got_all;
  request = record (received login 7) { content_length = 2; content = codes "hi" };
}

reset_lem_example : reset finished ≡ record {
  state = expect_request_line;
  request = record new_request { content_length = 2; content = codes "hi" };
}
reset_lem_example = reset_lem finished

reset-eq-new_iff_example :
    (reset finished ≡ new_context)
    ↔ ((finished.request.content ≡ []) × (finished.request.content_length ≡ 0))
reset-eq-new_iff_example = reset-eq-new_iff finished

abbrev bad_version : Text
bad_version = codes "GET / HTTP/2.0" ++ (crlf ++ [])

refused_line_aborts_example :
    let first = parse_request text_buffer 1 7 new_context bad_version in
    (first.outcome ≡ returns false)
    × ((parse_request text_buffer 1 7 first.context first.buffer).outcome ≡ aborts)
unfolding process_request_line process_method process_target set_target set_version version_of
    set_method cut text_eq find_text starts_lf shift
refused_line_aborts_example =
    refused_line_aborts text_buffer 0 7 14 bad_version
      (record new_request { method = get; path = codes "/" }) refl refl refl

abbrev next_menu : List (Text × Text)
next_menu = (codes "page", codes "2") ∷ []

abbrev page : HttpResponse
page = record {
  status_code = ok_200;
  status_message = codes "OK";
  http_version = codes "HTTP/1.1";
  headers = (codes "Content-Type", codes "text/html") ∷ [];
  body = codes "<p>";
  close_connection = true;
}

length-append_to_buffer_example :
    length (append_to_buffer text_buffer page (codes "x"))
    ≡ 1 + (get_content_length page + 1 + 2 * 1 + 19)
length-append_to_buffer_example =
    length-append_to_buffer text_buffer text_buffer-laws page (codes "x") (omega arith) (λ e. cc)
