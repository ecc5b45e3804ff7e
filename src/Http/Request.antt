-- ===== src/Http/Request.antt =====
-- `HttpRequest`: include/http/HttpRequest.h and src/http/HttpRequest.cpp. A range of characters
-- between two pointers is the text between them.
pub mod Query
use workplace.Common.{Bool, List, Option, [], false, if◌then◌else◌, none, not, some, true, ℕ, ◌==◌}
use workplace.Common.{◌∷◌}
use workplace.Common.Text.{Text, TextMap, codes, cut, find_or_empty, insert, skip_space, text_eq}
use workplace.Common.Text.{trim_end}

pub data Method : Type 0 where
  invalid get post delete put head options : Method

pub record HttpRequest : Type 0 where
  pub method : Method
  pub version : Text
  pub path : Text
  pub path_parameters : TextMap
  pub query_parameters : TextMap
  pub headers : TextMap
  pub content_length : ℕ
  pub content : Text
  pub receive_time : ℕ

-- The constructor.
abbrev pub new_request : HttpRequest
new_request = record {
  method = invalid;
  version = codes "Unknow";
  path = [];
  path_parameters = [];
  query_parameters = [];
  headers = [];
  content_length = 0;
  content = [];
  receive_time = 0;
}

abbrev pub is_invalid : Method → Bool
is_invalid invalid = true
is_invalid _ = false

abbrev pub is_options : Method → Bool
is_options options = true
is_options _ = false

abbrev pub method_of : Text → Method
method_of m =
    if text_eq m (codes "GET")
    then get
    else if text_eq m (codes "POST")
    then post
    else if text_eq m (codes "HEAD")
    then head
    else if text_eq m (codes "PUT")
    then put
    else if text_eq m (codes "DELETE")
    then delete
    else invalid

-- `setMethod`; `none` is the failed assertion that the method is still invalid.
unfoldable pub set_method : HttpRequest → Text → Option (HttpRequest × Bool)
set_method r m =
    if is_invalid r.method
    then some (record r { method = method_of m }, not (is_invalid (method_of m)))
    else none

abbrev pub set_receive_time : HttpRequest → ℕ → HttpRequest
set_receive_time r time = record r { receive_time = time }

abbrev pub set_request_version : HttpRequest → Text → HttpRequest
set_request_version r version = record r { version = version }

-- `setContentLength` and `setBody`; the second form of `setBody` leaves the body for an empty range.
abbrev pub set_request_length : HttpRequest → ℕ → HttpRequest
set_request_length r n = record r { content_length = n }

abbrev pub set_request_body : HttpRequest → Text → HttpRequest
set_request_body r body = record r { content = body }

abbrev pub set_body_range : HttpRequest → Text → HttpRequest
set_body_range r [] = r
set_body_range r (c ∷ body) = record r { content = c ∷ body }

abbrev pub set_path : HttpRequest → Text → HttpRequest
set_path r p = record r { path = p }

unfoldable pub set_path_parameters : HttpRequest → Text → Text → HttpRequest
set_path_parameters r key value = record r { path_parameters = insert key value r.path_parameters }

abbrev pub get_path_parameters : HttpRequest → Text → Text
get_path_parameters r key = find_or_empty key r.path_parameters

abbrev pub get_query_parameters : HttpRequest → Text → Text
get_query_parameters r key = find_or_empty key r.query_parameters

-- The pieces between the separators `c`, the last one included.
abbrev pub cons_head : ℕ → List Text → List Text
cons_head a [] = (a ∷ []) ∷ []
cons_head a (piece ∷ pieces) = (a ∷ piece) ∷ pieces

unfoldable pub split_on : ℕ → Text → List Text
split_on c [] = [] ∷ []
split_on c (a ∷ s) = let rest = split_on c s in if a == c then [] ∷ rest else cons_head a rest

-- One `key=value` pair; a piece with no `=` is passed over.
unfoldable pub add_pair : Text → TextMap → TextMap
add_pair pair m = elim (cut b'=' pair) [ none ↦ m | some (key, value) ↦ insert key value m ]

unfoldable pub add_pairs : List Text → TextMap → TextMap
add_pairs [] m = m
add_pairs (pair ∷ pairs) m = add_pairs pairs (add_pair pair m)

abbrev pub is_empty : Text → Bool
is_empty [] = true
is_empty (a ∷ s) = false

-- `setQueryPathParameters`.
unfoldable pub set_query_path_parameters : HttpRequest → Text → HttpRequest
unfolding split_on add_pairs add_pair
set_query_path_parameters r args =
    if is_empty args
    then r
    else record r { query_parameters = add_pairs (split_on b'&' args) r.query_parameters }

-- `addHeader`: the text before the colon, and the text after it without the spaces at its ends.
unfoldable pub add_header : HttpRequest → Text → Text → HttpRequest
add_header r field rest = record r { headers = insert field (trim_end (skip_space rest)) r.headers }

abbrev pub get_header : HttpRequest → Text → Text
get_header r field = find_or_empty field r.headers

-- `swap` exchanges these seven fields and leaves `contentLength_` and `content_` where they are.
unfoldable pub swap : HttpRequest → HttpRequest → HttpRequest × HttpRequest
swap r that = (
  record that { content_length = r.content_length; content = r.content },
  record r { content_length = that.content_length; content = that.content },
)
