-- ===== src/Http/Cors.antt =====
-- `CorsMiddleware`: HttpServer/HTTP/include/middlerWare/cors and
-- src/middleware/cors/CoresMiddleware.cpp.
pub mod Origins
pub mod Preflight
use workplace.Common.{Bool, List, [], false, if◌then◌else◌, not, true, ◌++◌, ◌+◌, ◌||◌, ◌∷◌}
use workplace.Common.Int.{negsuc, pos, ℤ}
use workplace.Common.Text.{Text, codes, text_eq}
use workplace.Http.Handler.{Call, done}
use workplace.Http.Middleware.{Before, Middleware, answered, passed}
use workplace.Http.Request.{HttpRequest, get_header, is_options}
use workplace.Http.Response.{HttpResponse, add_response_header, decimal, forbidden_403}
use workplace.Http.Response.{new_response, no_content_204, set_status_code}

pub record CorsConfig : Type 0 where
  pub allowed_origins : List Text
  pub allowed_method : List Text
  pub allowed_headers : List Text
  pub allow_credentials : Bool
  pub max_age : ℤ

abbrev pub default_config : CorsConfig
default_config = record {
  allowed_origins = codes "*" ∷ [];
  allowed_method = codes "GET" ∷ codes "POST" ∷ codes "PUT" ∷ codes "DELETE" ∷ codes "OPTIONS" ∷ [];
  allowed_headers = codes "Content-Type" ∷ codes "Authorization" ∷ [];
  allow_credentials = false;
  max_age = pos 3600;
}

abbrev pub is_nil : List Text → Bool
is_nil [] = true
is_nil (t ∷ ts) = false

-- `std::find(…) != end()`.
unfoldable pub contains : Text → List Text → Bool
contains t [] = false
contains t (s ∷ ss) = text_eq s t || contains t ss

-- `isOrigrinAllowed`.
unfoldable pub is_origin_allowed : CorsConfig → Text → Bool
unfolding contains
is_origin_allowed config origin =
    is_nil config.allowed_origins
    || contains (codes "*") config.allowed_origins
    || contains origin config.allowed_origins

unfoldable pub join : List Text → Text → Text
join [] delimiter = []
join (t ∷ []) delimiter = t
join (t ∷ s ∷ ss) delimiter = t ++ (delimiter ++ join (s ∷ ss) delimiter)

-- `std::to_string` of an `int`.
abbrev pub to_string : ℤ → Text
to_string (pos n) = decimal n
to_string (negsuc n) = b'-' ∷ decimal (n + 1)

abbrev pub header_if : Bool → Text → Text → HttpResponse → HttpResponse
header_if c key value r = if c then add_response_header r key value else r

-- `addCorsHeaders`; nothing in it throws.
unfoldable pub add_cors_headers : CorsConfig → HttpResponse → Text → HttpResponse
unfolding join
add_cors_headers config resp origin =
    let r0 = add_response_header resp (codes "Access-Control-Allow-Origin") origin in
    let r1 =
      header_if config.allow_credentials (codes "Access-Control-Allow-Credentials") (codes "true")
        r0 in
    let r2 =
      header_if (not (is_nil config.allowed_method)) (codes "Access-Control-Allow-Methods")
        (join config.allowed_method (codes ", ")) r1 in
    let r3 =
      header_if (not (is_nil config.allowed_headers)) (codes "Access-Control-Allow-Headers")
        (join config.allowed_headers (codes ", ")) r2 in
    add_response_header r3 (codes "Access-Control-Max-Age") (to_string config.max_age)

-- `handlePrefightRequest`.
unfoldable pub handle_preflight : CorsConfig → HttpRequest → HttpResponse → HttpResponse
unfolding is_origin_allowed
handle_preflight config req resp =
    let origin = get_header req (codes "Origin") in
    if not (is_origin_allowed config origin)
    then set_status_code resp forbidden_403
    else set_status_code (add_cors_headers config resp origin) no_content_204

-- The first allowed origin; the source reads it behind a test that there is one.
abbrev pub first_origin : List Text → Text
first_origin [] = []
first_origin (t ∷ ts) = t

module _ {W : Type 0} where
  unfoldable pub cors_before : CorsConfig → HttpRequest → W → Before W
  cors_before config req w =
      if is_options req.method
      then answered (handle_preflight config req (new_response true)) w
      else passed req w

  unfoldable pub cors_after : CorsConfig → HttpResponse → W → Call W
  cors_after config resp w =
      if not (is_nil config.allowed_origins)
      then (if contains (codes "*") config.allowed_origins
          then done (add_cors_headers config resp (codes "*")) w
          else done (add_cors_headers config resp (first_origin config.allowed_origins)) w)
      else done resp w

  abbrev pub cors_middleware : CorsConfig → Middleware W
  cors_middleware config = record { before = cors_before config; after = cors_after config }
