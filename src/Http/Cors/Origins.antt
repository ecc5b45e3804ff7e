-- ===== src/Http/Cors/Origins.antt =====
-- Which origins are answered, and when.
use workplace.Common.{Bool, List, [], arith, false, false_ne_true, not, refl, some, true, ◌↔◌, ◌∈◌}
use workplace.Common.{◌∙◌, ◌∷◌, ◌≡◌, ◌⊎◌}
use workplace.Common.Text.{Text, codes, lookup, lookup-insert, text_eq, text_eq_iff}
use workplace.Http.Cors.{CorsConfig, add_cors_headers, contains, handle_preflight, header_if}
use workplace.Http.Cors.{is_nil, is_origin_allowed, join, to_string}
use workplace.Http.Request.{HttpRequest, get_header}
use workplace.Http.Response.{HttpResponse, forbidden_403, no_content_204}

contains_iff : (t : Text) (ss : List Text) → (contains t ss ≡ true) ↔ (t ∈ ss)
unfolding contains
contains_iff t [] = (λ e. absurd (false_ne_true e), λ m. absurd m)
contains_iff t (s ∷ ss) = ground (arith, text_eq_iff s t, contains_iff t ss)

is_nil_iff : (ts : List Text) → (is_nil ts ≡ true) ↔ (ts ≡ [])
is_nil_iff [] = (λ e. refl, λ e. refl)
is_nil_iff (t ∷ ts) = (λ e. absurd (false_ne_true e), λ e. cc)

-- An origin is allowed exactly when no origins are configured, or the wildcard is, or the origin
-- itself is.
pub is_origin_allowed_iff :
    (config : CorsConfig) (origin : Text)
    → (is_origin_allowed config origin ≡ true) ↔ (
        (config.allowed_origins ≡ [])
        ⊎ (codes "*" ∈ config.allowed_origins)
        ⊎ (origin ∈ config.allowed_origins))
unfolding is_origin_allowed
is_origin_allowed_iff config origin = ground (
  arith,
  is_nil_iff config.allowed_origins,
  contains_iff (codes "*") config.allowed_origins,
  contains_iff origin config.allowed_origins,
)

abbrev pub allow_origin : Text
allow_origin = codes "Access-Control-Allow-Origin"

lookup-header_if :
    (c : Bool) (k v : Text) (r : HttpResponse)
    → text_eq k allow_origin ≡ false
    → lookup allow_origin (header_if c k v r).headers ≡ lookup allow_origin r.headers
lookup-header_if true k v r h = lookup-insert k allow_origin v r.headers ∙ rw h refl
lookup-header_if false k v r h = refl

lookup-add_cors_headers :
    (config : CorsConfig) (r : HttpResponse) (origin : Text)
    → lookup allow_origin (add_cors_headers config r origin).headers ≡ some origin
unfolding add_cors_headers text_eq
lookup-add_cors_headers config r origin =
    lookup-insert (codes "Access-Control-Max-Age") allow_origin (to_string config.max_age) _
    ∙ lookup-header_if (not (is_nil config.allowed_headers)) (codes "Access-Control-Allow-Headers")
        (join config.allowed_headers (codes ", ")) _ refl
    ∙ lookup-header_if (not (is_nil config.allowed_method)) (codes "Access-Control-Allow-Methods")
        (join config.allowed_method (codes ", ")) _ refl
    ∙ lookup-header_if config.allow_credentials (codes "Access-Control-Allow-Credentials")
        (codes "true") _ refl
    ∙ lookup-insert allow_origin allow_origin origin r.headers

-- A preflight request of an allowed origin is answered with the status 204 and that origin in
-- `Access-Control-Allow-Origin`; one of another origin with the status 403 and nothing else.
pub handle_preflight_lem :
    (config : CorsConfig) (req : HttpRequest) (resp : HttpResponse)
    → let origin = get_header req (codes "Origin") in
      let reply = handle_preflight config req resp in
      (is_origin_allowed config origin ≡ true
        → (reply.status_code ≡ no_content_204) × (lookup allow_origin reply.headers ≡ some origin))
      × (is_origin_allowed config origin ≡ false
          → reply ≡ record resp { status_code = forbidden_403 })
unfolding handle_preflight
handle_preflight_lem config req resp =
    let origin = get_header req (codes "Origin") in
    (λ e. rw e (refl, lookup-add_cors_headers config resp origin), λ e. rw e refl)
