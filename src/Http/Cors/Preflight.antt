-- ===== src/Http/Cors/Preflight.antt =====
-- The preflight branch behind the parser.
use workplace.Common.{false, refl, ℕ, ◌≡◌}
use workplace.Http.Buffer.{Buffer}
use workplace.Http.Context.{HttpContext, parse_request}
use workplace.Http.Context.Methods.{parse_request-Keeps}
use workplace.Http.Cors.{CorsConfig, cors_before}
use workplace.Http.Middleware.{passed}
use workplace.Http.Request.{is_options}

module _ (B : Buffer) (time : ℕ) where
  -- Whatever bytes arrive and however far the parser comes, from a context whose method is not
  -- OPTIONS it never reaches one whose method is: `CorsMiddleware::before` passes the request on
  -- unchanged, and no preflight request is answered.
  pub cors_before-parse_request :
      {W : Type 0} (config : CorsConfig) (fuel : ℕ) (c : HttpContext) (b : B.Buf) (w : W)
      → is_options c.request.method ≡ false
      → let r = (parse_request B fuel time c b).context.request in
        cors_before config r w ≡ passed r w
  unfolding cors_before
  cors_before-parse_request config fuel c b w h = rw (parse_request-Keeps B time fuel c b h) refl
