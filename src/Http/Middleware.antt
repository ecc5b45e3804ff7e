-- ===== src/Http/Middleware.antt =====
-- `MiddlewareChain`: HttpServer/HTTP/include/middlerWare and src/middleware/MiddlewareChain.cpp.
-- `setNext` and its field are used by nothing and left out.
pub mod Order
use workplace.Common.{List, Option, [], none, some, ◌++◌, ◌∷◌}
use workplace.Http.Handler.{Call, answer, done, thrown}
use workplace.Http.Request.{HttpRequest}
use workplace.Http.Response.{HttpResponse}

-- How `before` ends: it returns the request as it left it, an exception derived from
-- `std::exception` leaves it, or it throws a response.
pub data Before (W : Type 0) : Type 0 where
  passed : HttpRequest → W → Before W
  failed : W → Before W
  answered : HttpResponse → W → Before W

pub record Middleware (W : Type 0) : Type 0 where
  pub before : HttpRequest → W → Before W
  pub after : HttpResponse → W → Call W

-- `middlewares_`; `none` is a null pointer.
abbrev pub MiddlewareChain : Type 0 → Type 0
MiddlewareChain W = List (Option (Middleware W))

module _ {W : Type 0} where
  unfoldable pub add_middleware : Option (Middleware W) → MiddlewareChain W → MiddlewareChain W
  add_middleware m chain = chain ++ m ∷ []

  -- `none` is a crash: `processBefore` follows each pointer without a test.
  abbrev pub run_before : Option (Middleware W) → HttpRequest → W → Option (Before W)
  run_before none req w = none
  run_before (some m) req w = some (m.before req w)

  abbrev pub then_before :
      Option (Before W) → (HttpRequest → W → Option (Before W)) → Option (Before W)
  then_before none rest = none
  then_before (some (passed req w)) rest = rest req w
  then_before (some (failed w)) rest = some (failed w)
  then_before (some (answered resp w)) rest = some (answered resp w)

  unfoldable pub process_before : MiddlewareChain W → HttpRequest → W → Option (Before W)
  process_before [] req w = some (passed req w)
  process_before (m ∷ ms) req w = then_before (run_before m req w) (process_before ms)

  abbrev pub run_after : Option (Middleware W) → HttpResponse → W → Call W
  run_after none resp w = done resp w
  run_after (some m) resp w = m.after resp w

  abbrev pub then_call : Call W → (HttpResponse → W → Call W) → Call W
  then_call (done resp w) rest = rest resp w
  then_call (thrown resp w) rest = thrown resp w
  then_call (answer resp w) rest = answer resp w

  -- The loop from `rbegin()` to `rend()`: the later middlewares come first.
  unfoldable pub afters : MiddlewareChain W → HttpResponse → W → Call W
  afters [] resp w = done resp w
  afters (m ∷ ms) resp w = then_call (afters ms resp w) (run_after m)

  -- The `catch` of `processAfter`.
  abbrev pub caught : Call W → Call W
  caught (done resp w) = done resp w
  caught (thrown resp w) = done resp w
  caught (answer resp w) = answer resp w

  unfoldable pub process_after : MiddlewareChain W → HttpResponse → W → Call W
  unfolding afters
  process_after chain resp w = caught (afters chain resp w)
