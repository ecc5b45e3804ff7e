-- ===== src/Http/Handler.antt =====
-- What a handler, a callback or a middleware is to the framework: code that it calls with a request
-- and a response (HttpServer/HTTP/include/router/RouterHandler.h and middlerWare/Middleware.h).
use workplace.Http.Request.{HttpRequest}
use workplace.Http.Response.{HttpResponse}

-- How such a call ends, with the state of the application: it returns, an exception derived from
-- `std::exception` leaves it, or it throws a response. The response that the caller passed by
-- pointer is as the call left it.
pub data Call (W : Type 0) : Type 0 where
  done thrown : HttpResponse → W → Call W
  answer : HttpResponse → W → Call W

abbrev pub Handler : Type 0 → Type 0
Handler W = HttpRequest → HttpResponse → W → Call W
