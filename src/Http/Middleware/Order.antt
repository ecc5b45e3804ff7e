-- ===== src/Http/Middleware/Order.antt =====
-- The order in which a chain runs.
use workplace.Common.{Option, [], ap, none, refl, some, sym, ◌++◌, ◌∙◌, ◌∷◌, ◌≡◌}
use workplace.Http.Handler.{Call, answer, done, thrown}
use workplace.Http.Middleware.{Before, Middleware, MiddlewareChain, add_middleware, afters}
use workplace.Http.Middleware.{answered, caught, failed, passed, process_after, process_before}
use workplace.Http.Middleware.{run_after, run_before, then_before, then_call}
use workplace.Http.Request.{HttpRequest}
use workplace.Http.Response.{HttpResponse}

module _ {W : Type 0} where
  then_before-passed : (b : Option (Before W)) → then_before b (λ req w. some (passed req w)) ≡ b
  then_before-passed none = refl
  then_before-passed (some (passed req w)) = refl
  then_before-passed (some (failed w)) = refl
  then_before-passed (some (answered resp w)) = refl

  then_before_assoc :
      (b : Option (Before W)) (f g h : HttpRequest → W → Option (Before W))
      → ((req : HttpRequest) (w : W) → f req w ≡ then_before (g req w) h)
      → then_before b f ≡ then_before (then_before b g) h
  then_before_assoc none f g h e = refl
  then_before_assoc (some (passed req w)) f g h e = e req w
  then_before_assoc (some (failed w)) f g h e = refl
  then_before_assoc (some (answered resp w)) f g h e = refl

  then_call_assoc :
      (c : Call W) (f g : HttpResponse → W → Call W)
      → then_call (then_call c f) g ≡ then_call c (λ resp w. then_call (f resp w) g)
  then_call_assoc (done resp w) f g = refl
  then_call_assoc (thrown resp w) f g = refl
  then_call_assoc (answer resp w) f g = refl

  then_call-done : (c : Call W) → then_call c done ≡ c
  then_call-done (done resp w) = refl
  then_call-done (thrown resp w) = refl
  then_call-done (answer resp w) = refl

  process_before-append :
      (chain : MiddlewareChain W) (m : Option (Middleware W)) (req : HttpRequest) (w : W)
      → process_before (chain ++ m ∷ []) req w
        ≡ then_before (process_before chain req w) (run_before m)
  unfolding process_before
  process_before-append [] m req w = then_before-passed (run_before m req w)
  process_before-append (k ∷ ks) m req w =
      then_before_assoc (run_before k req w) (process_before (ks ++ m ∷ [])) (process_before ks)
        (run_before m) (process_before-append ks m)

  afters-append :
      (chain : MiddlewareChain W) (m : Option (Middleware W)) (resp : HttpResponse) (w : W)
      → afters (chain ++ m ∷ []) resp w ≡ then_call (run_after m resp w) (afters chain)
  unfolding afters
  afters-append [] m resp w = sym (then_call-done (run_after m resp w))
  afters-append (k ∷ ks) m resp w =
      ap (λ c. then_call c (run_after k)) (afters-append ks m resp w)
      ∙ then_call_assoc (run_after m resp w) (afters ks) (run_after k)

  -- A middleware that is added runs last on the way in and first on the way out: what stops the
  -- chain on the way in keeps it from running, and what it throws on the way out keeps the others
  -- from running.
  pub add_middleware_lem :
      (chain : MiddlewareChain W) (m : Option (Middleware W)) (req : HttpRequest)
      (resp : HttpResponse) (w : W)
      → (process_before (add_middleware m chain) req w
          ≡ then_before (process_before chain req w) (run_before m))
        × (process_after (add_middleware m chain) resp w
            ≡ caught (then_call (run_after m resp w) (afters chain)))
  unfolding add_middleware process_after
  add_middleware_lem chain m req resp w =
      (process_before-append chain m req w, ap caught (afters-append chain m resp w))
