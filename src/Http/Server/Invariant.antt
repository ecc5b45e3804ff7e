-- ===== src/Http/Server/Invariant.antt =====
-- Properties of the application's state that every handler keeps.
use workplace.Common.{Bool-cases, List, Option, Option-cases, [], inl, inr, none, refl, some}
use workplace.Common.{some_inj, subst, sym, ◌∙◌, ◌∷◌, ◌≡◌}
use workplace.Http.Handler.{Call, Handler, answer, done, thrown}
use workplace.Http.Middleware.{Before, Middleware, MiddlewareChain, afters, answered, caught}
use workplace.Http.Middleware.{failed, passed, process_after, process_before, run_after}
use workplace.Http.Middleware.{then_before, then_call}
use workplace.Http.Request.{HttpRequest}
use workplace.Http.Response.{HttpResponse}
use workplace.Http.Router.{RegexRoute, Regexes, Router, RouterKey, extract_path_parameters}
use workplace.Http.Router.{find_key, key_eq, key_of, method_eq, route, route_regex, set_key}
use workplace.Http.Server.{HttpServer, after_before, handle_request, not_found, respond, settled}

module _ {W : Type 0} (P : W → Type 0) where
  -- The state that a call leaves.
  abbrev pub Left : Call W → Type 0
  Left (done resp w) = P w
  Left (thrown resp w) = P w
  Left (answer resp w) = P w

  abbrev pub LeftBefore : Before W → Type 0
  LeftBefore (passed req w) = P w
  LeftBefore (failed w) = P w
  LeftBefore (answered resp w) = P w

  abbrev pub Keeps : Handler W → Type 0
  Keeps h = (req : HttpRequest) (resp : HttpResponse) (w : W) → P w → Left (h req resp w)

  pub record KeepsAround (m : Middleware W) : Type 0 where
    pub on_before : (req : HttpRequest) (w : W) → P w → LeftBefore (m.before req w)
    pub on_after : (resp : HttpResponse) (w : W) → P w → Left (m.after resp w)

  abbrev pub ChainKeeps : MiddlewareChain W → Type 0
  ChainKeeps [] = Unit
  ChainKeeps (none ∷ ms) = ChainKeeps ms
  ChainKeeps (some m ∷ ms) = KeepsAround m × ChainKeeps ms

  abbrev pub KeyedKeep : List (RouterKey × Handler W) → Type 0
  KeyedKeep [] = Unit
  KeyedKeep ((k, h) ∷ m) = Keeps h × KeyedKeep m

  abbrev pub PatternsKeep : {X : Regexes} → List (RegexRoute X W) → Type 0
  PatternsKeep [] = Unit
  PatternsKeep (o ∷ os) = Keeps o.handler × PatternsKeep os

  pub record RouterKeeps {X : Regexes} (r : Router X W) : Type 0 where
    pub by_handlers : KeyedKeep r.handlers
    pub by_callbacks : KeyedKeep r.callbacks
    pub by_regex_handlers : PatternsKeep r.regex_handlers
    pub by_regex_callbacks : PatternsKeep r.regex_callbacks

  pub set_key-KeyedKeep :
      (k : RouterKey) (h : Handler W) (m : List (RouterKey × Handler W))
      → Keeps h
      → KeyedKeep m
      → KeyedKeep (set_key k h m)
  unfolding set_key
  set_key-KeyedKeep k h [] keeps rest = (keeps, tt)
  set_key-KeyedKeep k h ((j, g) ∷ m) keeps (old, rest) = elim (Bool-cases (key_eq j k)) [
    | inl e ↦ rw e (keeps, rest)
    | inr e ↦ rw e (old, set_key-KeyedKeep k h m keeps rest)
  ]

  -- The result of a router, if it took the request.
  abbrev pub Routed : Option (Call W) → Type 0
  Routed none = Unit
  Routed (some call) = Left call

  find_key-Keeps :
      (k : RouterKey) (m : List (RouterKey × Handler W)) {h : Handler W}
      → KeyedKeep m
      → find_key k m ≡ some h
      → Keeps h
  unfolding find_key
  find_key-Keeps k [] keep e = absurd (cc)
  find_key-Keeps k ((j, g) ∷ m) {h} (here, rest) e = elim (Bool-cases (key_eq j k)) [
    | inl same ↦ subst Keeps (some_inj (sym (rw same refl) ∙ e)) here
    | inr other ↦ find_key-Keeps k m rest (sym (rw other refl) ∙ e)
  ]

  module _ (req : HttpRequest) (resp : HttpResponse) (w : W) (holds : P w) where
    route_regex-Routed :
        {X : Regexes} (os : List (RegexRoute X W))
        → PatternsKeep os
        → Routed (route_regex os req resp w)
    unfolding route_regex
    route_regex-Routed [] keep = tt
    route_regex-Routed {X} (o ∷ os) (here, rest) =
        elim (Bool-cases (method_eq o.method req.method)) [
          | inr e ↦ rw e (route_regex-Routed os rest)
          | inl e ↦ elim (Option-cases (X.regex_match req.path o.path_regex)) [
            | inl n ↦ rw (e, n, route_regex) (route_regex-Routed os rest)
            | inr (gs, n) ↦
                rw (e, n, route_regex) (here (extract_path_parameters gs req) resp w holds)
          ]
        ]

    route-Routed : {X : Regexes} (r : Router X W) → RouterKeeps r → Routed (route r req resp w)
    unfolding route
    route-Routed r keep = elim (Option-cases (find_key (key_of req) r.handlers)) [
      | inr (h, e) ↦
          rw (e, route) (find_key-Keeps (key_of req) r.handlers keep.by_handlers e req resp w holds)
      | inl e ↦ elim (Option-cases (find_key (key_of req) r.callbacks)) [
        | inr (h, d) ↦
            rw (e, d, route)
              (find_key-Keeps (key_of req) r.callbacks keep.by_callbacks d req resp w holds)
        | inl d ↦
            let first = route_regex-Routed r.regex_handlers keep.by_regex_handlers in
            let second = route_regex-Routed r.regex_callbacks keep.by_regex_callbacks in
            elim (Option-cases (route_regex r.regex_handlers req resp w)) [
              | inr (call, c) ↦ rw (e, d, c, route) (subst Routed c first)
              | inl c ↦ rw (e, d, c, route) second
            ]
      ]
    ]

  then_call-Left :
      (c : Call W) (rest : HttpResponse → W → Call W)
      → Left c
      → ((resp : HttpResponse) (w : W) → P w → Left (rest resp w))
      → Left (then_call c rest)
  then_call-Left (done resp w) rest p next = next resp w p
  then_call-Left (thrown resp w) rest p next = p
  then_call-Left (answer resp w) rest p next = p

  caught-Left : (c : Call W) → Left c → Left (caught c)
  caught-Left (done resp w) p = p
  caught-Left (thrown resp w) p = p
  caught-Left (answer resp w) p = p

  settled-Left : (c : Call W) → Left c → P (settled c).1
  settled-Left (done resp w) p = p
  settled-Left (thrown resp w) p = p
  settled-Left (answer resp w) p = p

  afters-Left :
      (chain : MiddlewareChain W) (resp : HttpResponse) (w : W)
      → ChainKeeps chain
      → P w
      → Left (afters chain resp w)
  unfolding afters
  afters-Left [] resp w keep p = p
  afters-Left (none ∷ ms) resp w keep p =
      then_call-Left (afters ms resp w) (run_after none) (afters-Left ms resp w keep p)
        (λ resp w p. p)
  afters-Left (some m ∷ ms) resp w (here, keep) p =
      then_call-Left (afters ms resp w) (run_after (some m)) (afters-Left ms resp w keep p)
        here.on_after

  process_after-Left :
      (chain : MiddlewareChain W) (resp : HttpResponse) (w : W)
      → ChainKeeps chain
      → P w
      → Left (process_after chain resp w)
  unfolding process_after
  process_after-Left chain resp w keep p =
      caught-Left (afters chain resp w) (afters-Left chain resp w keep p)

  -- What a chain leaves on the way in.
  abbrev pub LeftBefores : Option (Before W) → Type 0
  LeftBefores none = Unit
  LeftBefores (some b) = LeftBefore b

  then_before-Left :
      (b : Before W) (rest : HttpRequest → W → Option (Before W))
      → LeftBefore b
      → ((req : HttpRequest) (w : W) → P w → LeftBefores (rest req w))
      → LeftBefores (then_before (some b) rest)
  then_before-Left (passed req w) rest p next = next req w p
  then_before-Left (failed w) rest p next = p
  then_before-Left (answered resp w) rest p next = p

  process_before-Left :
      (chain : MiddlewareChain W) (req : HttpRequest) (w : W)
      → ChainKeeps chain
      → P w
      → LeftBefores (process_before chain req w)
  unfolding process_before
  process_before-Left [] req w keep p = p
  process_before-Left (none ∷ ms) req w keep p = tt
  process_before-Left (some m ∷ ms) req w (here, keep) p =
      then_before-Left (m.before req w) (process_before ms) (here.on_before req w p)
        (λ req w p. process_before-Left ms req w keep p)

  module _ {X : Regexes} (s : HttpServer X W) (chain : ChainKeeps s.middleware_chain)
      (routes : RouterKeeps s.router) where
    respond-Left :
        (resp : HttpResponse) (w : W) (routed : Option (Call W))
        → P w
        → Routed routed
        → P (respond s.middleware_chain resp w routed).1
    respond-Left resp w none p r =
        settled-Left _ (process_after-Left s.middleware_chain (not_found resp) w chain p)
    respond-Left resp w (some call) p r = settled-Left _ (
        then_call-Left call (process_after s.middleware_chain) r
          (λ resp w p. process_after-Left s.middleware_chain resp w chain p))

    after_before-Left :
        (resp : HttpResponse) (b : Before W) → LeftBefore b → P (after_before s resp b).1
    after_before-Left resp (passed req w) p =
        respond-Left resp w (route s.router req resp w) p
          (route-Routed req resp w p s.router routes)
    after_before-Left resp (failed w) p = p
    after_before-Left resp (answered res w) p = p

    -- A property of the application's state that every handler and every middleware keeps, however
    -- it ends, holds after `handleRequest` if it held before.
    pub handle_request-keeps :
        (req : HttpRequest) (resp resp' : HttpResponse) (w w' : W)
        → P w
        → handle_request s req resp w ≡ some (resp', w')
        → P w'
    unfolding handle_request
    handle_request-keeps req resp resp' w w' p e =
        elim (Option-cases (process_before s.middleware_chain req w)) [
          | inl n ↦
              let crash : handle_request s req resp w ≡ none = rw (n, handle_request) refl in
              absurd (cc)
          | inr (b, n) ↦
              let kept : handle_request s req resp w ≡ some (after_before s resp b) =
                rw (n, handle_request) refl in
              subst (λ r. P r.1) (some_inj (sym kept ∙ e))
                (after_before-Left resp b
                  (subst LeftBefores n (process_before-Left s.middleware_chain req w chain p)))
        ]
