-- ===== src/Http/Router/Routing.antt =====
-- Which handler the router calls.
use workplace.Common.{Bool-cases, List, Option, Option-cases, [], ap, arith, false, false_ne_true}
use workplace.Common.{if◌then◌else◌, inl, inr, map, none, refl, some, sym, true, ◌++◌, ◌↔◌, ◌∙◌}
use workplace.Common.{◌∷◌, ◌≡◌}
use workplace.Common.Text.{Text, text_eq_iff}
use workplace.Http.Handler.{Call, Handler}
use workplace.Http.Request.{HttpRequest, Method}
use workplace.Http.Response.{HttpResponse}
use workplace.Http.Router.{RegexRoute, Regexes, Router, RouterKey, extract_path_parameters}
use workplace.Http.Router.{find_key, key_eq, key_of, method_eq, register_handler, route}
use workplace.Http.Router.{route_regex, set_key}

method_eq_iff : (m n : Method) → (method_eq m n ≡ true) ↔ (m ≡ n)
method_eq_iff m n = ground arith

key_eq_iff : (k l : RouterKey) → (key_eq k l ≡ true) ↔ (k ≡ l)
key_eq_iff k l = ground (arith, method_eq_iff k.method l.method, text_eq_iff k.path l.path)

module _ {H : Type 0} where
  find_key-set_key :
      (k j : RouterKey) (h : H) (m : List (RouterKey × H))
      → find_key j (set_key k h m) ≡ (if key_eq k j then some h else find_key j m)
  unfolding find_key set_key
  find_key-set_key k j h [] = refl
  find_key-set_key k j h ((i, g) ∷ m) = elim (Bool-cases (key_eq i k)) [
    | inl same ↦ rw same (elim (Bool-cases (key_eq k j)) [
      | inl e ↦ rw e refl
      | inr e ↦ rw (e, ap (λ l. key_eq l j) ((key_eq_iff i k).0 same) ∙ e) refl
    ])
    | inr other ↦ rw other (elim (Bool-cases (key_eq i j)) [
      | inl e ↦ rw (e, differs other ((key_eq_iff i j).0 e)) refl
      | inr e ↦ rw e (find_key-set_key k j h m)
    ])
  ]
    where
      differs : key_eq i k ≡ false → i ≡ j → key_eq k j ≡ false
      differs other e = elim (Bool-cases (key_eq k j)) [
        | inr d ↦ d
        | inl d ↦
            absurd (false_ne_true (sym other ∙ (key_eq_iff i k).1 (e ∙ sym ((key_eq_iff k j).0 d))))
      ]

-- A route as a partial function, and the first answer of several.
abbrev pub Rule : Type 0 → Type 0
Rule W = HttpRequest → HttpResponse → W → Option (Call W)

module _ {W : Type 0} where
  abbrev pub keyed : RouterKey × Handler W → HttpRequest → HttpResponse → W → Option (Call W)
  keyed (k, h) req resp w = if key_eq k (key_of req) then some (h req resp w) else none

  abbrev pub first : Option (Call W) → Option (Call W) → Option (Call W)
  first none other = other
  first (some call) other = some call

  unfoldable pub first_answer : List (Rule W) → HttpRequest → HttpResponse → W → Option (Call W)
  first_answer [] req resp w = none
  first_answer (f ∷ fs) req resp w = first (f req resp w) (first_answer fs req resp w)

  abbrev call_of : HttpRequest → HttpResponse → W → Option (Handler W) → Option (Call W)
  call_of req resp w none = none
  call_of req resp w (some h) = some (h req resp w)

  module _ (req : HttpRequest) (resp : HttpResponse) (w : W) where
    first_answer-append :
        (fs gs : List (Rule W))
        → first_answer (fs ++ gs) req resp w
          ≡ first (first_answer fs req resp w) (first_answer gs req resp w)
    unfolding first_answer
    first_answer-append [] gs = refl
    first_answer-append (f ∷ fs) gs = elim (Option-cases (f req resp w)) [
      | inl e ↦ rw e (first_answer-append fs gs)
      | inr (c, e) ↦ rw e refl
    ]

    find_key-first :
        (m : List (RouterKey × Handler W))
        → first_answer (map keyed m) req resp w ≡ call_of req resp w (find_key (key_of req) m)
    unfolding first_answer find_key
    find_key-first [] = refl
    find_key-first ((k, h) ∷ m) = elim (Bool-cases (key_eq k (key_of req))) [
      | inl e ↦ rw e refl
      | inr e ↦ rw e (find_key-first m)
    ]

module _ {X : Regexes} {W : Type 0} where
  abbrev pub patterned : RegexRoute X W → HttpRequest → HttpResponse → W → Option (Call W)
  patterned o req resp w =
      if method_eq o.method req.method
      then elim (X.regex_match req.path o.path_regex) [
        | none ↦ none
        | some groups ↦ some (o.handler (extract_path_parameters groups req) resp w)
      ]
      else none

  -- All routes in one list.
  abbrev pub rules : Router X W → List (Rule W)
  rules r =
      map keyed r.handlers
      ++ (map keyed r.callbacks
          ++ (map patterned r.regex_handlers ++ map patterned r.regex_callbacks))

  module _ (req : HttpRequest) (resp : HttpResponse) (w : W) where
    route_regex-first :
        (os : List (RegexRoute X W))
        → first_answer (map patterned os) req resp w ≡ route_regex os req resp w
    unfolding first_answer route_regex
    route_regex-first [] = refl
    route_regex-first (o ∷ os) = elim (Bool-cases (method_eq o.method req.method)) [
      | inr e ↦ rw e (route_regex-first os)
      | inl e ↦ elim (Option-cases (X.regex_match req.path o.path_regex)) [
        | inl n ↦ rw (e, n, route_regex) (route_regex-first os)
        | inr (gs, n) ↦ rw (e, n, route_regex) refl
      ]
    ]

    rules-first :
        (r : Router X W)
        → first_answer (rules r) req resp w
          ≡ first (call_of req resp w (find_key (key_of req) r.handlers)) (
              first (call_of req resp w (find_key (key_of req) r.callbacks)) (
                first
                  (route_regex r.regex_handlers req resp w)
                  (route_regex r.regex_callbacks req resp w)))
    rules-first r =
        let dynamic = map patterned r.regex_handlers ++ map patterned r.regex_callbacks in
        rw
          (
            first_answer-append req resp w (map keyed r.handlers)
                (map keyed r.callbacks ++ dynamic),
            first_answer-append req resp w (map keyed r.callbacks) dynamic,
            first_answer-append req resp w (map patterned r.regex_handlers)
                (map patterned r.regex_callbacks),
            find_key-first req resp w r.handlers,
            find_key-first req resp w r.callbacks,
            route_regex-first r.regex_handlers,
            route_regex-first r.regex_callbacks,
          )
          refl

    chosen :
        (r : Router X W)
        → route r req resp w
          ≡ first (call_of req resp w (find_key (key_of req) r.handlers)) (
              first (call_of req resp w (find_key (key_of req) r.callbacks)) (
                first
                  (route_regex r.regex_handlers req resp w)
                  (route_regex r.regex_callbacks req resp w)))
    unfolding route
    chosen r = elim (Option-cases (find_key (key_of req) r.handlers)) [
      | inr (h, e) ↦ rw (e, route) refl
      | inl e ↦ elim (Option-cases (find_key (key_of req) r.callbacks)) [
        | inr (h, d) ↦ rw (e, d, route) refl
        | inl d ↦ elim (Option-cases (route_regex r.regex_handlers req resp w)) [
          | inr (call, c) ↦ rw (e, d, c, route) refl
          | inl c ↦ rw (e, d, c, route) refl
        ]
      ]
    ]

    -- `route` calls the first route that takes the request in one list: the registered handlers,
    -- the registered callbacks, the handlers with a regular expression, and the callbacks with one,
    -- the last two in the order in which they were added. It answers false when there is none.
    pub route_lem : (r : Router X W) → route r req resp w ≡ first_answer (rules r) req resp w
    unfolding route
    route_lem r = chosen r ∙ sym (rules-first r)

  -- A handler that is registered for a method and a path takes exactly the requests with both,
  -- whatever was registered before, and changes the routing of no other request.
  pub register_handler-route :
      (r : Router X W) (m : Method) (p : Text) (h : Handler W) (req : HttpRequest)
      (resp : HttpResponse) (w : W)
      → route (register_handler m p h r) req resp w ≡ (
          if key_eq (record { method = m; path = p }) (key_of req)
          then some (h req resp w)
          else route r req resp w)
  unfolding route register_handler
  register_handler-route r m p h req resp w =
      let k : RouterKey = record { method = m; path = p } in
      let found = find_key-set_key k (key_of req) h r.handlers in
      elim (Bool-cases (key_eq k (key_of req))) [
        | inl e ↦ rw (found, e, route) refl
        | inr e ↦ rw (found, e, route) refl
      ]
