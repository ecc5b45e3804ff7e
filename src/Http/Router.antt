-- ===== src/Http/Router.antt =====
-- `Router`: HttpServer/HTTP/include/router/Router.h and src/router/Router.cpp. The two unordered
-- maps are association lists without an order that matters; the hash of a key is left out.
pub mod Routing
use workplace.Common.{Bool, List, Option, [], false, if◌then◌else◌, none, some, true, ℕ, ◌&&◌, ◌++◌}
use workplace.Common.{◌+◌, ◌∷◌}
use workplace.Common.Text.{Text, codes, text_eq}
use workplace.Http.Handler.{Call, Handler}
use workplace.Http.Request.{HttpRequest, Method, delete, get, head, invalid, options, post, put}
use workplace.Http.Request.{set_path_parameters}
use workplace.Http.Response.{HttpResponse, decimal}

-- `std::regex`, which is not part of the repository: compiling a pattern, replacing all matches in
-- a text, and matching a whole text, with the match and its groups.
pub record Regexes : Type 1 where
  pub Regex : Type 0
  pub regex : Text → Regex
  pub regex_replace : Text → Regex → Text → Text
  pub regex_match : Text → Regex → Option (List Text)

abbrev pub method_eq : Method → Method → Bool
method_eq invalid invalid = true
method_eq get get = true
method_eq post post = true
method_eq delete delete = true
method_eq put put = true
method_eq head head = true
method_eq options options = true
method_eq _ _ = false

-- `RouterKey`, and its `operator==`.
pub record RouterKey : Type 0 where
  pub method : Method
  pub path : Text

abbrev pub key_eq : RouterKey → RouterKey → Bool
key_eq k l = method_eq k.method l.method && text_eq k.path l.path

module _ {H : Type 0} where
  -- `map.find(key)`.
  unfoldable pub find_key : RouterKey → List (RouterKey × H) → Option H
  find_key k [] = none
  find_key k ((j, h) ∷ m) = let rest = find_key k m in if key_eq j k then some h else rest

  -- `map[key] = handler`.
  unfoldable pub set_key : RouterKey → H → List (RouterKey × H) → List (RouterKey × H)
  set_key k h [] = (k, h) ∷ []
  set_key k h ((j, g) ∷ m) =
      let rest = set_key k h m in if key_eq j k then (k, h) ∷ m else (j, g) ∷ rest

module _ (X : Regexes) (W : Type 0) where
  -- `RouteHandlerObj` and `RouteCallbackObj`, which have the same fields.
  pub record RegexRoute : Type 0 where
    pub method : Method
    pub path_regex : X.Regex
    pub handler : Handler W

  pub record Router : Type 0 where
    pub handlers : List (RouterKey × Handler W)
    pub callbacks : List (RouterKey × Handler W)
    pub regex_handlers : List RegexRoute
    pub regex_callbacks : List RegexRoute

-- `convertToRegex`: the expressions are `/:([^/]+)` and its replacement `/([^/]+)`.
abbrev pub convert_to_regex : (X : Regexes) → Text → X.Regex
convert_to_regex X path =
    X.regex (b'^' ∷ X.regex_replace path (X.regex (codes "/:([^/]+)")) (codes "/([^/]+)"))

-- The loop of `extractPathParameters`, from the group `i` on.
unfoldable pub extract_groups : ℕ → List Text → HttpRequest → HttpRequest
unfolding set_path_parameters
extract_groups i [] r = r
extract_groups i (g ∷ gs) r =
    extract_groups (i + 1) gs (set_path_parameters r (codes "param" ++ decimal i) g)

abbrev pub extract_path_parameters : List Text → HttpRequest → HttpRequest
extract_path_parameters [] r = r
extract_path_parameters (whole ∷ gs) r = extract_groups 1 gs r

abbrev pub key_of : HttpRequest → RouterKey
key_of req = record { method = req.method; path = req.path }

module _ {X : Regexes} {W : Type 0} where
  unfoldable pub register_handler : Method → Text → Handler W → Router X W → Router X W
  register_handler m p h r = record r {
    handlers = set_key (record { method = m; path = p }) h r.handlers;
  }

  unfoldable pub register_callback : Method → Text → Handler W → Router X W → Router X W
  register_callback m p h r = record r {
    callbacks = set_key (record { method = m; path = p }) h r.callbacks;
  }

  unfoldable pub add_regex_handler : Method → Text → Handler W → Router X W → Router X W
  add_regex_handler m p h r = record r {
    regex_handlers =
        r.regex_handlers
        ++ record { method = m; path_regex = convert_to_regex X p; handler = h } ∷ [];
  }

  unfoldable pub add_regex_callback : Method → Text → Handler W → Router X W → Router X W
  add_regex_callback m p h r = record r {
    regex_callbacks =
        r.regex_callbacks
        ++ record { method = m; path_regex = convert_to_regex X p; handler = h } ∷ [];
  }

  -- One of the two loops over the regular expressions; `none` when none matches.
  unfoldable pub route_regex :
      List (RegexRoute X W) → HttpRequest → HttpResponse → W → Option (Call W)
  unfolding extract_groups
  route_regex [] req resp w = none
  route_regex (o ∷ os) req resp w =
      let rest = route_regex os req resp w in
      if method_eq o.method req.method
      then elim (X.regex_match req.path o.path_regex) [
        | none ↦ rest
        | some groups ↦ some (o.handler (extract_path_parameters groups req) resp w)
      ]
      else rest

  -- `route`: `none` is the result false; with true comes how the call of the handler ended.
  unfoldable pub route : Router X W → HttpRequest → HttpResponse → W → Option (Call W)
  unfolding route_regex
  route r req resp w = elim (find_key (key_of req) r.handlers) [
    | some h ↦ some (h req resp w)
    | none ↦ elim (find_key (key_of req) r.callbacks) [
      | some h ↦ some (h req resp w)
      | none ↦ elim (route_regex r.regex_handlers req resp w) [
        | some call ↦ some call
        | none ↦ route_regex r.regex_callbacks req resp w
      ]
    ]
  ]
