-- ===== src/Http/Session.antt =====
-- `Session`, `MemorySessionStorage` and `SessionManager`: HttpServer/HTTP/include/session and
-- src/session. A shared pointer is the place of a session in a heap; every session stays in it.
-- Time is counted in ticks of the system clock, `second` of them a second; each call of `now()` is
-- an argument.
pub mod Cookie
pub mod Storage
pub mod Manager
pub mod Values
use workplace.Common.{Bool, List, Option, [], get_elem?, if◌then◌else◌, length, ltb, none, not, set}
use workplace.Common.{some, suc, true, zero, ℕ, ◌*◌, ◌++◌, ◌+◌, ◌-◌, ◌==◌, ◌∷◌}
use workplace.Common.Text.{Text, TextMap, codes, cut, find_or_empty, insert, text_eq}
use workplace.Http.Request.{HttpRequest, get_header, is_empty}
use workplace.Http.Response.{HttpResponse, add_response_header}

-- `managed` is whether the pointer to the manager is set. A `maxAge_` is not negative here: only
-- the default of 3600 is used.
pub record Session : Type 0 where
  pub session_id : Text
  pub session_data : TextMap
  pub expiry_time : ℕ
  pub max_age : ℕ
  pub managed : Bool

-- The heap, and the map `sessions_` from ids to sessions.
pub record Store : Type 0 where
  pub heap : List Session
  pub sessions : List (Text × ℕ)

unfoldable pub find_id : Text → List (Text × ℕ) → Option ℕ
find_id k [] = none
find_id k ((j, a) ∷ m) = let rest = find_id k m in if text_eq j k then some a else rest

unfoldable pub set_id : Text → ℕ → List (Text × ℕ) → List (Text × ℕ)
set_id k a [] = (k, a) ∷ []
set_id k a ((j, b) ∷ m) =
    let rest = set_id k a m in if text_eq j k then (k, a) ∷ m else (j, b) ∷ rest

-- `erase(it)`; a key occurs once, and so every entry of it goes.
unfoldable pub erase_id : Text → List (Text × ℕ) → List (Text × ℕ)
erase_id k [] = []
erase_id k ((j, b) ∷ m) = let rest = erase_id k m in if text_eq j k then rest else (j, b) ∷ rest

abbrev pub is_expired : ℕ → Session → Bool
is_expired now s = ltb s.expiry_time now

abbrev pub refresh : ℕ → ℕ → Session → Session
refresh second now s = record s { expiry_time = now + second * s.max_age }

-- The constructor.
abbrev pub new_session : ℕ → ℕ → Text → ℕ → Session
new_session second now id max_age = refresh second now (record {
  session_id = id;
  session_data = [];
  expiry_time = 0;
  max_age = max_age;
  managed = true;
})

-- A change of one session in place; there is nothing at a place past the heap.
unfoldable pub modify : (Session → Session) → ℕ → Store → Store
modify f a st = elim (get_elem? st.heap a) [
  | none ↦ st
  | some s ↦ record st { heap = set st.heap a (f s) }
]

-- `setManager`.
abbrev pub set_manager : Session → Session
set_manager s = record s { managed = true }

-- `save`.
unfoldable pub save : ℕ → Store → Store
save a st = elim (get_elem? st.heap a) [
  | none ↦ st
  | some s ↦ record st { sessions = set_id s.session_id a st.sessions }
]

-- `load`, with the place of the session if there is one.
unfoldable pub load : ℕ → Text → Store → Option ℕ × Store
load now id st = elim (find_id id st.sessions) [
  | none ↦ (none, st)
  | some a ↦ elim (get_elem? st.heap a) [
    | none ↦ (none, st)
    | some s ↦
        if not (is_expired now s)
        then (some a, st)
        else (none, record st { sessions = erase_id id st.sessions })
  ]
]

-- `remove`, and so `destroySession`; `none` is `erase(end())`, which has no defined behaviour.
unfoldable pub remove : Text → Store → Option Store
remove id st = elim (find_id id st.sessions) [
  | none ↦ none
  | some a ↦ some (record st { sessions = erase_id id st.sessions })
]

-- `setValue`: a managed session saves itself.
unfoldable pub set_value : Text → Text → ℕ → Store → Store
unfolding modify save
set_value key value a st =
    let changed = modify (λ s. record s { session_data = insert key value s.session_data }) a st in
    elim (get_elem? st.heap a) [
      | none ↦ st
      | some s ↦ if s.managed then save a changed else changed
    ]

abbrev pub get_value : Session → Text → Text
get_value s key = find_or_empty key s.session_data

unfoldable pub erase_key : Text → TextMap → TextMap
erase_key k [] = []
erase_key k ((j, v) ∷ m) = let rest = erase_key k m in if text_eq j k then rest else (j, v) ∷ rest

-- `Session::remove` and `clear`.
abbrev pub remove_value : Text → ℕ → Store → Store
remove_value key = modify (λ s. record s { session_data = erase_key key s.session_data })

abbrev pub clear : ℕ → Store → Store
clear = modify (λ s. record s { session_data = [] })

-- The text behind a prefix, and behind the first place where a text stands.
unfoldable pub strip : Text → Text → Option Text
strip [] t = some t
strip (a ∷ p) [] = none
strip (a ∷ p) (b ∷ t) = let rest = strip p t in if a == b then rest else none

unfoldable pub behind_first : Text → Text → Option Text
unfolding strip
behind_first p [] = strip p []
behind_first p (a ∷ t) =
    let rest = behind_first p t in elim (strip p (a ∷ t)) [ none ↦ rest | some u ↦ some u ]

abbrev pub up_to_semicolon : Text → Text
up_to_semicolon t = elim (cut b';' t) [ none ↦ t | some (before, after) ↦ before ]

-- `getSessionIdFromCookie`, on the text of the cookie; an empty cookie holds nothing.
abbrev pub id_in : Option Text → Text
id_in none = []
id_in (some t) = up_to_semicolon t

unfoldable pub session_id_of : Text → Text
unfolding behind_first
session_id_of cookie = id_in (behind_first (codes "sessionId=") cookie)

abbrev pub get_session_id_from_cookie : HttpRequest → Text
get_session_id_from_cookie req = session_id_of (get_header req (codes "Cookie"))

abbrev pub session_cookie : Text → Text
session_cookie id = codes "sessionId=" ++ (id ++ codes "; Path=/; HttpOnly")

abbrev pub set_session_cookie : Text → HttpResponse → HttpResponse
set_session_cookie id resp = add_response_header resp (codes "Set-Cookie") (session_cookie id)

abbrev pub hex_digit : ℕ → ℕ
hex_digit n = if ltb n 10 then b'0' + n else b'a' + (n - 10)

-- The random numbers: `dist(rng_)` gives a number below 16 and the generator after it.
module _ {G : Type 0} (draw : G → ℕ × G) where
  unfoldable pub hex_digits : ℕ → G → Text × G
  hex_digits zero g = ([], g)
  hex_digits (suc n) g =
      let (d, g') = draw g in let (rest, g'') = hex_digits n g' in (hex_digit d ∷ rest, g'')

  -- `generateSessionId`: the loop runs from 1 to 31.
  unfoldable pub generate_session_id : G → Text × G
  unfolding hex_digits
  generate_session_id g = hex_digits 31 g

  -- What `getSession` returns and changes.
  pub record Got : Type 0 where
    pub session : ℕ
    pub response : HttpResponse
    pub store : Store
    pub generator : G

  module _ (second loading testing making refreshing : ℕ) where
    -- A session for a client that has none, and the end of `getSession` with it.
    create : HttpResponse → G → Store → Got
    unfolding generate_session_id modify save
    create resp g st =
        let (id, g') = generate_session_id g in
        let a = length st.heap in
        let made = record st { heap = st.heap ++ new_session second making id 3600 ∷ [] } in
        record {
          session = a;
          response = set_session_cookie id resp;
          store = save a (modify (refresh second refreshing) a made);
          generator = g';
        }

    resume : ℕ → HttpResponse → G → Store → Got
    unfolding modify save
    resume a resp g st =
        let managed = modify set_manager a st in
        record {
          session = a;
          response = resp;
          store = save a (modify (refresh second refreshing) a managed);
          generator = g;
        }

    -- The test of what `load` returned.
    after_load : Option ℕ → HttpResponse → G → Store → Got
    unfolding create resume
    after_load none resp g st = create resp g st
    after_load (some a) resp g st = elim (get_elem? st.heap a) [
      | none ↦ create resp g st
      | some s ↦ if is_expired testing s then create resp g st else resume a resp g st
    ]

    unfoldable pub get_session : HttpRequest → HttpResponse → G → Store → Got
    unfolding after_load load
    get_session req resp g st =
        let id = get_session_id_from_cookie req in
        let (found, st') = load loading id st in
        if not (is_empty id) then after_load found resp g st' else after_load none resp g st
