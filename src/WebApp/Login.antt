-- ===== src/WebApp/Login.antt =====
-- What logging in, logging out and playing ask of the session.
use workplace.Common.{Bool, Bool-cases, List, Option, [], ap, arith, false, false_ne_true}
use workplace.Common.{get_elem?, if◌then◌else◌, inl, inr, length, none, refl, some, sym, true, ℕ}
use workplace.Common.{◌+◌, ◌||◌, ◌∙◌, ◌≡◌, ◌≤◌}
use workplace.Common.Int.{int_eq, ℤ}
use workplace.Common.Text.{Text, codes, find_or_empty-insert, text_eq, text_eq_refl}
use workplace.Http.Context.Stoi.{IsInt, stoi-to_string}
use workplace.Http.Cors.{to_string}
use workplace.Http.Handler.{done}
use workplace.Http.Request.{HttpRequest}
use workplace.Http.Response.{HttpResponse, forbidden_403, ok_200}
use workplace.Http.Session.{Session, get_value}
use workplace.Http.Session.Manager.{get_session-Served}
use workplace.Http.Session.Storage.{IsStore}
use workplace.Http.Session.Values.{get_elem?-set_value, written}
use workplace.WebApp.Account.{admit, credentials, is_online, lacks_json, login, no_user, sign_in}
use workplace.WebApp.IntMap.{find_int-set_int, int_eq_iff, set_int}
use workplace.WebApp.Libraries.{Libraries}
use workplace.WebApp.State.{App, is_logged_in, open_session, put_value, reply, user_id_at, value_at}

-- The place holds a session.
abbrev pub Held : {L : Libraries} → ℕ → App L → Type 0
Held a w = (s : Session) × (get_elem? w.store.heap a ≡ some s)

is_online-set_int :
    (id j : ℤ) (users : List (ℤ × Bool))
    → is_online j (set_int id true users) ≡ (int_eq id j || is_online j users)
is_online-set_int id j users =
    ap known (find_int-set_int id j true users)
    ∙ (elim (Bool-cases (int_eq id j)) [ inl same ↦ rw same refl | inr other ↦ rw other refl ])
  where
    known : Option Bool → Bool
    known found = elim found [ none ↦ false | some online ↦ online ]

same-online :
    (id j : ℤ) (users : List (ℤ × Bool))
    → is_online id users ≡ true
    → is_online j users ≡ (int_eq id j || is_online j users)
same-online id j users e = elim (Bool-cases (int_eq id j)) [
  | inl same ↦ rw (same, sym ((int_eq_iff id j).0 same), e) refl
  | inr other ↦ rw other refl
]

module _ {L : Libraries} where
  value_at_eq :
      (a : ℕ) (key : Text) (w : App L) {s : Session}
      → get_elem? w.store.heap a ≡ some s
      → value_at a key w ≡ get_value s key
  unfolding value_at
  value_at_eq a key w e = rw (e, value_at) refl

  put_value-Held : (a : ℕ) (key to : Text) (w : App L) → Held a w → Held a (put_value a key to w)
  put_value-Held a key to w (s, e) = (written key to s, get_elem?-set_value key to a w.store e)

  value_at-put_value :
      (a : ℕ) (key to k : Text) (w : App L)
      → Held a w
      → value_at a k (put_value a key to w) ≡ (if text_eq key k then to else value_at a k w)
  value_at-put_value a key to k w (s, e) =
      value_at_eq a k (put_value a key to w) (get_elem?-set_value key to a w.store e)
      ∙ find_or_empty-insert key k to s.session_data
      ∙ ap (λ v. if text_eq key k then to else v) (sym (value_at_eq a k w e))

  sign_in-values :
      (a : ℕ) (username : Text) (id : ℤ) (w : App L)
      → Held a w
      → (value_at a (codes "isLoggedIn") (sign_in a username id w) ≡ codes "true")
        × (value_at a (codes "userId") (sign_in a username id w) ≡ to_string id)
  unfolding text_eq
  sign_in-values a username id w held =
      let w1 = put_value a (codes "userId") (to_string id) w in
      let h1 = put_value-Held a (codes "userId") (to_string id) w held in
      let w2 = put_value a (codes "username") username w1 in
      let h2 = put_value-Held a (codes "username") username w1 h1 in
      (
        value_at-put_value a (codes "isLoggedIn") (codes "true") (codes "isLoggedIn") w2 h2,
        value_at-put_value a (codes "isLoggedIn") (codes "true") (codes "userId") w2 h2
            ∙ value_at-put_value a (codes "username") username (codes "userId") w1 h1
            ∙ value_at-put_value a (codes "userId") (to_string id) (codes "userId") w held,
      )

  open_session-Held :
      (req : HttpRequest) (resp : HttpResponse) (w : App L)
      → IsStore w.store
      → Held (open_session req resp w).0 (open_session req resp w).2
  unfolding open_session
  open_session-Held req resp w v =
      let t = w.readings in
      let served =
        get_session-Served L.draw L.second (L.clock t) (L.clock (t + 1)) (L.clock (t + 2))
          (L.clock (t + 3)) req resp w.random w.store v in
      (served.session, served.there)

  user_id_at_eq :
      (a : ℕ) (id : ℤ) (w : App L)
      → IsInt id
      → value_at a (codes "userId") w ≡ to_string id
      → user_id_at a w ≡ inr id
  unfolding user_id_at
  user_id_at_eq a id w small e = rw (e, stoi-to_string id small, user_id_at) refl

  -- Values are read from the store alone.
  value_at-store :
      (a : ℕ) (key : Text) (w w' : App L)
      → w.store ≡ w'.store
      → value_at a key w ≡ value_at a key w'
  unfolding value_at
  value_at-store a key w w' e =
      ap (λ st. elim (get_elem? st.heap a) [ none ↦ [] | some s ↦ get_value s key ]) e

  -- What a login leaves behind, whether it is admitted or refused.
  pub record SignedIn (req : HttpRequest) (resp : HttpResponse) (id : ℤ) (w w' : App L)
      (resp' : HttpResponse) : Type 0 where
    pub logged_in : is_logged_in (open_session req resp w).0 w' ≡ true
    pub user : user_id_at (open_session req resp w).0 w' ≡ inr id
    pub online : (j : ℤ) → is_online j w'.online_users ≡ (int_eq id j || is_online j w.online_users)
    pub games : w'.game_map ≡ w.game_map
    pub status : resp'.status_code ≡ (if is_online id w.online_users then forbidden_403 else ok_200)
    pub admitted : is_online id w.online_users ≡ false → length w'.online_users ≤ w'.max_online

  admit_lem :
      (username : Text) (id : ℤ) (req : HttpRequest) (resp : HttpResponse) (w : App L)
      → IsStore w.store
      → IsInt id
      → (resp' : HttpResponse) × (w' : App L) × (admit username id req resp w ≡ done resp' w')
        × SignedIn req resp id w w' resp'
  unfolding admit open_session reply
  admit_lem username id req resp w v small =
      let (a, resp0, w0) = open_session req resp w in
      let (yes_in, named) = sign_in-values a username id w0 (open_session-Held req resp w v) in
      let signed = sign_in a username id w0 in
      elim (Bool-cases (is_online id w.online_users)) [
        | inl twice ↦ rw twice (
          _,
          _,
          refl,
          record {
            logged_in =
                ap (λ t. text_eq t (codes "true"))
                  (value_at-store a (codes "isLoggedIn") _ signed refl ∙ yes_in)
                ∙ text_eq_refl (codes "true");
            user =
                user_id_at_eq a id _ small
                  (value_at-store a (codes "userId") _ signed refl ∙ named);
            online = λ j. same-online id j w.online_users twice;
            games = refl;
            status = rw twice refl;
            admitted = λ e. absurd (false_ne_true (sym e ∙ twice));
          },
        )
        | inr once ↦ rw once (
          _,
          _,
          refl,
          record {
            logged_in =
                ap (λ t. text_eq t (codes "true"))
                  (value_at-store a (codes "isLoggedIn") _ signed refl ∙ yes_in)
                ∙ text_eq_refl (codes "true");
            user =
                user_id_at_eq a id _ small
                  (value_at-store a (codes "userId") _ signed refl ∙ named);
            online = λ j. is_online-set_int id j w.online_users;
            games = refl;
            status = rw once refl;
            admitted = λ e. ground arith;
          },
        )
      ]

  -- A login of a known user with readable credentials always signs the session in under the user's
  -- id, and puts the user online: with the status 200 and the record of the most users raised where
  -- needed, and also, with the status 403, for a user who is online already. The session storage is
  -- in order, the id fits an `int` and is not -1.
  pub login-SignedIn :
      (req : HttpRequest) (resp : HttpResponse) (username : Text) (id : ℤ) (w : App L)
      → IsStore w.store
      → IsInt id
      → lacks_json req ≡ false
      → credentials req w ≡ inr (username, id)
      → int_eq id no_user ≡ false
      → (resp' : HttpResponse) × (w' : App L) × (login req resp w ≡ done resp' w')
        × SignedIn req resp id w w' resp'
  unfolding login
  login-SignedIn req resp username id w v small json known user =
      rw (json, known, user, login) (admit_lem username id req resp w v small)
