-- ===== src/Http/Session/Manager.antt =====
-- What `getSession` returns.
use workplace.Common.{Bool-cases, Option, Option-cases, [], ap, false, get_elem?}
use workplace.Common.{get_elem?-append_left, get_elem?-append_new, inl, inr, length, none, not}
use workplace.Common.{refl, some, true, ℕ, ◌*◌, ◌++◌, ◌+◌, ◌∙◌, ◌∷◌, ◌≡◌}
use workplace.Common.Text.{text_eq_refl}
use workplace.Http.Request.{HttpRequest, is_empty}
use workplace.Http.Response.{HttpResponse}
use workplace.Http.Session.{Got, Session, Store, after_load, create, find_id, generate_session_id}
use workplace.Http.Session.{get_session, get_session_id_from_cookie, is_expired, load, modify}
use workplace.Http.Session.{new_session, refresh, resume, save}
use workplace.Http.Session.Storage.{IsStore, find_id-set_id, get_elem?-modify, load-IsStore}
use workplace.Http.Session.Storage.{load_eq, modify-IsStore, save-IsStore, save_eq}

-- The session at a place is stored under its id, expires `second * max_age` ticks after the last
-- refresh, and the storage is in order.
pub record Served (refreshed second a : ℕ) (st : Store) : Type 0 where
  pub session : Session
  pub there : get_elem? st.heap a ≡ some session
  pub stored : find_id session.session_id st.sessions ≡ some a
  pub fresh : session.expiry_time ≡ refreshed + second * session.max_age
  pub in_order : IsStore st

-- The end of `getSession`: refresh, then save.
finish :
    (refreshed second a : ℕ) (st : Store) {s : Session}
    → get_elem? st.heap a ≡ some s
    → IsStore st
    → Served refreshed second a (save a (modify (refresh second refreshed) a st))
finish refreshed second a st {s} e v =
    let st' = modify (refresh second refreshed) a st in
    let there : get_elem? st'.heap a ≡ some (refresh second refreshed s) =
      get_elem?-modify (refresh second refreshed) a st e in
    let saved = save_eq a st' there in
    record {
      session = refresh second refreshed s;
      there = ap (λ t. get_elem? t.heap a) saved ∙ there;
      stored =
          ap (λ t. find_id s.session_id t.sessions) saved
          ∙ find_id-set_id s.session_id s.session_id a st'.sessions
          ∙ rw (text_eq_refl s.session_id) refl;
      fresh = refl;
      in_order =
          save-IsStore a st' there (modify-IsStore (refresh second refreshed) a st (λ t. refl) v);
    }

module _ {G : Type 0} (draw : G → ℕ × G) (second loading testing making refreshing : ℕ) where
  abbrev Fine : Got draw → Type 0
  Fine got = Served refreshing second got.session got.store

  create-Fine :
      (resp : HttpResponse) (g : G) (st : Store)
      → IsStore st
      → Fine (create draw second loading testing making refreshing resp g st)
  unfolding create
  create-Fine resp g st v =
      let id = (generate_session_id draw g).0 in
      let s = new_session second making id 3600 in
      finish refreshing second (length st.heap) (record st { heap = st.heap ++ s ∷ [] })
        (get_elem?-append_new st.heap s)
        (λ k a e.
          let (t, there, named) = v k a e in
          (t, get_elem?-append_left st.heap (s ∷ []) a there, named))

  resume-Fine :
      (a : ℕ) (resp : HttpResponse) (g : G) (st : Store) {s : Session}
      → get_elem? st.heap a ≡ some s
      → IsStore st
      → Fine (resume draw second loading testing making refreshing a resp g st)
  unfolding resume
  resume-Fine a resp g st e v =
      let claim = λ (t : Session). record t { managed = true } in
      finish refreshing second a (modify claim a st) (get_elem?-modify claim a st e)
        (modify-IsStore claim a st (λ t. refl) v)

  after_load-Fine :
      (found : Option ℕ) (resp : HttpResponse) (g : G) (st : Store)
      → IsStore st
      → Fine (after_load draw second loading testing making refreshing found resp g st)
  unfolding after_load
  after_load-Fine none resp g st v = create-Fine resp g st v
  after_load-Fine (some a) resp g st v = elim (Option-cases (get_elem? st.heap a)) [
    | inl e ↦ rw (e, after_load) (create-Fine resp g st v)
    | inr (s, e) ↦ elim (Bool-cases (is_expired testing s)) [
      | inl old ↦ rw (e, old, after_load) (create-Fine resp g st v)
      | inr live ↦ rw (e, live, after_load) (resume-Fine a resp g st e v)
    ]
  ]

  -- `getSession` always returns a session that is in the storage under its own id and expires its
  -- full age after the last reading of the clock, and leaves the storage in order: every id leads to
  -- a session with that id. The storage was in order before; the clock and the random numbers are
  -- arbitrary.
  pub get_session-Served :
      (req : HttpRequest) (resp : HttpResponse) (g : G) (st : Store)
      → IsStore st
      → let got = get_session draw second loading testing making refreshing req resp g st in
        Served refreshing second got.session got.store
  unfolding get_session
  get_session-Served req resp g st v =
      let id = get_session_id_from_cookie req in
      elim (Bool-cases (not (is_empty id))) [
        | inl given ↦
            rw given
              (after_load-Fine (load loading id st).0 resp g _ (load-IsStore loading id st v))
        | inr missing ↦ rw missing (after_load-Fine none resp g st v)
      ]

  resumed :
      (a : ℕ) (resp : HttpResponse) (g : G) (st : Store) {s : Session}
      → get_elem? st.heap a ≡ some s
      → let got = resume draw second loading testing making refreshing a resp g st in
        get_elem? got.store.heap a
        ≡ some (record s { managed = true; expiry_time = refreshing + second * s.max_age })
  unfolding resume
  resumed a resp g st {s} e =
      let claim = λ (t : Session). record t { managed = true } in
      let there =
        get_elem?-modify (refresh second refreshing) a (modify claim a st)
          (get_elem?-modify claim a st e) in
      ap (λ t. get_elem? t.heap a)
        (save_eq a (modify (refresh second refreshing) a (modify claim a st)) there)
      ∙ there

  after_load_eq :
      (a : ℕ) (resp : HttpResponse) (g : G) (st : Store) {s : Session}
      → get_elem? st.heap a ≡ some s
      → is_expired testing s ≡ false
      → after_load draw second loading testing making refreshing (some a) resp g st
        ≡ resume draw second loading testing making refreshing a resp g st
  unfolding after_load
  after_load_eq a resp g st e live = rw (e, live, after_load) refl

  resume_parts :
      (a : ℕ) (resp : HttpResponse) (g : G) (st : Store)
      → let got = resume draw second loading testing making refreshing a resp g st in
        (got.session ≡ a) × (got.response ≡ resp)
  unfolding resume
  resume_parts a resp g st = (refl, refl)

  -- A client whose cookie names a stored session that has expired at neither reading of the clock
  -- gets that session: the same place with the same data, refreshed, and no new cookie.
  pub get_session_resumes :
      (req : HttpRequest) (resp : HttpResponse) (g : G) (st : Store) (a : ℕ) (s : Session)
      → is_empty (get_session_id_from_cookie req) ≡ false
      → find_id (get_session_id_from_cookie req) st.sessions ≡ some a
      → get_elem? st.heap a ≡ some s
      → is_expired loading s ≡ false
      → is_expired testing s ≡ false
      → let got = get_session draw second loading testing making refreshing req resp g st in
        (got.session ≡ a)
        × (got.response ≡ resp)
        × (get_elem? got.store.heap a
            ≡ some (record s { managed = true; expiry_time = refreshing + second * s.max_age }))
  unfolding get_session
  get_session_resumes req resp g st a s given found there young live =
      let id = get_session_id_from_cookie req in
      let after = after_load draw second loading testing making refreshing in
      let run : get_session draw second loading testing making refreshing req resp g st
          ≡ resume draw second loading testing making refreshing a resp g st =
        rw given (
          ap (λ l. after l.0 resp g l.1) (load_eq loading id st a s found there young)
          ∙ after_load_eq a resp g st there live) in
      (
        ap (λ got. got.session) run ∙ (resume_parts a resp g st).0,
        ap (λ got. got.response) run ∙ (resume_parts a resp g st).1,
        ap (λ got. get_elem? got.store.heap a) run ∙ resumed a resp g st there,
      )
