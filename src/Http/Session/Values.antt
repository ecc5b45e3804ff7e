-- ===== src/Http/Session/Values.antt =====
-- Writing and reading the values of a session.
use workplace.Common.{Bool, Bool-cases, Option-cases, ap, false, get_elem?, if◌then◌else◌, inl, inr}
use workplace.Common.{none, refl, some, some_inj, subst, sym, true, ℕ, ◌∙◌, ◌≡◌}
use workplace.Common.Text.{Text, insert}
use workplace.Http.Session.{Session, Store, erase_id, find_id, modify, remove, save, set_value}
use workplace.Http.Session.Storage.{IsStore, erase_id-IsStore, get_elem?-modify, modify-IsStore}
use workplace.Http.Session.Storage.{save-IsStore, save_eq}

abbrev pub written : Text → Text → Session → Session
written key value s = record s { session_data = insert key value s.session_data }

pub get_elem?-set_value :
    (key value : Text) (a : ℕ) (st : Store) {s : Session}
    → get_elem? st.heap a ≡ some s
    → get_elem? (set_value key value a st).heap a ≡ some (written key value s)
unfolding set_value
get_elem?-set_value key value a st {s} e =
    let changed = modify (written key value) a st in
    let there = get_elem?-modify (written key value) a st e in
    let run : set_value key value a st ≡ (if s.managed then save a changed else changed) =
      rw (e, set_value) refl in
    ap (λ t. get_elem? t.heap a) run ∙ either s.managed changed there
  where
    either :
        (m : Bool) (changed : Store) {t : Session}
        → get_elem? changed.heap a ≡ some t
        → get_elem? (if m then save a changed else changed).heap a ≡ some t
    either true changed there = ap (λ t. get_elem? t.heap a) (save_eq a changed there) ∙ there
    either false changed there = there

pub set_value-IsStore :
    (key value : Text) (a : ℕ) (st : Store) → IsStore st → IsStore (set_value key value a st)
unfolding set_value
set_value-IsStore key value a st v = elim (Option-cases (get_elem? st.heap a)) [
  | inl e ↦ rw (e, set_value) v
  | inr (s, e) ↦
      let changed = modify-IsStore (written key value) a st (λ t. refl) v in
      elim (Bool-cases s.managed) [
        | inl m ↦
            rw (e, m, set_value)
              (save-IsStore a _ (get_elem?-modify (written key value) a st e) changed)
        | inr m ↦ rw (e, m, set_value) changed
      ]
]

pub remove-IsStore :
    (id : Text) (st st' : Store) → IsStore st → remove id st ≡ some st' → IsStore st'
unfolding remove
remove-IsStore id st st' v e = elim (Option-cases (find_id id st.sessions)) [
  | inl n ↦ let crash : remove id st ≡ none = rw (n, remove) refl in absurd (cc)
  | inr (a, n) ↦
      let gone : remove id st ≡ some (record st { sessions = erase_id id st.sessions }) =
        rw (n, remove) refl in
      subst IsStore (some_inj (sym gone ∙ e)) (erase_id-IsStore id st v)
]
