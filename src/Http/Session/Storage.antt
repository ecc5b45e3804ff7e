-- ===== src/Http/Session/Storage.antt =====
-- The storage of sessions.
use workplace.Common.{Bool-cases, List, Option-cases, [], ap, arith, false, get_elem?, get_elem?-lt}
use workplace.Common.{get_elem?-set_ne, get_elem?-set_self, if◌then◌else◌, inl, inr, none, not}
use workplace.Common.{refl, some, some_inj, subst, sym, ℕ, ℕ_discrete, ◌↔◌, ◌∙◌, ◌∷◌, ◌≡◌, ◌≢◌, ◌⊎◌}
use workplace.Common.Text.{Text, text_eq, text_eq_iff}
use workplace.Http.Session.{Session, Store, erase_id, find_id, is_expired, load, modify, remove}
use workplace.Http.Session.{save, set_id}

pub find_id-set_id :
    (k j : Text) (a : ℕ) (m : List (Text × ℕ))
    → find_id j (set_id k a m) ≡ (if text_eq k j then some a else find_id j m)
unfolding find_id set_id
find_id-set_id k j a [] = refl
find_id-set_id k j a ((i, b) ∷ m) =
    ground (arith, text_eq_iff k j, text_eq_iff i k, text_eq_iff i j, find_id-set_id k j a m)

find_id-erase_id :
    (k j : Text) (m : List (Text × ℕ))
    → find_id j (erase_id k m) ≡ (if text_eq k j then none else find_id j m)
unfolding find_id erase_id
find_id-erase_id k j [] = ground arith
find_id-erase_id k j ((i, b) ∷ m) =
    ground (arith, text_eq_iff k j, text_eq_iff i k, text_eq_iff i j, find_id-erase_id k j m)

-- Every id in the map leads to a session of the heap with that id.
abbrev pub IsStore : Store → Type 0
IsStore st =
    (id : Text) (a : ℕ)
    → find_id id st.sessions ≡ some a
    → (s : Session) × (get_elem? st.heap a ≡ some s) × (s.session_id ≡ id)

pub get_elem?-modify :
    (f : Session → Session) (a : ℕ) (st : Store) {s : Session}
    → get_elem? st.heap a ≡ some s
    → get_elem? (modify f a st).heap a ≡ some (f s)
unfolding modify
get_elem?-modify f a st {s} e =
    rw (e, modify) (get_elem?-set_self st.heap a (f s) (get_elem?-lt st.heap a e))

get_elem?-modify_ne :
    (f : Session → Session) (a b : ℕ) (st : Store)
    → a ≢ b
    → get_elem? (modify f a st).heap b ≡ get_elem? st.heap b
unfolding modify
get_elem?-modify_ne f a b st h = elim (Option-cases (get_elem? st.heap a)) [
  | inl e ↦ rw (e, modify) refl
  | inr (s, e) ↦ rw (e, modify) (get_elem?-set_ne st.heap (f s) h)
]

modify-sessions :
    (f : Session → Session) (a : ℕ) (st : Store) → (modify f a st).sessions ≡ st.sessions
unfolding modify
modify-sessions f a st = elim (Option-cases (get_elem? st.heap a)) [
  | inl e ↦ rw (e, modify) refl
  | inr (s, e) ↦ rw (e, modify) refl
]

pub modify-IsStore :
    (f : Session → Session) (a : ℕ) (st : Store)
    → ((s : Session) → (f s).session_id ≡ s.session_id)
    → IsStore st
    → IsStore (modify f a st)
modify-IsStore f a st keeps v id b e =
    let (s, found, named) = v id b (sym (ap (find_id id) (modify-sessions f a st)) ∙ e) in
    elim (ℕ_discrete a b) [
      | no other ↦ (s, get_elem?-modify_ne f a b st other ∙ found, named)
      | yes same ↦ (
        f s,
        subst (λ c. get_elem? (modify f a st).heap c ≡ some (f s)) same
            (get_elem?-modify f a st (ap (get_elem? st.heap) same ∙ found)),
        keeps s ∙ named,
      )
    ]

pub save_eq :
    (a : ℕ) (st : Store) {s : Session}
    → get_elem? st.heap a ≡ some s
    → save a st ≡ record st { sessions = set_id s.session_id a st.sessions }
unfolding save
save_eq a st e = rw (e, save) refl

pub save-IsStore :
    (a : ℕ) (st : Store) {s : Session}
    → get_elem? st.heap a ≡ some s
    → IsStore st
    → IsStore (save a st)
save-IsStore a st {s} e v = rw (save_eq a st e) (saved)
  where
    saved : IsStore (record st { sessions = set_id s.session_id a st.sessions })
    saved id b h = elim (Bool-cases (text_eq s.session_id id)) [
      | inl same ↦ (
        s,
        ap (get_elem? st.heap) (
              sym
                (some_inj (sym (find_id-set_id s.session_id id a st.sessions ∙ rw same refl) ∙ h)))
            ∙ e,
        (text_eq_iff s.session_id id).0 same,
      )
      | inr other ↦ v id b (sym (find_id-set_id s.session_id id a st.sessions ∙ rw other refl) ∙ h)
    ]

load-cases :
    (now : ℕ) (id : Text) (st : Store)
    → ((load now id st).1 ≡ st)
      ⊎ ((load now id st).1 ≡ record st { sessions = erase_id id st.sessions })
unfolding load
load-cases now id st = elim (Option-cases (find_id id st.sessions)) [
  | inl e ↦ rw (e, load) (inl refl)
  | inr (a, e) ↦ elim (Option-cases (get_elem? st.heap a)) [
    | inl d ↦ rw (e, d, load) (inl refl)
    | inr (s, d) ↦ elim (Bool-cases (not (is_expired now s))) [
      | inl t ↦ rw (e, d, t, load) (inl refl)
      | inr t ↦ rw (e, d, t, load) (inr refl)
    ]
  ]
]

-- A stored session that has not expired is found as it is.
pub load_eq :
    (now : ℕ) (id : Text) (st : Store) (a : ℕ) (s : Session)
    → find_id id st.sessions ≡ some a
    → get_elem? st.heap a ≡ some s
    → is_expired now s ≡ false
    → load now id st ≡ (some a, st)
unfolding load
load_eq now id st a s e d young = rw (e, d, young, load) refl

pub erase_id-IsStore :
    (k : Text) (st : Store) → IsStore st → IsStore (record st { sessions = erase_id k st.sessions })
erase_id-IsStore k st v id a h = elim (Bool-cases (text_eq k id)) [
  | inl gone ↦ absurd (none_ne_some (sym (find_id-erase_id k id st.sessions ∙ rw gone refl) ∙ h))
  | inr stays ↦ v id a (sym (find_id-erase_id k id st.sessions ∙ rw stays refl) ∙ h)
]
  where
    none_ne_some : {a : ℕ} → none ≡ some a → ⊥
    none_ne_some q = cc

pub load-IsStore : (now : ℕ) (id : Text) (st : Store) → IsStore st → IsStore (load now id st).1
load-IsStore now id st v = elim (load-cases now id st) [
  | inl e ↦ subst IsStore (sym e) v
  | inr e ↦ subst IsStore (sym e) (erase_id-IsStore id st v)
]

-- `remove` has no defined behaviour exactly for an id that is not stored; otherwise it takes away
-- this id and no other.
pub remove_lem :
    (id : Text) (st : Store)
    → ((remove id st ≡ none) ↔ (find_id id st.sessions ≡ none))
      × ((st' : Store) (j : Text)
          → remove id st ≡ some st'
          → find_id j st'.sessions ≡ (if text_eq id j then none else find_id j st.sessions))
unfolding remove
remove_lem id st = elim (Option-cases (find_id id st.sessions)) [
  | inl e ↦ rw (e, remove) ((λ q. refl, λ q. refl), λ st' j q. absurd (cc))
  | inr (a, e) ↦
      rw (e, remove)
        (
          (λ q. absurd (cc), λ q. absurd (cc)),
          λ st' j q.
              ap (λ (t : Store). find_id j t.sessions) (sym (some_inj q))
              ∙ find_id-erase_id id j st.sessions,
        )
]
