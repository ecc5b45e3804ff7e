-- ===== src/Coroutine/FdManager/Table.antt =====
-- Creating, finding and deleting an entry.
use workplace.Common.{Bool, Bool-cases, Option-cases, [], ap, arith, false, get_elem?-none}
use workplace.Common.{get_elem?-set_ne, get_elem?-set_self, if◌then◌else◌, inl, inr, leb, length}
use workplace.Common.{length-set, ltb, none, refl, set, some, some_inj, suc, sym, true, zero, ℕ}
use workplace.Common.{◌*◌, ◌/◌, ◌<◌, ◌∙◌, ◌∷◌, ◌≡◌, ◌≢◌, ◌≤◌}
use workplace.Coroutine.FdManager.{FdCtx, FdManager, System, as_pointer, bare_fd_ctx, create_at}
use workplace.Coroutine.FdManager.{entry_at, entry_of, get, init, resize_datas}

entry_at-resize_datas :
    (n : ℕ) (l : FdManager) (j : ℕ) → length l ≤ n → entry_at (resize_datas n l) j ≡ entry_at l j
unfolding resize_datas
entry_at-resize_datas zero [] j h = refl
entry_at-resize_datas zero (c ∷ l) j h = absurd (omega arith)
entry_at-resize_datas (suc n) [] zero h = refl
entry_at-resize_datas (suc n) [] (suc j) h = entry_at-resize_datas n [] j (omega arith)
entry_at-resize_datas (suc n) (c ∷ l) zero h = refl
entry_at-resize_datas (suc n) (c ∷ l) (suc j) h = entry_at-resize_datas n l j (omega arith)

length-resize_datas : (n : ℕ) (l : FdManager) → length (resize_datas n l) ≡ n
unfolding resize_datas
length-resize_datas zero l = refl
length-resize_datas (suc n) [] = ap suc (length-resize_datas n [])
length-resize_datas (suc n) (c ∷ l) = ap suc (length-resize_datas n l)

-- The table with room for a descriptor.
abbrev pub roomy : ℕ → FdManager → FdManager
roomy fd m = if leb (length m) fd then resize_datas (fd * 3 / 2) m else m

roomy_lem :
    (fd : ℕ) (m : FdManager)
    → 64 ≤ length m
    → (fd < length (roomy fd m))
      × (64 ≤ length (roomy fd m))
      × ((j : ℕ) → entry_at (roomy fd m) j ≡ entry_at m j)
roomy_lem fd m h = elim (Bool-cases (leb (length m) fd)) [
  | inr e ↦ rw e (ground arith, h, λ j. refl)
  | inl e ↦
      let n = fd * 3 / 2 in
      let past : length m ≤ fd = ground arith in
      let more : fd < n = omega (arith, h, past) in
      let size = length-resize_datas n m in
      rw e (
        omega (arith, size, more),
        omega (arith, size, more, h, past),
        λ j. entry_at-resize_datas n m j (omega (arith, more, past)),
      )
]

-- What `get` with `auto_create` gives.
pub record Gives (fd : ℕ) (m : FdManager) (c : FdCtx) (m' : FdManager) : Type 0 where
  pub stored : entry_at m' fd ≡ some c
  pub spares : (j : ℕ) → j ≢ fd → entry_at m' j ≡ entry_at m j
  pub size : 64 ≤ length m'
  pub keeps : (old : FdCtx) → entry_at m fd ≡ some old → c ≡ old

module _ (S : System) where
  found_again :
      (fd : ℕ) (c : FdCtx) (m : FdManager) (os : S.Os)
      → entry_at m fd ≡ some c
      → fd < length m
      → (b : Bool) → get S fd b m os ≡ some (some c, m, os)
  unfolding get
  found_again fd c m os e lt b =
      let inside : leb (length m) fd ≡ false = ground arith in rw (inside, e, get) refl

  create_at_lem :
      (fd : ℕ) (m : FdManager) (os : S.Os)
      → 64 ≤ length m
      → entry_at m fd ≡ none
      → (c : FdCtx) × (m' : FdManager) × (os' : S.Os) × (create_at S fd m os ≡ some (c, m', os'))
        × Gives fd m c m'
        × (fd < length m')
  unfolding create_at
  create_at_lem fd m os h missing =
      let (lt, size, same) = roomy_lem fd m h in
      let (c, os') = init S (bare_fd_ctx fd) os in
      let table = roomy fd m in
      let inside : ltb fd (length table) ≡ true = ground (arith, lt) in
      (
        c,
        set table fd (some c),
        os',
        rw (inside, create_at) refl,
        record {
          stored = ap entry_of (get_elem?-set_self table fd (some c) lt);
          spares = λ j other.
              ap entry_of (get_elem?-set_ne table (some c) (λ q. other (sym q))) ∙ same j;
          size = omega (arith, size, length-set table fd (some c));
          keeps = λ old e. absurd (none_ne_some (sym missing ∙ e));
        },
        omega (arith, lt, length-set table fd (some c)),
      )
    where
      none_ne_some : {old : FdCtx} → ¬ (none ≡ some old)
      none_ne_some q = cc

  get_new :
      (fd : ℕ) (m : FdManager) (os : S.Os)
      → entry_at m fd ≡ none
      → get S fd true m os ≡ as_pointer (create_at S fd m os)
  unfolding get
  get_new fd m os missing = elim (Bool-cases (leb (length m) fd)) [
    | inl e ↦ rw (e, get) refl
    | inr e ↦ rw (e, missing, get) refl
  ]

  entry_at-lt : (m : FdManager) (fd : ℕ) {c : FdCtx} → entry_at m fd ≡ some c → fd < length m
  entry_at-lt m fd e = elim (Bool-cases (ltb fd (length m))) [
    | inl lt ↦ ground arith
    | inr past ↦
        let nothing : entry_at m fd ≡ none = ap entry_of (get_elem?-none m fd (ground arith)) in
        absurd (cc)
  ]

  -- `get` with `auto_create` always gives an entry: the stored one if there is one, and otherwise a
  -- new one, which it stores, enlarging the table where needed; it changes no other entry. A further
  -- `get` gives the same entry, changes nothing, and asks the system nothing. The table never has
  -- fewer than the 64 places of the constructor, and the descriptor is not negative.
  pub get_lem :
      (fd : ℕ) (again : Bool) (m : FdManager) (os : S.Os)
      → 64 ≤ length m
      → (c : FdCtx) × (m' : FdManager) × (os' : S.Os) × (get S fd true m os
          ≡ some (some c, m', os'))
        × Gives fd m c m'
        × (get S fd again m' os' ≡ some (some c, m', os'))
  get_lem fd again m os h = elim (Option-cases (entry_at m fd)) [
    | inl missing ↦
        let (c, m', os', run, gives, lt) = create_at_lem fd m os h missing in
        (
          c,
          m',
          os',
          get_new fd m os missing ∙ ap as_pointer run,
          gives,
          found_again fd c m' os' gives.stored lt again,
        )
    | inr (c, e) ↦
        let lt = entry_at-lt m fd e in
        (
          c,
          m,
          os,
          found_again fd c m os e lt true,
          record {
            stored = e;
            spares = λ j other. refl;
            size = h;
            keeps = λ old q. some_inj (sym e ∙ q);
          },
          found_again fd c m os e lt again,
        )
  ]
