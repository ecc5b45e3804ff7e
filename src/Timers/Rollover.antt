-- ===== src/Timers/Rollover.antt =====
-- Expiry after the clock was set back.
use workplace.Common.{Bool-cases, List, Option, [], get_elem?, get_elem?-lt, get_elem?-set_ne}
use workplace.Common.{get_elem?-set_self, inl, inr, ltb, none, refl, set, some, subst, suc, sym}
use workplace.Common.{true, zero, ℕ, ℕ_discrete, ◌++◌, ◌∈◌, ◌∙◌, ◌∷◌, ◌≡◌, ◌≢◌, ◌⊎◌}
use workplace.Timers.{Timer, TimerManager, after_ms, expire, expire_one, insert_timer, next_at}

module _ {C : Type 0} where
  -- Every place in the set holds a recurring timer.
  abbrev pub AllRecurring : TimerManager C → Type 0
  AllRecurring m =
      (a : ℕ) → a ∈ m.timers → (t : Timer C) × (get_elem? m.heap a ≡ some t) × (t.recurring ≡ true)

  insert_timer-mem :
      (heap : List (Timer C)) (a b : ℕ) (bs : List ℕ)
      → b ∈ insert_timer heap a bs
      → (b ≡ a) ⊎ (b ∈ bs)
  unfolding insert_timer
  insert_timer-mem heap a b [] m = m
  insert_timer-mem heap a b (c ∷ bs) m = elim (Bool-cases (ltb (next_at heap a) (next_at heap c))) [
    | inl e ↦ rw e at m
    | inr e ↦ elim (Bool-cases (ltb (next_at heap c) (next_at heap a))) [
      | inr d ↦ inr (rw (e, d) at m)
      | inl d ↦ elim (rw (e, d) at m) [
        | inl here ↦ inr (inl here)
        | inr later ↦ elim (insert_timer-mem heap a b bs later) [
          | inl new ↦ inl new
          | inr old ↦ inr (inr old)
        ]
      ]
    ]
  ]

  insert_timer-ne :
      (heap : List (Timer C)) (a : ℕ) (bs : List ℕ)
      → (c : ℕ) × (cs : List ℕ) × (insert_timer heap a bs ≡ c ∷ cs)
  unfolding insert_timer
  insert_timer-ne heap a [] = (a, [], refl)
  insert_timer-ne heap a (b ∷ bs) = elim (Bool-cases (ltb (next_at heap a) (next_at heap b))) [
    | inl e ↦ (a, b ∷ bs, rw e refl)
    | inr e ↦ elim (Bool-cases (ltb (next_at heap b) (next_at heap a))) [
      | inl d ↦ (b, insert_timer heap a bs, rw (e, d) refl)
      | inr d ↦ (b, bs, rw (e, d) refl)
    ]
  ]

  module _ (tick now : ℕ) where
    abbrev again : ℕ → Timer C → List (Timer C) → List (Timer C)
    again a t heap = set heap a (record t { next = after_ms tick now t.ms })

    put_back :
        (a : ℕ) (bs : List ℕ) (t : Timer C) (m : TimerManager C)
        → t.recurring ≡ true
        → expire_one tick now a bs t m
          ≡ record m { heap = again a t m.heap; timers = insert_timer (again a t m.heap) a bs }
    put_back a bs t m e = rw e refl

    put_back-AllRecurring :
        (a : ℕ) (bs : List ℕ) (t : Timer C) (m : TimerManager C)
        → AllRecurring m
        → m.timers ≡ a ∷ bs
        → get_elem? m.heap a ≡ some t
        → t.recurring ≡ true
        → AllRecurring
            (record m { heap = again a t m.heap; timers = insert_timer (again a t m.heap) a bs })
    put_back-AllRecurring a bs t m all e there r b mem = elim (ℕ_discrete a b) [
      | yes same ↦ (
        record t { next = after_ms tick now t.ms },
        subst
            (λ c.
              get_elem? (again a t m.heap) c ≡ some (record t { next = after_ms tick now t.ms }))
            same (get_elem?-set_self m.heap a _ (get_elem?-lt m.heap a there)),
        r,
      )
      | no other ↦
          let (t', found, r') =
            all b (subst (λ l. b ∈ l) (sym e) (stays (again a t m.heap) mem other)) in
          (t', get_elem?-set_ne m.heap _ other ∙ found, r')
    ]
      where
        stays : (heap : List (Timer C)) → b ∈ insert_timer heap a bs → a ≢ b → b ∈ (a ∷ bs)
        stays heap k other = elim (insert_timer-mem heap a b bs k) [
          | inl here ↦ inl here
          | inr later ↦ inr later
        ]

    -- When the clock was set back by more than an hour, the loop of `listExpiredCb` never ends on a
    -- set that is not empty and holds recurring timers only: each is put back, and the test for the
    -- rollover stays true.
    pub expire_spins :
        (fuel : ℕ) (m : TimerManager C) (cbs : List (Option C)) (a : ℕ) (bs : List ℕ)
        → AllRecurring m
        → m.timers ≡ a ∷ bs
        → expire fuel tick now true m cbs ≡ none
    unfolding expire
    expire_spins zero m cbs a bs all e = refl
    expire_spins (suc fuel) m cbs a bs all e =
        let (t, there, r) = all a (subst (λ l. a ∈ l) (sym e) (inl refl)) in
        let (c, cs, d) = insert_timer-ne (again a t m.heap) a bs in
        rw (e, there, expire, put_back a bs t m r)
          (expire_spins fuel _ (cbs ++ t.callback ∷ []) c cs
            (put_back-AllRecurring a bs t m all e there r) d)
