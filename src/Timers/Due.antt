-- ===== src/Timers/Due.antt =====
-- The timers whose deadlines have passed, and a round of the expiry loop.
use workplace.Common.{All, Bool, Bool-cases, List, Option, [], ap, arith, false, get_elem?}
use workplace.Common.{get_elem?-lt, get_elem?-set_ne, get_elem?-set_self, if◌then◌else◌, inl, inr}
use workplace.Common.{leb, ltb, none, refl, set, some, subst, sym, true, ℕ, ◌*◌, ◌+◌, ◌<◌, ◌^◌, ◌∙◌}
use workplace.Common.{◌∷◌, ◌≡◌, ◌≢◌}
use workplace.Timers.{Timer, TimerManager, after_ms, expire_one, insert_timer, next_at, next_of}
use workplace.Timers.Order.{Sorted, insert_timer-Sorted}

-- The period ends later than now, and within the range of times.
abbrev pub IsPeriod : ℕ → ℕ → ℕ → Type 0
IsPeriod tick now ms = (0 < tick * ms) × (now + tick * ms < 2 ^ 64)

module _ {C : Type 0} (tick now : ℕ) where
  abbrev pub callback_of : Option (Timer C) → Option C
  callback_of none = none
  callback_of (some t) = t.callback

  -- The callbacks of the timers whose deadlines have passed, in the order of the set.
  unfoldable pub due_callbacks : List (Timer C) → List ℕ → List (Option C)
  due_callbacks heap [] = []
  due_callbacks heap (b ∷ bs) =
      let rest = due_callbacks heap bs in
      if leb (next_at heap b) now then callback_of (get_elem? heap b) ∷ rest else rest

  -- A place holds a timer, and a recurring one has a period.
  abbrev pub HasTimer : List (Timer C) → ℕ → Type 0
  HasTimer heap b =
      (t : Timer C) × (get_elem? heap b ≡ some t) × (t.recurring ≡ true → IsPeriod tick now t.ms)

  abbrev pub IsTimerSet : List (Timer C) → List ℕ → Type 0
  IsTimerSet heap bs = Sorted heap bs × All (HasTimer heap) bs

  -- Places that hold the same timers in two heaps.
  abbrev Same : List (Timer C) → List (Timer C) → List ℕ → Type 0
  Same heap heap' bs = All (λ b. get_elem? heap' b ≡ get_elem? heap b) bs

  set-Same :
      (heap : List (Timer C)) (a : ℕ) (t : Timer C) (bs : List ℕ)
      → All (λ b. next_at heap a < next_at heap b) bs
      → Same heap (set heap a t) bs
  set-Same heap a t [] all = tt
  set-Same heap a t (b ∷ bs) all =
      let other : a ≢ b = λ e. (let same = ap (next_at heap) e in omega (arith, all.0, same)) in
      (get_elem?-set_ne heap t other, set-Same heap a t bs all.1)

  Same-due_callbacks :
      (heap heap' : List (Timer C)) (bs : List ℕ)
      → Same heap heap' bs
      → due_callbacks heap' bs ≡ due_callbacks heap bs
  unfolding due_callbacks
  Same-due_callbacks heap heap' [] s = refl
  Same-due_callbacks heap heap' (b ∷ bs) s = rw (s.0, Same-due_callbacks heap heap' bs s.1) refl

  Same-HasTimer :
      (heap heap' : List (Timer C)) (bs : List ℕ)
      → Same heap heap' bs
      → All (HasTimer heap) bs
      → All (HasTimer heap') bs
  Same-HasTimer heap heap' [] s all = tt
  Same-HasTimer heap heap' (b ∷ bs) s ((t, there, period), all) =
      ((t, s.0 ∙ there, period), Same-HasTimer heap heap' bs s.1 all)

  Same-above :
      (heap heap' : List (Timer C)) (n : ℕ) (bs : List ℕ)
      → Same heap heap' bs
      → All (λ b. n < next_at heap b) bs
      → All (λ b. n < next_at heap' b) bs
  Same-above heap heap' n [] s all = tt
  Same-above heap heap' n (b ∷ bs) s all =
      let e = ap next_of s.0 in (omega (arith, e, all.0), Same-above heap heap' n bs s.1 all.1)

  Same-Sorted :
      (heap heap' : List (Timer C)) (bs : List ℕ)
      → Same heap heap' bs
      → Sorted heap bs
      → Sorted heap' bs
  Same-Sorted heap heap' [] s sorted = tt
  Same-Sorted heap heap' (b ∷ bs) s sorted =
      let all = Same-above heap heap' (next_at heap b) bs s.1 sorted.0 in
      (
        subst (λ n. All (λ c. n < next_at heap' c) bs) (sym (ap next_of s.0)) all,
        Same-Sorted heap heap' bs s.1 sorted.1,
      )

  insert_timer-HasTimer :
      (heap : List (Timer C)) (a : ℕ) (bs : List ℕ)
      → HasTimer heap a
      → All (HasTimer heap) bs
      → All (HasTimer heap) (insert_timer heap a bs)
  unfolding insert_timer
  insert_timer-HasTimer heap a [] h all = (h, tt)
  insert_timer-HasTimer heap a (b ∷ bs) h all =
      elim (Bool-cases (ltb (next_at heap a) (next_at heap b))) [
        | inl e ↦ rw e (h, all)
        | inr e ↦ elim (Bool-cases (ltb (next_at heap b) (next_at heap a))) [
          | inl d ↦ rw (e, d) (all.0, insert_timer-HasTimer heap a bs h all.1)
          | inr d ↦ rw (e, d) all
        ]
      ]

  -- A timer that is put back is not due again.
  insert_timer-due_callbacks :
      (heap : List (Timer C)) (a : ℕ) (bs : List ℕ)
      → leb (next_at heap a) now ≡ false
      → due_callbacks heap (insert_timer heap a bs) ≡ due_callbacks heap bs
  unfolding insert_timer due_callbacks
  insert_timer-due_callbacks heap a [] h = rw h refl
  insert_timer-due_callbacks heap a (b ∷ bs) h =
      elim (Bool-cases (ltb (next_at heap a) (next_at heap b))) [
        | inl e ↦ rw (e, due_callbacks, h) refl
        | inr e ↦ elim (Bool-cases (ltb (next_at heap b) (next_at heap a))) [
          | inl d ↦ rw (e, d, due_callbacks, insert_timer-due_callbacks heap a bs h) refl
          | inr d ↦ rw (e, d, due_callbacks) refl
        ]
      ]

  -- In a sorted set none is due after one that is not.
  pub none_due :
      (heap : List (Timer C)) (n : ℕ) (bs : List ℕ)
      → now < n
      → All (λ b. n < next_at heap b) bs
      → due_callbacks heap bs ≡ []
  unfolding due_callbacks
  none_due heap n [] h all = refl
  none_due heap n (b ∷ bs) h all =
      let late : leb (next_at heap b) now ≡ false = ground (arith, h, all.0) in
      rw (late, due_callbacks) (none_due heap n bs h all.1)

  -- A round of the loop, on a set whose first timer is taken out.
  once :
      (heap : List (Timer C)) (a : ℕ) (bs : List ℕ) (t : Timer C)
      → IsTimerSet heap (a ∷ bs)
      → IsTimerSet (set heap a t) bs × (due_callbacks (set heap a t) bs ≡ due_callbacks heap bs)
  once heap a bs t ((above, sorted), (here, all)) =
      let same = set-Same heap a t bs above in
      (
        (
          Same-Sorted heap (set heap a t) bs same sorted,
          Same-HasTimer heap (set heap a t) bs same all,
        ),
        Same-due_callbacks heap (set heap a t) bs same,
      )

  put_in_again :
      (heap : List (Timer C)) (a : ℕ) (bs : List ℕ) (t : Timer C)
      → IsTimerSet heap (a ∷ bs)
      → get_elem? heap a ≡ some t
      → IsPeriod tick now t.ms
      → let heap' = set heap a (record t { next = after_ms tick now t.ms }) in
        IsTimerSet heap' (insert_timer heap' a bs)
        × (due_callbacks heap' (insert_timer heap' a bs) ≡ due_callbacks heap bs)
  put_in_again heap a bs t v there h =
      let t' : Timer C = record t { next = after_ms tick now t.ms } in
      let heap' = set heap a t' in
      let self = get_elem?-set_self heap a t' (get_elem?-lt heap a there) in
      let ((sorted, all), due) = once heap a bs t' v in
      let e : next_at heap' a ≡ after_ms tick now t.ms = ap next_of self in
      let late : leb (next_at heap' a) now ≡ false = ground (arith, h.0, h.1, e) in
      (
        (
          insert_timer-Sorted heap' a bs sorted,
          insert_timer-HasTimer heap' a bs (t', self, λ r. h) all,
        ),
        insert_timer-due_callbacks heap' a bs late ∙ due,
      )

  pub expire_one_lem :
      (a : ℕ) (bs : List ℕ) (t : Timer C) (m : TimerManager C)
      → IsTimerSet m.heap (a ∷ bs)
      → get_elem? m.heap a ≡ some t
      → let m' = expire_one tick now a bs t m in
        IsTimerSet m'.heap m'.timers × (due_callbacks m'.heap m'.timers ≡ due_callbacks m.heap bs)
  expire_one_lem a bs t m v there =
      let heap' = set m.heap a (record t { next = after_ms tick now t.ms }) in
      let again : TimerManager C = record m { heap = heap'; timers = insert_timer heap' a bs } in
      let gone : TimerManager C = record m {
        heap = set m.heap a (record t { callback = none });
        timers = bs;
      } in
      let Fits = λ (b : Bool).
        (let m' = if b then again else gone in
          IsTimerSet m'.heap m'.timers
          × (due_callbacks m'.heap m'.timers ≡ due_callbacks m.heap bs)) in
      elim (Bool-cases t.recurring) [
        | inl r ↦
            let (t', there', period) = v.1.0 in
            let same : t' ≡ t = cc in
            let h = subst (λ u. u.recurring ≡ true → IsPeriod tick now u.ms) same period r in
            subst Fits (sym r) (put_in_again m.heap a bs t v there h)
        | inr r ↦ subst Fits (sym r) (once m.heap a bs (record t { callback = none }) v)
      ]
