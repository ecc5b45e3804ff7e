-- ===== src/Timers/Order.antt =====
-- The order of the set, and the timers that share a deadline.
use workplace.Common.{==_iff, All, Bool-cases, List, [], ap, arith, false, false_ne_true, inl, inr}
use workplace.Common.{ltb, ltb→lt, lt→ltb, true, ℕ, ◌<◌, ◌==◌, ◌∷◌, ◌≡◌}
use workplace.Timers.{Timer, has_deadline, insert_timer, next_at}

module _ {C : Type 0} (heap : List (Timer C)) where
  -- The deadlines rise strictly.
  abbrev pub Sorted : List ℕ → Type 0
  Sorted [] = Unit
  Sorted (b ∷ bs) = All (λ c. next_at heap b < next_at heap c) bs × Sorted bs

  insert_timer-All :
      (n a : ℕ) (bs : List ℕ)
      → n < next_at heap a
      → All (λ c. n < next_at heap c) bs
      → All (λ c. n < next_at heap c) (insert_timer heap a bs)
  unfolding insert_timer
  insert_timer-All n a [] h all = (h, tt)
  insert_timer-All n a (b ∷ bs) h all = elim (Bool-cases (ltb (next_at heap a) (next_at heap b))) [
    | inl e ↦ rw e (h, all)
    | inr e ↦ elim (Bool-cases (ltb (next_at heap b) (next_at heap a))) [
      | inl d ↦ rw (e, d) (all.0, insert_timer-All n a bs h all.1)
      | inr d ↦ rw (e, d) all
    ]
  ]

  above :
      (a b : ℕ) (bs : List ℕ)
      → next_at heap a < next_at heap b
      → All (λ c. next_at heap b < next_at heap c) bs
      → All (λ c. next_at heap a < next_at heap c) bs
  above a b [] h all = tt
  above a b (c ∷ bs) h all = (omega (arith, all.0), above a b bs h all.1)

  pub insert_timer-Sorted : (a : ℕ) (bs : List ℕ) → Sorted bs → Sorted (insert_timer heap a bs)
  unfolding insert_timer
  insert_timer-Sorted a [] s = (tt, tt)
  insert_timer-Sorted a (b ∷ bs) s = elim (Bool-cases (ltb (next_at heap a) (next_at heap b))) [
    | inl e ↦
        let h = ltb→lt (next_at heap a) (next_at heap b) e in rw e ((h, above a b bs h s.0), s)
    | inr e ↦ elim (Bool-cases (ltb (next_at heap b) (next_at heap a))) [
      | inl d ↦
          rw (e, d)
            (
              insert_timer-All (next_at heap b) a bs (ltb→lt (next_at heap b) (next_at heap a) d)
                  s.0,
              insert_timer-Sorted a bs s.1,
            )
      | inr d ↦ rw (e, d) s
    ]
  ]

  not_below :
      (a : ℕ) (bs : List ℕ)
      → has_deadline heap (next_at heap a) bs ≡ true
      → (b : ℕ) → All (λ c. next_at heap b < next_at heap c) bs
      → next_at heap b < next_at heap a
  unfolding has_deadline
  not_below a [] h b all = absurd (false_ne_true h)
  not_below a (c ∷ bs) h b all = elim (Bool-cases (next_at heap c == next_at heap a)) [
    | inl e ↦ omega (arith, all.0, (==_iff (next_at heap c) (next_at heap a)).0 e)
    | inr e ↦ not_below a bs (rw e at h) b all.1
  ]

  -- A timer whose deadline another timer of the set already has is not inserted: the set stays as
  -- it is, and so the timer never fires. The set is strictly ordered.
  pub insert_timer-taken :
      (a : ℕ) (bs : List ℕ)
      → Sorted bs
      → has_deadline heap (next_at heap a) bs ≡ true
      → insert_timer heap a bs ≡ bs
  unfolding insert_timer has_deadline
  insert_timer-taken a [] s h = absurd (false_ne_true h)
  insert_timer-taken a (b ∷ bs) s h = elim (Bool-cases (next_at heap b == next_at heap a)) [
    | inl e ↦ ground (arith)
    | inr e ↦
        let later : has_deadline heap (next_at heap a) bs ≡ true = rw e at h in
        let lt = not_below a bs later b s.0 in
        let first : ltb (next_at heap a) (next_at heap b) ≡ false = ground (arith) in
        rw (first, lt→ltb (next_at heap b) (next_at heap a) lt)
          (ap (λ l. b ∷ l) (insert_timer-taken a bs s.1 later))
  ]
