-- ===== src/Timers/Expiry.antt =====
-- Expiry on a steady clock.
use workplace.Common.{Bool, Bool-cases, List, Option, [], ap, append-nil, append_assoc, arith}
use workplace.Common.{false, get_elem?, if◌then◌else◌, inl, inr, leb, length, none, refl, some}
use workplace.Common.{subst, suc, sym, zero, ℕ, ◌++◌, ◌<◌, ◌∙◌, ◌∷◌, ◌≡◌}
use workplace.Timers.{Timer, TimerManager, expire, expire_one, next_at}
use workplace.Timers.Due.{IsTimerSet, due_callbacks, expire_one_lem, none_due}

module _ {C : Type 0} (tick now : ℕ) where
  -- The end of the loop, with the callbacks that it has added.
  abbrev Expired : ℕ → TimerManager C → List (Option C) → List (Option C) → Type 0
  Expired fuel m cbs due =
      (m' : TimerManager C) × (expire fuel tick now false m cbs ≡ some (m', cbs ++ due))
      × (due_callbacks tick now m'.heap m'.timers ≡ [])
      × IsTimerSet tick now m'.heap m'.timers

  stops :
      (fuel : ℕ) (m : TimerManager C) (cbs : List (Option C))
      → IsTimerSet tick now m.heap m.timers
      → due_callbacks tick now m.heap m.timers ≡ []
      → expire fuel tick now false m cbs ≡ some (m, cbs)
      → Expired fuel m cbs (due_callbacks tick now m.heap m.timers)
  stops fuel m cbs v none_left run = (
    m,
    run ∙ ap (λ l. some (m, l)) (sym (append-nil cbs) ∙ ap (λ l. cbs ++ l) (sym none_left)),
    none_left,
    v,
  )

  goes_on :
      (fuel : ℕ) (m m' : TimerManager C) (cbs due : List (Option C)) (cb : Option C)
      → expire (suc fuel) tick now false m cbs ≡ expire fuel tick now false m' (cbs ++ cb ∷ [])
      → Expired fuel m' (cbs ++ cb ∷ []) due
      → Expired (suc fuel) m cbs (cb ∷ due)
  goes_on fuel m m' cbs due cb first (end, run, none_left, v) =
      (end, first ∙ run ∙ ap (λ l. some (end, l)) (append_assoc cbs (cb ∷ []) due), none_left, v)

  -- The loop on an empty set, and its first round on one that is not.
  stays :
      (fuel : ℕ) (m : TimerManager C) (cbs : List (Option C))
      → m.timers ≡ []
      → expire (suc fuel) tick now false m cbs ≡ some (m, cbs)
  unfolding expire
  stays fuel m cbs e =
      subst
        (λ ts.
          let m' : TimerManager C = record m { timers = ts } in
          expire (suc fuel) tick now false m' cbs ≡ some (m', cbs))
        (sym e) refl

  first_timer :
      (fuel a : ℕ) (bs : List ℕ) (t : Timer C) (m : TimerManager C) (cbs : List (Option C))
      → m.timers ≡ a ∷ bs
      → get_elem? m.heap a ≡ some t
      → let next =
          expire fuel tick now false (expire_one tick now a bs t m) (cbs ++ t.callback ∷ []) in
        expire (suc fuel) tick now false m cbs
        ≡ (if leb (next_at m.heap a) now then next else some (m, cbs))
  unfolding expire
  first_timer fuel a bs t m cbs e there =
      let next = λ (u : Timer C).
        expire fuel tick now false (expire_one tick now a bs u m) (cbs ++ u.callback ∷ []) in
      let Steps = λ (ts : List ℕ).
        (let m' : TimerManager C = record m { timers = ts } in
          expire (suc fuel) tick now false m' cbs
          ≡ (if leb (next_at m.heap a) now then next t else some (m', cbs))) in
      let m'' : TimerManager C = record m { timers = a ∷ bs } in
      let found : Option (Timer C) → Option (TimerManager C × List (Option C)) = λ o. elim o [
        | none ↦ some (m'', cbs)
        | some u ↦ if leb (next_at m.heap a) now then next u else some (m'', cbs)
      ] in
      subst Steps (sym e) (ap found there)

  expire_on :
      (fuel : ℕ) (ts : List ℕ) (m : TimerManager C) (cbs : List (Option C))
      → m.timers ≡ ts
      → IsTimerSet tick now m.heap m.timers
      → length (due_callbacks tick now m.heap m.timers) < fuel
      → Expired fuel m cbs (due_callbacks tick now m.heap m.timers)
  unfolding expire due_callbacks
  expire_on zero ts m cbs e v h = absurd (omega arith)
  expire_on (suc fuel) [] m cbs e v h =
      stops (suc fuel) m cbs v (ap (due_callbacks tick now m.heap) e) (stays fuel m cbs e)
  expire_on (suc fuel) (a ∷ bs) m cbs e v h =
      let v' = subst (IsTimerSet tick now m.heap) e v in
      let (t, there, period) = v'.1.0 in
      let m' = expire_one tick now a bs t m in
      let (v1, due) = expire_one_lem tick now a bs t m v' there in
      let next = expire fuel tick now false m' (cbs ++ t.callback ∷ []) in
      let chosen = λ (b : Bool). (if b then next else some (m, cbs)) in
      elim (Bool-cases (leb (next_at m.heap a) now)) [
        | inr d ↦
            let late : now < next_at m.heap a = ground arith in
            let none_left = none_due tick now m.heap (next_at m.heap a) bs late v'.0.0 in
            stops (suc fuel) m cbs v
              (ap (due_callbacks tick now m.heap) e ∙ rw (d, due_callbacks) none_left)
              (first_timer fuel a bs t m cbs e there ∙ ap chosen d)
        | inl d ↦
            let left = due_callbacks tick now m'.heap m'.timers in
            let all : due_callbacks tick now m.heap m.timers ≡ t.callback ∷ left =
              ap (due_callbacks tick now m.heap) e
              ∙ rw (d, due_callbacks, there) (ap (λ l. t.callback ∷ l) (sym due)) in
            subst (Expired (suc fuel) m cbs) (sym all) (
              goes_on fuel m m' cbs left t.callback
                (first_timer fuel a bs t m cbs e there ∙ ap chosen d)
                (expire_on fuel m'.timers m' (cbs ++ t.callback ∷ []) refl v1
                  (omega (arith, h, ap length all))))
      ]

  -- Without a rollover the loop of `listExpiredCb` ends, after one round more than there are timers
  -- whose deadline has passed: it collects exactly the callbacks of these, in the order of their
  -- deadlines, and leaves a set in order in which none is due. The set was in order, its places hold
  -- timers, and each recurring one has a period, which ends within the range of times.
  pub expire_lem :
      (fuel : ℕ) (m : TimerManager C) (cbs : List (Option C))
      → IsTimerSet tick now m.heap m.timers
      → length (due_callbacks tick now m.heap m.timers) < fuel
      → (m' : TimerManager C) × (expire fuel tick now false m cbs
          ≡ some (m', cbs ++ due_callbacks tick now m.heap m.timers))
        × (due_callbacks tick now m'.heap m'.timers ≡ [])
        × IsTimerSet tick now m'.heap m'.timers
  expire_lem fuel m cbs v h = expire_on fuel m.timers m cbs refl v h
