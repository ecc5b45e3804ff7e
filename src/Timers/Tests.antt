-- ===== src/Timers/Tests.antt =====
-- Instances of the theorems on timers.
use workplace.Common.{[], ap, arith, false, get_elem?, inl, inr, none, refl, some, true, ℕ, ◌∷◌}
use workplace.Common.{◌≡◌}
use workplace.Timers.{Timer, TimerManager, expire}
use workplace.Timers.Due.{IsTimerSet, due_callbacks}
use workplace.Timers.Expiry.{expire_lem}
use workplace.Timers.Rollover.{expire_spins}

abbrev every_second : Timer ℕ
every_second = record { recurring = true; ms = 1000; next = 5000; callback = some 1 }

abbrev one_timer : TimerManager ℕ
one_timer = record {
  heap = every_second ∷ every_second ∷ [];
  timers = 0 ∷ [];
  tickled = false;
  previous_time = 0;
}

expire_spins_example : expire 50 1 2000 true one_timer [] ≡ none
expire_spins_example =
    expire_spins 1 2000 50 one_timer [] 0 []
      (λ a m. elim m [
        | inl e ↦ (every_second, ap (get_elem? one_timer.heap) e, refl)
        | inr k ↦ absurd k
      ])
      refl

-- The first timer is due and comes back, the second is not due yet.
abbrev once_later : Timer ℕ
once_later = record { recurring = false; ms = 10; next = 9000; callback = some 2 }

abbrev two_timers : TimerManager ℕ
two_timers = record {
  heap = every_second ∷ once_later ∷ [];
  timers = 0 ∷ 1 ∷ [];
  tickled = false;
  previous_time = 0;
}

expire_lem_example :
    (m' : TimerManager ℕ) × (expire 3 1 6000 false two_timers [] ≡ some (m', some 1 ∷ []))
    × (due_callbacks 1 6000 m'.heap m'.timers ≡ [])
    × IsTimerSet 1 6000 m'.heap m'.timers
unfolding due_callbacks
expire_lem_example =
    expire_lem 1 6000 3 two_timers []
      (
        ((omega arith, tt), (tt, tt)),
        (
          (every_second, refl, λ r. (omega arith, omega arith)),
          ((once_later, refl, λ r. (omega arith, omega arith)), tt),
        ),
      )
      (omega arith)
