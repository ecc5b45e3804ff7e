-- ===== src/Timers.antt =====
-- `Timer` and `TimerManager`: co-pro/corotinue-fiber-pool/timer.h and timer.cpp. A shared pointer is
-- the place of a timer in a heap, and the ordered set is the list of places in it. Each call of
-- `now()` is an argument. The locks are left out: each operation is one step.
--
-- A time is a signed number of 64 bits that counts the ticks of the system clock, `tick` of them a
-- millisecond. It is written here as its distance from the least such number, so that the order of
-- times is the order of numbers below 2 ^ 64; what is out of range wraps around. A period is an
-- unsigned number of 64 bits, which `std::chrono::milliseconds` takes for a signed one: modulo 2 ^ 64
-- the two are the same, and a period of 2 ^ 64 - n milliseconds lies n milliseconds in the past.
pub mod Due
pub mod Expiry
pub mod Order
pub mod Rollover
mod Tests
use workplace.Common.{Bool, List, Option, [], false, get_elem?, if◌then◌else◌, leb, length, ltb}
use workplace.Common.{none, not, set, some, suc, true, zero, ℕ, ◌%◌, ◌&&◌, ◌*◌, ◌++◌, ◌+◌, ◌-◌, ◌/◌}
use workplace.Common.{◌==◌, ◌^◌, ◌||◌, ◌∷◌}

module _ (C : Type 0) where
  pub record Timer : Type 0 where
    pub recurring : Bool
    pub ms : ℕ
    pub next : ℕ
    pub callback : Option C

  pub record TimerManager : Type 0 where
    pub heap : List Timer
    pub timers : List ℕ
    pub tickled : Bool
    pub previous_time : ℕ

-- The time so many milliseconds after, and before, a time.
abbrev pub after_ms : ℕ → ℕ → ℕ → ℕ
after_ms tick time ms = (time + tick * ms) % 2 ^ 64

abbrev pub before_ms : ℕ → ℕ → ℕ → ℕ
before_ms tick time ms = (time + (2 ^ 64 - tick * ms % 2 ^ 64)) % 2 ^ 64

-- `duration_cast` to milliseconds of the time that is left, which is cut towards zero, and then the
-- conversion to an unsigned number.
abbrev pub remaining_ms : ℕ → ℕ → ℕ
remaining_ms tick left =
    if ltb left (2 ^ 63) then left / tick else (2 ^ 64 - (2 ^ 64 - left) / tick) % 2 ^ 64

module _ {C : Type 0} where
  abbrev pub next_of : Option (Timer C) → ℕ
  next_of none = 0
  next_of (some t) = t.next

  -- `m_next` through a pointer.
  abbrev pub next_at : List (Timer C) → ℕ → ℕ
  next_at heap a = next_of (get_elem? heap a)

  -- `insert`, by the comparison of deadlines alone: a timer whose deadline is taken is not inserted.
  unfoldable pub insert_timer : List (Timer C) → ℕ → List ℕ → List ℕ
  insert_timer heap a [] = a ∷ []
  insert_timer heap a (b ∷ bs) =
      let rest = insert_timer heap a bs in
      if ltb (next_at heap a) (next_at heap b)
      then a ∷ b ∷ bs
      else if ltb (next_at heap b) (next_at heap a)
      then b ∷ rest
      else b ∷ bs

  -- `find`, which takes any timer with the same deadline for the one that it looks for, and the
  -- removal of what was found.
  unfoldable pub has_deadline : List (Timer C) → ℕ → List ℕ → Bool
  has_deadline heap d [] = false
  has_deadline heap d (b ∷ bs) = next_at heap b == d || has_deadline heap d bs

  unfoldable pub erase_deadline : List (Timer C) → ℕ → List ℕ → List ℕ
  erase_deadline heap d [] = []
  erase_deadline heap d (b ∷ bs) =
      let rest = erase_deadline heap d bs in if next_at heap b == d then bs else b ∷ rest

  abbrev pub has_callback : Timer C → Bool
  has_callback t = elim t.callback [ none ↦ false | some c ↦ true ]

  abbrev pub is_first : List (Timer C) → ℕ → List ℕ → Bool
  is_first heap d [] = false
  is_first heap d (b ∷ bs) = next_at heap b == d

  -- `addTimer(std::shared_ptr<Timer>)`; with true it wakes a waiting thread up. The iterator that
  -- `insert` returns is the first one when the first deadline is that of the timer.
  unfoldable pub add_timer : ℕ → TimerManager C → TimerManager C × Bool
  unfolding insert_timer
  add_timer a m =
      let timers = insert_timer m.heap a m.timers in
      let at_front = is_first m.heap (next_at m.heap a) timers && not m.tickled in
      (record m { timers = timers; tickled = at_front || m.tickled }, at_front)

  -- `addTimer(ms, cb, recurring)`: the place of the new timer, the manager, and the waking up.
  unfoldable pub new_timer : ℕ → ℕ → ℕ → C → Bool → TimerManager C → ℕ × TimerManager C × Bool
  unfolding add_timer
  new_timer tick now ms cb recurring m =
      let t : Timer C = record {
        recurring = recurring;
        ms = ms;
        next = after_ms tick now ms;
        callback = some cb;
      } in
      let (m', wakes) = add_timer (length m.heap) (record m { heap = m.heap ++ t ∷ [] }) in
      (length m.heap, m', wakes)

  -- `cancel`.
  unfoldable pub cancel : ℕ → TimerManager C → TimerManager C × Bool
  unfolding erase_deadline
  cancel a m = elim (get_elem? m.heap a) [
    | none ↦ (m, false)
    | some t ↦ if not (has_callback t) then (m, false) else (
      record m {
        heap = set m.heap a (record t { callback = none });
        timers = erase_deadline m.heap t.next m.timers;
      },
      true,
    )
  ]

  -- `refresh`.
  unfoldable pub refresh : ℕ → ℕ → ℕ → TimerManager C → TimerManager C × Bool
  unfolding erase_deadline has_deadline insert_timer
  refresh tick now a m = elim (get_elem? m.heap a) [
    | none ↦ (m, false)
    | some t ↦
        if not (has_callback t) || not (has_deadline m.heap t.next m.timers)
        then (m, false)
        else (let heap = set m.heap a (record t { next = after_ms tick now t.ms }) in
            (
              record m {
                heap = heap;
                timers = insert_timer heap a (erase_deadline m.heap t.next m.timers);
              },
              true,
            ))
  ]

  -- `reset`: the manager, the result, and the waking up of `addTimer`.
  unfoldable pub reset : ℕ → ℕ → ℕ → Bool → ℕ → TimerManager C → TimerManager C × Bool × Bool
  unfolding erase_deadline has_deadline add_timer
  reset tick now ms from_now a m = elim (get_elem? m.heap a) [
    | none ↦ (m, false, false)
    | some t ↦
        if ms == t.ms && not from_now
        then (m, true, false)
        else if not (has_callback t) || not (has_deadline m.heap t.next m.timers)
        then (m, false, false)
        else (let start = if from_now then now else before_ms tick t.next t.ms in
            let timers = erase_deadline m.heap t.next m.timers in
            let heap = set m.heap a (record t { ms = ms; next = after_ms tick start ms }) in
            let (m', wakes) = add_timer a (record m { heap = heap; timers = timers }) in
            (m', true, wakes))
  ]

  -- `getNextTimer`.
  unfoldable pub get_next_timer : ℕ → ℕ → TimerManager C → ℕ × TimerManager C
  get_next_timer tick now m =
      let m' = record m { tickled = false } in
      elim m.timers [
        | [] ↦ (2 ^ 64 - 1, m')
        | a ∷ bs ↦
            let time = next_at m.heap a in
            if leb time now then (0, m') else (remaining_ms tick (time - now), m')
      ]

  -- `detectClockRollover`: an hour before the time of the last call.
  unfoldable pub detect_clock_rollover : ℕ → ℕ → TimerManager C → Bool × TimerManager C
  detect_clock_rollover tick now m =
      (ltb now (before_ms tick m.previous_time (60 * 60 * 1000)), record m { previous_time = now })

  abbrev pub is_due : List (Timer C) → Bool → ℕ → ℕ → Bool
  is_due heap rollover now a = rollover || leb (next_at heap a) now

  -- The timer is put back, or loses its callback.
  abbrev pub expire_one : ℕ → ℕ → ℕ → List ℕ → Timer C → TimerManager C → TimerManager C
  expire_one tick now a bs t m =
      if t.recurring
      then (let heap = set m.heap a (record t { next = after_ms tick now t.ms }) in
          record m { heap = heap; timers = insert_timer heap a bs })
      else record m { heap = set m.heap a (record t { callback = none }); timers = bs }

  -- The loop of `listExpiredCb`, with a bound on its rounds: `none` when it is still running. A null
  -- callback is collected too.
  unfoldable pub expire :
      ℕ
      → ℕ
      → ℕ
      → Bool
      → TimerManager C
      → List (Option C)
      → Option (TimerManager C × List (Option C))
  unfolding insert_timer
  expire zero tick now rollover m cbs = none
  expire (suc fuel) tick now rollover m cbs = elim m.timers [
    | [] ↦ some (m, cbs)
    | a ∷ bs ↦ elim (get_elem? m.heap a) [
      | none ↦ some (m, cbs)
      | some t ↦
          let next =
            expire fuel tick now rollover (expire_one tick now a bs t m) (cbs ++ t.callback ∷ []) in
          if is_due m.heap rollover now a then next else some (m, cbs)
    ]
  ]

  unfoldable pub list_expired_cb :
      ℕ → ℕ → ℕ → ℕ → TimerManager C → Option (TimerManager C × List (Option C))
  unfolding expire detect_clock_rollover
  list_expired_cb fuel tick now later m =
      let (rollover, m') = detect_clock_rollover tick later m in expire fuel tick now rollover m' []
