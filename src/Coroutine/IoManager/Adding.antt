-- ===== src/Coroutine/IoManager/Adding.antt =====
-- What `addEvent` does.
use workplace.Common.{Bool-cases, Option, Option-cases, ap, arith, false, get_elem?, get_elem?-lt}
use workplace.Common.{get_elem?-set_ne, get_elem?-set_self, get_elem?_total, if◌then◌else◌, inl}
use workplace.Common.{inr, length, ltb, none, refl, set, some, subst, sym, true, ℕ, ◌*◌, ◌+◌, ◌/◌}
use workplace.Common.{◌<◌, ◌∙◌, ◌≡◌, ◌≢◌, ◌≤◌}
use workplace.Common.Int.{negsuc, pos, ℤ}
use workplace.Coroutine.IoManager.{Caller, Epoll, Event, Events, FdContext, IoManager, add}
use workplace.Coroutine.IoManager.{added_context, count_up, has, is_none, may_add, modify, no_event}
use workplace.Coroutine.IoManager.{put_context, read, returned, room_for, run_cb, run_fiber}
use workplace.Coroutine.IoManager.{set_event_context, with_event, write}
use workplace.Coroutine.IoManager.Operations.{add_context, add_event}
use workplace.Coroutine.IoManager.Orderly.{EpollLaws, IsManager, Replaced-IsManager, after_ctl}
use workplace.Coroutine.IoManager.Sound.{Matches, Sound, Tables, bits, context_resize-AllSound}
use workplace.Coroutine.IoManager.Sound.{
  in_table_eq, events_at, events_at-context_resize, events_in,
}
use workplace.Coroutine.IoManager.Sound.{length-context_resize, registered}
use workplace.Coroutine.IoManager.Sound.{registered-context_resize, registered-le, registered-set}
use workplace.Coroutine.IoManager.Trigger.{put_context-Tables}

-- The context with the new event.
abbrev pub added : Caller → Event → Option ℕ → FdContext → FdContext
added caller event cb c =
    set_event_context event (added_context caller cb)
      (record c { events = with_event c.events event })

added-Matches :
    (caller : Caller) (cb : Option ℕ)
    → caller.has_scheduler ≡ true
    → Matches true (added_context caller cb)
added-Matches caller none h = (h, run_fiber caller.fiber, refl)
added-Matches caller (some n) h = (h, run_cb n, refl)

added-Sound :
    (caller : Caller) (event : Event) (cb : Option ℕ) (c : FdContext)
    → caller.has_scheduler ≡ true
    → event ≢ no_event
    → Sound c
    → Sound (added caller event cb c)
added-Sound caller no_event cb c h real s = absurd (real refl)
added-Sound caller read cb c h real (r, w) = (added-Matches caller cb h, w)
added-Sound caller write cb c h real (r, w) = (r, added-Matches caller cb h)

added-events :
    (caller : Caller) (event : Event) (cb : Option ℕ) (c : FdContext)
    → (added caller event cb c).events ≡ with_event c.events event
added-events caller no_event cb c = refl
added-events caller read cb c = refl
added-events caller write cb c = refl

bits-with :
    (event : Event) (s : Events)
    → event ≢ no_event
    → has s event ≡ false
    → bits (with_event s event) ≡ bits s + 1
bits-with no_event s real h = absurd (real refl)
bits-with read s real h = ground arith
bits-with write s real h = ground arith

has-with : (event : Event) (s : Events) → event ≢ no_event → has (with_event s event) event ≡ true
has-with no_event s real = absurd (real refl)
has-with read s real = refl
has-with write s real = refl

may_add_lem :
    (caller : Caller) (cb : Option ℕ) → caller.is_running ≡ true → may_add caller cb ≡ true
may_add_lem caller none h = h
may_add_lem caller (some n) h = refl

after_ctl-with : (s t : Events) → after_ctl (if is_none s then add else modify) t ≡ t
after_ctl-with s t = elim (Bool-cases (is_none s)) [ inl e ↦ rw e refl | inr e ↦ rw e refl ]

module _ {K : Epoll} where
  -- The table that has room for a descriptor.
  room_for-Tables :
      (fd : ℕ) (m : IoManager K)
      → fd * 3 / 2 < 2147483648
      → Tables m
      → Tables (record m { fd_contexts = room_for fd m.fd_contexts })
        × (fd < length (room_for fd m.fd_contexts))
        × ((j : ℕ) → events_at (room_for fd m.fd_contexts) j ≡ events_at m.fd_contexts j)
  room_for-Tables fd m small v = elim (Bool-cases (ltb fd (length m.fd_contexts))) [
    | inl e ↦ rw (in_table_eq fd m.fd_contexts v.small ∙ e) (
      record { roomy = v.roomy; small = v.small; sound = v.sound; counted = v.counted },
      ground arith,
      λ j. refl,
    )
    | inr e ↦
        let n = fd * 3 / 2 in
        let past : length m.fd_contexts ≤ fd = ground arith in
        let more : fd < n = omega (arith, v.roomy) in
        let size = length-context_resize n m.fd_contexts in
        rw (in_table_eq fd m.fd_contexts v.small ∙ e) (
          record {
            roomy = omega (arith, size, v.roomy);
            small = omega (arith, size);
            sound = context_resize-AllSound n m.fd_contexts v.sound;
            counted = v.counted ∙ sym (registered-context_resize n m.fd_contexts (omega arith));
          },
          omega (arith, size),
          λ j. events_at-context_resize n m.fd_contexts j (omega arith),
        )
  ]

  add_context_eq :
      (caller : Caller) (fd : ℕ) (event : Event) (cb : Option ℕ) (c : FdContext) (m : IoManager K)
      → caller.is_running ≡ true
      → event ≢ no_event
      → Sound c
      → has c.events event ≡ false
      → add_context caller fd event cb c m
        ≡ returned (pos 0) (put_context fd (added caller event cb c) m)
  unfolding add_context
  add_context_eq caller fd no_event cb c m h real s missing = absurd (real refl)
  add_context_eq caller fd read cb c m h real s missing =
      let fresh = subst (λ b. Matches b c.read_context) missing s.0 in
      rw (fresh, may_add_lem caller cb h, add_context) refl
  add_context_eq caller fd write cb c m h real s missing =
      let fresh = subst (λ b. Matches b c.write_context) missing s.1 in
      rw (fresh, may_add_lem caller cb h, add_context) refl

  count_up_lem :
      (fd : ℕ) (c : FdContext) (caller : Caller) (event : Event) (cb : Option ℕ) (m : IoManager K)
      → Tables m
      → get_elem? m.fd_contexts fd ≡ some c
      → event ≢ no_event
      → has c.events event ≡ false
      → count_up m.pending_event_count ≡ registered (set m.fd_contexts fd (added caller event cb c))
  count_up_lem fd c caller event cb m v e real h =
      let same = ap bits (added-events caller event cb c) in
      omega (
        arith,
        v.counted,
        v.small,
        registered-le m.fd_contexts,
        registered-set m.fd_contexts fd c (added caller event cb c) e,
        bits-with event c.events real h,
        same,
      )

  -- How `addEvent` ends: with 0 and the event registered, for a callback or a fiber, or with -1 and
  -- no change of any event.
  pub data Adds (caller : Caller) (fd : ℕ) (event : Event) (cb : Option ℕ) (m m' : IoManager K)
      : ℤ → Type 0 where
    adds :
        (c : FdContext)
        → get_elem? m'.fd_contexts fd ≡ some (added caller event cb c)
        → c.events ≡ events_at m.fd_contexts fd
        → has (events_at m.fd_contexts fd) event ≡ false
        → Adds caller fd event cb m m' (pos 0)
    refuses :
        ((j : ℕ) → events_at m'.fd_contexts j ≡ events_at m.fd_contexts j)
        → Adds caller fd event cb m m' (negsuc 0)

  -- `addEvent` always returns: 0 when it has registered the event with the callback or the caller's
  -- fiber, and -1 when nothing was registered. It looks up no place outside the table, which it
  -- enlarges where needed, schedules nothing, and keeps table, count and kernel in step. The event is
  -- one for reading or writing, one and a half times the descriptor fits an `int`, so that the size
  -- of the table does, and the caller has a scheduler and a running fiber.
  pub add_event_lem :
      (laws : EpollLaws K) (caller : Caller) (fd : ℕ) (event : Event) (cb : Option ℕ)
      (m : IoManager K)
      → IsManager laws m
      → fd * 3 / 2 < 2147483648
      → event ≢ no_event
      → caller.has_scheduler ≡ true
      → caller.is_running ≡ true
      → (r : ℤ) × (m' : IoManager K) × (add_event caller fd event cb m ≡ returned r m')
        × IsManager laws m'
        × (m'.tasks ≡ m.tasks)
        × Adds caller fd event cb m m' r
  unfolding add_event
  add_event_lem laws caller fd event cb m v small real scheduler running =
      let m0 = record m { fd_contexts = room_for fd m.fd_contexts } in
      let (t, lt, same) = room_for-Tables fd m small v.tables in
      let v0 : IsManager laws m0 = record { tables = t; agrees = λ j. v.agrees j ∙ sym (same j) } in
      let (c, e) = get_elem?_total m0.fd_contexts fd lt in
      let was : c.events ≡ events_at m.fd_contexts fd = ap events_in (sym e) ∙ same fd in
      elim (Bool-cases (has c.events event)) [
        | inl h ↦ rw (e, h, add_event) (negsuc 0, m0, refl, v0, refl, refuses same)
        | inr h ↦
            elim (Option-cases (
              K.epoll_ctl (if is_none c.events then add else modify) fd (with_event c.events event)
                m.kernel)) [
                  | inl n ↦ rw (e, h, n, add_event) (negsuc 0, m0, refl, v0, refl, refuses same)
                  | inr (k, n) ↦
                      let c' = added caller event cb c in
                      let m1 = record m0 {
                        kernel = k;
                        pending_event_count = count_up m.pending_event_count;
                      } in
                      let m' = put_context fd c' m1 in
                      let s = t.sound fd c e in
                      let there =
                        get_elem?-set_self m0.fd_contexts fd c'
                          (get_elem?-lt m0.fd_contexts fd e) in
                      (
                        pos 0,
                        m',
                        rw (e, h, n, add_event)
                            (add_context_eq caller fd event cb c m1 running real s h),
                        Replaced-IsManager laws fd c' _ (with_event c.events event) m0 m' v0
                            (record {
                              tables =
                                  put_context-Tables fd c c' m0 m' t e
                                    (added-Sound caller event cb c scheduler real s) refl
                                    (count_up_lem fd c caller event cb m0 t e real h);
                              here = there;
                              elsewhere = λ j other.
                                  get_elem?-set_ne m0.fd_contexts c' (λ q. other (sym q));
                            })
                            n (after_ctl-with c.events _ ∙ sym (added-events caller event cb c)),
                        refl,
                        adds c there was (ap (λ s. has s event) (sym was) ∙ h),
                      )
                ]
      ]
