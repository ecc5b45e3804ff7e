-- ===== src/Coroutine/IoManager/Readiness.antt =====
-- What `idle` does with a descriptor that is ready.
use workplace.Common.{Bool, Bool-cases, ap, arith, false, get_elem?, inl, inr, not, refl, some, sym}
use workplace.Common.{true, ℕ, ◌&&◌, ◌++◌, ◌||◌, ◌∙◌, ◌≡◌, ◌≢◌}
use workplace.Coroutine.IoManager.{Epoll, Event, Events, FdContext, IoManager, asserted}
use workplace.Coroutine.IoManager.{ctl_without, has, is_none, read, returned, write}
use workplace.Coroutine.IoManager.Effects.{clear_both-events}
use workplace.Coroutine.IoManager.Operations.{Reported, and_then, meet, minus, on_ready}
use workplace.Coroutine.IoManager.Operations.{real_events, trigger_event, trigger_if}
use workplace.Coroutine.IoManager.Orderly.{EpollLaws, IsManager, Replaced-IsManager, after_ctl-left}
use workplace.Coroutine.IoManager.Orderly.{both, clear_if, step, work}
use workplace.Coroutine.IoManager.Sound.{Tables, events_at, events_in, registered}
use workplace.Coroutine.IoManager.Trigger.{kernel-Tables}

-- An event to be triggered that is not registered.
abbrev pub stray : Events → Events → Bool
stray real registered =
    (real.reads && not registered.reads) || (real.writes && not registered.writes)

clear_if-read-writes :
    (b : Bool) (c : FdContext) → (clear_if b read c).events.writes ≡ c.events.writes
clear_if-read-writes true c = refl
clear_if-read-writes false c = refl

module _ {K : Epoll} where
  trigger_if_stray :
      (event : Event) (fd : ℕ) (m : IoManager K) {c : FdContext}
      → get_elem? m.fd_contexts fd ≡ some c
      → has c.events event ≡ false
      → trigger_if true event fd m ≡ asserted
  unfolding trigger_if trigger_event
  trigger_if_stray event fd m e h = rw (e, h, trigger_if) refl

  both_stray :
      (real : Events) (fd : ℕ) (c : FdContext) (m : IoManager K)
      → Tables m
      → get_elem? m.fd_contexts fd ≡ some c
      → stray real c.events ≡ true
      → and_then (trigger_if real.reads read fd m) (trigger_if real.writes write fd) ≡ asserted
  both_stray real fd c m v e s = elim (Bool-cases (real.reads && not c.events.reads)) [
    | inl first ↦
        let wanted : real.reads ≡ true = ground arith in
        let missing : has c.events read ≡ false = ground arith in
        ap (λ b. and_then (trigger_if b read fd m) (trigger_if real.writes write fd)) wanted
        ∙ ap (λ o. and_then o (trigger_if real.writes write fd))
            (trigger_if_stray read fd m e missing)
    | inr fine ↦
        let wanted : real.writes ≡ true = ground arith in
        let missing : c.events.writes ≡ false = ground arith in
        let s1 = step read real.reads fd c c.read_context m v e refl (λ q. ground arith) in
        ap (λ o. and_then o (trigger_if real.writes write fd)) s1.run
        ∙ ap (λ b. trigger_if b write fd s1.next) wanted
        ∙ trigger_if_stray write fd s1.next s1.replaced.here
            (clear_if-read-writes real.reads c ∙ missing)
  ]

  -- `idle` aborts on a descriptor that is ready for one of its events when `epoll_wait` has reported
  -- the other one too, and that one is not registered any more: the events to trigger are not cut
  -- down to the registered ones, and the assertion of `triggerEvent` fails. The table is in order,
  -- and `epoll_ctl` succeeds.
  pub on_ready_asserts :
      (r : Reported) (c : FdContext) (k : K.Kernel) (m : IoManager K)
      → Tables m
      → get_elem? m.fd_contexts r.fd ≡ some c
      → is_none (meet c.events (real_events r c.events)) ≡ false
      → ctl_without K r.fd (minus c.events (real_events r c.events)) m.kernel ≡ some k
      → stray (real_events r c.events) c.events ≡ true
      → on_ready r m ≡ asserted
  unfolding on_ready
  on_ready_asserts r c k m v e some_event n s =
      rw (e, some_event, n, on_ready)
        (both_stray (real_events r c.events) r.fd c (record m { kernel = k }) (kernel-Tables k m v)
          e s)

  -- `idle` on a descriptor that is ready triggers exactly the reported events, the one for reading
  -- first: each of their tasks is scheduled once, the events are not registered any more, and table,
  -- count and kernel stay in step. The reported events are registered, at least one of them,
  -- the table is in order, and `epoll_ctl` succeeds.
  pub on_ready_lem :
      (laws : EpollLaws K) (r : Reported) (c : FdContext) (k : K.Kernel) (m : IoManager K)
      → IsManager laws m
      → get_elem? m.fd_contexts r.fd ≡ some c
      → is_none (meet c.events (real_events r c.events)) ≡ false
      → ctl_without K r.fd (minus c.events (real_events r c.events)) m.kernel ≡ some k
      → stray (real_events r c.events) c.events ≡ false
      → let real = real_events r c.events in
        (m' : IoManager K) × (on_ready r m ≡ returned tt m')
        × IsManager laws m'
        × (events_at m'.fd_contexts r.fd ≡ minus c.events real)
        × (m'.tasks
            ≡ m.tasks ++ (work real.reads c.read_context ++ work real.writes c.write_context))
        × ((j : ℕ) → j ≢ r.fd → get_elem? m'.fd_contexts j ≡ get_elem? m.fd_contexts j)
  unfolding on_ready
  on_ready_lem laws r c k m v e some_event n s =
      let real = real_events r c.events in
      let b =
        both real.reads real.writes r.fd c (record m { kernel = k }) (kernel-Tables k m v.tables) e
          (λ q. ground arith) (λ q. ground arith) in
      let left = clear_both-events real.reads real.writes c in
      (
        b.last,
        rw (e, some_event, n, on_ready) b.run,
        Replaced-IsManager laws r.fd _ _ _ m b.last v
            (record {
              tables = b.replaced.tables;
              here = b.replaced.here;
              elsewhere = b.replaced.elsewhere;
            })
            (n ∙ ap some (sym b.kernel)) (after_ctl-left _ ∙ sym left),
        ap events_in b.replaced.here ∙ left,
        b.scheduled,
        b.replaced.elsewhere,
      )
