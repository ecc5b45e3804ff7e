-- ===== src/Coroutine/IoManager/Operations.antt =====
-- The operations of `IOManager` on events: co-pro/corotinue-fiber-pool/ioscheduler.cpp.
use workplace.Common.{Bool, List, Option, [], false, get_elem?, if◌then◌else◌, none, not, some}
use workplace.Common.{true, ℕ, ◌&&◌, ◌||◌, ◌∷◌}
use workplace.Common.Int.{negsuc, pos, ℤ}
use workplace.Coroutine.IoManager.{Caller, Ended, Epoll, Event, Events, FdContext, IoManager, add}
use workplace.Coroutine.IoManager.{added_context, asserted, context_resize, count_down, count_up}
use workplace.Coroutine.IoManager.{ctl_without, delete, find_context, get_event_context, has}
use workplace.Coroutine.IoManager.{is_empty_context, is_none, may_add, modify, no_context, none_set}
use workplace.Coroutine.IoManager.{put_context, read, returned, room_for, run_cb, schedule_lock}
use workplace.Coroutine.IoManager.{set_event_context, task_of, undefined, with_event, without_event}
use workplace.Coroutine.IoManager.{write}

-- The events that `epoll_wait` reports for one descriptor.
pub record Reported : Type 0 where
  pub fd : ℕ
  pub reads : Bool
  pub writes : Bool
  pub failed : Bool

-- `real_events`: an error or a hangup stands for the events that are registered.
abbrev pub real_events : Reported → Events → Events
real_events r registered = record {
  reads = r.reads || (r.failed && registered.reads);
  writes = r.writes || (r.failed && registered.writes);
}

abbrev pub meet : Events → Events → Events
meet s t = record { reads = s.reads && t.reads; writes = s.writes && t.writes }

abbrev pub minus : Events → Events → Events
minus s t = record { reads = s.reads && not t.reads; writes = s.writes && not t.writes }

-- An entry of the array of `epoll_wait`: the pipe, or a descriptor.
pub data Ready : Type 0 where
  tickled : Ready
  event_on : Reported → Ready

module _ {K : Epoll} where
  -- `triggerEvent` on the context at a place; the last line of it is the reset.
  unfoldable pub trigger_event : Event → ℕ → FdContext → IoManager K → Ended K Unit
  unfolding schedule_lock
  trigger_event event fd c m =
      let left = record c { events = without_event c.events event } in
      if not (has c.events event) then asserted else elim (get_event_context event left) [
        | none ↦ asserted
        | some x ↦
            if x.scheduler
            then returned tt (
                schedule_lock (task_of x)
                  (put_context fd (set_event_context event no_context left) m))
            else undefined
      ]

  -- `addEvent` from the update of the context on.
  unfoldable pub add_context : Caller → ℕ → Event → Option ℕ → FdContext → IoManager K → Ended K ℤ
  add_context caller fd event cb c m =
      let c' = record c { events = with_event c.events event } in
      elim (get_event_context event c') [
        | none ↦ asserted
        | some x ↦
            if not (is_empty_context x)
            then asserted
            else if not (may_add caller cb)
            then asserted
            else returned (pos 0)
                (put_context fd (set_event_context event (added_context caller cb) c') m)
      ]

  -- `addEvent`; a descriptor is not negative.
  unfoldable pub add_event : Caller → ℕ → Event → Option ℕ → IoManager K → Ended K ℤ
  unfolding context_resize add_context
  add_event caller fd event cb m =
      let m' = record m { fd_contexts = room_for fd m.fd_contexts } in
      elim (get_elem? m'.fd_contexts fd) [
        | none ↦ undefined
        | some c ↦
            if has c.events event
            then returned (negsuc 0) m'
            else elim (K.epoll_ctl (if is_none c.events then add else modify) fd
                (with_event c.events event) m'.kernel) [
                  | none ↦ returned (negsuc 0) m'
                  | some k ↦ add_context caller fd event cb c (record m' {
                    kernel = k;
                    pending_event_count = count_up m'.pending_event_count;
                  })
                ]
      ]

  -- `delEvent`; a failure of `epoll_ctl` is `return -1`, and so true.
  unfoldable pub del_event : ℕ → Event → IoManager K → Ended K Bool
  unfolding find_context
  del_event fd event m = elim (find_context fd m.fd_contexts) [
    | none ↦ returned false m
    | some c ↦
        let left = without_event c.events event in
        if not (has c.events event)
        then returned false m
        else elim (ctl_without K fd left m.kernel) [
          | none ↦ returned true m
          | some k ↦ returned true (
              put_context fd (set_event_context event no_context (record c { events = left }))
                (record m { kernel = k; pending_event_count = count_down m.pending_event_count }))
        ]
  ]

  abbrev pub then_return : Ended K Unit → Bool → Ended K Bool
  then_return (returned u m) b = returned b m
  then_return asserted b = asserted
  then_return undefined b = undefined

  -- `cancelEvent`: the event is taken out of the context before `triggerEvent`.
  unfoldable pub cancel_event : ℕ → Event → IoManager K → Ended K Bool
  unfolding trigger_event find_context
  cancel_event fd event m = elim (find_context fd m.fd_contexts) [
    | none ↦ returned false m
    | some c ↦
        let left = without_event c.events event in
        let c' = record c { events = left } in
        if not (has c.events event)
        then returned false m
        else elim (ctl_without K fd left m.kernel) [
          | none ↦ returned true m
          | some k ↦
              then_return
                (trigger_event event fd c' (
                  put_context fd c' (record m {
                    kernel = k;
                    pending_event_count = count_down m.pending_event_count;
                  })))
                true
        ]
  ]

  abbrev pub counted_down : Ended K Unit → Ended K Unit
  counted_down (returned u m) =
      returned u (record m { pending_event_count = count_down m.pending_event_count })
  counted_down asserted = asserted
  counted_down undefined = undefined

  -- The event is triggered and counted down if the test says so, in the context that is in the
  -- table.
  unfoldable pub trigger_if : Bool → Event → ℕ → IoManager K → Ended K Unit
  unfolding trigger_event
  trigger_if wanted event fd m = elim (get_elem? m.fd_contexts fd) [
    | none ↦ undefined
    | some c ↦
        let call = trigger_event event fd c m in if wanted then counted_down call else returned tt m
  ]

  abbrev pub and_then : Ended K Unit → (IoManager K → Ended K Unit) → Ended K Unit
  and_then (returned u m) next = next m
  and_then asserted next = asserted
  and_then undefined next = undefined

  -- `cancelAll`; a failure of `epoll_ctl` is `return -1`, and so true. The last assertion, that no
  -- event is left, is the test of the context at the end.
  abbrev pub nothing_left : ℕ → IoManager K → Ended K Bool
  nothing_left fd m = elim (get_elem? m.fd_contexts fd) [
    | none ↦ undefined
    | some c ↦ if is_none c.events then returned true m else asserted
  ]

  abbrev pub then_check : Ended K Unit → ℕ → Ended K Bool
  then_check (returned u m) fd = nothing_left fd m
  then_check asserted fd = asserted
  then_check undefined fd = undefined

  unfoldable pub cancel_all : ℕ → IoManager K → Ended K Bool
  unfolding trigger_if find_context
  cancel_all fd m = elim (find_context fd m.fd_contexts) [
    | none ↦ returned false m
    | some c ↦
        if is_none c.events
        then returned false m
        else elim (K.epoll_ctl delete fd none_set m.kernel) [
          | none ↦ returned true m
          | some k ↦
              then_check
                (and_then (trigger_if c.events.reads read fd (record m { kernel = k }))
                  (trigger_if c.events.writes write fd))
                fd
        ]
  ]

  -- What `idle` does with one descriptor that `epoll_wait` reported.
  unfoldable pub on_ready : Reported → IoManager K → Ended K Unit
  unfolding trigger_if
  on_ready r m = elim (get_elem? m.fd_contexts r.fd) [
    | none ↦ undefined
    | some c ↦
        let real = real_events r c.events in
        let left = minus c.events real in
        if is_none (meet c.events real)
        then returned tt m
        else elim (ctl_without K r.fd left m.kernel) [
          | none ↦ returned tt m
          | some k ↦
              and_then (trigger_if real.reads read r.fd (record m { kernel = k }))
                (trigger_if real.writes write r.fd)
        ]
  ]

  -- The constructor, with the epoll instance and the pipe it has made.
  abbrev pub new_io_manager : K.Kernel → IoManager K
  new_io_manager kernel = record {
    fd_contexts = context_resize 32 [];
    pending_event_count = 0;
    kernel = kernel;
    tasks = [];
    idle_thread_count = 0;
    pipe = 0;
  }

  -- The overdue timers of a round of `idle`, and then what `epoll_wait` reported; the pipe is read
  -- empty.
  unfoldable pub schedule_all : List ℕ → IoManager K → IoManager K
  unfolding schedule_lock
  schedule_all [] m = m
  schedule_all (cb ∷ cbs) m = schedule_all cbs (schedule_lock (some (run_cb cb)) m)

  unfoldable pub process_ready : List Ready → IoManager K → Ended K Unit
  unfolding on_ready
  process_ready [] m = returned tt m
  process_ready (tickled ∷ rest) m = process_ready rest (record m { pipe = 0 })
  process_ready (event_on r ∷ rest) m = and_then (on_ready r m) (process_ready rest)

  unfoldable pub idle_round : List ℕ → List Ready → IoManager K → Ended K Unit
  unfolding schedule_all process_ready
  idle_round cbs ready m = process_ready ready (schedule_all cbs m)
