-- ===== src/Coroutine/IoManager/Effects.antt =====
-- What each operation of `IOManager` does to the events and the tasks.
use workplace.Common.{Bool, Bool-cases, Option, Option-cases, ap, arith, false, get_elem?}
use workplace.Common.{get_elem?-lt, get_elem?-set_ne, get_elem?-set_self, if◌then◌else◌, inl, inr}
use workplace.Common.{none, refl, some, sym, true, ℕ, ◌++◌, ◌∙◌, ◌≡◌, ◌≢◌, ◌⊎◌}
use workplace.Coroutine.IoManager.{Ended, Epoll, Event, Events, FdContext, IoManager, asserted}
use workplace.Coroutine.IoManager.{count_down, ctl_without, delete, find_context, has, is_none}
use workplace.Coroutine.IoManager.{no_event, none_set, put_context, read, returned, undefined}
use workplace.Coroutine.IoManager.{without_event, write}
use workplace.Coroutine.IoManager.Operations.{cancel_all, cancel_event, del_event, minus}
use workplace.Coroutine.IoManager.Operations.{nothing_left, then_check, trigger_event}
use workplace.Coroutine.IoManager.Orderly.{EpollLaws, IsManager, Replaced, Replaced-IsManager}
use workplace.Coroutine.IoManager.Orderly.{after_ctl-left, both, clear_if, work}
use workplace.Coroutine.IoManager.Sound.{Tables, events_at, events_in, find_context_eq}
use workplace.Coroutine.IoManager.Trigger.{cleared, cleared-Sound, cleared-events, count_down_lem}
use workplace.Coroutine.IoManager.Trigger.{kernel-Tables, put_context-Tables}

pub clear_both-events :
    (wr ww : Bool) (c : FdContext)
    → (clear_if ww write (clear_if wr read c)).events
      ≡ minus c.events (record { reads = wr; writes = ww })
clear_both-events true true c = ground arith
clear_both-events true false c = ground arith
clear_both-events false true c = ground arith
clear_both-events false false c = ground arith

minus_self : (s : Events) → minus s s ≡ none_set
minus_self s = ground arith

no_event_has : (event : Event) → has none_set event ≡ false
no_event_has no_event = refl
no_event_has read = refl
no_event_has write = refl

-- An event taken out of its context and counted down.
removed :
    {K : Epoll} (fd : ℕ) (event : Event) (c : FdContext) (m : IoManager K) (k : K.Kernel)
    → Tables m
    → get_elem? m.fd_contexts fd ≡ some c
    → has c.events event ≡ true
    → Replaced fd (cleared event c) m (
        put_context fd
          (cleared event c)
          (record m { kernel = k; pending_event_count = count_down m.pending_event_count }))
removed fd event c m k v e h = record {
  tables =
      put_context-Tables fd c (cleared event c) m _ v e (cleared-Sound event c (v.sound fd c e))
        refl (count_down_lem fd c event m v e h);
  here = get_elem?-set_self m.fd_contexts fd (cleared event c) (get_elem?-lt m.fd_contexts fd e);
  elsewhere = λ j other. get_elem?-set_ne m.fd_contexts (cleared event c) (λ q. other (sym q));
}

-- `cancelEvent` on a registered event never returns once `epoll_ctl` has succeeded: the event is
-- taken out of the context first, and the assertion of `triggerEvent` that it is there fails.
pub cancel_event_asserts :
    {K : Epoll} (fd : ℕ) (event : Event) (c : FdContext) (k : K.Kernel) (m : IoManager K)
    → find_context fd m.fd_contexts ≡ some c
    → has c.events event ≡ true
    → ctl_without K fd (without_event c.events event) m.kernel ≡ some k
    → cancel_event fd event m ≡ asserted
unfolding cancel_event trigger_event
cancel_event_asserts fd event c k m e h n = rw (e, h, n, gone event c.events, cancel_event) refl
  where
    gone : (event : Event) (s : Events) → has (without_event s event) event ≡ false
    gone no_event s = refl
    gone read s = refl
    gone write s = refl

module _ {K : Epoll} (laws : EpollLaws K) where
  -- `delEvent` returns, on a table in order, whether the event was registered before the call, also
  -- when `epoll_ctl` fails and the event stays. It schedules nothing, changes no other descriptor,
  -- and keeps table, count and kernel in step.
  pub del_event_lem :
      (fd : ℕ) (event : Event) (m : IoManager K)
      → IsManager laws m
      → (m' : IoManager K) × (del_event fd event m
          ≡ returned (has (events_at m.fd_contexts fd) event) m')
        × IsManager laws m'
        × (m'.tasks ≡ m.tasks)
        × ((j : ℕ) → j ≢ fd → get_elem? m'.fd_contexts j ≡ get_elem? m.fd_contexts j)
        × ((events_at m'.fd_contexts fd ≡ without_event (events_at m.fd_contexts fd) event)
            ⊎ (m' ≡ m))
  unfolding del_event
  del_event_lem fd event m v =
      let found = find_context_eq fd m.fd_contexts v.tables.small in
      elim (Option-cases (get_elem? m.fd_contexts fd)) [
        | inl e ↦
            rw (found ∙ e, e, del_event)
              (
                m,
                ap (λ b. returned b m) (sym (no_event_has event)),
                v,
                refl,
                λ j other. refl,
                inr refl,
              )
        | inr (c, e) ↦ elim (Bool-cases (has c.events event)) [
          | inr h ↦ rw (found ∙ e, e, h, del_event) (m, refl, v, refl, λ j other. refl, inr refl)
          | inl h ↦ elim (Option-cases (ctl_without K fd (without_event c.events event) m.kernel)) [
            | inl n ↦
                rw (found ∙ e, e, h, n, del_event) (m, refl, v, refl, λ j other. refl, inr refl)
            | inr (k, n) ↦
                let m' = put_context fd (cleared event c) (record m {
                  kernel = k;
                  pending_event_count = count_down m.pending_event_count;
                }) in
                let r = removed fd event c m k v.tables e h in
                rw (found ∙ e, e, h, n, del_event)
                  (
                    m',
                    refl,
                    Replaced-IsManager laws fd (cleared event c) _ _ m m' v r n
                        (after_ctl-left _ ∙ sym (cleared-events event c)),
                    refl,
                    r.elsewhere,
                    inl (ap events_in r.here ∙ cleared-events event c),
                  )
          ]
        ]
      ]

  checked :
      (fd : ℕ) {c : FdContext} (m : IoManager K)
      → get_elem? m.fd_contexts fd ≡ some c
      → c.events ≡ none_set
      → nothing_left fd m ≡ returned true m
  checked fd {c} m e h = ap settle e ∙ (rw h refl)
    where
      settle : Option FdContext → Ended K Bool
      settle found = elim found [
        | none ↦ undefined
        | some c ↦ if is_none c.events then returned true m else asserted
      ]

  -- `cancelAll` on a table in order takes all events of a descriptor away and schedules exactly
  -- their tasks, the one for reading first; table, count and kernel stay in step, and no other
  -- descriptor changes. Some event is registered, and `epoll_ctl` succeeds.
  pub cancel_all_lem :
      (fd : ℕ) (c : FdContext) (k : K.Kernel) (m : IoManager K)
      → IsManager laws m
      → get_elem? m.fd_contexts fd ≡ some c
      → is_none c.events ≡ false
      → K.epoll_ctl delete fd none_set m.kernel ≡ some k
      → (m' : IoManager K) × (cancel_all fd m ≡ returned true m')
        × IsManager laws m'
        × (events_at m'.fd_contexts fd ≡ none_set)
        × (m'.tasks
            ≡ m.tasks
              ++ (work c.events.reads c.read_context ++ work c.events.writes c.write_context))
        × ((j : ℕ) → j ≢ fd → get_elem? m'.fd_contexts j ≡ get_elem? m.fd_contexts j)
  unfolding cancel_all
  cancel_all_lem fd c k m v e some_event n =
      let m1 = record m { kernel = k } in
      let t : Tables m1 = kernel-Tables k m v.tables in
      let b = both c.events.reads c.events.writes fd c m1 t e (λ q. q) (λ q. q) in
      let none_left = clear_both-events c.events.reads c.events.writes c ∙ minus_self c.events in
      (
        b.last,
        rw (find_context_eq fd m.fd_contexts v.tables.small ∙ e, some_event, n, cancel_all)
            (ap (λ o. then_check o fd) b.run ∙ checked fd b.last b.replaced.here none_left),
        Replaced-IsManager laws fd _ delete none_set m b.last v
            (record {
              tables = b.replaced.tables;
              here = b.replaced.here;
              elsewhere = b.replaced.elsewhere;
            })
            (n ∙ ap some (sym b.kernel)) (sym none_left),
        ap events_in b.replaced.here ∙ none_left,
        b.scheduled,
        b.replaced.elsewhere,
      )
