-- ===== src/Coroutine/IoManager/Tests.antt =====
-- Instances of the theorems, with a function from descriptors to events as the kernel.
use workplace.Common.{List, [], ap, arith, false, get_elem?, if◌then◌else◌, none, refl, some}
use workplace.Common.{some_inj, subst, suc, sym, true, zero, ℕ, ◌==◌, ◌∙◌, ◌∷◌, ◌≡◌, ◌≢◌, ◌⊎◌}
use workplace.Common.Int.{ℤ}
use workplace.Coroutine.IoManager.{Caller, Epoll, Events, FdContext, IoManager, asserted}
use workplace.Coroutine.IoManager.{context_resize, find_context, no_context, none_set, read}
use workplace.Coroutine.IoManager.{returned, run_cb, run_fiber, write}
use workplace.Coroutine.IoManager.Adding.{Adds, add_event_lem}
use workplace.Coroutine.IoManager.Effects.{cancel_all_lem, cancel_event_asserts, del_event_lem}
use workplace.Coroutine.IoManager.Operations.{Reported, add_event, cancel_all, cancel_event}
use workplace.Coroutine.IoManager.Operations.{del_event, on_ready}
use workplace.Coroutine.IoManager.Orderly.{EpollLaws, IsManager, after_ctl}
use workplace.Coroutine.IoManager.Readiness.{on_ready_asserts, on_ready_lem}
use workplace.Coroutine.IoManager.Sound.{AllSound, Sound, bits, context_resize-AllSound, events_at}
use workplace.Coroutine.IoManager.Sound.{registered}

abbrev plain : Epoll
plain = record {
  Kernel = ℕ → Events;
  epoll_ctl = λ op fd s k. some (λ j. if j == fd then after_ctl op s else k j);
}

plain-laws : EpollLaws plain
plain-laws = record {
  interest = λ k. k;
  sets = λ op fd s k k' e. ap (λ f. f fd) (sym (some_inj e)) ∙ ground arith;
  spares = λ op fd s k k' j e other. ap (λ f. f j) (sym (some_inj e)) ∙ ground arith;
}

-- A context that waits for reading, with the callback 7, and for writing, with the fiber 8.
abbrev waiting : FdContext
waiting = record {
  read_context = record { scheduler = true; fiber = none; cb = some 7 };
  write_context = record { scheduler = true; fiber = some 8; cb = none };
  events = record { reads = true; writes = true };
}

-- A context that waits for reading only.
abbrev listening : FdContext
listening = record waiting {
  write_context = no_context;
  events = record { reads = true; writes = false };
}

-- A manager with a context for the descriptor 0, and the kernel that agrees with it.
abbrev table : FdContext → List FdContext
table c = c ∷ context_resize 31 []

abbrev manager : FdContext → IoManager plain
manager c = record {
  fd_contexts = table c;
  pending_event_count = bits c.events;
  kernel = λ j. events_at (table c) j;
  tasks = [];
  idle_thread_count = 1;
  pipe = 0;
}

table-AllSound : (c : FdContext) → Sound c → AllSound (table c)
table-AllSound c s zero d e = subst Sound (some_inj e) s
table-AllSound c s (suc fd) d e = context_resize-AllSound 31 [] (λ i b h. absurd (cc)) fd d e

manager-IsManager : (c : FdContext) → Sound c → IsManager plain-laws (manager c)
unfolding registered context_resize plain-laws
manager-IsManager c s = record {
  tables = record {
    roomy = omega arith;
    small = omega arith;
    sound = table-AllSound c s;
    counted = omega arith;
  };
  agrees = λ j. refl;
}

waiting-Sound : Sound waiting
waiting-Sound = ((refl, run_cb 7, refl), (refl, run_fiber 8, refl))

listening-Sound : Sound listening
listening-Sound = ((refl, run_cb 7, refl), refl)

abbrev caller : Caller
caller = record { has_scheduler = true; fiber = 3; is_running = true }

add_event_lem_example :
    (r : ℤ) × (m' : IoManager plain) × (add_event caller 40 write none (manager listening)
      ≡ returned r m')
    × IsManager plain-laws m'
    × (m'.tasks ≡ [])
    × Adds caller 40 write none (manager listening) m' r
add_event_lem_example =
    add_event_lem plain-laws caller 40 write none (manager listening)
      (manager-IsManager listening listening-Sound) (omega arith) (λ e. cc) refl refl

del_event_lem_example :
    (m' : IoManager plain) × (del_event 0 read (manager waiting) ≡ returned true m')
    × IsManager plain-laws m'
    × (m'.tasks ≡ [])
    × ((j : ℕ) → j ≢ 0 → get_elem? m'.fd_contexts j ≡ get_elem? (table waiting) j)
    × ((events_at m'.fd_contexts 0 ≡ record { reads = false; writes = true })
        ⊎ (m' ≡ manager waiting))
del_event_lem_example =
    del_event_lem plain-laws 0 read (manager waiting) (manager-IsManager waiting waiting-Sound)

cancel_event_asserts_example : cancel_event 0 read (manager waiting) ≡ asserted
unfolding find_context context_resize
cancel_event_asserts_example =
    cancel_event_asserts 0 read waiting
      (λ j. if j == 0 then record { reads = false; writes = true } else events_at (table waiting) j)
      (manager waiting) refl refl refl

cancel_all_lem_example :
    (m' : IoManager plain) × (cancel_all 0 (manager waiting) ≡ returned true m')
    × IsManager plain-laws m'
    × (events_at m'.fd_contexts 0 ≡ none_set)
    × (m'.tasks ≡ run_cb 7 ∷ run_fiber 8 ∷ [])
    × ((j : ℕ) → j ≢ 0 → get_elem? m'.fd_contexts j ≡ get_elem? (table waiting) j)
cancel_all_lem_example =
    cancel_all_lem plain-laws 0 waiting
      (λ j. if j == 0 then none_set else events_at (table waiting) j) (manager waiting)
      (manager-IsManager waiting waiting-Sound) refl refl refl

-- A hangup on the descriptor 0, and both events at once.
abbrev hangup : Reported
hangup = record { fd = 0; reads = false; writes = false; failed = true }

abbrev both_events : Reported
both_events = record { fd = 0; reads = true; writes = true; failed = false }

abbrev released : ℕ → Events
released j = if j == 0 then none_set else events_at (table listening) j

on_ready_lem_example :
    (m' : IoManager plain) × (on_ready hangup (manager listening) ≡ returned tt m')
    × IsManager plain-laws m'
    × (events_at m'.fd_contexts 0 ≡ none_set)
    × (m'.tasks ≡ run_cb 7 ∷ [])
    × ((j : ℕ) → j ≢ 0 → get_elem? m'.fd_contexts j ≡ get_elem? (table listening) j)
on_ready_lem_example =
    on_ready_lem plain-laws hangup listening released (manager listening)
      (manager-IsManager listening listening-Sound) refl refl refl refl

on_ready_asserts_example : on_ready both_events (manager listening) ≡ asserted
on_ready_asserts_example =
    on_ready_asserts both_events listening released (manager listening)
      (manager-IsManager listening listening-Sound).tables refl refl refl refl
