-- ===== src/Coroutine/IoManager.antt =====
-- `IOManager`: co-pro/corotinue-fiber-pool, ioscheduler.h and ioscheduler.cpp. Fibers and callbacks
-- are numbers. A call of an operation is one step: its locks are left out.
pub mod Operations
pub mod Sound
pub mod Trigger
pub mod Orderly
pub mod Effects
pub mod Readiness
pub mod Adding
mod Tests
use workplace.Common.{Bool, List, Option, [], false, get_elem?, if◌then◌else◌, length, ltb, none}
use workplace.Common.{not, set, some, suc, true, zero, ℕ, ◌%◌, ◌&&◌, ◌*◌, ◌++◌, ◌+◌, ◌/◌, ◌==◌, ◌^◌}
use workplace.Common.{◌||◌, ◌∷◌}

-- `EPOLL_CTL_ADD`, `EPOLL_CTL_MOD` and `EPOLL_CTL_DEL`.
pub data Op : Type 0 where
  add modify delete : Op

-- `Event`.
pub data Event : Type 0 where
  no_event read write : Event

-- A set of events, as bits.
pub record Events : Type 0 where
  pub reads : Bool
  pub writes : Bool

-- The kernel's side, which is not part of the repository: `epoll_ctl` succeeds or fails.
pub record Epoll : Type 1 where
  pub Kernel : Type 0
  pub epoll_ctl : Op → ℕ → Events → Kernel → Option Kernel

abbrev pub none_set : Events
none_set = record { reads = false; writes = false }

abbrev pub has : Events → Event → Bool
has s no_event = false
has s read = s.reads
has s write = s.writes

-- `events | event` and `events & ~event`.
abbrev pub with_event : Events → Event → Events
with_event s no_event = s
with_event s read = record s { reads = true }
with_event s write = record s { writes = true }

abbrev pub without_event : Events → Event → Events
without_event s no_event = s
without_event s read = record s { reads = false }
without_event s write = record s { writes = false }

abbrev pub is_none : Events → Bool
is_none s = not (s.reads || s.writes)

-- `EventContext`; `scheduler` is whether the pointer is set.
pub record EventContext : Type 0 where
  pub scheduler : Bool
  pub fiber : Option ℕ
  pub cb : Option ℕ

-- What `resetEventContext` leaves.
abbrev pub no_context : EventContext
no_context = record { scheduler = false; fiber = none; cb = none }

-- `FdContext`; the field `fd` is its place in the table.
pub record FdContext : Type 0 where
  pub read_context : EventContext
  pub write_context : EventContext
  pub events : Events

abbrev pub new_fd_context : FdContext
new_fd_context = record { read_context = no_context; write_context = no_context; events = none_set }

-- `getEventContext`; `none` is the failed assertion.
abbrev pub get_event_context : Event → FdContext → Option EventContext
get_event_context no_event c = none
get_event_context read c = some c.read_context
get_event_context write c = some c.write_context

abbrev pub set_event_context : Event → EventContext → FdContext → FdContext
set_event_context no_event x c = c
set_event_context read x c = record c { read_context = x }
set_event_context write x c = record c { write_context = x }

-- A task of the scheduler, which any thread may run.
pub data Task : Type 0 where
  run_fiber run_cb : ℕ → Task

-- The fields of `IOManager`, the tasks and the idle threads of its scheduler, and the bytes in the
-- pipe that wakes a thread.
pub record IoManager (K : Epoll) : Type 0 where
  pub fd_contexts : List FdContext
  pub pending_event_count : ℕ
  pub kernel : K.Kernel
  pub tasks : List Task
  pub idle_thread_count : ℕ
  pub pipe : ℕ

-- How a call ends: it returns, an assertion fails, or it has no defined behaviour.
pub data Ended (K : Epoll) (A : Type 0) : Type 0 where
  returned : A → IoManager K → Ended K A
  asserted undefined : Ended K A

-- Counting up and down in 64 bits.
abbrev pub count_up : ℕ → ℕ
count_up n = (n + 1) % 18446744073709551616

abbrev pub count_down : ℕ → ℕ
count_down n = (n + 18446744073709551615) % 18446744073709551616

-- `contextResize`.
unfoldable pub context_resize : ℕ → List FdContext → List FdContext
context_resize zero l = []
context_resize (suc n) [] = new_fd_context ∷ context_resize n []
context_resize (suc n) (c ∷ l) = c ∷ context_resize n l

-- `(int)m_fdContexts.size() > fd`: the size is cut to 32 bits, and negative from 2 ^ 31 on.
abbrev pub in_table : ℕ → List FdContext → Bool
in_table fd l = let size = length l % 2 ^ 32 in ltb size (2 ^ 31) && ltb fd size

-- The context that an operation looks up; `none` is a descriptor that the test refuses.
unfoldable pub find_context : ℕ → List FdContext → Option FdContext
find_context fd l = if in_table fd l then get_elem? l fd else none

-- The contexts in which `addEvent` looks a descriptor up; `fd * 1.5` is rounded down, and the table
-- shrinks when that is less than its size.
abbrev pub room_for : ℕ → List FdContext → List FdContext
room_for fd l = if in_table fd l then l else context_resize (fd * 3 / 2) l

-- What `addEvent` takes from the thread: whether it has a scheduler, its fiber, and whether that
-- fiber's state is `RUNNING`.
pub record Caller : Type 0 where
  pub has_scheduler : Bool
  pub fiber : ℕ
  pub is_running : Bool

abbrev pub is_set : Option ℕ → Bool
is_set none = false
is_set (some n) = true

abbrev pub is_empty_context : EventContext → Bool
is_empty_context x = not x.scheduler && not (is_set x.fiber) && not (is_set x.cb)

abbrev pub no_tasks : List Task → Bool
no_tasks [] = true
no_tasks (t ∷ ts) = false

-- The callback if there is one, else the fiber.
abbrev pub task_of : EventContext → Option Task
task_of x = elim x.cb [
  | some n ↦ some (run_cb n)
  | none ↦ elim x.fiber [ none ↦ none | some n ↦ some (run_fiber n) ]
]

-- The new context of an event in `addEvent`.
abbrev pub added_context : Caller → Option ℕ → EventContext
added_context caller (some n) = record {
  scheduler = caller.has_scheduler;
  fiber = none;
  cb = some n;
}
added_context caller none = record {
  scheduler = caller.has_scheduler;
  fiber = some caller.fiber;
  cb = none;
}

abbrev pub may_add : Caller → Option ℕ → Bool
may_add caller (some n) = true
may_add caller none = caller.is_running

-- The call of `epoll_ctl` that takes an event away.
abbrev pub ctl_without : (K : Epoll) → ℕ → Events → K.Kernel → Option K.Kernel
ctl_without K fd left kernel = K.epoll_ctl (if is_none left then delete else modify) fd left kernel

module _ {K : Epoll} where
  -- `tickle`: one byte, if there are idle threads; the write into the pipe succeeds.
  abbrev pub tickle : IoManager K → IoManager K
  tickle m = if m.idle_thread_count == 0 then m else record m { pipe = m.pipe + 1 }

  abbrev pub push_task : Option Task → IoManager K → IoManager K
  push_task none m = m
  push_task (some t) m = record m { tasks = m.tasks ++ t ∷ [] }

  -- `scheduleLock`; a null fiber is no task.
  unfoldable pub schedule_lock : Option Task → IoManager K → IoManager K
  schedule_lock t m = if no_tasks m.tasks then tickle (push_task t m) else push_task t m

  abbrev pub put_context : ℕ → FdContext → IoManager K → IoManager K
  put_context fd c m = record m { fd_contexts = set m.fd_contexts fd c }
