-- ===== src/Coroutine/Scheduler.antt =====
-- `Scheduler`: co-pro/corotinue-fiber-pool, scheduler.h and scheduler.cpp. The rounds of `run` are
-- steps of one worker thread; the threads themselves and the waiting in `idle` are left out.
pub mod Rounds
pub mod Lost
mod Tests
use workplace.Common.{Bool, List, Option, [], false, get_elem?, if◌then◌else◌, none, not, some}
use workplace.Common.{true, ℕ, ◌&&◌, ◌++◌, ◌==◌, ◌||◌, ◌∷◌}
use workplace.Common.Int.{int_eq, negsuc, ℤ}
use workplace.Coroutine.Fiber.{Fiber, Run, Segment, goes, resume, state_eq, suspended, term}
use workplace.Coroutine.Fiber.{undefined, ◌>>=◌}
use workplace.Coroutine.FiberPool.{FiberPool, acquire, on_fiber, release}

-- `ScheduleTask`; a thread of -1 is any thread.
pub record ScheduleTask : Type 0 where
  pub fiber : Option ℕ
  pub cb : Option ℕ
  pub thread : ℤ

-- The queue and the flags of `Scheduler`, and the pool of the worker thread.
pub record Scheduler : Type 0 where
  pub tasks : List ScheduleTask
  pub active_thread_count : ℕ
  pub stopping : Bool
  pub pool : FiberPool

abbrev pub is_some : Option ℕ → Bool
is_some none = false
is_some (some n) = true

abbrev pub has_no_tasks : List ScheduleTask → Bool
has_no_tasks [] = true
has_no_tasks (t ∷ ts) = false

-- `scheduleLock`, with whether it wakes a thread; a task without fiber and callback is dropped.
unfoldable pub schedule : ScheduleTask → Scheduler → Bool × Scheduler
schedule t s = (
  has_no_tasks s.tasks,
  if is_some t.fiber || is_some t.cb then record s { tasks = s.tasks ++ t ∷ [] } else s,
)

-- The tasks that are scheduled one after another.
unfoldable pub schedule_tasks : List ScheduleTask → Scheduler → Scheduler
unfolding schedule
schedule_tasks [] s = s
schedule_tasks (t ∷ ts) s = schedule_tasks ts (schedule t s).1

-- A task that is bound to another thread is passed over.
abbrev pub is_foreign : ℤ → ScheduleTask → Bool
is_foreign me t = not (int_eq t.thread (negsuc 0)) && not (int_eq t.thread me)

-- What the search of the queue finds: the task, the tasks that are left, and whether another thread
-- is to be woken.
pub record Taken : Type 0 where
  pub task : Option ScheduleTask
  pub rest : List ScheduleTask
  pub tickle_me : Bool

-- The search of `run`. The iterator is read after the erasure, and stands on the next task then.
unfoldable pub take_task : ℤ → List ScheduleTask → Taken
take_task me [] = record { task = none; rest = []; tickle_me = false }
take_task me (t ∷ ts) =
    let later = take_task me ts in
    if is_foreign me t
    then record later { rest = t ∷ later.rest; tickle_me = true }
    else record { task = some t; rest = ts; tickle_me = not (has_no_tasks ts) }

-- What becomes of a fiber after its segment: only a suspended one is not released.
abbrev pub settle : ℕ → FiberPool → Run FiberPool
settle id p = elim (get_elem? p.heap id) [
  | none ↦ undefined
  | some f ↦ if state_eq f.state suspended then goes p else release id p
]

-- A task with a fiber: an ended one is not resumed.
abbrev pub resume_unless_ended : Segment → Fiber → Run Fiber
resume_unless_ended segment f = if not (state_eq f.state term) then resume segment f else goes f

unfoldable pub run_fiber_task : Segment → ℕ → FiberPool → Run FiberPool
unfolding on_fiber release resume
run_fiber_task segment id p = do p' ← on_fiber id (resume_unless_ended segment) p; settle id p'

-- A task with a callback, on a fiber of the pool.
unfoldable pub run_cb_task : Segment → Option ℕ → FiberPool → Run FiberPool
unfolding acquire on_fiber release resume
run_cb_task segment cb p = do
  (id, p') ← acquire cb p
  p'' ← on_fiber id (resume segment) p'
  settle id p''

-- The work of one task; the segment is what its code does until it gives the thread back.
abbrev pub run_task : Segment → ScheduleTask → FiberPool → Run FiberPool
run_task segment t p = elim t.fiber [
  | some id ↦ run_fiber_task segment id p
  | none ↦ run_cb_task segment t.cb p
]

-- How a round of `run` goes on: a task was run, or the idle fiber is to be resumed.
pub data Round : Type 0 where
  worked : Bool → Scheduler → Round
  is_idle : Bool → Scheduler → Round

-- A round of `run` by the thread `me`, with whether another thread was woken; `added` are the tasks
-- that are scheduled while the task runs, by its own code or by other threads. The active threads
-- are counted up and down around the task.
unfoldable pub round : ℤ → Segment → List ScheduleTask → Scheduler → Run Round
unfolding take_task run_fiber_task run_cb_task schedule_tasks
round me segment added s =
    let taken = take_task me s.tasks in
    elim taken.task [
      | none ↦ goes (is_idle taken.tickle_me s)
      | some t ↦ do
        p ← run_task segment t s.pool
        goes (
            worked taken.tickle_me
              (schedule_tasks added (record s { tasks = taken.rest; pool = p })))
    ]

-- `stopping`.
abbrev pub is_stopping : Scheduler → Bool
is_stopping s = s.stopping && has_no_tasks s.tasks && s.active_thread_count == 0
