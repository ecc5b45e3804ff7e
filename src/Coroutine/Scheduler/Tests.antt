-- ===== src/Coroutine/Scheduler/Tests.antt =====
-- Instances of the theorems on a small pool and a short queue.
use workplace.Common.{List, [], false, get_elem?, none, refl, some, true, ℕ, ◌<◌, ◌↔◌, ◌∷◌, ◌≡◌}
use workplace.Common.{◌≢◌, ◌⊎◌}
use workplace.Common.Int.{negsuc, pos, ℤ}
use workplace.Coroutine.Fiber.{asserted, bad_function_call, finishes, goes, new_fiber, suspends}
use workplace.Coroutine.Fiber.{undefined, yields}
use workplace.Coroutine.FiberPool.{FiberPool, acquire, create_fibers, new_pool, take_idle}
use workplace.Coroutine.FiberPool.Acquire.{acquire_lem, places}
use workplace.Coroutine.FiberPool.Idle.{IsPool}
use workplace.Coroutine.Scheduler.{ScheduleTask, Scheduler, round, schedule_tasks, take_task}
use workplace.Coroutine.Scheduler.{worked}
use workplace.Coroutine.Scheduler.Lost.{callback_task, resumption, round_lem}
use workplace.Coroutine.Scheduler.Rounds.{Takes, take_task_lem}

abbrev two_fibers : FiberPool
two_fibers = record {
  heap = new_fiber none ∷ new_fiber none ∷ [];
  idle_fibers = 0 ∷ 1 ∷ [];
  all_fibers = 0 ∷ 1 ∷ [];
  pool_size = 2;
}

two_fibers_made : new_pool 2 ≡ two_fibers
unfolding new_pool create_fibers
two_fibers_made = refl

two_fibers-IsPool : IsPool two_fibers
two_fibers-IsPool = ((new_fiber none, refl, refl, refl), ((new_fiber none, refl, refl, refl), tt))

-- The one fiber of the pool is in use.
abbrev used_up : FiberPool
used_up = record {
  heap = new_fiber none ∷ [];
  idle_fibers = [];
  all_fibers = 0 ∷ [];
  pool_size = 1;
}

used_up_undefined : acquire (some 5) used_up ≡ undefined
unfolding acquire create_fibers take_idle
used_up_undefined = refl

acquire_lem_example :
    ((acquire (some 5) two_fibers ≡ undefined) ↔ (two_fibers.idle_fibers ≡ []) × (2 < 2))
    × ((acquire (some 5) two_fibers ≡ undefined)
        ⊎ ((id : ℕ) × (p' : FiberPool) × (acquire (some 5) two_fibers ≡ goes (id, p'))
            × (get_elem? p'.heap id ≡ some (new_fiber (some 5)))
            × IsPool p'
            × ((two_fibers.idle_fibers ≡ id ∷ p'.idle_fibers)
                ⊎ ((two_fibers.idle_fibers ≡ []) × (id ∷ p'.idle_fibers ≡ places 2 1)))
            × ((j : ℕ) → j < 2 → j ≢ id → get_elem? p'.heap j ≡ get_elem? two_fibers.heap j)))
acquire_lem_example = acquire_lem (some 5) two_fibers two_fibers-IsPool

abbrev task_for : ℤ → ℕ → ScheduleTask
task_for thread n = record { fiber = none; cb = some n; thread = thread }

abbrev queue : List ScheduleTask
queue = task_for (pos 9) 1 ∷ task_for (negsuc 0) 2 ∷ task_for (pos 4) 3 ∷ []

taken_by_four : take_task (pos 4) queue ≡ record {
  task = some (task_for (negsuc 0) 2);
  rest = task_for (pos 9) 1 ∷ task_for (pos 4) 3 ∷ [];
  tickle_me = true;
}
unfolding take_task
taken_by_four = refl

take_task_lem_example : Takes (pos 4) queue (take_task (pos 4) queue)
take_task_lem_example = take_task_lem (pos 4) queue

abbrev busy : Scheduler
busy = record { tasks = []; active_thread_count = 0; stopping = false; pool = two_fibers }

-- The callback 5 schedules its own fiber, which is the one at the place 0.
round_lem_example :
    (p' : FiberPool) × (round
        (pos 4)
        finishes
        (resumption 0 ∷ [])
        (record busy { tasks = callback_task 5 ∷ queue; pool = two_fibers })
      ≡ goes (
          worked true
            (schedule_tasks (resumption 0 ∷ []) (record busy { tasks = queue; pool = p' }))))
    × (round
          (pos 4)
          yields
          (resumption 0 ∷ [])
          (record busy { tasks = callback_task 5 ∷ queue; pool = two_fibers })
        ≡ goes (
            worked true
              (schedule_tasks (resumption 0 ∷ []) (record busy { tasks = queue; pool = p' }))))
    × (round
          (pos 4)
          suspends
          (resumption 0 ∷ [])
          (record busy { tasks = callback_task 5 ∷ queue; pool = two_fibers })
        ≡ asserted)
    × (p'.idle_fibers ≡ 1 ∷ 0 ∷ [])
    × (get_elem? p'.heap 0 ≡ some (new_fiber none))
    × (round
          (pos 4)
          finishes
          (resumption 0 ∷ [])
          (record busy { tasks = resumption 0 ∷ []; pool = p' })
        ≡ bad_function_call)
round_lem_example =
    round_lem 5 0 (1 ∷ []) two_fibers two_fibers-IsPool refl (pos 4) (resumption 0 ∷ []) queue []
      finishes busy
