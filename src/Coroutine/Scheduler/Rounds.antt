-- ===== src/Coroutine/Scheduler/Rounds.antt =====
-- Which task a worker takes from the queue.
use workplace.Common.{Bool-cases, List, [], ap, false, inl, inr, none, not, refl, some, true, ◌++◌}
use workplace.Common.{◌∷◌, ◌≡◌}
use workplace.Common.Int.{ℤ}
use workplace.Coroutine.Scheduler.{ScheduleTask, Taken, has_no_tasks, is_foreign, take_task}

-- Tasks that are bound to other threads.
abbrev pub AllForeign : ℤ → List ScheduleTask → Type 0
AllForeign me [] = Unit
AllForeign me (t ∷ ts) = (is_foreign me t ≡ true) × AllForeign me ts

-- What a worker takes: nothing, when all tasks are bound to others, or the first task that is not,
-- and then another thread is woken exactly if a task stays in the queue.
pub data Takes (me : ℤ) (ts : List ScheduleTask) : Taken → Type 0 where
  nothing :
      AllForeign me ts
      → Takes me ts (record { task = none; rest = ts; tickle_me = not (has_no_tasks ts) })
  takes :
      (before : List ScheduleTask) (t : ScheduleTask) (after : List ScheduleTask)
      → ts ≡ before ++ t ∷ after
      → AllForeign me before
      → is_foreign me t ≡ false
      → Takes me ts (record {
        task = some t;
        rest = before ++ after;
        tickle_me = not (has_no_tasks (before ++ after));
      })

cons-Takes :
    (me : ℤ) (t : ScheduleTask) (ts : List ScheduleTask) (later : Taken)
    → is_foreign me t ≡ true
    → Takes me ts later
    → Takes me (t ∷ ts) (record later { rest = t ∷ later.rest; tickle_me = true })
cons-Takes me t ts later f (nothing all) = nothing (f, all)
cons-Takes me t ts later f (takes before u after e all own) =
    takes (t ∷ before) u after (ap (λ us. t ∷ us) e) (f, all) own

-- A worker takes the first task of the queue that is not bound to another thread, and leaves the
-- others in their order; another thread is woken exactly if a task is left. When all tasks are bound
-- to other threads it takes none.
pub take_task_lem : (me : ℤ) (ts : List ScheduleTask) → Takes me ts (take_task me ts)
unfolding take_task
take_task_lem me [] = nothing tt
take_task_lem me (t ∷ ts) = elim (Bool-cases (is_foreign me t)) [
  | inl foreign ↦ rw foreign (cons-Takes me t ts (take_task me ts) foreign (take_task_lem me ts))
  | inr own ↦ rw own (takes [] t ts refl tt own)
]
