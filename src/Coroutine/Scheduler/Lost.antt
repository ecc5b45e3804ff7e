-- ===== src/Coroutine/Scheduler/Lost.antt =====
-- A callback that gives its thread back before its end.
use workplace.Common.{Bool, List, Option, [], ap, arith, get_elem?, get_elem?-lt}
use workplace.Common.{get_elem?-set_self, if◌then◌else◌, inl, inr, length, length-set, none, not}
use workplace.Common.{refl, set, set-set, some, subst, true, ℕ, ◌++◌, ◌<◌, ◌∙◌, ◌∷◌, ◌≡◌, ◌⊎◌}
use workplace.Common.Int.{negsuc, ℤ}
use workplace.Coroutine.Fiber.{Fiber, Run, Segment, asserted, bad_function_call, finishes, goes}
use workplace.Coroutine.Fiber.{new_fiber, ready, resume, run_segment, running, state_eq, suspend}
use workplace.Coroutine.Fiber.{suspended, suspends, term, undefined, yield, yields, ◌>>=◌}
use workplace.Coroutine.FiberPool.{FiberPool, acquire, grow_if, on_fiber, release, take_idle}
use workplace.Coroutine.FiberPool.Idle.{AllUsable, IsPool, on_fiber_eq, release_eq, take_idle_eq}
use workplace.Coroutine.Scheduler.{ScheduleTask, Scheduler, has_no_tasks, resume_unless_ended}
use workplace.Coroutine.Scheduler.{round, run_cb_task, run_fiber_task, schedule_tasks, settle}
use workplace.Coroutine.Scheduler.{take_task, worked}

run_segment_yields :
    (n : ℕ)
    → run_segment yields (record { state = running; cb = some n; has_stack = true })
      ≡ goes (new_fiber (some n))
unfolding run_segment yield
run_segment_yields n = refl

resume_yields : (n : ℕ) → resume yields (new_fiber (some n)) ≡ goes (new_fiber (some n))
unfolding resume run_segment yield
resume_yields n = refl

resume_suspends : (n : ℕ) → resume suspends (new_fiber (some n)) ≡ asserted
unfolding resume run_segment yield suspend
resume_suspends n = refl

resume_finishes :
    (n : ℕ)
    → resume finishes (new_fiber (some n))
      ≡ goes (record { state = term; cb = none; has_stack = true })
unfolding resume run_segment yield
resume_finishes n = refl

resume_nothing : (segment : Segment) → resume segment (new_fiber none) ≡ bad_function_call
unfolding resume run_segment
resume_nothing segment = refl

-- Tasks for any thread: a callback, and the fiber at a place.
abbrev pub callback_task : ℕ → ScheduleTask
callback_task n = record { fiber = none; cb = some n; thread = negsuc 0 }

abbrev pub resumption : ℕ → ScheduleTask
resumption id = record { fiber = some id; cb = none; thread = negsuc 0 }

-- The pool after a fiber was taken, run, and given back.
abbrev pub cycled : ℕ → List ℕ → FiberPool → List Fiber → FiberPool
cycled id ids p heap = record p { heap = heap; idle_fibers = ids ++ id ∷ [] }

settle_eq :
    (id : ℕ) (q : FiberPool) {f : Fiber}
    → get_elem? q.heap id ≡ some f
    → (f.state ≡ ready) ⊎ (f.state ≡ term)
    → settle id q ≡ release id q
settle_eq id q {f} e state = ap (λ o. after o) e ∙ (elim state [
  | inl r ↦ ap (λ t. if state_eq t suspended then goes q else release id q) r
  | inr r ↦ ap (λ t. if state_eq t suspended then goes q else release id q) r
])
  where
    after : Option Fiber → Run FiberPool
    after found = elim found [
      | none ↦ undefined
      | some f ↦ if state_eq f.state suspended then goes q else release id q
    ]

on_fiber_call :
    (id : ℕ) (call : Fiber → Run Fiber) (q : FiberPool) {f : Fiber}
    → get_elem? q.heap id ≡ some f
    → on_fiber id call q ≡ call f >>= λ g. goes (record q { heap = set q.heap id g })
unfolding on_fiber
on_fiber_call id call q e = rw (e, on_fiber) refl

run_again :
    (segment : Segment) (id : ℕ) (q : FiberPool)
    → get_elem? q.heap id ≡ some (new_fiber none)
    → run_fiber_task segment id q ≡ bad_function_call
unfolding run_fiber_task
run_again segment id q e =
    let call = on_fiber_call id (resume_unless_ended segment) q e in
    ap (λ o. o >>= settle id) call
    ∙ ap (λ r. (r >>= λ g. goes (record q { heap = set q.heap id g })) >>= settle id)
        (resume_nothing segment)

module _ (n id : ℕ) (ids : List ℕ) (p : FiberPool) (v : IsPool p)
    (idle : p.idle_fibers ≡ id ∷ ids) where
  abbrev taken : FiberPool
  taken = record p { heap = set p.heap id (new_fiber (some n)); idle_fibers = ids }

  in_heap : id < length p.heap
  in_heap = let (f, e, r, s) = (subst (AllUsable p.heap) idle v).0 in get_elem?-lt p.heap id e

  there :
      (heap : List Fiber) (f : Fiber)
      → length heap ≡ length p.heap
      → get_elem? (set heap id f) id ≡ some f
  there heap f size = get_elem?-set_self heap id f (omega (arith, size, in_heap))

  acquired : acquire (some n) p ≡ goes (id, taken)
  unfolding acquire
  acquired =
      ap (λ g. take_idle (some n) g g.idle_fibers) (ap (λ l. grow_if l p) idle)
      ∙ ap (take_idle (some n) p) idle
      ∙ take_idle_eq (some n) p id ids (subst (AllUsable p.heap) idle v).0

  run_cb_task_eq :
      (segment : Segment)
      → run_cb_task segment (some n) p ≡ on_fiber id (resume segment) taken >>= settle id
  unfolding run_cb_task
  run_cb_task_eq segment =
      ap (λ o. o >>= λ (i, q). on_fiber i (resume segment) q >>= settle i) acquired

  settled :
      (segment : Segment) (f : Fiber)
      → resume segment (new_fiber (some n)) ≡ goes f
      → f.has_stack ≡ true
      → (f.state ≡ ready) ⊎ (f.state ≡ term)
      → run_cb_task segment (some n) p ≡ goes (cycled id ids p (set p.heap id (new_fiber none)))
  settled segment f run stack state =
      let q : FiberPool = record taken { heap = set taken.heap id f } in
      let here : get_elem? q.heap id ≡ some f =
        there taken.heap f (length-set p.heap id (new_fiber (some n))) in
      let heaps =
        set-set taken.heap id f (new_fiber none)
        ∙ set-set p.heap id (new_fiber (some n)) (new_fiber none) in
      run_cb_task_eq segment
      ∙ ap (λ o. o >>= settle id)
          (on_fiber_eq id (resume segment) taken (there p.heap (new_fiber (some n)) refl) run)
      ∙ settle_eq id q here state
      ∙ release_eq id f q here stack state
      ∙ ap (λ heap. goes (cycled id ids p heap)) heaps

  run_cb_task_lem :
      (segment : Segment)
      → (p' : FiberPool) × (run_cb_task finishes (some n) p ≡ goes p')
        × (run_cb_task yields (some n) p ≡ goes p')
        × (run_cb_task suspends (some n) p ≡ asserted)
        × (p'.idle_fibers ≡ ids ++ id ∷ [])
        × (get_elem? p'.heap id ≡ some (new_fiber none))
        × (run_fiber_task segment id p' ≡ bad_function_call)
  run_cb_task_lem segment =
      let p' = cycled id ids p (set p.heap id (new_fiber none)) in
      let here = there p.heap (new_fiber none) refl in
      (
        p',
        settled finishes _ (resume_finishes n) refl (inr refl),
        settled yields _ (resume_yields n) refl (inl refl),
        run_cb_task_eq suspends
            ∙ ap (λ o. o >>= settle id)
                (on_fiber_call id (resume suspends) taken (there p.heap (new_fiber (some n)) refl))
            ∙ ap
                (λ r. (r >>= λ g. goes (record taken { heap = set taken.heap id g })) >>= settle id)
                (resume_suspends n),
        refl,
        here,
        run_again segment id p' here,
      )

  -- A round of a worker whose first task is a callback that any thread may run, on a pool with an idle
  -- fiber. When the callback ends, and also when it gives its thread back by `yield`, its fiber
  -- is put at the end of the idle fibers, reset, without the callback; the queue holds the tasks behind
  -- it and those that were scheduled meanwhile. So a yielded callback never goes on: when the
  -- next round takes a task with its fiber, which the callback itself or an event may have scheduled,
  -- a null callback is called. A callback that calls `suspend` fails an assertion. The idle fibers are
  -- usable.
  pub round_lem :
      (me : ℤ) (added ts others : List ScheduleTask) (segment : Segment) (s : Scheduler)
      → let start = record s { tasks = callback_task n ∷ ts; pool = p } in
        (p' : FiberPool) × (round me finishes added start
          ≡ goes (
              worked
                (not (has_no_tasks ts))
                (schedule_tasks added (record s { tasks = ts; pool = p' }))))
        × (round me yields added start
            ≡ goes (
                worked
                  (not (has_no_tasks ts))
                  (schedule_tasks added (record s { tasks = ts; pool = p' }))))
        × (round me suspends added start ≡ asserted)
        × (p'.idle_fibers ≡ ids ++ id ∷ [])
        × (get_elem? p'.heap id ≡ some (new_fiber none))
        × (round me segment added (record s { tasks = resumption id ∷ others; pool = p' })
            ≡ bad_function_call)
  unfolding round take_task
  round_lem me added ts others segment s =
      let (p', ended, yielded, failed, idle_after, there_after, again) = run_cb_task_lem segment in
      let after = λ (b : Bool) (rest : List ScheduleTask) (r : Run FiberPool).
        r >>= λ q. goes (worked b (schedule_tasks added (record s { tasks = rest; pool = q }))) in
      (
        p',
        ap (after (not (has_no_tasks ts)) ts) ended,
        ap (after (not (has_no_tasks ts)) ts) yielded,
        ap (after (not (has_no_tasks ts)) ts) failed,
        idle_after,
        there_after,
        ap (after (not (has_no_tasks others)) others) again,
      )
