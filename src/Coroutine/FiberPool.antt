-- ===== src/Coroutine/FiberPool.antt =====
-- `FiberPool`: co-pro/corotinue-fiber-pool, fiberpool.h and fiberpool.cpp. A shared pointer to a
-- fiber is its place in a heap. The mutex is left out: each call is one step.
pub mod Idle
pub mod Acquire
use workplace.Common.{List, Option, [], get_elem?, if◌then◌else◌, length, ltb, none, set, some, suc}
use workplace.Common.{zero, ℕ, ◌*◌, ◌++◌, ◌-◌, ◌/◌, ◌==◌, ◌∷◌}
use workplace.Coroutine.Fiber.{Fiber, Run, goes, new_fiber, reset, undefined, ◌>>=◌}

pub record FiberPool : Type 0 where
  pub heap : List Fiber
  pub idle_fibers : List ℕ
  pub all_fibers : List ℕ
  pub pool_size : ℕ

-- `createFibers`: a new fiber is reset at once.
unfoldable pub create_fibers : ℕ → FiberPool → FiberPool
create_fibers zero p = p
create_fibers (suc n) p =
    let id = length p.heap in
    create_fibers n (record p {
      heap = p.heap ++ new_fiber none ∷ [];
      idle_fibers = p.idle_fibers ++ id ∷ [];
      all_fibers = p.all_fibers ++ id ∷ [];
    })

-- The constructor.
unfoldable pub new_pool : ℕ → FiberPool
unfolding create_fibers
new_pool fibers =
    create_fibers fibers
      (record { heap = []; idle_fibers = []; all_fibers = []; pool_size = fibers })

-- The fiber at a place, changed by a call of its own.
unfoldable pub on_fiber : ℕ → (Fiber → Run Fiber) → FiberPool → Run FiberPool
on_fiber id call p = elim (get_elem? p.heap id) [
  | none ↦ undefined
  | some f ↦ do f' ← call f; goes (record p { heap = set p.heap id f' })
]

-- The pool grows by half when no fiber is idle; half is rounded down.
abbrev pub grow_if : List ℕ → FiberPool → FiberPool
grow_if [] p = create_fibers (length p.all_fibers * 3 / 2 - length p.all_fibers) p
grow_if (id ∷ ids) p = p

abbrev pub grown : FiberPool → FiberPool
grown p = grow_if p.idle_fibers p

-- `acquire` behind the growth; the front of an empty queue has no defined behaviour.
unfoldable pub take_idle : Option ℕ → FiberPool → List ℕ → Run (ℕ × FiberPool)
unfolding on_fiber reset
take_idle cb g [] = undefined
take_idle cb g (id ∷ ids) = do
  p' ← on_fiber id (reset cb) (record g { idle_fibers = ids })
  goes (id, p')

unfoldable pub acquire : Option ℕ → FiberPool → Run (ℕ × FiberPool)
unfolding create_fibers take_idle
acquire cb p = let g = grown p in take_idle cb g g.idle_fibers

unfoldable pub release : ℕ → FiberPool → Run FiberPool
unfolding on_fiber reset
release id p = do
  p' ← on_fiber id (reset none) p
  goes (record p' { idle_fibers = p'.idle_fibers ++ id ∷ [] })

-- `find` and `erase` of one pointer.
unfoldable pub erase_first : ℕ → List ℕ → List ℕ
erase_first id [] = []
erase_first id (j ∷ js) = let rest = erase_first id js in if j == id then js else j ∷ rest

-- The loop of `resize` that takes idle fibers away.
unfoldable pub remove_idle : ℕ → List ℕ → List ℕ → List ℕ × List ℕ
unfolding erase_first
remove_idle zero idle every = (idle, every)
remove_idle (suc n) [] every = ([], every)
remove_idle (suc n) (id ∷ ids) every = remove_idle n ids (erase_first id every)

unfoldable pub resize : ℕ → FiberPool → FiberPool
unfolding create_fibers remove_idle
resize size p =
    let n = length p.all_fibers in
    let (idle, every) = remove_idle (n - size) p.idle_fibers p.all_fibers in
    let less = record p { idle_fibers = idle; all_fibers = every } in
    let more = create_fibers (size - n) p in
    record (if ltb n size then more else if ltb size n then less else p) { pool_size = size }
