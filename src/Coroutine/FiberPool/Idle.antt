-- ===== src/Coroutine/FiberPool/Idle.antt =====
-- The idle fibers of a pool.
use workplace.Common.{List, Option, [], ap, arith, get_elem?, get_elem?-append_left}
use workplace.Common.{get_elem?-append_new, get_elem?-lt, get_elem?-set_ne, get_elem?-set_self, inl}
use workplace.Common.{inr, length, none, refl, set, some, suc, sym, true, zero, ℕ, ℕ_discrete, ◌++◌}
use workplace.Common.{◌∙◌, ◌∷◌, ◌≡◌, ◌⊎◌}
use workplace.Coroutine.Fiber.{Fiber, Run, goes, new_fiber, ready, reset, term, ◌>>=◌}
use workplace.Coroutine.FiberPool.{FiberPool, create_fibers, on_fiber, release, take_idle}

-- The place holds a fiber that can be reset and resumed.
abbrev pub Usable : List Fiber → ℕ → Type 0
Usable heap id =
    (f : Fiber) × (get_elem? heap id ≡ some f) × (f.state ≡ ready) × (f.has_stack ≡ true)

abbrev pub AllUsable : List Fiber → List ℕ → Type 0
AllUsable heap [] = Unit
AllUsable heap (id ∷ ids) = Usable heap id × AllUsable heap ids

-- Every idle fiber of the pool can be reset and resumed.
abbrev pub IsPool : FiberPool → Type 0
IsPool p = AllUsable p.heap p.idle_fibers

AllUsable-append :
    (heap : List Fiber) (ids : List ℕ) (id : ℕ)
    → AllUsable heap ids
    → Usable heap id
    → AllUsable heap (ids ++ id ∷ [])
AllUsable-append heap [] id all u = (u, tt)
AllUsable-append heap (j ∷ ids) id (v, all) u = (v, AllUsable-append heap ids id all u)

AllUsable-heap :
    (heap more : List Fiber) (ids : List ℕ) → AllUsable heap ids → AllUsable (heap ++ more) ids
AllUsable-heap heap more [] all = tt
AllUsable-heap heap more (id ∷ ids) ((f, e, r, s), all) =
    ((f, get_elem?-append_left heap more id e, r, s), AllUsable-heap heap more ids all)

set-Usable :
    (heap : List Fiber) (id j : ℕ) (f : Fiber)
    → f.state ≡ ready
    → f.has_stack ≡ true
    → Usable heap j
    → Usable (set heap id f) j
set-Usable heap id j f r s (g, e, rg, sg) = elim (ℕ_discrete id j) [
  | yes same ↦ (
    f,
    ap (get_elem? (set heap id f)) (sym same)
        ∙ get_elem?-set_self heap id f (get_elem?-lt heap id (ap (get_elem? heap) same ∙ e)),
    r,
    s,
  )
  | no other ↦ (g, get_elem?-set_ne heap f other ∙ e, rg, sg)
]

pub set-AllUsable :
    (heap : List Fiber) (id : ℕ) (f : Fiber) (ids : List ℕ)
    → f.state ≡ ready
    → f.has_stack ≡ true
    → AllUsable heap ids
    → AllUsable (set heap id f) ids
set-AllUsable heap id f [] r s all = tt
set-AllUsable heap id f (j ∷ ids) r s (u, all) =
    (set-Usable heap id j f r s u, set-AllUsable heap id f ids r s all)

pub create_fibers-IsPool : (n : ℕ) (p : FiberPool) → IsPool p → IsPool (create_fibers n p)
unfolding create_fibers
create_fibers-IsPool zero p v = v
create_fibers-IsPool (suc n) p v = create_fibers-IsPool n _ (
    AllUsable-append (p.heap ++ new_fiber none ∷ []) p.idle_fibers (length p.heap)
      (AllUsable-heap p.heap (new_fiber none ∷ []) p.idle_fibers v)
      (new_fiber none, get_elem?-append_new p.heap (new_fiber none), refl, refl))

pub reset_eq :
    (cb : Option ℕ) (f : Fiber)
    → f.has_stack ≡ true
    → (f.state ≡ ready) ⊎ (f.state ≡ term)
    → reset cb f ≡ goes (new_fiber cb)
unfolding reset
reset_eq cb f s (inl r) = ground arith
reset_eq cb f s (inr r) = ground arith

pub on_fiber_eq :
    (id : ℕ) (call : Fiber → Run Fiber) (p : FiberPool) {f f' : Fiber}
    → get_elem? p.heap id ≡ some f
    → call f ≡ goes f'
    → on_fiber id call p ≡ goes (record p { heap = set p.heap id f' })
unfolding on_fiber
on_fiber_eq id call p e c =
    rw (e, on_fiber) (ap (λ r. r >>= λ g. goes (record p { heap = set p.heap id g })) c)

-- A usable fiber goes back to the end of the queue without a callback.
pub release_eq :
    (id : ℕ) (f : Fiber) (p : FiberPool)
    → get_elem? p.heap id ≡ some f
    → f.has_stack ≡ true
    → (f.state ≡ ready) ⊎ (f.state ≡ term)
    → release id p
      ≡ goes (record p {
        heap = set p.heap id (new_fiber none);
        idle_fibers = p.idle_fibers ++ id ∷ [];
      })
unfolding release
release_eq id f p e s r =
    ap (λ o. o >>= given_back) (on_fiber_eq id (reset none) p e (reset_eq none f s r))
  where
    given_back : FiberPool → Run FiberPool
    given_back q = goes (record q { idle_fibers = q.idle_fibers ++ id ∷ [] })

-- The fiber at the head of the queue is given out, reset to the callback.
pub take_idle_eq :
    (cb : Option ℕ) (g : FiberPool) (id : ℕ) (ids : List ℕ)
    → Usable g.heap id
    → take_idle cb g (id ∷ ids)
      ≡ goes (id, record g { heap = set g.heap id (new_fiber cb); idle_fibers = ids })
unfolding take_idle
take_idle_eq cb g id ids (f, there, r, s) =
    ap (λ o. o >>= λ q. goes (id, q))
      (on_fiber_eq id (reset cb) (record g { idle_fibers = ids }) there (reset_eq cb f s (inl r)))
