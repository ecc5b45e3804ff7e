-- ===== src/Coroutine/FiberPool/Acquire.antt =====
-- What `acquire` gives out, and how a pool grows.
use workplace.Common.{List, Option, [], ap, append-nil, append_assoc, arith, get_elem?}
use workplace.Common.{get_elem?-append_left, get_elem?-lt, get_elem?-set_ne, get_elem?-set_self}
use workplace.Common.{get_elem?_total, inl, inr, length, length-append, none, refl, set, some}
use workplace.Common.{subst, suc, sym, zero, ℕ, ◌*◌, ◌++◌, ◌+◌, ◌-◌, ◌/◌, ◌<◌, ◌↔◌, ◌∙◌, ◌∷◌, ◌≡◌}
use workplace.Common.{◌≢◌, ◌⊎◌}
use workplace.Coroutine.Fiber.{goes, new_fiber, undefined}
use workplace.Coroutine.FiberPool.{FiberPool, acquire, create_fibers, grow_if, grown, take_idle}
use workplace.Coroutine.FiberPool.Idle.{AllUsable, IsPool, create_fibers-IsPool, set-AllUsable}
use workplace.Coroutine.FiberPool.Idle.{take_idle_eq}

length-create_fibers :
    (n : ℕ) (p : FiberPool)
    → (length (create_fibers n p).all_fibers ≡ length p.all_fibers + n)
      × (length (create_fibers n p).idle_fibers ≡ length p.idle_fibers + n)
unfolding create_fibers
length-create_fibers zero p = (omega arith, omega arith)
length-create_fibers (suc n) p =
    let (every, idle) = length-create_fibers n (record p {
      heap = p.heap ++ new_fiber none ∷ [];
      idle_fibers = p.idle_fibers ++ length p.heap ∷ [];
      all_fibers = p.all_fibers ++ length p.heap ∷ [];
    }) in
    (
      omega (arith, every, length-append p.all_fibers (length p.heap ∷ [])),
      omega (arith, idle, length-append p.idle_fibers (length p.heap ∷ [])),
    )

-- So many places from a place on.
abbrev pub places : ℕ → ℕ → List ℕ
places a zero = []
places a (suc n) = a ∷ places (suc a) n

-- New fibers take the next places of the heap and the end of the queue; the old ones stay.
create_fibers-places :
    (n : ℕ) (p : FiberPool)
    → ((create_fibers n p).idle_fibers ≡ p.idle_fibers ++ places (length p.heap) n)
      × ((j : ℕ) → j < length p.heap → get_elem? (create_fibers n p).heap j ≡ get_elem? p.heap j)
unfolding create_fibers
create_fibers-places zero p = (sym (append-nil p.idle_fibers), λ j h. refl)
create_fibers-places (suc n) p =
    let p1 : FiberPool = record p {
      heap = p.heap ++ new_fiber none ∷ [];
      idle_fibers = p.idle_fibers ++ length p.heap ∷ [];
      all_fibers = p.all_fibers ++ length p.heap ∷ [];
    } in
    let size : length p1.heap ≡ suc (length p.heap) =
      omega (arith, length-append p.heap (new_fiber none ∷ [])) in
    let (idle, old) = create_fibers-places n p1 in
    (
      idle
          ∙ ap (λ a. p1.idle_fibers ++ places a n) size
          ∙ append_assoc p.idle_fibers (length p.heap ∷ []) (places (suc (length p.heap)) n),
      λ j h.
          let (f, e) = get_elem?_total p.heap j h in
          old j (omega (arith, size, h))
          ∙ get_elem?-append_left p.heap (new_fiber none ∷ []) j e
          ∙ sym e,
    )

list-cases : (l : List ℕ) → (l ≡ []) ⊎ ((id : ℕ) × (ids : List ℕ) × (l ≡ id ∷ ids))
list-cases [] = inl refl
list-cases (id ∷ ids) = inr (id, ids, refl)

grown-IsPool : (p : FiberPool) → IsPool p → IsPool (grown p)
grown-IsPool p v = elim (list-cases p.idle_fibers) [
  | inl e ↦ subst IsPool (ap (λ l. grow_if l p) (sym e)) (create_fibers-IsPool _ p v)
  | inr (id, ids, e) ↦ subst IsPool (ap (λ l. grow_if l p) (sym e)) v
]

length-nil : (l : List ℕ) → length l ≡ 0 → l ≡ []
length-nil [] e = refl
length-nil (a ∷ l) e = absurd (cc)

cons_ne_nil : {id : ℕ} {ids : List ℕ} → ¬ (id ∷ ids ≡ [])
cons_ne_nil q = cc

grown-nil_iff :
    (p : FiberPool)
    → ((grown p).idle_fibers ≡ []) ↔ (p.idle_fibers ≡ []) × (length p.all_fibers < 2)
grown-nil_iff p = elim (list-cases p.idle_fibers) [
  | inl e ↦
      let n = length p.all_fibers * 3 / 2 - length p.all_fibers in
      let grows : grown p ≡ create_fibers n p = ap (λ l. grow_if l p) e in
      let size = (length-create_fibers n p).1 in
      let none_idle = ap length e in
      let fibers = ap (λ q. length q.idle_fibers) grows in
      (
        λ q. let empty = ap length q in (e, omega (arith, size, none_idle, fibers, empty)),
        λ (q, few). length-nil (grown p).idle_fibers (omega (arith, size, none_idle, fibers, few)),
      )
  | inr (id, ids, e) ↦
      let stays : grown p ≡ p = ap (λ l. grow_if l p) e in
      (
        λ q. absurd (cons_ne_nil (sym e ∙ ap (λ r. r.idle_fibers) (sym stays) ∙ q)),
        λ (q, few). absurd (cons_ne_nil (sym e ∙ q)),
      )
]

half_more : (n : ℕ) → n * 3 / 2 - n ≡ n / 2
half_more n = omega arith

-- The queue from which `acquire` takes: the idle fibers, or as many new ones as half of all.
grown-idle :
    (p : FiberPool)
    → (((grown p).idle_fibers ≡ p.idle_fibers)
        ⊎ ((p.idle_fibers ≡ [])
            × ((grown p).idle_fibers ≡ places (length p.heap) (length p.all_fibers / 2))))
      × ((j : ℕ) → j < length p.heap → get_elem? (grown p).heap j ≡ get_elem? p.heap j)
grown-idle p = elim (list-cases p.idle_fibers) [
  | inl e ↦
      let grows = ap (λ l. grow_if l p) e in
      let n = length p.all_fibers * 3 / 2 - length p.all_fibers in
      let (idle, old) = create_fibers-places n p in
      (
        inr (
          e,
          ap (λ q. q.idle_fibers) grows
              ∙ idle
              ∙ ap (λ l. l ++ places (length p.heap) n) e
              ∙ ap (places (length p.heap)) (half_more (length p.all_fibers)),
        ),
        λ j h. ap (λ q. get_elem? q.heap j) grows ∙ old j h,
      )
  | inr (id, ids, e) ↦
      let stays = ap (λ l. grow_if l p) e in
      (inl (ap (λ q. q.idle_fibers) stays), λ j h. ap (λ q. get_elem? q.heap j) stays)
]

-- What `acquire` makes of the idle fibers.
taken_lem :
    (cb : Option ℕ) (g : FiberPool) (idle : List ℕ)
    → AllUsable g.heap idle
    → ((idle ≡ []) × (take_idle cb g idle ≡ undefined))
      ⊎ ((id : ℕ) × (p' : FiberPool) × (take_idle cb g idle ≡ goes (id, p'))
          × (get_elem? p'.heap id ≡ some (new_fiber cb))
          × IsPool p'
          × (idle ≡ id ∷ p'.idle_fibers)
          × ((j : ℕ) → j ≢ id → get_elem? p'.heap j ≡ get_elem? g.heap j))
unfolding take_idle
taken_lem cb g [] all = inl (refl, refl)
taken_lem cb g (id ∷ ids) (u, all) = inr (
  id,
  record g { heap = set g.heap id (new_fiber cb); idle_fibers = ids },
  take_idle_eq cb g id ids u,
  get_elem?-set_self g.heap id (new_fiber cb) (get_elem?-lt g.heap id u.1),
  set-AllUsable g.heap id (new_fiber cb) ids refl refl all,
  refl,
  λ j other. get_elem?-set_ne g.heap (new_fiber cb) (λ e. other (sym e)),
)

-- `acquire` on a pool whose idle fibers are usable ends without a defined result exactly when no
-- fiber is idle and the pool has fewer than two fibers, since it then grows by none. Otherwise it
-- gives out the first of the idle fibers, or, when none is idle, the first of as many new ones as
-- half of all. That fiber is ready to run the callback and is taken out of the queue, the others stay
-- there in their order and are usable, and no other fiber that was there changes.
pub acquire_lem :
    (cb : Option ℕ) (p : FiberPool)
    → IsPool p
    → ((acquire cb p ≡ undefined) ↔ (p.idle_fibers ≡ []) × (length p.all_fibers < 2))
      × ((acquire cb p ≡ undefined)
          ⊎ ((id : ℕ) × (p' : FiberPool) × (acquire cb p ≡ goes (id, p'))
              × (get_elem? p'.heap id ≡ some (new_fiber cb))
              × IsPool p'
              × ((p.idle_fibers ≡ id ∷ p'.idle_fibers)
                  ⊎ ((p.idle_fibers ≡ [])
                      × (id ∷ p'.idle_fibers ≡ places (length p.heap) (length p.all_fibers / 2))))
              × ((j : ℕ) → j < length p.heap → j ≢ id → get_elem? p'.heap j ≡ get_elem? p.heap j)))
unfolding acquire
acquire_lem cb p v =
    let g = grown p in
    let (queue, old) = grown-idle p in
    elim (taken_lem cb g g.idle_fibers (grown-IsPool p v)) [
      | inl (e, u) ↦ ((λ q. (grown-nil_iff p).0 e, λ q. u), inl u)
      | inr (id, p', e, there, pool, first, spared) ↦ (
        (λ q. absurd (cc), λ q. absurd (cons_ne_nil (sym first ∙ (grown-nil_iff p).1 q))),
        inr (
          id,
          p',
          e,
          there,
          pool,
          elim queue [
            | inl same ↦ inl (sym same ∙ first)
            | inr (empty, new) ↦ inr (empty, sym first ∙ new)
          ],
          λ j h other. spared j other ∙ old j h,
        ),
      )
    ]
