-- ===== src/Coroutine/Fiber.antt =====
-- `Fiber`: co-pro/corotinue-fiber-pool, fiber.h and fiber.cpp. A switch of contexts is a return to
-- the code that resumed the fiber; the contexts of the C library are left out.
use workplace.Common.{Bool, Bool-cases, Option, arith, false, if◌then◌else◌, inl, inr, none, not}
use workplace.Common.{refl, some, true, ℕ, ◌&&◌, ◌||◌, ◌≡◌, ◌⊎◌}

pub data State : Type 0 where
  ready running suspended term : State

-- A fiber with its stack, or the main fiber, which has none; a callback is a number.
pub record Fiber : Type 0 where
  pub state : State
  pub cb : Option ℕ
  pub has_stack : Bool

-- How the code of the library ends: it goes on, an assertion fails, a null callback is called, or it
-- has no defined behaviour.
pub data Run (A : Type 0) : Type 0 where
  goes : A → Run A
  asserted bad_function_call undefined : Run A

infixl 5 ◌>>=◌
abbrev pub ◌>>=◌ : {A B : Type 0} → Run A → (A → Run B) → Run B
goes a >>= f = f a
asserted >>= f = asserted
bad_function_call >>= f = bad_function_call
undefined >>= f = undefined

abbrev pub state_eq : State → State → Bool
state_eq ready ready = true
state_eq running running = true
state_eq suspended suspended = true
state_eq term term = true
state_eq _ _ = false

abbrev pub assert : Bool → Run Unit
assert true = goes tt
assert false = asserted

-- The constructor with a callback.
abbrev pub new_fiber : Option ℕ → Fiber
new_fiber cb = record { state = ready; cb = cb; has_stack = true }

unfoldable pub reset : Option ℕ → Fiber → Run Fiber
reset cb f = do
  _ ← assert (f.has_stack && (state_eq f.state term || state_eq f.state ready))
  goes (record f { state = ready; cb = cb })

-- `yield`, up to the switch.
unfoldable pub yield : Fiber → Run Fiber
yield f = do
  _ ← assert (state_eq f.state running || state_eq f.state term)
  goes (if not (state_eq f.state term) then record f { state = ready } else f)

unfoldable pub suspend : Fiber → Run Fiber
unfolding yield
suspend f = do _ ← assert (state_eq f.state running); yield (record f { state = suspended })

-- What the callback does from one resume to the next switch: it ends, or calls `yield` or `suspend`.
pub data Segment : Type 0 where
  finishes yields suspends : Segment

-- The end of `MainFunc`, behind the call of the callback.
abbrev pub main_end : Fiber → Run Fiber
main_end f = yield (record f { cb = none; state = term })

-- A fiber that was reset or made starts with the call of its callback; the callback is what runs in
-- every segment.
unfoldable pub run_segment : Segment → Fiber → Run Fiber
unfolding yield suspend
run_segment segment f = elim f.cb [
  | none ↦ bad_function_call
  | some cb ↦ elim segment [ finishes ↦ main_end f | yields ↦ yield f | suspends ↦ suspend f ]
]

-- `resume`, up to the return of the switch.
unfoldable pub resume : Segment → Fiber → Run Fiber
unfolding run_segment
resume segment f = do
  _ ← assert (state_eq f.state ready)
  run_segment segment (record f { state = running })

-- `suspend` never returns to the scheduler: it sets the state to `SUSPEND`, and the assertion of
-- `yield` wants `RUNNING` or `TERM`.
pub suspend_lem : (f : Fiber) → suspend f ≡ asserted
unfolding suspend yield
suspend_lem f = elim (Bool-cases (state_eq f.state running)) [
  | inl e ↦ rw e refl
  | inr e ↦ rw e refl
]

-- A fiber that a resume leaves is ready or ended, and never suspended.
pub resume-state :
    (segment : Segment) (f f' : Fiber)
    → resume segment f ≡ goes f'
    → (f'.state ≡ ready) ⊎ (f'.state ≡ term)
unfolding resume run_segment suspend yield
resume-state finishes f f' e = ground arith
resume-state yields f f' e = ground arith
resume-state suspends f f' e = ground arith
