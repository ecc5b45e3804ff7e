-- ===== src/Coroutine/IoManager/Sound.antt =====
-- The table of descriptors: what every context holds, and the count of pending events.
use workplace.Common.{Bool, Bool-cases, List, Option, [], ap, arith, false, get_elem?, get_elem?-lt}
use workplace.Common.{get_elem?-set_ne, get_elem?-set_self, inl, inr, length, ltb, none, refl, set}
use workplace.Common.{some, some_inj, subst, suc, sym, true, zero, ℕ, ℕ_discrete, ◌%◌, ◌*◌, ◌+◌}
use workplace.Common.{◌<◌, ◌∙◌, ◌∷◌, ◌≡◌, ◌≤◌}
use workplace.Coroutine.IoManager.{Epoll, EventContext, Events, FdContext, IoManager, Task}
use workplace.Coroutine.IoManager.{context_resize, in_table, find_context, no_context, none_set}
use workplace.Coroutine.IoManager.{task_of}

-- An event that is registered has a scheduler and a task, and one that is not has an empty context.
abbrev pub Matches : Bool → EventContext → Type 0
Matches true x = (x.scheduler ≡ true) × (t : Task) × (task_of x ≡ some t)
Matches false x = x ≡ no_context

abbrev pub Sound : FdContext → Type 0
Sound c = Matches c.events.reads c.read_context × Matches c.events.writes c.write_context

abbrev pub bit : Bool → ℕ
bit true = 1
bit false = 0

abbrev pub bits : Events → ℕ
bits s = bit s.reads + bit s.writes

unfoldable pub registered : List FdContext → ℕ
registered [] = 0
registered (c ∷ l) = bits c.events + registered l

bits-le : (s : Events) → bits s ≤ 2
bits-le s = ground arith

pub registered-le : (l : List FdContext) → registered l ≤ 2 * length l
unfolding registered
registered-le [] = omega arith
registered-le (c ∷ l) = omega (arith, registered-le l, bits-le c.events)

pub registered-set :
    (l : List FdContext) (fd : ℕ) (c c' : FdContext)
    → get_elem? l fd ≡ some c
    → registered (set l fd c') + bits c.events ≡ registered l + bits c'.events
unfolding registered
registered-set [] fd c c' e = absurd (cc)
registered-set (d ∷ l) zero c c' e = ground (arith, some_inj e)
registered-set (d ∷ l) (suc fd) c c' e = omega (arith, registered-set l fd c c' e)

pub registered-context_resize :
    (n : ℕ) (l : List FdContext) → length l ≤ n → registered (context_resize n l) ≡ registered l
unfolding registered context_resize
registered-context_resize zero [] h = refl
registered-context_resize zero (c ∷ l) h = absurd (omega arith)
registered-context_resize (suc n) [] h =
    ap (λ r. 0 + r) (registered-context_resize n [] (omega arith))
registered-context_resize (suc n) (c ∷ l) h =
    ap (λ r. bits c.events + r) (registered-context_resize n l (omega arith))

pub length-context_resize : (n : ℕ) (l : List FdContext) → length (context_resize n l) ≡ n
unfolding context_resize
length-context_resize zero l = refl
length-context_resize (suc n) [] = ap suc (length-context_resize n [])
length-context_resize (suc n) (c ∷ l) = ap suc (length-context_resize n l)

-- The events at a place; there are none past the table.
abbrev pub events_in : Option FdContext → Events
events_in none = none_set
events_in (some c) = c.events

abbrev pub events_at : List FdContext → ℕ → Events
events_at l fd = events_in (get_elem? l fd)

pub events_at-context_resize :
    (n : ℕ) (l : List FdContext) (fd : ℕ)
    → length l ≤ n
    → events_at (context_resize n l) fd ≡ events_at l fd
unfolding context_resize
events_at-context_resize zero [] fd h = refl
events_at-context_resize zero (c ∷ l) fd h = absurd (omega arith)
events_at-context_resize (suc n) [] zero h = refl
events_at-context_resize (suc n) [] (suc fd) h = events_at-context_resize n [] fd (omega arith)
events_at-context_resize (suc n) (c ∷ l) zero h = refl
events_at-context_resize (suc n) (c ∷ l) (suc fd) h = events_at-context_resize n l fd (omega arith)

abbrev pub AllSound : List FdContext → Type 0
AllSound l = (fd : ℕ) (c : FdContext) → get_elem? l fd ≡ some c → Sound c

pub context_resize-AllSound :
    (n : ℕ) (l : List FdContext) → AllSound l → AllSound (context_resize n l)
unfolding context_resize
context_resize-AllSound zero l all fd c e = absurd (cc)
context_resize-AllSound (suc n) [] all zero c e = subst Sound (some_inj e) (refl, refl)
context_resize-AllSound (suc n) [] all (suc fd) c e =
    context_resize-AllSound n [] (λ i d h. absurd (cc)) fd c e
context_resize-AllSound (suc n) (d ∷ l) all zero c e = all zero c e
context_resize-AllSound (suc n) (d ∷ l) all (suc fd) c e =
    context_resize-AllSound n l (λ i. all (suc i)) fd c e

pub set-AllSound :
    (l : List FdContext) (fd : ℕ) (c c' : FdContext)
    → get_elem? l fd ≡ some c
    → Sound c'
    → AllSound l
    → AllSound (set l fd c')
set-AllSound l fd c c' e s all j d h = elim (ℕ_discrete fd j) [
  | yes same ↦
      subst Sound
        (some_inj (
          sym (get_elem?-set_self l fd c' (get_elem?-lt l fd e))
          ∙ ap (get_elem? (set l fd c')) same
          ∙ h))
        s
  | no other ↦ all j d (sym (get_elem?-set_ne l c' other) ∙ h)
]

-- The part of the manager's order that is about its own fields. The table never has fewer than the
-- 32 contexts of the constructor, and its size fits an `int`.
pub record Tables {K : Epoll} (m : IoManager K) : Type 0 where
  pub roomy : 32 ≤ length m.fd_contexts
  pub small : length m.fd_contexts < 2147483648
  pub sound : AllSound m.fd_contexts
  pub counted : m.pending_event_count ≡ registered m.fd_contexts

get_elem?-past : (l : List FdContext) (fd : ℕ) → length l ≤ fd → get_elem? l fd ≡ none
get_elem?-past [] fd h = refl
get_elem?-past (c ∷ l) zero h = absurd (omega arith)
get_elem?-past (c ∷ l) (suc fd) h = get_elem?-past l fd (omega arith)

-- In a table whose size fits an `int`, the test of an operation is whether the place is there.
pub in_table_eq :
    (fd : ℕ) (l : List FdContext) → length l < 2147483648 → in_table fd l ≡ ltb fd (length l)
in_table_eq fd l h =
    let size : length l % 4294967296 ≡ length l = omega (arith, h) in rw size (ground (arith, h))

pub find_context_eq :
    (fd : ℕ) (l : List FdContext) → length l < 2147483648 → find_context fd l ≡ get_elem? l fd
unfolding find_context
find_context_eq fd l h = elim (Bool-cases (ltb fd (length l))) [
  | inl e ↦ rw (in_table_eq fd l h ∙ e) refl
  | inr e ↦ rw (in_table_eq fd l h ∙ e) (sym (get_elem?-past l fd (ground arith)))
]
