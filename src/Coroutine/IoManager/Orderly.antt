-- ===== src/Coroutine/IoManager/Orderly.antt =====
-- The operations keep the table, the count and the kernel in step, and lose no task.
use workplace.Common.{Bool, Bool-cases, List, Option, [], ap, append-nil, append_assoc, false}
use workplace.Common.{false_ne_true, get_elem?, get_elem?-lt, get_elem?-set_ne, get_elem?-set_self}
use workplace.Common.{if◌then◌else◌, inl, inr, none, not, refl, some, some_inj, sym, true, ℕ}
use workplace.Common.{ℕ_discrete, ◌++◌, ◌||◌, ◌∙◌, ◌∷◌, ◌≡◌, ◌≢◌}
use workplace.Coroutine.IoManager.{Epoll, Event, EventContext, Events, FdContext, IoManager, Op}
use workplace.Coroutine.IoManager.{Task, delete, get_event_context, has, is_none, modify, none_set}
use workplace.Coroutine.IoManager.{read, returned, task_of, write}
use workplace.Coroutine.IoManager.Operations.{and_then, trigger_if}
use workplace.Coroutine.IoManager.Sound.{Tables, events_at, events_in}
use workplace.Coroutine.IoManager.Trigger.{cleared, trigger_if-Triggered}

-- The events that the kernel has for a descriptor after a call that succeeds.
abbrev pub after_ctl : Op → Events → Events
after_ctl delete s = none_set
after_ctl _ s = s

-- What the code relies on: a call of `epoll_ctl` that succeeds changes the interest in its
-- descriptor, and nothing else.
pub record EpollLaws (K : Epoll) : Type 0 where
  pub interest : K.Kernel → ℕ → Events
  pub sets :
      (op : Op) (fd : ℕ) (s : Events) (k k' : K.Kernel)
      → K.epoll_ctl op fd s k ≡ some k'
      → interest k' fd ≡ after_ctl op s
  pub spares :
      (op : Op) (fd : ℕ) (s : Events) (k k' : K.Kernel) (j : ℕ)
      → K.epoll_ctl op fd s k ≡ some k'
      → j ≢ fd
      → interest k' j ≡ interest k j

-- The tables are in order, and the kernel is interested in exactly the registered events.
pub record IsManager {K : Epoll} (laws : EpollLaws K) (m : IoManager K) : Type 0 where
  pub tables : Tables m
  pub agrees : (fd : ℕ) → laws.interest m.kernel fd ≡ events_at m.fd_contexts fd

is_none_eq : (s : Events) → is_none s ≡ true → s ≡ none_set
is_none_eq s = of_bits s.reads s.writes
  where
    of_bits :
        (r w : Bool)
        → not (r || w) ≡ true
        → ◌≡◌ {A = Events} (record { reads = r; writes = w }) none_set
    of_bits true w e = absurd (false_ne_true e)
    of_bits false true e = absurd (false_ne_true e)
    of_bits false false e = refl

pub after_ctl-left : (s : Events) → after_ctl (if is_none s then delete else modify) s ≡ s
after_ctl-left s = elim (Bool-cases (is_none s)) [
  | inl e ↦ rw e (sym (is_none_eq s e))
  | inr e ↦ rw e refl
]

-- The tasks that a context is to run for an event.
abbrev pub to_list : Option Task → List Task
to_list none = []
to_list (some t) = t ∷ []

abbrev pub work : Bool → EventContext → List Task
work false x = []
work true x = to_list (task_of x)

abbrev pub clear_if : Bool → Event → FdContext → FdContext
clear_if false event c = c
clear_if true event c = cleared event c

module _ {K : Epoll} where
  -- A context is put in place of another, and all else stays.
  pub record Replaced (fd : ℕ) (c' : FdContext) (m m' : IoManager K) : Type 0 where
    pub tables : Tables m'
    pub here : get_elem? m'.fd_contexts fd ≡ some c'
    pub elsewhere : (j : ℕ) → j ≢ fd → get_elem? m'.fd_contexts j ≡ get_elem? m.fd_contexts j

  -- A kernel after a call that has left the events of the new context.
  pub Replaced-IsManager :
      (laws : EpollLaws K) (fd : ℕ) (c' : FdContext) (op : Op) (s : Events) (m m' : IoManager K)
      → IsManager laws m
      → Replaced fd c' m m'
      → K.epoll_ctl op fd s m.kernel ≡ some m'.kernel
      → after_ctl op s ≡ c'.events
      → IsManager laws m'
  Replaced-IsManager laws fd c' op s m m' v r call after = record {
    tables = r.tables;
    agrees = λ j. elim (ℕ_discrete j fd) [
      | yes same ↦
          ap (laws.interest m'.kernel) same
          ∙ laws.sets op fd s m.kernel m'.kernel call
          ∙ after
          ∙ ap events_in (sym r.here)
          ∙ ap (events_at m'.fd_contexts) (sym same)
      | no other ↦
          laws.spares op fd s m.kernel m'.kernel j call other
          ∙ v.agrees j
          ∙ ap events_in (sym (r.elsewhere j other))
    ];
  }

  -- One of the two triggers in `cancelAll` and `idle`.
  pub record Step (event : Event) (wanted : Bool) (fd : ℕ) (c : FdContext) (x : EventContext)
      (m : IoManager K) : Type 0 where
    pub next : IoManager K
    pub run : trigger_if wanted event fd m ≡ returned tt next
    pub replaced : Replaced fd (clear_if wanted event c) m next
    pub kernel : next.kernel ≡ m.kernel
    pub scheduled : next.tasks ≡ m.tasks ++ work wanted x

  pub step :
      (event : Event) (wanted : Bool) (fd : ℕ) (c : FdContext) (x : EventContext) (m : IoManager K)
      → Tables m
      → get_elem? m.fd_contexts fd ≡ some c
      → get_event_context event c ≡ some x
      → (wanted ≡ true → has c.events event ≡ true)
      → Step event wanted fd c x m
  unfolding trigger_if
  step event false fd c x m v e here h = record {
    next = m;
    run = rw (e, trigger_if) refl;
    replaced = record { tables = v; here = e; elsewhere = λ j other. refl };
    kernel = refl;
    scheduled = sym (append-nil m.tasks);
  }
  step event true fd c x m v e here h =
      let (m', run, t) = trigger_if-Triggered event fd c m v e (h refl) in
      let (y, found, task) = t.work in
      let same : y ≡ x = some_inj (sym found ∙ here) in
      record {
        next = m';
        run = run;
        replaced = record {
          tables = t.tables;
          here =
              ap (λ l. get_elem? l fd) t.contexts
              ∙ get_elem?-set_self m.fd_contexts fd (cleared event c)
                  (get_elem?-lt m.fd_contexts fd e);
          elsewhere = λ j other.
              ap (λ l. get_elem? l j) t.contexts
              ∙ get_elem?-set_ne m.fd_contexts (cleared event c) (λ q. other (sym q));
        };
        kernel = t.kernel;
        scheduled = t.scheduled ∙ ap (λ o. m.tasks ++ to_list o) (sym task ∙ ap task_of same);
      }

  -- Both triggers, the one for reading first.
  pub record Both (wr ww : Bool) (fd : ℕ) (c : FdContext) (m : IoManager K) : Type 0 where
    pub last : IoManager K
    pub run : and_then (trigger_if wr read fd m) (trigger_if ww write fd) ≡ returned tt last
    pub replaced : Replaced fd (clear_if ww write (clear_if wr read c)) m last
    pub kernel : last.kernel ≡ m.kernel
    pub scheduled : last.tasks ≡ m.tasks ++ (work wr c.read_context ++ work ww c.write_context)

  pub both :
      (wr ww : Bool) (fd : ℕ) (c : FdContext) (m : IoManager K)
      → Tables m
      → get_elem? m.fd_contexts fd ≡ some c
      → (wr ≡ true → c.events.reads ≡ true)
      → (ww ≡ true → c.events.writes ≡ true)
      → Both wr ww fd c m
  both wr ww fd c m v e hr hw =
      let s1 = step read wr fd c c.read_context m v e refl hr in
      let s2 =
        step write ww fd (clear_if wr read c) c.write_context s1.next s1.replaced.tables
          s1.replaced.here (write_there wr) (λ q. write_still wr ∙ hw q) in
      record {
        last = s2.next;
        run = ap (λ o. and_then o (trigger_if ww write fd)) s1.run ∙ s2.run;
        replaced = record {
          tables = s2.replaced.tables;
          here = s2.replaced.here;
          elsewhere = λ j other. s2.replaced.elsewhere j other ∙ s1.replaced.elsewhere j other;
        };
        kernel = s2.kernel ∙ s1.kernel;
        scheduled =
            s2.scheduled
            ∙ ap (λ ts. ts ++ work ww c.write_context) s1.scheduled
            ∙ append_assoc m.tasks (work wr c.read_context) (work ww c.write_context);
      }
    where
      write_there : (b : Bool) → get_event_context write (clear_if b read c) ≡ some c.write_context
      write_there true = refl
      write_there false = refl

      write_still : (b : Bool) → has (clear_if b read c).events write ≡ c.events.writes
      write_still true = refl
      write_still false = refl
