-- ===== src/Coroutine/IoManager/Trigger.antt =====
-- Triggering an event that is registered.
use workplace.Common.{Bool-cases, [], ap, arith, false_ne_true, get_elem?, inl, inr, length}
use workplace.Common.{length-set, refl, set, some, subst, sym, true, ℕ, ◌++◌, ◌+◌, ◌==◌, ◌∙◌, ◌∷◌}
use workplace.Common.{◌≡◌}
use workplace.Coroutine.IoManager.{Epoll, Event, EventContext, Events, FdContext, IoManager, Task}
use workplace.Coroutine.IoManager.{count_down, get_event_context, has, no_context, no_event}
use workplace.Coroutine.IoManager.{no_tasks, put_context, read, returned, schedule_lock}
use workplace.Coroutine.IoManager.{set_event_context, task_of, without_event, write}
use workplace.Coroutine.IoManager.Operations.{counted_down, trigger_event, trigger_if}
use workplace.Coroutine.IoManager.Sound.{AllSound, Matches, Sound, Tables, bits, registered}
use workplace.Coroutine.IoManager.Sound.{registered-le, registered-set, set-AllSound}

-- A context without an event.
abbrev pub cleared : Event → FdContext → FdContext
cleared event c =
    set_event_context event no_context (record c { events = without_event c.events event })

pub cleared-Sound : (event : Event) (c : FdContext) → Sound c → Sound (cleared event c)
cleared-Sound no_event c s = s
cleared-Sound read c (r, w) = (refl, w)
cleared-Sound write c (r, w) = (r, refl)

pub cleared-events :
    (event : Event) (c : FdContext) → (cleared event c).events ≡ without_event c.events event
cleared-events no_event c = refl
cleared-events read c = refl
cleared-events write c = refl

-- The task of a registered event.
pub work_of :
    (event : Event) (c : FdContext)
    → Sound c
    → has c.events event ≡ true
    → (x : EventContext) × (t : Task) × (get_event_context event c ≡ some x)
      × (x.scheduler ≡ true)
      × (task_of x ≡ some t)
work_of no_event c s h = absurd (false_ne_true h)
work_of read c (r, w) h =
    let (set_up, t, e) = subst (λ b. Matches b c.read_context) h r in
    (c.read_context, t, refl, set_up, e)
work_of write c (r, w) h =
    let (set_up, t, e) = subst (λ b. Matches b c.write_context) h w in
    (c.write_context, t, refl, set_up, e)

get_event_context-left :
    (event : Event) (c : FdContext) (s : Events)
    → get_event_context event (record c { events = s }) ≡ get_event_context event c
get_event_context-left no_event c s = refl
get_event_context-left read c s = refl
get_event_context-left write c s = refl

pub bits-without :
    (event : Event) (s : Events) → has s event ≡ true → bits s ≡ bits (without_event s event) + 1
bits-without no_event s h = absurd (false_ne_true h)
bits-without read s h = ground arith
bits-without write s h = ground arith

module _ {K : Epoll} where
  -- Scheduling adds the task at the end and leaves the table and the kernel.
  pub schedule_lock-parts :
      (t : Task) (m : IoManager K)
      → let m' = schedule_lock (some t) m in
        (m'.tasks ≡ m.tasks ++ t ∷ [])
        × (m'.fd_contexts ≡ m.fd_contexts)
        × (m'.pending_event_count ≡ m.pending_event_count)
        × (m'.kernel ≡ m.kernel)
  unfolding schedule_lock
  schedule_lock-parts t m = elim (Bool-cases (no_tasks m.tasks)) [
    | inr e ↦ rw e (refl, refl, refl, refl)
    | inl e ↦ elim (Bool-cases (m.idle_thread_count == 0)) [
      | inl d ↦ rw (e, d) (refl, refl, refl, refl)
      | inr d ↦ rw (e, d) (refl, refl, refl, refl)
    ]
  ]

  pub trigger_event_eq :
      (event : Event) (fd : ℕ) (c : FdContext) (m : IoManager K) {x : EventContext}
      → has c.events event ≡ true
      → get_event_context event c ≡ some x
      → x.scheduler ≡ true
      → trigger_event event fd c m
        ≡ returned tt (schedule_lock (task_of x) (put_context fd (cleared event c) m))
  unfolding trigger_event
  trigger_event_eq event fd c m {x} h e s =
      rw (h, get_event_context-left event c (without_event c.events event) ∙ e, s, trigger_event)
        refl

  -- What triggering an event leaves behind.
  pub record Triggered (event : Event) (fd : ℕ) (c : FdContext) (m m' : IoManager K) : Type 0 where
    pub tables : Tables m'
    pub kernel : m'.kernel ≡ m.kernel
    pub contexts : m'.fd_contexts ≡ set m.fd_contexts fd (cleared event c)
    pub task : Task
    pub work : (x : EventContext) × (get_event_context event c ≡ some x) × (task_of x ≡ some task)
    pub scheduled : m'.tasks ≡ m.tasks ++ task ∷ []

  pub count_down_lem :
      (fd : ℕ) (c : FdContext) (event : Event) (m : IoManager K)
      → Tables m
      → get_elem? m.fd_contexts fd ≡ some c
      → has c.events event ≡ true
      → count_down m.pending_event_count ≡ registered (set m.fd_contexts fd (cleared event c))
  count_down_lem fd c event m v e h =
      let same = ap bits (cleared-events event c) in
      omega (
        arith,
        v.counted,
        v.small,
        registered-le m.fd_contexts,
        registered-set m.fd_contexts fd c (cleared event c) e,
        bits-without event c.events h,
        same,
      )

  pub put_context-Tables :
      (fd : ℕ) (c c' : FdContext) (m m' : IoManager K)
      → Tables m
      → get_elem? m.fd_contexts fd ≡ some c
      → Sound c'
      → m'.fd_contexts ≡ set m.fd_contexts fd c'
      → m'.pending_event_count ≡ registered (set m.fd_contexts fd c')
      → Tables m'
  put_context-Tables fd c c' m m' v e s same count =
      let n : length m'.fd_contexts ≡ length m.fd_contexts =
        ap length same ∙ length-set m.fd_contexts fd c' in
      record {
        roomy = rw n v.roomy;
        small = rw n v.small;
        sound = subst AllSound (sym same) (set-AllSound m.fd_contexts fd c c' e s v.sound);
        counted = count ∙ ap registered (sym same);
      }

  pub kernel-Tables : (k : K.Kernel) (m : IoManager K) → Tables m → Tables (record m { kernel = k })
  kernel-Tables k m v = record {
    roomy = v.roomy;
    small = v.small;
    sound = v.sound;
    counted = v.counted;
  }

  pub trigger_if-Triggered :
      (event : Event) (fd : ℕ) (c : FdContext) (m : IoManager K)
      → Tables m
      → get_elem? m.fd_contexts fd ≡ some c
      → has c.events event ≡ true
      → (m' : IoManager K) × (trigger_if true event fd m ≡ returned tt m')
        × Triggered event fd c m m'
  unfolding trigger_if
  trigger_if-Triggered event fd c m v e h =
      let (x, t, here, ready, work) = work_of event c (v.sound fd c e) h in
      let m1 = schedule_lock (some t) (put_context fd (cleared event c) m) in
      let parts = schedule_lock-parts t (put_context fd (cleared event c) m) in
      let m' = record m1 { pending_event_count = count_down m1.pending_event_count } in
      let run : trigger_event event fd c m ≡ returned tt m1 =
        trigger_event_eq event fd c m h here ready
        ∙ ap (λ o. returned tt (schedule_lock o (put_context fd (cleared event c) m))) work in
      (
        m',
        rw (e, trigger_if) (ap counted_down run),
        record {
          tables =
              put_context-Tables fd c (cleared event c) m m' v e
                (cleared-Sound event c (v.sound fd c e)) parts.1
                (ap (λ n. count_down n) parts.2 ∙ count_down_lem fd c event m v e h);
          kernel = parts.3;
          contexts = parts.1;
          task = t;
          work = (x, here, work);
          scheduled = parts.0;
        },
      )
