-- ===== src/Thread/Block.antt =====
-- `thread_block` and `thread_unblock` of thread/thread.c, and the clock handler of device/timer.c.
use goos.Prelude.{
  ◌∙◌, ℕ, ◌≡◌, refl, sym, ap, ◌≢◌, List, [], ◌∷◌, true, false, arith, eq→==, ok, panic, Bool-cases,
  inl, inr, ◌⊎◌,
}
use goos.Interrupt.{IntrStatus, intr_off, intr_on, intr_disable, set_intr_status}
use goos.LinkedList.Distinct.{has}
use goos.Thread.{
  Kernel, TaskStatus, task_running, task_ready, task_blocked, task_waiting, task_hanging, task_died,
  status_of, set_status, is_running, is_ready, may_block, thread_block, thread_unblock,
}
use goos.Thread.Queue.{has-cons, Distinct-cons}
use goos.Thread.Invariant.{IsSwitching, IsSched}
use goos.Thread.Schedule.{in_line, schedule-Switched, schedule-panic}

-- The kernel in which `thread_block` calls the scheduler.
abbrev pub blocking : Kernel → TaskStatus → Kernel
blocking k stat = set_status (record k { intr = intr_off }) k.current stat

pub may_block-ne :
    (stat : TaskStatus) → may_block stat ≡ true → (stat ≢ task_running) × (stat ≢ task_ready)
may_block-ne task_blocked h = (λ e. cc, λ e. cc)
may_block-ne task_waiting h = (λ e. cc, λ e. cc)
may_block-ne task_hanging h = (λ e. cc, λ e. cc)
may_block-ne task_running h = cc
may_block-ne task_ready h = cc
may_block-ne task_died h = cc

not_running : (stat : TaskStatus) → may_block stat ≡ true → is_running stat ≡ false
not_running task_running h = cc
not_running task_ready h = refl
not_running s h = refl

disabled : (i : IntrStatus) → (intr_disable i).1 ≡ intr_off
disabled intr_off = refl
disabled intr_on = refl

old_status : (i : IntrStatus) → (intr_disable i).0 ≡ i
old_status intr_off = refl
old_status intr_on = refl

pub current_out : {k : Kernel} → IsSched k → has k.current k.thread_ready_list ≡ false
current_out {k} v = elim (Bool-cases (has k.current k.thread_ready_list)) [
  | inl h ↦ cc (v.switching.ready k.current h, v.running)
  | inr h ↦ h
]

module _ {k : Kernel} (v : IsSched k) (stat : TaskStatus) (may : may_block stat ≡ true) where
  blocking-IsSwitching : IsSwitching (blocking k stat)
  blocking-IsSwitching = record {
    alone = λ t h. ground (arith, v.switching.alone t);
    ready = λ t h. ground (arith, v.switching.ready t, current_out v);
    queued = λ t h r. ground (arith, v.switching.queued t, (may_block-ne stat may).1);
    known = v.switching.known;
    current_known = v.switching.current_known;
    distinct = v.switching.distinct;
    no_null = v.switching.no_null;
  }

  blocking_status : status_of (blocking k stat) k.current ≡ stat
  blocking_status = ground arith

  in_line_of_blocking : in_line (blocking k stat) ≡ k.thread_ready_list
  in_line_of_blocking = ground (arith, not_running stat may)

-- What `thread_block` has done when the processor has gone to `x`: the task that called it has the
-- status that it asked for and is in no queue of the scheduler.
pub record Blocked (k : Kernel) (stat : TaskStatus) (x : ℕ) (xs : List ℕ) (k' : Kernel)
    : Type 0 where
  pub sched : IsSched k'
  pub current : k'.current ≡ x
  pub ready : k'.thread_ready_list ≡ xs
  pub all : k'.thread_all_list ≡ k.thread_all_list
  pub off : k'.intr ≡ intr_off
  pub status : status_of k' k.current ≡ stat
  pub others : (t : ℕ) → t ≢ k.current → t ≢ x → k'.tasks t ≡ k.tasks t

module _ (v2p : ℕ → ℕ) {k : Kernel} (v : IsSched k) where
  -- `thread_block` with one of the three blocking states gives the processor to the first ready
  -- task and leaves its caller in that state.
  pub thread_block-Blocked :
      (stat : TaskStatus) (x : ℕ) (xs : List ℕ)
      → may_block stat ≡ true
      → k.thread_ready_list ≡ x ∷ xs
      → (k' : Kernel) × (thread_block v2p k stat ≡ ok (k.intr, k')) × Blocked k stat x xs k'
  unfolding thread_block
  thread_block-Blocked stat x xs may line =
      let (k', e, w) =
        schedule-Switched v2p (blocking-IsSwitching v stat may) refl x xs
          (in_line_of_blocking v stat may ∙ line) in
      let far : k.current ≢ x =
        λ q. cc (q, line, current_out v, has-cons x x xs, eq→== {a = x} refl) in
      (
        k',
        rw (may, disabled k.intr, old_status k.intr) (rw e),
        record {
          sched = w.sched;
          current = w.current;
          ready = w.ready;
          all = w.all;
          off = w.intr;
          status =
              ap (λ task. task.status)
                (w.blocked (λ q. (may_block-ne stat may).0 (sym (blocking_status v stat may) ∙ q))
                  far)
              ∙ blocking_status v stat may;
          others = λ t a b. w.others t a b ∙ ground arith;
        },
      )

  -- `thread_block` stops at an assertion if no task is ready, or if the state is none of the three.
  pub thread_block-panic :
      (stat : TaskStatus)
      → (may_block stat ≡ false) ⊎ (k.thread_ready_list ≡ [])
      → thread_block v2p k stat ≡ panic
  unfolding thread_block
  thread_block-panic stat (inl no_stat) = rw no_stat
  thread_block-panic stat (inr none) = elim (Bool-cases (may_block stat)) [
    | inl may ↦
        rw (may, disabled k.intr)
          (rw (
            schedule-panic v2p (blocking-IsSwitching v stat may) refl
              (in_line_of_blocking v stat may ∙ none)))
    | inr no_stat ↦ rw no_stat
  ]

-- What `thread_unblock` has done: the task is READY and first in the ready list.
pub record Unblocked (k : Kernel) (t : ℕ) (k' : Kernel) : Type 0 where
  pub sched : IsSched k'
  pub ready : k'.thread_ready_list ≡ t ∷ k.thread_ready_list
  pub status : status_of k' t ≡ task_ready
  pub current : k'.current ≡ k.current
  pub all : k'.thread_all_list ≡ k.thread_all_list
  pub intr : k'.intr ≡ k.intr
  pub others : (u : ℕ) → u ≢ t → k'.tasks u ≡ k.tasks u

module _ {k : Kernel} (v : IsSched k) (t : ℕ) where
  abbrev woken : Kernel
  woken = set_status (record k { thread_ready_list = t ∷ k.thread_ready_list }) t task_ready

  blocked_not_ready : may_block (status_of k t) ≡ true → has t k.thread_ready_list ≡ false
  blocked_not_ready may = elim (Bool-cases (has t k.thread_ready_list)) [
    | inl h ↦ absurd ((may_block-ne _ may).1 (v.switching.ready t h))
    | inr h ↦ h
  ]

  blocked_is_ready : (s : TaskStatus) → may_block s ≡ true → is_ready s ≡ false
  blocked_is_ready task_ready may = cc
  blocked_is_ready s may = refl

  restored : (i : IntrStatus) → (set_intr_status (intr_disable i).0 (intr_disable i).1).1 ≡ i
  restored intr_off = refl
  restored intr_on = refl

  unblocked_ne : may_block (status_of k t) ≡ true → t ≢ k.current
  unblocked_ne may e = (may_block-ne _ may).0 (ap (status_of k) e ∙ v.running)

  woken-IsSched : has t k.thread_all_list ≡ true → may_block (status_of k t) ≡ true → IsSched woken
  woken-IsSched known may = record {
    running = ground (arith, v.running, λ (e : t ≡ k.current). unblocked_ne may e);
    switching = record {
      alone = λ u h. ground (arith, v.switching.alone u);
      ready = λ u h. ground (arith, v.switching.ready u, has-cons u t k.thread_ready_list);
      queued = λ u h r. ground (arith, v.switching.queued u, has-cons u t k.thread_ready_list);
      known = λ u h. ground (arith, v.switching.known u, has-cons u t k.thread_ready_list);
      current_known = v.switching.current_known;
      distinct = Distinct-cons t k.thread_ready_list (blocked_not_ready may) v.switching.distinct;
      no_null = v.switching.no_null;
    };
  }

  -- `thread_unblock` puts a blocked task at the head of the ready list.
  pub thread_unblock-Unblocked :
      has t k.thread_all_list ≡ true
      → may_block (status_of k t) ≡ true
      → (k' : Kernel) × (thread_unblock k t ≡ ok k') × Unblocked k t k'
  unfolding thread_unblock
  thread_unblock-Unblocked known may = (
    woken,
    rw (may, blocked_is_ready _ may, blocked_not_ready may) (rw (restored k.intr)),
    record {
      sched = woken-IsSched known may;
      ready = refl;
      status = ground arith;
      current = refl;
      all = refl;
      intr = refl;
      others = λ u ne. ground arith;
    },
  )

  -- A task that is not blocked stops it at its assertion.
  pub thread_unblock-panic : may_block (status_of k t) ≡ false → thread_unblock k t ≡ panic
  unfolding thread_unblock
  thread_unblock-panic h = rw h
