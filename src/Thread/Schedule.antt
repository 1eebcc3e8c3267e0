-- ===== src/Thread/Schedule.antt =====
-- `schedule` of thread/thread.c is round robin and keeps the scheduler's invariant.
use goos.Prelude.{
  ℕ, ◌≡◌, refl, ◌≢◌, List, [], ◌∷◌, ◌++◌, true, false, ◌||◌, arith, ◌==◌, ne→==, eq→==, ok, panic,
  if◌then◌else◌, add32, ℕ_discrete, Bool-cases, inl, inr, not,
}
use goos.Interrupt.{is_on, intr_off}
use goos.LinkedList.Chain.{Distinct}
use goos.LinkedList.Distinct.{has}
use goos.Thread.{
  Kernel, TaskStatus, task_running, task_ready, status_of, set_status, is_running, put, pg_size,
  page_dir_activate, process_activate, requeue, dispatch, schedule,
}
use goos.Thread.Queue.{has-cons, has-snoc, Distinct-snoc, head_not_in_rest}
use goos.Thread.Invariant.{IsSwitching, IsSched}

is_running_iff : (s : TaskStatus) → (is_running s ≡ true) → s ≡ task_running
is_running_iff task_running h = refl
is_running_iff s h = cc

-- The task that had the processor, put back in line with a fresh time slice.
abbrev requeued : Kernel → Kernel
requeued k = record k {
  thread_ready_list = k.thread_ready_list ++ (k.current ∷ []);
  tasks =
      put k.tasks k.current
        (record (k.tasks k.current) { ticks = (k.tasks k.current).priority; status = task_ready });
}

-- After the first half no task has the status RUNNING.
record IsIdle (k : Kernel) : Type 0 where
  switching : IsSwitching k
  none_running : (t : ℕ) → status_of k t ≢ task_running

module _ {k : Kernel} (v : IsSwitching k) where
  current_not_ready :
      status_of k k.current ≡ task_running → has k.current k.thread_ready_list ≡ false
  current_not_ready e = elim (Bool-cases (has k.current k.thread_ready_list)) [
    | inl h ↦ cc (v.ready k.current h, e)
    | inr h ↦ h
  ]

  requeue-running : status_of k k.current ≡ task_running → requeue k ≡ ok (requeued k)
  unfolding requeue
  requeue-running e = rw (e, current_not_ready e)

  requeued-IsIdle : status_of k k.current ≡ task_running → IsIdle (requeued k)
  requeued-IsIdle e = record {
    switching = record {
      alone = λ t h. ground (arith, v.alone t);
      ready = λ t h. ground (arith, v.ready t, has-snoc t k.current k.thread_ready_list);
      queued = λ t h r. ground (arith, v.queued t, has-snoc t k.current k.thread_ready_list);
      known = λ t h.
          ground (arith, v.known t, v.current_known, has-snoc t k.current k.thread_ready_list);
      current_known = v.current_known;
      distinct = Distinct-snoc k.current k.thread_ready_list (current_not_ready e) v.distinct;
      no_null = v.no_null;
    };
    none_running = λ t h. ground (arith, v.alone t);
  }

  requeue-blocked : status_of k k.current ≢ task_running → requeue k ≡ ok k
  unfolding requeue
  requeue-blocked ne = elim (Bool-cases (is_running (status_of k k.current))) [
    | inl h ↦ absurd (ne (is_running_iff (status_of k k.current) h))
    | inr h ↦ rw h
  ]

  blocked-IsIdle : status_of k k.current ≢ task_running → IsIdle k
  blocked-IsIdle ne = record { switching = v; none_running = λ t h. ne (rw (← v.alone t h) h) }

module _ (v2p : ℕ → ℕ) where
  -- The machine registers after `process_activate`.
  abbrev activated : Kernel → ℕ → Kernel
  activated k t = record k {
    cr3 = if (k.tasks t).pgdir == 0 then 0x100000 else v2p (k.tasks t).pgdir;
    tss_esp0 = if (k.tasks t).pgdir == 0 then k.tss_esp0 else add32 t pg_size;
  }

  process_activate-activated :
      (k : Kernel) (t : ℕ) → t ≢ 0 → process_activate v2p k t ≡ ok (activated k t)
  unfolding process_activate page_dir_activate
  process_activate-activated k t h = elim (ℕ_discrete (k.tasks t).pgdir 0) [
    | yes e ↦ rw (ne→== h, eq→== e)
    | no ne ↦ rw (ne→== h, ne→== ne)
  ]

  -- The kernel after the switch to `x`, the first ready task.
  abbrev dispatched : Kernel → ℕ → List ℕ → Kernel
  dispatched k x xs =
      record (activated (set_status (record k { thread_ready_list = xs }) x task_running) x) {
        current = x;
      }

  module _ {k : Kernel} (v : IsIdle k) {x : ℕ} {xs : List ℕ}
      (e : k.thread_ready_list ≡ x ∷ xs) where
    ready_as : (t : ℕ) → has t k.thread_ready_list ≡ ((x == t) || has t xs)
    ready_as t = rw e (has-cons t x xs)

    nodup_line : Distinct (x ∷ xs)
    nodup_line = rw e at v.switching.distinct

    next_out : has x xs ≡ false
    next_out = head_not_in_rest x xs nodup_line

    next_known : has x k.thread_all_list ≡ true
    next_known = ground (arith, ready_as x, v.switching.known x)

    next-ne-null : x ≢ 0
    next-ne-null h = cc (next_known, v.switching.no_null, h)

    dispatch-dispatched : dispatch v2p k.thread_ready_list k ≡ ok (dispatched k x xs)
    unfolding dispatch
    dispatch-dispatched = rw (e, process_activate-activated _ x next-ne-null)

    dispatched-IsSched : IsSched (dispatched k x xs)
    dispatched-IsSched = record {
      running = ground arith;
      switching = record {
        alone = λ t h. ground (arith, v.none_running t);
        ready = λ t h. ground (arith, ready_as t, next_out, v.switching.ready t);
        queued = λ t h r. ground (arith, ready_as t, v.switching.queued t);
        known = λ t h. ground (arith, ready_as t, v.switching.known t);
        current_known = next_known;
        distinct = nodup_line.1;
        no_null = v.switching.no_null;
      };
    }

-- The ready list after the first half of `schedule`: a task that could go on is put behind it.
abbrev pub in_line : Kernel → List ℕ
in_line k =
    if is_running (status_of k k.current)
    then k.thread_ready_list ++ (k.current ∷ [])
    else k.thread_ready_list

-- What a switch to `x` has done: `x` runs, the tasks `xs` wait behind it, and no other task than
-- the two that change places has changed.
pub record Switched (k : Kernel) (x : ℕ) (xs : List ℕ) (k' : Kernel) : Type 0 where
  pub sched : IsSched k'
  pub current : k'.current ≡ x
  pub ready : k'.thread_ready_list ≡ xs
  pub all : k'.thread_all_list ≡ k.thread_all_list
  pub intr : k'.intr ≡ k.intr
  pub others : (t : ℕ) → t ≢ k.current → t ≢ x → k'.tasks t ≡ k.tasks t
  pub blocked :
      status_of k k.current ≢ task_running → k.current ≢ x → k'.tasks k.current ≡ k.tasks k.current
  pub slice :
      status_of k k.current ≡ task_running
      → (k'.tasks k.current).ticks ≡ (k.tasks k.current).priority
  pub slices : (t : ℕ) → t ≢ k.current → (k'.tasks t).ticks ≡ (k.tasks t).ticks
  pub stacks_intact : (t : ℕ) → (k'.tasks t).stack_magic ≡ (k.tasks t).stack_magic

snoc-ne-nil : (xs : List ℕ) (x : ℕ) → xs ++ (x ∷ []) ≢ []
snoc-ne-nil [] x h = cc
snoc-ne-nil (y ∷ ys) x h = cc

module _ (v2p : ℕ → ℕ) {k : Kernel} (v : IsSwitching k) (off : k.intr ≡ intr_off) where
  is_off : not (is_on k.intr) ≡ true
  is_off = rw off

  -- `schedule` is round robin: with interrupts off it gives the processor to the first task in
  -- line, after it has put the current task, if that can go on, at the end of the line with a
  -- fresh time slice. The scheduler's invariant holds afterwards.
  pub schedule-Switched :
      (x : ℕ) (xs : List ℕ)
      → in_line k ≡ x ∷ xs
      → (k' : Kernel) × (schedule v2p k ≡ ok k') × Switched k x xs k'
  unfolding schedule
  schedule-Switched x xs e = elim (Bool-cases (is_running (status_of k k.current))) [
    | inl h ↦
        let r = is_running_iff _ h in
        let line : (requeued k).thread_ready_list ≡ x ∷ xs = rw h at e in
        (
          dispatched v2p (requeued k) x xs,
          rw (is_off, requeue-running v r) (dispatch-dispatched v2p (requeued-IsIdle v r) line),
          record {
            sched = dispatched-IsSched v2p (requeued-IsIdle v r) line;
            current = refl;
            ready = refl;
            all = refl;
            intr = refl;
            others = λ t a b. ground arith;
            blocked = λ ne. absurd (ne r);
            slice = λ q. ground arith;
            slices = λ t a. ground arith;
            stacks_intact = λ t. ground arith;
          },
        )
    | inr h ↦
        let ne : status_of k k.current ≢ task_running = λ q. cc (q, h) in
        let line : k.thread_ready_list ≡ x ∷ xs = rw h at e in
        (
          dispatched v2p k x xs,
          rw (is_off, requeue-blocked v ne) (dispatch-dispatched v2p (blocked-IsIdle v ne) line),
          record {
            sched = dispatched-IsSched v2p (blocked-IsIdle v ne) line;
            current = refl;
            ready = refl;
            all = refl;
            intr = refl;
            others = λ t a b. ground arith;
            blocked = λ _ far. ground arith;
            slice = λ q. absurd (ne q);
            slices = λ t a. ground arith;
            stacks_intact = λ t. ground arith;
          },
        )
  ]

  -- With no task in line it stops at its assertion.
  pub schedule-panic : in_line k ≡ [] → schedule v2p k ≡ panic
  unfolding schedule dispatch
  schedule-panic e = elim (Bool-cases (is_running (status_of k k.current))) [
    | inl h ↦ absurd (snoc-ne-nil k.thread_ready_list k.current (rw h at e))
    | inr h ↦
        let line : k.thread_ready_list ≡ [] = rw h at e in
        rw (is_off, requeue-blocked v (λ q. cc (q, h)), line)
  ]
