-- ===== src/Thread/Timer.antt =====
-- The clock handler of device/timer.c: a task runs for its time slice and is then put in line.
use mathlib.Core.Path.{ap₂}
use goos.Prelude.{
  Bool-cases, inl, inr, ℕ, ◌+◌, ◌-◌, ◌%◌, ◌^◌, ◌≡◌, refl, sym, ap, ◌∙◌, ◌≢◌, List, [], ◌∷◌, ◌++◌,
  true, arith, ◌==◌, ne→==, eq→==, ok, panic, if◌then◌else◌, ℕ_discrete,
}
use goos.Interrupt.{intr_off}
use goos.Thread.{Kernel, status_of, set_task, may_block, intr_timer_handler}
use goos.LinkedList.Distinct.{has}
use goos.Thread.Queue.{has-cons, has-snoc}
use goos.Thread.Block.{may_block-ne}
use goos.Thread.Invariant.{IsSched}
use goos.Thread.Schedule.{in_line, schedule-Switched}

-- The kernel once the handler has counted the tick.
abbrev counted : Kernel → Kernel
counted k =
    record (set_task k k.current (record (k.tasks k.current) {
      elapsed_ticks = ((k.tasks k.current).elapsed_ticks + 1) % 2 ^ 32;
    })) { ticks = (k.ticks + 1) % 2 ^ 32 }

counted-IsSched : {k : Kernel} → IsSched k → IsSched (counted k)
counted-IsSched {k} v = record {
  running = ground (arith, v.running);
  switching = record {
    alone = λ t h. ground (arith, v.switching.alone t);
    ready = λ t h. ground (arith, v.switching.ready t);
    queued = λ t h r. ground (arith, v.switching.queued t);
    known = v.switching.known;
    current_known = v.switching.current_known;
    distinct = v.switching.distinct;
    no_null = v.switching.no_null;
  };
}

-- The task that has the processor after a tick, and those in line behind it: at the end of a time
-- slice the current task goes to the end of the line.
abbrev pub line_after_tick : Kernel → List ℕ
line_after_tick k =
    if (k.tasks k.current).ticks == 0
    then k.thread_ready_list ++ (k.current ∷ [])
    else k.current ∷ k.thread_ready_list

-- What a tick has done.
pub record Ticked (k k' : Kernel) : Type 0 where
  pub sched : IsSched k'
  pub line : k'.current ∷ k'.thread_ready_list ≡ line_after_tick k
  pub all : k'.thread_all_list ≡ k.thread_all_list
  pub slice : (k'.tasks k.current).ticks ≡ (
      if (k.tasks k.current).ticks == 0
      then (k.tasks k.current).priority
      else (k.tasks k.current).ticks - 1)
  pub asleep : (t : ℕ) → may_block (status_of k t) ≡ true → k'.tasks t ≡ k.tasks t
  pub intr : k'.intr ≡ k.intr
  pub slices : (t : ℕ) → t ≢ k.current → (k'.tasks t).ticks ≡ (k.tasks t).ticks
  pub stacks_intact : (t : ℕ) → (k'.tasks t).stack_magic ≡ (k.tasks t).stack_magic

snoc-cons : (xs : List ℕ) (x : ℕ) → (y : ℕ) × (ys : List ℕ) × (xs ++ (x ∷ []) ≡ y ∷ ys)
snoc-cons [] x = (x, [], refl)
snoc-cons (y ∷ ys) x = (y, ys ++ (x ∷ []), refl)

module _ (v2p : ℕ → ℕ) {k : Kernel} (v : IsSched k) (off : k.intr ≡ intr_off) where
  in_line_of_counted : in_line (counted k) ≡ k.thread_ready_list ++ (k.current ∷ [])
  in_line_of_counted = ground (arith, v.running)

  -- A blocked task is neither the current one nor one in line.
  asleep-ne : (t : ℕ) → may_block (status_of k t) ≡ true → t ≢ k.current
  asleep-ne t may e = (may_block-ne _ may).0 (ap (status_of k) e ∙ v.running)

  asleep-ne-next :
      (x : ℕ) (xs : List ℕ)
      → k.thread_ready_list ++ (k.current ∷ []) ≡ x ∷ xs
      → (t : ℕ) → may_block (status_of k t) ≡ true
      → t ≢ x
  asleep-ne-next x xs line t may e =
      let in_line : has t (k.thread_ready_list ++ (k.current ∷ [])) ≡ true =
        rw line (rw (has-cons t x xs, eq→== (sym e))) in
      elim (Bool-cases (has t k.thread_ready_list)) [
        | inl h ↦ (may_block-ne _ may).1 (v.switching.ready t h)
        | inr h ↦
            asleep-ne t may (ground (arith, in_line, has-snoc t k.current k.thread_ready_list))
      ]

  line_at_end :
      (k.tasks k.current).ticks ≡ 0 → line_after_tick k ≡ k.thread_ready_list ++ (k.current ∷ [])
  line_at_end zero = rw (eq→== zero)

  slice_at_end :
      (k.tasks k.current).ticks ≡ 0
      → ((counted k).tasks k.current).priority ≡ (
          if (k.tasks k.current).ticks == 0
          then (k.tasks k.current).priority
          else (k.tasks k.current).ticks - 1)
  slice_at_end zero = ground arith

  slice_ends :
      (k.tasks k.current).ticks ≡ 0
      → (x : ℕ) (xs : List ℕ) → k.thread_ready_list ++ (k.current ∷ []) ≡ x ∷ xs
      → (k.tasks k.current).stack_magic ≡ 0x20030621
      → (k' : Kernel) × (intr_timer_handler v2p k ≡ ok k') × Ticked k k'
  unfolding intr_timer_handler
  slice_ends zero x xs line magic =
      let (k', e, w) =
        schedule-Switched v2p (counted-IsSched v).switching off x xs (in_line_of_counted ∙ line) in
      (
        k',
        rw (eq→== magic, eq→== zero) e,
        record {
          sched = w.sched;
          line = ap₂ ◌∷◌ w.current w.ready ∙ sym line ∙ sym (line_at_end zero);
          all = w.all;
          slice = w.slice (counted-IsSched v).running ∙ slice_at_end zero;
          asleep = λ t may.
              w.others t (asleep-ne t may) (asleep-ne-next x xs line t may)
              ∙ rw (ne→== (λ e. asleep-ne t may (sym e)));
          intr = w.intr;
          slices = λ t other. w.slices t other ∙ ground arith;
          stacks_intact = λ t. w.stacks_intact t ∙ ground arith;
        },
      )

  abbrev one_less : Kernel
  one_less = set_task (counted k) k.current (record (k.tasks k.current) {
    elapsed_ticks = ((k.tasks k.current).elapsed_ticks + 1) % 2 ^ 32;
    ticks = (k.tasks k.current).ticks - 1;
  })

  one_less-IsSched : IsSched one_less
  one_less-IsSched = record {
    running = ground (arith, v.running);
    switching = record {
      alone = λ t h. ground (arith, v.switching.alone t);
      ready = λ t h. ground (arith, v.switching.ready t);
      queued = λ t h r. ground (arith, v.switching.queued t);
      known = v.switching.known;
      current_known = v.switching.current_known;
      distinct = v.switching.distinct;
      no_null = v.switching.no_null;
    };
  }

  -- A tick of the clock never stops the kernel while the current task's stack is intact: before
  -- the end of the time slice the task goes on with one tick less, and at its end the first task
  -- in line takes over, the current one, with a fresh slice, being last in line.
  pub timer-Ticked :
      (k.tasks k.current).stack_magic ≡ 0x20030621
      → (k' : Kernel) × (intr_timer_handler v2p k ≡ ok k') × Ticked k k'
  unfolding intr_timer_handler
  timer-Ticked magic = elim (ℕ_discrete (k.tasks k.current).ticks 0) [
    | yes zero ↦
        let (x, xs, line) = snoc-cons k.thread_ready_list k.current in
        slice_ends zero x xs line magic
    | no more ↦ (
      one_less,
      rw (eq→== magic) (rw (ne→== more)),
      record {
        sched = one_less-IsSched;
        line = rw (ne→== more);
        all = refl;
        slice = rw (ne→== more) (rw (eq→== {a = k.current} refl));
        asleep = λ t may. rw (ne→== (λ e. asleep-ne t may (sym e)));
        intr = refl;
        slices = λ t other. ground arith;
        stacks_intact = λ t. ground arith;
      },
    )
  ]

  -- If the task has run over the end of its stack, the handler stops at its assertion.
  pub timer-panic : (k.tasks k.current).stack_magic ≢ 0x20030621 → intr_timer_handler v2p k ≡ panic
  unfolding intr_timer_handler
  timer-panic broken = rw (ne→== broken)
