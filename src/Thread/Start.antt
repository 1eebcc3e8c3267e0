-- ===== src/Thread/Start.antt =====
-- `thread_start` of thread/thread.c keeps the scheduler's invariant.
use goos.Prelude.{
  ℕ, ◌+◌, ◌<◌, ◌≡◌, ◌≢◌, ◌-◌, ◌*◌, refl, List, [], ◌∷◌, ◌++◌, true, false, arith, ok, eq→==, ne→==,
  length, lt→ltb, ◌%◌, ◌^◌, sub32, add32, Bool-cases, inl, inr,
}
use goos.LinkedList.Distinct.{has}
use goos.Thread.{Kernel, Task, put, task_ready}
use goos.Thread.Queue.{has-snoc, Distinct-snoc}
use goos.Thread.Invariant.{IsSched}
use goos.Thread.Create.{
  init_thread, thread_create, enqueue_new, thread_start, intr_stack_size, thread_stack_size,
  words_of,
}

-- What starting a thread has done.
pub record ThreadStarted (k : Kernel) (t kernel_thread function func_args priority : ℕ)
    (k' : Kernel) : Type 0 where
  pub sched : IsSched k'
  pub ready : k'.thread_ready_list ≡ k.thread_ready_list ++ (t ∷ [])
  pub all : k'.thread_all_list ≡ k.thread_all_list ++ (t ∷ [])
  pub current : k'.current ≡ k.current
  pub slice : (k'.tasks t).ticks ≡ priority
  pub stack : (k'.tasks t).self_kstack ≡ (t + 4096 - 4 * (76 + 32)) % 2 ^ 32
  pub pid : (k'.tasks t).pid ≡ (k.next_pid + 1) % 2 ^ 16
  pub entry : (k'.stacks (k'.tasks t).self_kstack).eip ≡ kernel_thread
  pub enters : (k'.stacks (k'.tasks t).self_kstack).function ≡ function
  pub passes_on : (k'.stacks (k'.tasks t).self_kstack).func_args ≡ func_args
  pub others : (u : ℕ) → u ≢ t → k'.tasks u ≡ k.tasks u

module _ {k : Kernel} (v : IsSched k) (kernel_thread t : ℕ) (name : List ℕ)
    (priority function func_args : ℕ) where
  abbrev pub bottom : ℕ
  bottom = sub32 (sub32 (add32 t 4096) (words_of intr_stack_size)) (words_of thread_stack_size)

  -- The pointer counts words of 32 bits, and the sizes are in bytes.
  pub bottom_at : bottom ≡ (t + 4096 - 4 * (76 + 32)) % 2 ^ 32
  bottom_at = omega arith

  -- The new task, by the top of its stack.
  abbrev pub new_task : ℕ → Task
  new_task top = record {
    self_kstack = top;
    pid = (k.next_pid + 1) % 2 ^ 16;
    status = task_ready;
    name = name;
    priority = priority;
    ticks = priority;
    elapsed_ticks = 0;
    pgdir = 0;
    stack_magic = 0x20030621;
  }

  abbrev pub started : Kernel
  started = record k {
    tasks = put (put k.tasks t (new_task (add32 t 4096))) t (new_task bottom);
    stacks = put k.stacks bottom (record {
      ebp = 0;
      ebx = 0;
      edi = 0;
      esi = 0;
      eip = kernel_thread;
      function = function;
      func_args = func_args;
    });
    next_pid = (k.next_pid + 1) % 2 ^ 16;
    thread_ready_list = k.thread_ready_list ++ (t ∷ []);
    thread_all_list = k.thread_all_list ++ (t ∷ []);
  }

  module _ (ne : t ≢ 0) (fresh : has t k.thread_all_list ≡ false) where
    pub not_ready : has t k.thread_ready_list ≡ false
    not_ready = elim (Bool-cases (has t k.thread_ready_list)) [
      | inl h ↦ ground (arith, v.switching.known t h, fresh)
      | inr h ↦ h
    ]

    not_current : t ≢ k.current
    not_current e =
        let known : has t k.thread_all_list ≡ true = rw e v.switching.current_known in
        ground (arith, fresh, known)

    pub started-IsSched : IsSched started
    started-IsSched = record {
      running = ground (arith, v.running, not_current);
      switching = record {
        alone = λ u h. ground (arith, v.switching.alone u);
        ready = λ u h. ground (arith, v.switching.ready u, has-snoc u t k.thread_ready_list);
        queued = λ u h r. ground (
          arith,
          v.switching.queued u,
          has-snoc u t k.thread_ready_list,
          has-snoc u t k.thread_all_list,
        );
        known = λ u h. ground (
          arith,
          v.switching.known u,
          has-snoc u t k.thread_ready_list,
          has-snoc u t k.thread_all_list,
        );
        current_known =
            ground (arith, v.switching.current_known, has-snoc k.current t k.thread_all_list);
        distinct = Distinct-snoc t k.thread_ready_list not_ready v.switching.distinct;
        no_null = ground (arith, v.switching.no_null, has-snoc 0 t k.thread_all_list, ne);
      };
    }

  -- For a page that no task has, other than that of the first thread and not NULL, and a name of at
  -- most 15 bytes, `thread_start` returns: the new task is READY, last in line and last of all tasks,
  -- with a full time slice, the next number, and a stack that enters `kernel_thread` with the
  -- function and its argument, as many words of 32 bits below the end of the page as its two frames
  -- have bytes. No other task changes, and the scheduler's invariant holds.
  pub thread_start-ThreadStarted :
      t ≢ 0
      → t ≢ k.main_thread
      → has t k.thread_all_list ≡ false
      → length name < 16
      → (k' : Kernel) × (thread_start k kernel_thread t name priority function func_args ≡ ok k')
        × ThreadStarted k t kernel_thread function func_args priority k'
  unfolding thread_start init_thread thread_create enqueue_new
  thread_start-ThreadStarted ne not_main fresh short = (
    started,
    rw
        (
          lt→ltb (length name) 16 short,
          ne→== not_main,
          eq→== {a = t} refl,
          not_ready ne fresh,
          fresh,
        )
        refl,
    record {
      sched = started-IsSched ne fresh;
      ready = refl;
      all = refl;
      current = refl;
      slice = ground arith;
      stack = rw (eq→== {a = t} refl) bottom_at;
      pid = ground arith;
      entry = ground arith;
      enters = ground arith;
      passes_on = ground arith;
      others = λ u other. ground arith;
    },
  )
