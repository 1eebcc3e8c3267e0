-- ===== src/Thread/First.antt =====
-- `thread_init` of thread/thread.c: from it on the scheduler's invariant holds.
use goos.Prelude.{ℕ, ◌+◌, ◌≡◌, ◌≢◌, refl, [], ◌∷◌, arith, ok, eq→==, ◌%◌, ◌^◌, ℕ_discrete, add32}
use goos.LinkedList.Distinct.{has}
use goos.Thread.{Kernel, Task, put, task_running, status_of}
use goos.Thread.Invariant.{IsSched}
use goos.Thread.Create.{init_thread, make_main_thread, thread_init, main_name}

-- What `thread_init` has done.
pub record FirstThread (k k' : Kernel) : Type 0 where
  pub sched : IsSched k'
  pub current : k'.current ≡ k.current
  pub main : k'.main_thread ≡ k.current
  pub ready : k'.thread_ready_list ≡ []
  pub all : k'.thread_all_list ≡ k.current ∷ []
  pub slice : (k'.tasks k.current).ticks ≡ 31
  pub pid : (k'.tasks k.current).pid ≡ (k.next_pid + 1) % 2 ^ 16
  pub others : (u : ℕ) → u ≢ k.current → k'.tasks u ≡ k.tasks u

module _ (k : Kernel) where
  abbrev main_task : Task
  main_task = record {
    self_kstack = add32 k.current 4096;
    pid = (k.next_pid + 1) % 2 ^ 16;
    status = task_running;
    name = main_name;
    priority = 31;
    ticks = 31;
    elapsed_ticks = 0;
    pgdir = 0;
    stack_magic = 0x20030621;
  }

  abbrev begun : Kernel
  begun = record k {
    tasks = put k.tasks k.current main_task;
    main_thread = k.current;
    next_pid = (k.next_pid + 1) % 2 ^ 16;
    thread_ready_list = [];
    thread_all_list = k.current ∷ [];
  }

  module _ (not_null : k.current ≢ 0)
      (quiet : (t : ℕ) → t ≢ k.current → status_of k t ≢ task_running) where
    begun-IsSched : IsSched begun
    unfolding has
    begun-IsSched = record {
      running = ground arith;
      switching = record {
        alone = λ t h. elim (ℕ_discrete t k.current) [
          | yes e ↦ e
          | no ne ↦ absurd (quiet t ne (ground (arith, h, ne)))
        ];
        ready = λ t h. cc;
        queued = λ t h r. ground (arith, h, r);
        known = λ t h. cc;
        current_known = ground arith;
        distinct = tt;
        no_null = ground (arith, not_null);
      };
    }

  -- Where the code runs on a stack that is not at NULL, and no other page is taken for a task that
  -- runs, `thread_init` returns: the code that runs is the first and only task, RUNNING with a slice
  -- of 31 ticks and the next number, no task is ready, and the scheduler's invariant holds.
  pub thread_init-FirstThread :
      k.current ≢ 0
      → ((t : ℕ) → t ≢ k.current → status_of k t ≢ task_running)
      → (k' : Kernel) × (thread_init k ≡ ok k') × FirstThread k k'
  unfolding thread_init make_main_thread init_thread has
  thread_init-FirstThread not_null quiet = (
    begun,
    rw (eq→== {a = k.current} refl) refl,
    record {
      sched = begun-IsSched not_null quiet;
      current = refl;
      main = refl;
      ready = refl;
      all = refl;
      slice = rw (eq→== {a = k.current} refl) refl;
      pid = rw (eq→== {a = k.current} refl) refl;
      others = λ u ne. ground (arith, ne);
    },
  )
