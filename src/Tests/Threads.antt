-- ===== src/Tests/Threads.antt =====
-- thread/thread.c with three tasks: 1 runs, 2 is ready, 3 is blocked.
use goos.Prelude.{ℕ, ◌≡◌, refl, [], ◌∷◌, arith, ok, if◌then◌else◌, ◌==◌, ◌≤◌}
use goos.Interrupt.{intr_off}
use goos.LinkedList.Distinct.{has}
use goos.Thread.{
  Kernel, Task, ThreadStack, TaskStatus, task_running, task_ready, task_blocked, schedule,
  thread_block, thread_unblock, intr_timer_handler, status_of,
}
use goos.Thread.Invariant.{IsSched}
use goos.Thread.Schedule.{Switched, schedule-Switched}
use goos.Thread.Block.{Blocked, Unblocked, thread_block-Blocked, thread_unblock-Unblocked}
use goos.Thread.Create.{thread_start}
use goos.Thread.Start.{ThreadStarted, thread_start-ThreadStarted}
use goos.Thread.Fairness.{IsTicking, slices, ticks_on, ready_task_runs}
use goos.Thread.Timer.{Ticked, timer-Ticked}

abbrev pub task : ℕ → TaskStatus → Task
task pid status = record {
  self_kstack = 0;
  pid = pid;
  status = status;
  name = [];
  priority = 31;
  ticks = 0;
  elapsed_ticks = 0;
  pgdir = 0;
  stack_magic = 0x20030621;
}

abbrev pub empty_stack : ThreadStack
empty_stack = record { ebp = 0; ebx = 0; edi = 0; esi = 0; eip = 0; function = 0; func_args = 0 }

abbrev pub three_tasks : Kernel
three_tasks = record {
  tasks = λ t.
      if t == 1
      then task 1 task_running
      else if t == 2
      then task 2 task_ready
      else task 3 task_blocked;
  stacks = λ _. empty_stack;
  main_thread = 1;
  current = 1;
  thread_ready_list = 2 ∷ [];
  thread_all_list = 1 ∷ 2 ∷ 3 ∷ [];
  next_pid = 3;
  intr = intr_off;
  ticks = 0;
  cr3 = 0x100000;
  tss_esp0 = 0;
}

pub three_tasks-IsSched : IsSched three_tasks
unfolding has
three_tasks-IsSched = record {
  running = refl;
  switching = record {
    alone = λ t h. ground arith;
    ready = λ t h. ground arith;
    queued = λ t h r. ground arith;
    known = λ t h. ground arith;
    current_known = refl;
    distinct = (tt, tt);
    no_null = refl;
  };
}

abbrev v2p : ℕ → ℕ
v2p x = x

schedule-Switched_example :
    (k' : Kernel) × (schedule v2p three_tasks ≡ ok k') × Switched three_tasks 2 (1 ∷ []) k'
schedule-Switched_example = schedule-Switched v2p three_tasks-IsSched.switching refl 2 (1 ∷ []) refl

thread_block-Blocked_example :
    (k' : Kernel) × (thread_block v2p three_tasks task_blocked ≡ ok (intr_off, k'))
    × Blocked three_tasks task_blocked 2 [] k'
thread_block-Blocked_example =
    thread_block-Blocked v2p three_tasks-IsSched task_blocked 2 [] refl refl

thread_unblock-Unblocked_example :
    (k' : Kernel) × (thread_unblock three_tasks 3 ≡ ok k') × Unblocked three_tasks 3 k'
unfolding has
thread_unblock-Unblocked_example = thread_unblock-Unblocked three_tasks-IsSched 3 refl refl

timer-Ticked_example :
    (k' : Kernel) × (intr_timer_handler v2p three_tasks ≡ ok k') × Ticked three_tasks k'
timer-Ticked_example = timer-Ticked v2p three_tasks-IsSched refl refl

-- The current task alone: there is none to take over the processor when it blocks.
abbrev one_task : Kernel
one_task = record three_tasks {
  tasks = λ t. if t == 1 then task 1 task_running else task 2 task_blocked;
  thread_ready_list = [];
  thread_all_list = 1 ∷ [];
}

one_task-IsSched : IsSched one_task
unfolding has
one_task-IsSched = record {
  running = refl;
  switching = record {
    alone = λ t h. ground arith;
    ready = λ t h. ground arith;
    queued = λ t h r. ground arith;
    known = λ t h. ground arith;
    current_known = refl;
    distinct = tt;
    no_null = refl;
  };
}

thread_start-ThreadStarted_example :
    (k' : Kernel) × (thread_start three_tasks 0xc0001000 0xc0100000 (107 ∷ []) 31 0xc0002000 5
      ≡ ok k')
    × ThreadStarted three_tasks 0xc0100000 0xc0001000 0xc0002000 5 31 k'
unfolding has
thread_start-ThreadStarted_example =
    thread_start-ThreadStarted three_tasks-IsSched 0xc0001000 0xc0100000 (107 ∷ []) 31 0xc0002000 5
      (omega arith) (omega arith) refl (omega arith)

three_tasks-IsTicking : IsTicking three_tasks
three_tasks-IsTicking = record {
  sched = three_tasks-IsSched;
  off = refl;
  stacks_intact = λ t. ground arith;
}

ready_task_runs_example :
    (n : ℕ) × (k' : Kernel) × (n ≤ slices three_tasks (1 ∷ 2 ∷ []))
    × (ticks_on v2p n three_tasks ≡ ok k')
    × (k'.current ≡ 2)
    × (status_of k' 2 ≡ task_running)
unfolding has
ready_task_runs_example = ready_task_runs v2p three_tasks 2 three_tasks-IsTicking refl refl
