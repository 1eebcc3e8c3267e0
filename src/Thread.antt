-- ===== src/Thread.antt =====
-- thread/thread.c and thread.h: tasks, the ready list and the scheduler; with the clock handler of
-- device/timer.c, which ends a task's time slice.
-- A task is known by the address of its PCB. The two queues are the sequences of nodes that
-- lib/kernel/list.c keeps (LinkedList), named by the tasks that the nodes stand in. `current` is
-- `running_thread()`; `switch_to` leaves it at the next task. What the task that is switched
-- away from does when it is back on the processor is the business of its caller.
pub mod Queue
pub mod Invariant
pub mod Schedule
pub mod Block
pub mod Timer
pub mod Create
pub mod Start
pub mod First
pub mod Fairness
use goos.Prelude.{
  ℕ, ◌+◌, ◌-◌, ◌%◌, ◌^◌, Bool, true, false, not, List, [], ◌∷◌, ◌++◌, Outcome, ok, panic, fault,
  ◌>>=◌, ◌>>◌, assert, ◌==◌, ltb, ◌||◌, if◌then◌else◌, add32, sub32, length,
}
use goos.Interrupt.{IntrStatus, is_on, intr_disable, set_intr_status}
use goos.LinkedList.Distinct.{has}

-- `enum task_status`
pub data TaskStatus : Type 0 where
  task_running task_ready task_blocked task_waiting task_hanging task_died : TaskStatus

-- The bottom of a kernel stack that has not run yet: `struct thread_stack`.
pub record ThreadStack : Type 0 where
  pub ebp : ℕ
  pub ebx : ℕ
  pub edi : ℕ
  pub esi : ℕ
  pub eip : ℕ
  pub function : ℕ
  pub func_args : ℕ

-- `struct task_struct`, but for the nodes by which it hangs in the queues.
pub record Task : Type 0 where
  pub self_kstack : ℕ
  pub pid : ℕ
  pub status : TaskStatus
  pub name : List ℕ
  pub priority : ℕ
  pub ticks : ℕ
  pub elapsed_ticks : ℕ
  pub pgdir : ℕ
  pub stack_magic : ℕ

pub record Kernel : Type 0 where
  pub tasks : ℕ → Task
  pub stacks : ℕ → ThreadStack
  pub main_thread : ℕ
  pub current : ℕ
  pub thread_ready_list : List ℕ
  pub thread_all_list : List ℕ
  pub next_pid : ℕ
  pub intr : IntrStatus
  pub ticks : ℕ
  pub cr3 : ℕ
  pub tss_esp0 : ℕ

abbrev pub put {ℓ} : {A : Type ℓ} → (ℕ → A) → ℕ → A → ℕ → A
put f t a u = if t == u then a else f u

-- Changes one task.
abbrev pub set_task : Kernel → ℕ → Task → Kernel
set_task k t task = record k { tasks = put k.tasks t task }

abbrev pub set_status : Kernel → ℕ → TaskStatus → Kernel
set_status k t status = set_task k t (record (k.tasks t) { status = status })

abbrev pub status_of : Kernel → ℕ → TaskStatus
status_of k t = (k.tasks t).status

abbrev pub pg_size : ℕ
pg_size = 4096

abbrev pub is_running : TaskStatus → Bool
is_running task_running = true
is_running _ = false

abbrev pub is_ready : TaskStatus → Bool
is_ready task_ready = true
is_ready _ = false

-- The three states in which a task may be blocked.
abbrev pub may_block : TaskStatus → Bool
may_block task_blocked = true
may_block task_waiting = true
may_block task_hanging = true
may_block _ = false

abbrev pub is_empty : List ℕ → Bool
is_empty [] = true
is_empty _ = false

-- The first half of `schedule`: a task that could go on is put at the end of the ready list.
unfoldable pub requeue : Kernel → Outcome Kernel
requeue k =
    let cur = k.tasks k.current in
    if is_running cur.status
    then (do
      assert (not (has k.current k.thread_ready_list))
      ok (record k {
        thread_ready_list = k.thread_ready_list ++ (k.current ∷ []);
        tasks = put k.tasks k.current (record cur { ticks = cur.priority; status = task_ready });
      }))
    else ok k

-- `page_dir_activate` and `process_activate` of userprog/process.c, which `schedule` calls. `v2p`
-- is `addr_v2p` at the page tables that stand.
module _ (v2p : ℕ → ℕ) where
  unfoldable pub page_dir_activate : Kernel → ℕ → Kernel
  page_dir_activate k t = record k {
    cr3 = if (k.tasks t).pgdir == 0 then 0x100000 else v2p (k.tasks t).pgdir;
  }

  unfoldable pub process_activate : Kernel → ℕ → Outcome Kernel
  unfolding page_dir_activate
  process_activate k t = do
    assert (not (t == 0))
    let k₁ = page_dir_activate k t
    ok (if (k.tasks t).pgdir == 0 then k₁ else record k₁ { tss_esp0 = add32 t pg_size })

  -- The second half: the first ready task gets the processor. `list_pop` is reached only where
  -- the list is not empty.
  unfoldable pub dispatch : List ℕ → Kernel → Outcome Kernel
  dispatch [] k = panic
  dispatch (next ∷ rest) k = do
    k' ←
        process_activate (set_status (record k { thread_ready_list = rest }) next task_running) next
    ok (record k' { current = next })

  unfoldable pub schedule : Kernel → Outcome Kernel
  schedule k = do assert (not (is_on k.intr)); k₁ ← requeue k; dispatch k₁.thread_ready_list k₁

  -- Up to the switch; the status of the interrupts that is put back when the task runs again is
  -- part of the result.
  unfoldable pub thread_block : Kernel → TaskStatus → Outcome (IntrStatus × Kernel)
  thread_block k stat = do
    assert (may_block stat)
    let (old_status, now) = intr_disable k.intr
    k' ← schedule (set_status (record k { intr = now }) k.current stat)
    ok (old_status, k')

  -- `intr_timer_handler` of device/timer.c. Interrupts are off in a handler.
  unfoldable pub intr_timer_handler : Kernel → Outcome Kernel
  intr_timer_handler k = do
    let cur = k.tasks k.current
    assert (cur.stack_magic == 0x20030621)
    let cur' = record cur { elapsed_ticks = (cur.elapsed_ticks + 1) % 2 ^ 32 }
    let k' = record (set_task k k.current cur') { ticks = (k.ticks + 1) % 2 ^ 32 }
    if cur'.ticks == 0
        then schedule k'
        else ok (set_task k' k.current (record cur' { ticks = cur'.ticks - 1 }))

unfoldable pub thread_unblock : Kernel → (pthread : ℕ) → Outcome Kernel
thread_unblock k₀ pthread = do
  let (old_status, now) = intr_disable k₀.intr
  let k = record k₀ { intr = now }
  assert (may_block (status_of k pthread))
  k' ←
      (if not (is_ready (status_of k pthread))
        then (do
          assert (not (has pthread k.thread_ready_list))
          ok (
              set_status (record k { thread_ready_list = pthread ∷ k.thread_ready_list }) pthread
                task_ready))
        else ok k)
  ok (record k' { intr = (set_intr_status old_status k'.intr).1 })
