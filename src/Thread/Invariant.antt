-- ===== src/Thread/Invariant.antt =====
-- The scheduler's invariant: who is running, and who stands in the ready list.
use goos.Prelude.{ℕ, ◌≡◌, true, false}
use goos.LinkedList.Chain.{Distinct}
use goos.LinkedList.Distinct.{has}
use goos.Thread.{Kernel, task_running, task_ready, status_of}

-- What holds whenever the scheduler may be called: only the current task can have the status
-- RUNNING; the ready list holds exactly the known tasks whose status is READY, each once.
pub record IsSwitching (k : Kernel) : Type 0 where
  pub alone : (t : ℕ) → status_of k t ≡ task_running → t ≡ k.current
  pub ready : (t : ℕ) → has t k.thread_ready_list ≡ true → status_of k t ≡ task_ready
  pub queued :
      (t : ℕ)
      → has t k.thread_all_list ≡ true
      → status_of k t ≡ task_ready
      → has t k.thread_ready_list ≡ true
  pub known : (t : ℕ) → has t k.thread_ready_list ≡ true → has t k.thread_all_list ≡ true
  pub current_known : has k.current k.thread_all_list ≡ true
  pub distinct : Distinct k.thread_ready_list
  pub no_null : has 0 k.thread_all_list ≡ false

-- What holds while a task runs: it is the one whose status is RUNNING.
pub record IsSched (k : Kernel) : Type 0 where
  pub running : status_of k k.current ≡ task_running
  pub switching : IsSwitching k
