-- ===== src/Tests/Locks.antt =====
-- thread/sync.c with the tasks of Threads: task 1 takes a lock, the clock strikes, task 2 waits.
use goos.Prelude.{ℕ, ◌≡◌, refl, [], ◌∷◌, true, arith, ok, panic, if◌then◌else◌}
use goos.Thread.{
  schedule, requeue, dispatch, process_activate, page_dir_activate, thread_block,
  intr_timer_handler,
}
use goos.LinkedList.Distinct.{has}
use goos.Sync.{
  System, holding, waiting, Event, acquire, release, tick, step, step_acquire, enter, down,
  sema_down_round,
}
use goos.Sync.Safety.{legal}
use goos.Sync.Mutex.{inside}
use goos.Sync.Reach.{Reach, here, later, start, mutual_exclusion, step_returns}
use goos.Tests.Threads.{three_tasks, three_tasks-IsSched}

abbrev v2p : ℕ → ℕ
v2p x = x

-- Where a step leads; a step that stops leads nowhere.
after : Event → System → System
after e s = elim (step v2p e s) [ ok s' ↦ s' | _ ↦ s ]

-- Task 1 takes the semaphore, and its time slice ends before the lock is its own; task 2 finds the
-- semaphore taken and waits; task 1 goes on until it holds the lock.
abbrev entered_once : System
unfolding after
entered_once = after tick (after acquire (start three_tasks))

abbrev held : System
unfolding after
held = after acquire (after acquire (after acquire entered_once))

held-Reach : Reach v2p three_tasks held
unfolding after step step_acquire enter down sema_down_round intr_timer_handler schedule requeue
    dispatch process_activate page_dir_activate thread_block has
held-Reach =
    later acquire
      (later acquire
        (later acquire (later tick (later acquire here (omega arith) refl) (omega arith) refl)
          (omega arith) refl)
        (omega arith) refl)
      (omega arith) refl

held_by_1 :
    (held.lock.holder ≡ 1) × (held.lock.semaphore.waiters ≡ 2 ∷ []) × (held.place 2 ≡ waiting)
unfolding after step step_acquire enter down sema_down_round intr_timer_handler schedule requeue
    dispatch process_activate page_dir_activate thread_block has
held_by_1 = (refl, refl, refl)

mutual_exclusion_example :
    ((t u : ℕ) → inside (held.place t) ≡ true → inside (held.place u) ≡ true → t ≡ u)
    × ((t : ℕ) → held.place t ≡ holding → held.lock.holder ≡ t)
mutual_exclusion_example = mutual_exclusion v2p three_tasks three_tasks-IsSched held-Reach

-- Task 1 has no lock to release.
step_returns_example :
    (s' : System) × (step v2p release (start three_tasks)
      ≡ (if legal release ((start three_tasks).place 1) then ok s' else panic))
step_returns_example =
    step_returns v2p three_tasks three_tasks-IsSched here release (omega arith) (λ e. cc) refl
