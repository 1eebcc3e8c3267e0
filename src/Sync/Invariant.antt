-- ===== src/Sync/Invariant.antt =====
-- The invariant of a lock of thread/sync.c and of the tasks that use it, in every interleaving.
use goos.Prelude.{
  ℕ, ◌≡◌, ◌≢◌, List, [], true, false, arith, Outcome, ok, panic, ◌⊎◌, inl, inr, Bool-cases,
}
use goos.LinkedList.Chain.{Distinct}
use goos.LinkedList.Distinct.{has}
use goos.Thread.{Kernel, put, status_of, task_blocked}
use goos.Thread.Invariant.{IsSched}
use goos.Sync.{Place, waiting, System, quiet, move}
use goos.Sync.Mutex.{Mutex}

-- The tasks in the waiting list are blocked, each is in it once, and each is in `sema_down`.
pub record Waiting (k : Kernel) (waiters : List ℕ) (place : ℕ → Place) : Type 0 where
  pub asleep : (t : ℕ) → has t waiters ≡ true → status_of k t ≡ task_blocked
  pub at : (t : ℕ) → has t waiters ≡ true → place t ≡ waiting
  pub known : (t : ℕ) → has t waiters ≡ true → has t k.thread_all_list ≡ true
  pub distinct : Distinct waiters

pub record Inv (s : System) : Type 0 where
  pub sched : IsSched s.kernel
  pub mutex : Mutex s.lock.semaphore.value s.lock.holder s.lock.holder_repeat_cnt s.place
  pub line : Waiting s.kernel s.lock.semaphore.waiters s.place

-- What a step comes to: it returns and the invariant holds again, or the kernel stops because no
-- task is ready to take over the processor, or because the current task's stack has overflowed.
abbrev pub Result : System → Outcome System → Type 0
Result s r =
    ((s' : System) × (r ≡ ok s') × Inv s')
    ⊎ ((r ≡ panic)
        × ((s.kernel.thread_ready_list ≡ [])
            ⊎ ((s.kernel.tasks s.kernel.current).stack_magic ≢ 0x20030621)))

pub quiet-IsSched : {k : Kernel} → IsSched k → IsSched (quiet k)
quiet-IsSched v = record {
  running = v.running;
  switching = record {
    alone = v.switching.alone;
    ready = v.switching.ready;
    queued = v.switching.queued;
    known = v.switching.known;
    current_known = v.switching.current_known;
    distinct = v.switching.distinct;
    no_null = v.switching.no_null;
  };
}

-- The current task is not in the waiting list: it runs, and those are blocked.
pub current-not-waiting :
    {s : System} → Inv s → has s.kernel.current s.lock.semaphore.waiters ≡ false
current-not-waiting {s} v = elim (Bool-cases (has s.kernel.current s.lock.semaphore.waiters)) [
  | inl h ↦ cc (v.line.asleep s.kernel.current h, v.sched.running)
  | inr h ↦ h
]

pub current-ne-null : {k : Kernel} → IsSched k → k.current ≢ 0
current-ne-null {k} v e = cc (e, v.switching.current_known, v.switching.no_null)

-- The waiting list as the current task changes its place.
pub Waiting-move :
    (k : Kernel) (waiters : List ℕ) (place : ℕ → Place) (p : Place)
    → has k.current waiters ≡ false
    → Waiting k waiters place
    → Waiting k waiters (put place k.current p)
Waiting-move k waiters place p out w = record {
  asleep = w.asleep;
  at = λ t h. ground (arith, w.at t h, out);
  known = w.known;
  distinct = w.distinct;
}

module _ {s : System} (v : Inv s) where
  -- A step that changes the current task's place and the lock's own fields.
  pub moved-Inv :
      (p : Place) (holder' count' : ℕ)
      → Mutex s.lock.semaphore.value holder' count' (put s.place s.kernel.current p)
      → Inv (record (move s p) {
        lock = record s.lock { holder = holder'; holder_repeat_cnt = count' };
      })
  moved-Inv p holder' count' m = record {
    sched = v.sched;
    mutex = m;
    line = Waiting-move s.kernel s.lock.semaphore.waiters s.place p (current-not-waiting v) v.line;
  }
