-- ===== src/Sync.antt =====
-- thread/sync.c and sync.h: semaphores and locks, cut at the places where a task can lose the
-- processor. `sema_down` and `sema_up` run with interrupts off and are left only by blocking;
-- between the other statements of `lock_acquire` and `lock_release` the clock may strike.
pub mod Mutex
pub mod Invariant
pub mod Steps
pub mod Release
pub mod Safety
pub mod Reach
use goos.Prelude.{
  ℕ, zero, suc, ◌+◌, ◌-◌, ◌%◌, ◌^◌, Bool, true, false, not, List, [], ◌∷◌, ◌++◌, Outcome, ok, ◌>>=◌,
  ◌>>◌, assert, ◌==◌, ltb, if◌then◌else◌,
}
use goos.Interrupt.{IntrStatus, intr_off}
use goos.LinkedList.Distinct.{has}
use goos.Thread.{Kernel, put, task_blocked, thread_block, thread_unblock, intr_timer_handler}

pub record Semaphore : Type 0 where
  pub value : ℕ
  pub waiters : List ℕ

pub record Lock : Type 0 where
  pub holder : ℕ
  pub semaphore : Semaphore
  pub holder_repeat_cnt : ℕ

abbrev pub sema_init : ℕ → Semaphore
sema_init value = record { value = value; waiters = [] }

abbrev pub lock_init : Lock
lock_init = record { holder = 0; semaphore = sema_init 1; holder_repeat_cnt = 0 }

-- Where a round of the loop in `sema_down` ends: behind the loop, with the semaphore taken, or in
-- `thread_block`, to test the value again when the task is back.
pub data Round : Type 0 where
  taken blocked : Round

-- `uint8_t` arithmetic
abbrev pub dec8 : ℕ → ℕ
dec8 x = (x + 2 ^ 8 - 1) % 2 ^ 8

abbrev pub inc8 : ℕ → ℕ
inc8 x = (x + 1) % 2 ^ 8

module _ (v2p : ℕ → ℕ) where
  -- One round, with interrupts off.
  unfoldable pub sema_down_round : Kernel → Semaphore → Outcome (Round × Kernel × Semaphore)
  sema_down_round k sem =
      if sem.value == 0
      then (do
        assert (not (has k.current sem.waiters))
        (_, k') ← thread_block v2p k task_blocked
        ok (blocked, k', record sem { waiters = sem.waiters ++ (k.current ∷ []) }))
      else (do assert (dec8 sem.value == 0); ok (taken, k, record sem { value = dec8 sem.value }))

-- `sema_up` with interrupts off: `thread_unblock` is called on the first of the tasks that wait.
unfoldable pub wake_first : Kernel → List ℕ → Outcome (Kernel × List ℕ)
wake_first k [] = ok (k, [])
wake_first k (t ∷ ts) = do k' ← thread_unblock k t; ok (k', ts)

unfoldable pub sema_up : Kernel → Semaphore → Outcome (Kernel × Semaphore)
sema_up k sem = do
  assert (sem.value == 0)
  (k', rest) ← wake_first k sem.waiters
  assert (inc8 sem.value == 1)
  ok (k', record { value = inc8 sem.value; waiters = rest })

-- Where a task stands in the code of one lock.
pub data Place : Type 0 where
  -- outside, or in `lock_acquire` before `sema_down`
  idle : Place
  -- in the loop of `sema_down`
  waiting : Place
  -- behind `sema_down`, before `plock->holder = running_thread()`
  entered : Place
  -- before `plock->holder_repeat_cnt = 1`
  named : Place
  -- holds the lock
  holding : Place
  -- in `lock_release` behind `plock->holder = NULL`
  unnamed : Place
  -- behind `plock->holder_repeat_cnt = 0`, before `sema_up`
  cleared : Place

pub record System : Type 0 where
  pub kernel : Kernel
  pub lock : Lock
  pub place : ℕ → Place

-- What the current task calls, or the clock.
pub data Event : Type 0 where
  acquire release tick : Event

abbrev pub quiet : Kernel → Kernel
quiet k = record k { intr = intr_off }

abbrev pub move : System → Place → System
move s p = record s { place = put s.place s.kernel.current p }

abbrev pub place_after : Round → Place
place_after taken = entered
place_after blocked = waiting

-- The tests at the head of `lock_release`.
unfoldable pub leave : System → Outcome System
leave s = do
  assert (s.lock.holder == s.kernel.current)
  if ltb 1 s.lock.holder_repeat_cnt
      then ok
          (record s { lock = record s.lock { holder_repeat_cnt = s.lock.holder_repeat_cnt - 1 } })
      else (do
        assert (s.lock.holder_repeat_cnt == 1)
        ok (record (move s unnamed) { lock = record s.lock { holder = 0 } }))

-- The next step of `lock_release` for the current task. A task that does not hold the lock comes to
-- the tests at the head, which stop the kernel.
unfoldable pub step_release : Place → System → Outcome System
step_release holding s = leave s
step_release unnamed s =
    ok (record (move s cleared) { lock = record s.lock { holder_repeat_cnt = 0 } })
step_release cleared s = do
  (k', sem) ← sema_up (quiet s.kernel) s.lock.semaphore
  ok (record (move s idle) { kernel = k'; lock = record s.lock { semaphore = sem } })
step_release _ s = leave s

module _ (v2p : ℕ → ℕ) where
  unfoldable pub down : System → Outcome System
  down s = do
    (r, k', sem) ← sema_down_round v2p (quiet s.kernel) s.lock.semaphore
    ok (record (move s (place_after r)) { kernel = k'; lock = record s.lock { semaphore = sem } })

  -- The test at the head of `lock_acquire`.
  unfoldable pub enter : System → Outcome System
  enter s =
      if s.lock.holder == s.kernel.current
      then ok (record s {
        lock = record s.lock { holder_repeat_cnt = (s.lock.holder_repeat_cnt + 1) % 2 ^ 32 };
      })
      else down s

  -- The next step of `lock_acquire` for the current task; in the code of `lock_release` there is none.
  unfoldable pub step_acquire : Place → System → Outcome System
  step_acquire idle s = enter s
  step_acquire holding s = enter s
  step_acquire waiting s = down s
  step_acquire entered s =
      ok (record (move s named) { lock = record s.lock { holder = s.kernel.current } })
  step_acquire named s = do
    assert (s.lock.holder_repeat_cnt == 0)
    ok (record (move s holding) { lock = record s.lock { holder_repeat_cnt = 1 } })
  step_acquire _ s = ok s

  unfoldable pub step : Event → System → Outcome System
  step acquire s = step_acquire (s.place s.kernel.current) s
  step release s = step_release (s.place s.kernel.current) s
  step tick s = do k' ← intr_timer_handler v2p (quiet s.kernel); ok (record s { kernel = k' })
