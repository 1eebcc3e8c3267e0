-- ===== src/IoQueue.antt =====
-- device/ioqueue.c and ioqueue.h: the ring of bytes between a producer and a consumer.
-- `ioq_getchar` and `ioq_putchar` loop until the ring has a byte, or room; a call here is one turn
-- of that loop: it moves a byte, or says that the task has to wait. The turn that waits takes the
-- ring's lock (Sync), sleeps by `ioq_wait` and gives the lock back.
pub mod Fifo
use goos.Prelude.{
  ℕ, ◌+◌, ◌%◌, Bool, not, List, replicate, Outcome, ok, fault, ◌>>=◌, ◌>>◌, assert, ◌==◌, ltb, ◌&&◌,
  if◌then◌else◌, get_elem?, none, some, set, length,
}
use goos.Interrupt.{IntrStatus, is_on}
use goos.Thread.{Kernel, task_blocked, thread_block, thread_unblock}
use goos.Sync.{Lock, lock_init}

abbrev pub bufsize : ℕ
bufsize = 64

pub record Ioqueue : Type 0 where
  pub lock : Lock
  pub producer : ℕ
  pub consumer : ℕ
  pub buf : List ℕ
  pub head : ℕ
  pub tail : ℕ

-- `buf` is not written.
unfoldable pub ioqueue_init : Ioqueue → Ioqueue
ioqueue_init q = record q { lock = lock_init; producer = 0; consumer = 0; head = 0; tail = 0 }

abbrev pub next_pos : ℕ → ℕ
next_pos pos = (pos + 1) % bufsize

unfoldable pub ioq_full : IntrStatus → Ioqueue → Outcome Bool
ioq_full intr q = do assert (not (is_on intr)); ok (next_pos q.head == q.tail)

unfoldable pub ioq_empty : IntrStatus → Ioqueue → Outcome Bool
ioq_empty intr q = do assert (not (is_on intr)); ok (q.head == q.tail)

-- Up to the switch; the result is what `*waiter` is then.
unfoldable pub ioq_wait : (v2p : ℕ → ℕ) → Kernel → (waiter : ℕ) → Outcome (ℕ × Kernel)
ioq_wait v2p k waiter = do
  assert (waiter == 0)
  (_, k') ← thread_block v2p k task_blocked
  ok (k.current, k')

unfoldable pub wakeup : Kernel → (waiter : ℕ) → Outcome (ℕ × Kernel)
wakeup k waiter = do assert (not (waiter == 0)); k' ← thread_unblock k waiter; ok (0, k')

-- `if (waiter != NULL) wakeup(&waiter)`
unfoldable pub wake_if : Kernel → (waiter : ℕ) → Outcome (ℕ × Kernel)
wake_if k waiter = if waiter == 0 then ok (0, k) else wakeup k waiter

pub data Got : Type 0 where
  must_wait : Got
  got : ℕ → Got

pub data Sent : Type 0 where
  must_wait sent : Sent

abbrev pub read : Ioqueue → ℕ → Outcome ℕ
read q i = elim (get_elem? q.buf i) [ none ↦ fault | some b ↦ ok b ]

unfoldable pub ioq_getchar : Kernel → Ioqueue → Outcome (Got × Kernel × Ioqueue)
ioq_getchar k q = do
  assert (not (is_on k.intr))
  empty ← ioq_empty k.intr q
  if empty then ok (Got.must_wait, k, q) else do
    byte ← read q q.tail
    (producer, k') ← wake_if k q.producer
    ok (got byte, k', record q { tail = next_pos q.tail; producer = producer })

unfoldable pub ioq_putchar : Kernel → Ioqueue → (byte : ℕ) → Outcome (Sent × Kernel × Ioqueue)
ioq_putchar k q byte = do
  assert (not (is_on k.intr))
  full ← ioq_full k.intr q
  if full then ok (Sent.must_wait, k, q) else do
    let q' = record q { buf = set q.buf q.head byte; head = next_pos q.head }
    (consumer, k') ← wake_if k q'.consumer
    ok (sent, k', record q' { consumer = consumer })
