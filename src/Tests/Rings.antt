-- ===== src/Tests/Rings.antt =====
-- device/ioqueue.c with the three tasks of Threads, of which task 3 sleeps.
use goos.Prelude.{ℕ, ◌≡◌, refl, [], ◌∷◌, ◌++◌, ◌≢◌, ◌⊎◌, inl, inr, arith, ok, replicate, length}
use goos.LinkedList.Distinct.{has}
use goos.Thread.{Kernel}
use goos.Sync.{lock_init}
use goos.IoQueue.{Ioqueue, ioq_getchar, ioq_putchar, got, sent, Got, Sent}
use goos.IoQueue.Fifo.{IsValid, CanWake, contents, Put, Taken, ioq_putchar-Put, ioq_getchar-Taken}
use goos.Tests.Threads.{three_tasks, three_tasks-IsSched}

-- Two bytes wait, one before and one behind the end of the array, and task 3 sleeps as consumer.
abbrev pub ring : Ioqueue
ring = record {
  lock = lock_init;
  producer = 0;
  consumer = 3;
  buf = 7 ∷ replicate 62 0 ++ (9 ∷ []);
  head = 1;
  tail = 63;
}

pub ring-IsValid : IsValid ring
ring-IsValid = record { size = refl; head_in = omega arith; tail_in = omega arith }

pub three-CanWake : CanWake three_tasks 3
unfolding has
three-CanWake = inr (omega arith, refl, refl)

none-CanWake : CanWake three_tasks 0
none-CanWake = inl refl

ioq_putchar-Put_example :
    ((length (contents ring) ≡ 63)
      × (ioq_putchar three_tasks ring 5 ≡ ok (Sent.must_wait, three_tasks, ring)))
    ⊎ ((length (contents ring) ≢ 63)
        × ((k' : Kernel) × (q' : Ioqueue) × (ioq_putchar three_tasks ring 5 ≡ ok (sent, k', q'))
            × Put three_tasks ring 5 k' q'))
ioq_putchar-Put_example = ioq_putchar-Put three_tasks-IsSched refl ring-IsValid 5 three-CanWake

ioq_getchar-Taken_example :
    ((contents ring ≡ []) × (ioq_getchar three_tasks ring ≡ ok (Got.must_wait, three_tasks, ring)))
    ⊎ ((byte : ℕ) × (k' : Kernel) × (q' : Ioqueue) × (ioq_getchar three_tasks ring
          ≡ ok (got byte, k', q'))
        × Taken three_tasks ring byte k' q')
ioq_getchar-Taken_example = ioq_getchar-Taken three_tasks-IsSched refl ring-IsValid none-CanWake
