-- ===== src/IoQueue/Fifo.antt =====
-- The ring of device/ioqueue.c is a queue of at most 63 bytes, first in, first out.
use goos.Prelude.{
  ℕ, zero, suc, ◌+◌, ◌-◌, ◌%◌, ◌<◌, ◌≡◌, refl, sym, ap, ◌∙◌, ◌≢◌, List, [], ◌∷◌, ◌++◌, true, false,
  arith, ok, ◌==◌, eq→==, ne→==, if◌then◌else◌, ℕ_discrete, length, get_or, set, length-set,
  get_or-set_self, get_or-set_ne, get_elem?-eq-get_or, ◌⊎◌, inl, inr,
}
use goos.Sync.{lock_init}
use goos.Interrupt.{is_on, intr_off}
use goos.Thread.{Kernel, status_of, may_block}
use goos.Thread.Invariant.{IsSched}
use goos.Thread.Block.{thread_unblock-Unblocked}
use goos.LinkedList.Distinct.{has}
use goos.IoQueue.{
  Ioqueue, next_pos, ioqueue_init, ioq_full, ioq_empty, ioq_getchar, read, ioq_putchar, wake_if,
  wakeup, Got, got, Sent, sent,
}

pub record IsValid (q : Ioqueue) : Type 0 where
  pub size : length q.buf ≡ 64
  pub head_in : q.head < 64
  pub tail_in : q.tail < 64

-- The `n` bytes from index `i` on, round the ring.
abbrev pub window : List ℕ → (i n : ℕ) → List ℕ
window buf i zero = []
window buf i (suc n) = get_or buf i 0 ∷ window buf (next_pos i) n

-- How many bytes wait, and which.
abbrev pub count : Ioqueue → ℕ
count q = (q.head + 64 - q.tail) % 64

abbrev pub contents : Ioqueue → List ℕ
contents q = window q.buf q.tail (count q)

length-window : (buf : List ℕ) (i n : ℕ) → length (window buf i n) ≡ n
length-window buf i zero = refl
length-window buf i (suc n) = ap suc (length-window buf (next_pos i) n)

-- A byte written just behind a window that leaves room makes the window one longer.
window-set :
    (buf : List ℕ) (x n i h : ℕ)
    → length buf ≡ 64
    → i < 64
    → n < 64
    → h ≡ (i + n) % 64
    → window (set buf h x) i (suc n) ≡ window buf i n ++ (x ∷ [])
window-set buf x zero i h size hi hn e =
    let same : h ≡ i = omega arith in rw same (rw (get_or-set_self buf i x 0 (omega arith)))
window-set buf x (suc n) i h size hi hn e = rw (get_or-set_ne buf h i x 0 (omega arith)) (
    ap (λ l. get_or buf i 0 ∷ l)
      (window-set buf x n (next_pos i) h size (omega arith) (omega arith) (omega arith)))

window_of_pos :
    (buf : List ℕ) (i n : ℕ)
    → n ≢ 0
    → window buf i n ≡ get_or buf i 0 ∷ window buf (next_pos i) (n - 1)
window_of_pos buf i zero ne = absurd (ne refl)
window_of_pos buf i (suc n) ne = ap (λ k. get_or buf i 0 ∷ window buf (next_pos i) k) (omega arith)

module _ {q : Ioqueue} (v : IsValid q) where
  full : (next_pos q.head == q.tail) ≡ (count q == 63)
  full = elim (ℕ_discrete (next_pos q.head) q.tail) [
    | yes e ↦ rw (eq→== e) (sym (eq→== (omega (arith, v.head_in, v.tail_in))))
    | no ne ↦ rw (ne→== ne) (sym (ne→== (λ e. ne (omega (arith, v.head_in, v.tail_in)))))
  ]

  empty : (q.head == q.tail) ≡ (count q == 0)
  empty = elim (ℕ_discrete q.head q.tail) [
    | yes e ↦ rw (eq→== e) (sym (eq→== (omega (arith, v.head_in, v.tail_in))))
    | no ne ↦ rw (ne→== ne) (sym (ne→== (λ e. ne (omega (arith, v.head_in, v.tail_in)))))
  ]

  -- With interrupts off, `ioq_full` says that 63 bytes wait and `ioq_empty` that none does.
  pub full_empty :
      (ioq_full intr_off q ≡ ok (length (contents q) == 63))
      × (ioq_empty intr_off q ≡ ok (length (contents q) == 0))
  unfolding ioq_full ioq_empty
  full_empty = rw (length-window q.buf q.tail (count q)) (ap ok full, ap ok empty)

-- A waiter that can be woken: there is none, or it is a task that sleeps.
abbrev pub CanWake : Kernel → (waiter : ℕ) → Type 0
CanWake k w =
    (w ≡ 0) ⊎ ((w ≢ 0) × (has w k.thread_all_list ≡ true) × (may_block (status_of k w) ≡ true))

-- What waking the waiter has done: it is first in the ready list.
pub record Woken (k : Kernel) (w : ℕ) (k' : Kernel) : Type 0 where
  pub sched : IsSched k'
  pub intr : k'.intr ≡ k.intr
  pub ready :
      k'.thread_ready_list ≡ (if w == 0 then k.thread_ready_list else w ∷ k.thread_ready_list)

pub wake_if-Woken :
    {k : Kernel}
    → IsSched k
    → (w : ℕ) → CanWake k w
    → (k' : Kernel) × (wake_if k w ≡ ok (0, k')) × Woken k w k'
unfolding wake_if wakeup
wake_if-Woken {k} v w (inl none) =
    (k, rw (eq→== none) refl, record { sched = v; intr = refl; ready = rw (eq→== none) refl })
wake_if-Woken {k} v w (inr (some, known, may)) =
    let (k', e, u) = thread_unblock-Unblocked v w known may in
    (
      k',
      rw (ne→== some) (rw e refl),
      record { sched = u.sched; intr = u.intr; ready = u.ready ∙ sym (rw (ne→== some) refl) },
    )

-- What a byte put in has done.
pub record Put (k : Kernel) (q : Ioqueue) (byte : ℕ) (k' : Kernel) (q' : Ioqueue) : Type 0 where
  pub valid : IsValid q'
  pub bytes : contents q' ≡ contents q ++ (byte ∷ [])
  pub consumer : q'.consumer ≡ 0
  pub producer : q'.producer ≡ q.producer
  pub woken : Woken k q.consumer k'

-- What a byte taken out has done.
pub record Taken (k : Kernel) (q : Ioqueue) (byte : ℕ) (k' : Kernel) (q' : Ioqueue) : Type 0 where
  pub valid : IsValid q'
  pub bytes : contents q ≡ byte ∷ contents q'
  pub producer : q'.producer ≡ 0
  pub consumer : q'.consumer ≡ q.consumer
  pub woken : Woken k q.producer k'

module _ {k : Kernel} (s : IsSched k) (off : k.intr ≡ intr_off) {q : Ioqueue} (v : IsValid q) where
  quiet : is_on k.intr ≡ false
  quiet = rw off refl

  inside : q.tail < length q.buf
  inside = rw v.size v.tail_in

  read-get : read q q.tail ≡ ok (get_or q.buf q.tail 0)
  read-get = rw (read, get_elem?-eq-get_or q.buf q.tail 0 inside) refl

  put_bytes :
      (byte : ℕ)
      → count q ≢ 63
      → window (set q.buf q.head byte) q.tail ((next_pos q.head + 64 - q.tail) % 64)
        ≡ contents q ++ (byte ∷ [])
  put_bytes byte room =
      let more : (next_pos q.head + 64 - q.tail) % 64 ≡ suc (count q) =
        omega (arith, room, v.head_in, v.tail_in) in
      let at : q.head ≡ (q.tail + count q) % 64 = omega (arith, v.head_in, v.tail_in) in
      rw more (window-set q.buf byte (count q) q.tail q.head v.size v.tail_in (omega arith) at)

  taken_bytes :
      count q ≢ 0
      → contents q
        ≡ get_or q.buf q.tail 0
          ∷ window q.buf (next_pos q.tail) ((q.head + 64 - next_pos q.tail) % 64)
  taken_bytes some_byte =
      let less : (q.head + 64 - next_pos q.tail) % 64 ≡ count q - 1 =
        omega (arith, some_byte, v.head_in, v.tail_in) in
      rw less (window_of_pos q.buf q.tail (count q) some_byte)

  -- With interrupts off, `ioq_putchar` appends the byte to the ring and wakes the sleeping consumer
  -- when fewer than 63 bytes wait; when 63 bytes wait it leaves the ring as it is and waits.
  pub ioq_putchar-Put :
      (byte : ℕ)
      → CanWake k q.consumer
      → ((length (contents q) ≡ 63) × (ioq_putchar k q byte ≡ ok (Sent.must_wait, k, q)))
        ⊎ ((length (contents q) ≢ 63)
            × ((k' : Kernel) × (q' : Ioqueue) × (ioq_putchar k q byte ≡ ok (sent, k', q'))
                × Put k q byte k' q'))
  unfolding ioq_putchar ioq_full
  ioq_putchar-Put byte can = elim (ℕ_discrete (count q) 63) [
    | yes at_end ↦ inl (length-window _ _ _ ∙ at_end, rw (quiet, full v, eq→== at_end) refl)
    | no room ↦ inr (
      λ e. room (sym (length-window _ _ _) ∙ e),
      let (k', e, w) = wake_if-Woken s q.consumer can in
          (
            k',
            record q { buf = set q.buf q.head byte; head = next_pos q.head; consumer = 0 },
            rw (quiet, full v, ne→== room) (rw e refl),
            record {
              valid = record {
                size = length-set q.buf q.head byte ∙ v.size;
                head_in = omega arith;
                tail_in = v.tail_in;
              };
              bytes = put_bytes byte room;
              consumer = refl;
              producer = refl;
              woken = w;
            },
          ),
    )
  ]

  -- With interrupts off, `ioq_getchar` takes the oldest byte out of the ring and wakes the sleeping
  -- producer when a byte waits; when none does it leaves the ring as it is and waits.
  pub ioq_getchar-Taken :
      CanWake k q.producer
      → ((contents q ≡ []) × (ioq_getchar k q ≡ ok (Got.must_wait, k, q)))
        ⊎ ((byte : ℕ) × (k' : Kernel) × (q' : Ioqueue) × (ioq_getchar k q ≡ ok (got byte, k', q'))
            × Taken k q byte k' q')
  unfolding ioq_getchar ioq_empty
  ioq_getchar-Taken can = elim (ℕ_discrete (count q) 0) [
    | yes nothing ↦ inl (rw nothing refl, rw (quiet, empty v, eq→== nothing) refl)
    | no some_byte ↦ inr (
        let (k', e, w) = wake_if-Woken s q.producer can in
        (
          get_or q.buf q.tail 0,
          k',
          record q { tail = next_pos q.tail; producer = 0 },
          rw (quiet, empty v, ne→== some_byte, read-get) (rw e refl),
          record {
            valid = record { size = v.size; head_in = v.head_in; tail_in = omega arith };
            bytes = taken_bytes some_byte;
            producer = refl;
            consumer = refl;
            woken = w;
          },
        ))
  ]

-- A new ring over 64 bytes is empty, its lock is free and no task sleeps on it.
pub ioqueue_init_lem :
    (q : Ioqueue)
    → length q.buf ≡ 64
    → IsValid (ioqueue_init q)
      × (contents (ioqueue_init q) ≡ [])
      × ((ioqueue_init q).producer ≡ 0)
      × ((ioqueue_init q).consumer ≡ 0)
      × ((ioqueue_init q).lock ≡ lock_init)
unfolding ioqueue_init
ioqueue_init_lem q size =
    (record { size = size; head_in = omega arith; tail_in = omega arith }, refl, refl, refl, refl)
