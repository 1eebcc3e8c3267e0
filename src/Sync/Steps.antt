-- ===== src/Sync/Steps.antt =====
-- Each step of the code of thread/sync.c, from a state in which the invariant holds.
use goos.Prelude.{
  ℕ, ◌+◌, ◌-◌, ◌%◌, ◌^◌, ◌≡◌, refl, sym, ap, ◌∙◌, ◌≢◌, List, [], ◌∷◌, ◌++◌, true, false, arith,
  ◌==◌, ℕ_discrete, eq→==, ok, panic, ◌⊎◌, inl, inr,
}
use goos.LinkedList.Distinct.{has}
use goos.Thread.{Kernel, put, status_of, task_blocked}
use goos.Thread.Queue.{has-cons, has-snoc, Distinct-snoc}
use goos.Thread.Invariant.{IsSched}
use goos.Thread.Block.{Blocked, thread_block-Blocked, thread_block-panic}
use goos.Sync.{Place, waiting, entered, System, quiet, move, sema_down_round, down}
use goos.Sync.Mutex.{inside, Mutex-taken, Mutex-waiting}
use goos.Sync.Invariant.{Waiting, Inv, Result, quiet-IsSched, current-not-waiting, Waiting-move}

pub list-cases : (xs : List ℕ) → (xs ≡ []) ⊎ ((y : ℕ) × (ys : List ℕ) × (xs ≡ y ∷ ys))
list-cases [] = inl refl
list-cases (y ∷ ys) = inr (y, ys, refl)

-- The first task in line is not blocked.
not_next :
    {k : Kernel} {x : ℕ} {xs : List ℕ}
    → IsSched k
    → k.thread_ready_list ≡ x ∷ xs
    → (t : ℕ) → status_of k t ≡ task_blocked
    → t ≢ x
not_next {k} {x} {xs} v line t asleep e =
    cc (v.switching.ready t (rw line (rw (has-cons t x xs, eq→== (sym e)))), asleep)

-- The waiting list once the current task has put itself at its end and blocked.
Waiting-Blocked :
    {k k' : Kernel} {x : ℕ} {xs : List ℕ} (waiters : List ℕ) (place : ℕ → Place)
    → IsSched k
    → k.thread_ready_list ≡ x ∷ xs
    → Blocked k task_blocked x xs k'
    → has k.current waiters ≡ false
    → Waiting k waiters place
    → Waiting k' (waiters ++ (k.current ∷ [])) (put place k.current waiting)
Waiting-Blocked {k} {k'} {x} {xs} waiters place v line b out w = record {
  asleep = λ t h. elim (ℕ_discrete t k.current) [
    | yes e ↦ rw e b.status
    | no ne ↦
        let was : has t waiters ≡ true =
          ground (arith, has-snoc t k.current waiters, λ (q : k.current ≡ t). ne (sym q)) in
        ap (λ task. task.status) (b.others t ne (not_next v line t (w.asleep t was)))
        ∙ w.asleep t was
  ];
  at = λ t h. ground (arith, w.at t, has-snoc t k.current waiters);
  known = λ t h.
      ground (arith, b.all, w.known t, v.switching.current_known, has-snoc t k.current waiters);
  distinct = Distinct-snoc k.current waiters out w.distinct;
}

module _ (v2p : ℕ → ℕ) {s : System} (v : Inv s) where
  abbrev c : ℕ
  c = s.kernel.current

  -- The state after `sema_down` has taken the semaphore.
  abbrev down_taken : System
  down_taken = record (move s entered) {
    kernel = quiet s.kernel;
    lock = record s.lock { semaphore = record s.lock.semaphore { value = 0 } };
  }

  down-taken : s.lock.semaphore.value ≡ 1 → inside (s.place c) ≡ false → down v2p s ≡ ok down_taken
  unfolding down sema_down_round
  down-taken one out =
      let nonzero : (s.lock.semaphore.value == 0) ≡ false = rw one in
      let less : (s.lock.semaphore.value + 2 ^ 8 - 1) % 2 ^ 8 ≡ 0 = omega arith in
      rw (nonzero, less)

  down_taken-Inv : s.lock.semaphore.value ≡ 1 → inside (s.place c) ≡ false → Inv down_taken
  down_taken-Inv one out = record {
    sched = quiet-IsSched v.sched;
    mutex = Mutex-taken v.mutex c one out;
    line =
        Waiting-move (quiet s.kernel) s.lock.semaphore.waiters s.place entered
          (current-not-waiting v)
          (record {
            asleep = v.line.asleep;
            at = v.line.at;
            known = v.line.known;
            distinct = v.line.distinct;
          });
  }

  down-blocked :
      {x : ℕ} {xs : List ℕ}
      → s.lock.semaphore.value ≡ 0
      → inside (s.place c) ≡ false
      → s.kernel.thread_ready_list ≡ x ∷ xs
      → (s' : System) × (down v2p s ≡ ok s') × Inv s'
  unfolding down sema_down_round
  down-blocked {x} {xs} zero out line =
      let (k', e, b) =
        thread_block-Blocked v2p (quiet-IsSched v.sched) task_blocked x xs refl line in
      (
        record (move s waiting) {
          kernel = k';
          lock = record s.lock {
            semaphore = record s.lock.semaphore { waiters = s.lock.semaphore.waiters ++ (c ∷ []) };
          };
        },
        rw (eq→== zero, current-not-waiting v, e),
        record {
          sched = b.sched;
          mutex = Mutex-waiting v.mutex c out;
          line =
              Waiting-Blocked s.lock.semaphore.waiters s.place (quiet-IsSched v.sched) line b
                (current-not-waiting v)
                (record {
                  asleep = v.line.asleep;
                  at = v.line.at;
                  known = v.line.known;
                  distinct = v.line.distinct;
                });
        },
      )

  down-stopped : s.lock.semaphore.value ≡ 0 → s.kernel.thread_ready_list ≡ [] → down v2p s ≡ panic
  unfolding down sema_down_round
  down-stopped zero none = rw (
    eq→== zero,
    current-not-waiting v,
    thread_block-panic v2p (quiet-IsSched v.sched) task_blocked (inr none),
  )

  pub down-Result : inside (s.place c) ≡ false → Result s (down v2p s)
  down-Result out = elim (ℕ_discrete s.lock.semaphore.value 0) [
    | yes zero ↦ elim (list-cases s.kernel.thread_ready_list) [
      | inl none ↦ inr (down-stopped zero none, inl none)
      | inr (x, xs, line) ↦ inl (down-blocked zero out line)
    ]
    | no ne ↦
        let one : s.lock.semaphore.value ≡ 1 = omega (arith, v.mutex.small) in
        inl (down_taken, down-taken one out, down_taken-Inv one out)
  ]
