-- ===== src/Sync/Release.antt =====
-- The end of `lock_release` in thread/sync.c: `sema_up`, which wakes the first task that waits.
use mathlib.Core.Path.{subst}
use goos.Prelude.{
  ℕ, ◌+◌, ◌%◌, ◌^◌, ◌≡◌, refl, ap, ◌∙◌, ◌≢◌, List, [], ◌∷◌, true, false, arith, ℕ_discrete, eq→==,
  ok, inl, inr,
}
use goos.LinkedList.Distinct.{has}
use goos.Thread.{Kernel, put, may_block}
use goos.Thread.Queue.{has-cons, head_not_in_rest}
use goos.Thread.Invariant.{IsSched}
use goos.Thread.Block.{Unblocked, thread_unblock-Unblocked}
use goos.Sync.{Place, idle, cleared, System, quiet, move, wake_first, sema_up, step_release}
use goos.Sync.Mutex.{inside, Mutex-freed}
use goos.Sync.Invariant.{Waiting, Inv, Result, quiet-IsSched, current-not-waiting, Waiting-move}
use goos.Sync.Steps.{list-cases}

-- The waiting list once `sema_up` has woken its first task, and the current task has gone.
Waiting-woken :
    {k k' : Kernel} (t : ℕ) (ts : List ℕ) (place : ℕ → Place)
    → Unblocked k t k'
    → has k.current (t ∷ ts) ≡ false
    → Waiting k (t ∷ ts) place
    → Waiting k' ts (put place k.current idle)
Waiting-woken {k} {k'} t ts place u out w = record {
  asleep = λ a h.
      let was : has a (t ∷ ts) ≡ true = ground (arith, has-cons a t ts) in
      ap (λ task. task.status) (u.others a (other a h)) ∙ w.asleep a was;
  at = λ a h. ground (arith, has-cons a t ts, has-cons k.current t ts, w.at a);
  known = λ a h. ground (arith, u.all, has-cons a t ts, w.known a);
  distinct = w.distinct.1;
}
  where
    other : (a : ℕ) → has a ts ≡ true → a ≢ t
    other a h e = cc (head_not_in_rest t ts w.distinct, h, e)

module _ {s : System} (v : Inv s) where
  abbrev c : ℕ
  c = s.kernel.current

  pub quiet-Waiting :
      {waiters : List ℕ} {place : ℕ → Place}
      → Waiting s.kernel waiters place
      → Waiting (quiet s.kernel) waiters place
  quiet-Waiting w = record { asleep = w.asleep; at = w.at; known = w.known; distinct = w.distinct }

  up-cleared :
      s.place c ≡ cleared
      → (k' : Kernel) (rest : List ℕ)
      → wake_first (quiet s.kernel) s.lock.semaphore.waiters ≡ ok (k', rest)
      → IsSched k'
      → Waiting k' rest (put s.place c idle)
      → Result s (step_release cleared s)
  unfolding step_release sema_up
  up-cleared e k' rest woke sched line =
      let zero : s.lock.semaphore.value ≡ 0 = not_free (ap inside e) in
      inl (
        record (move s idle) {
          kernel = k';
          lock = record s.lock { semaphore = record { value = 1; waiters = rest } };
        },
        rw (eq→== zero, woke) (rw (one_more zero)),
        record { sched = sched; mutex = Mutex-freed v.mutex c e; line = line },
      )
    where
      not_free : inside (s.place c) ≡ true → s.lock.semaphore.value ≡ 0
      not_free inn = elim (ℕ_discrete s.lock.semaphore.value 0) [
        | yes z ↦ z
        | no ne ↦ cc (v.mutex.free (omega (arith, v.mutex.small)) c, inn)
      ]

      one_more : s.lock.semaphore.value ≡ 0 → (s.lock.semaphore.value + 1) % 2 ^ 8 ≡ 1
      one_more z = omega arith

  -- The waiting list and the current task, where the list is known.
  line_as :
      (ws : List ℕ)
      → s.lock.semaphore.waiters ≡ ws
      → Waiting (quiet s.kernel) ws s.place × (has c ws ≡ false)
  line_as ws e = (
    subst (λ l. Waiting (quiet s.kernel) l s.place) e (quiet-Waiting v.line),
    subst (λ l. has c l ≡ false) e (current-not-waiting v),
  )

  pub cleared-Result : s.place c ≡ cleared → Result s (step_release cleared s)
  unfolding wake_first
  cleared-Result e = elim (list-cases s.lock.semaphore.waiters) [
    | inl none ↦
        let (line, out) = line_as [] none in
        up-cleared e (quiet s.kernel) [] (rw none refl) (quiet-IsSched v.sched)
          (Waiting-move (quiet s.kernel) [] s.place idle out line)
    | inr (t, ts, some) ↦
        let (line, out) = line_as (t ∷ ts) some in
        let first : has t (t ∷ ts) ≡ true = rw (has-cons t t ts, eq→== {a = t} refl) in
        let (k', woke, u) =
          thread_unblock-Unblocked (quiet-IsSched v.sched) t (line.known t first)
            (ap may_block (line.asleep t first)) in
        up-cleared e k' ts (rw some (rw woke)) u.sched (Waiting-woken t ts s.place u out line)
  ]
