-- ===== src/Sync/Reach.antt =====
-- What holds of a lock of thread/sync.c in every state that tasks can reach, in any order of their
-- steps and of clock ticks.
use mathlib.Core.Path.{subst}
use goos.Prelude.{
  ℕ, ◌+◌, ◌^◌, ◌<◌, ◌≡◌, refl, ◌≢◌, [], true, arith, Outcome, ok, panic, if◌then◌else◌, Bool-cases,
  inl, inr,
}
use goos.LinkedList.Distinct.{has}
use goos.Thread.{Kernel}
use goos.Thread.Invariant.{IsSched}
use goos.Sync.{idle, holding, System, Event, lock_init, step}
use goos.Sync.Mutex.{inside}
use goos.Sync.Invariant.{Inv, Result}
use goos.Sync.Safety.{legal, step-Result, step-stops}

-- A lock after `lock_init`, with every task outside its code.
abbrev pub start : Kernel → System
start k = record { kernel = k; lock = lock_init; place = λ _. idle }

module _ (v2p : ℕ → ℕ) (k : Kernel) where
  -- The states that steps lead to, the lock being held fewer than 2 ^ 32 times.
  pub data Reach : System → Type 0 where
    here : Reach (start k)
    later :
        {s s' : System} (e : Event)
        → Reach s
        → s.lock.holder_repeat_cnt + 1 < 2 ^ 32
        → step v2p e s ≡ ok s'
        → Reach s'

  start-Inv : IsSched k → Inv (start k)
  unfolding has
  start-Inv v = record {
    sched = v;
    mutex = record {
      small = omega arith;
      free = λ z t. refl;
      used = λ z. absurd (omega arith);
      one = λ t u h. cc;
      holder_of = λ t h. cc;
      of_holder = λ ne. absurd (ne refl);
      counted = λ t h. cc;
      uncounted = λ z. refl;
    };
    line = record { asleep = λ t h. cc; at = λ t h. cc; known = λ t h. cc; distinct = tt };
  }

  Reach-Inv : IsSched k → {s : System} → Reach s → Inv s
  Reach-Inv v here = start-Inv v
  Reach-Inv v (later {s} {s'} e r small done) =
      let inv = Reach-Inv v r in
      elim (Bool-cases (legal e (s.place s.kernel.current))) [
        | inl on ↦ after (step-Result v2p inv e small on) done
        | inr off ↦ absurd (cc (step-stops v2p inv e off, done))
      ]
    where
      after : {o : Outcome System} → Result s o → o ≡ ok s' → Inv s'
      after (inl (t, same, inv)) done = let e : t ≡ s' = cc (same, done) in subst Inv e inv
      after (inr (stop, _)) done = cc

  -- Mutual exclusion: in every reachable state at most one task is past `sema_down` and short of
  -- `sema_up`, and a task that holds the lock is the one that the lock names as its holder.
  pub mutual_exclusion :
      IsSched k
      → {s : System} → Reach s
      → ((t u : ℕ) → inside (s.place t) ≡ true → inside (s.place u) ≡ true → t ≡ u)
        × ((t : ℕ) → s.place t ≡ holding → s.lock.holder ≡ t)
  mutual_exclusion v r = let m = (Reach-Inv v r).mutex in (m.one, λ t h. m.holder_of t (rw h refl))

  -- Where the assertions of the lock's code fail: in every reachable state each step of the
  -- current task, and the clock's, returns, if a task is ready to take over the processor and the
  -- current task's stack has not overflowed, the lock being held fewer than 2 ^ 32 times; but
  -- `lock_release` by a task that does not hold the lock stops the kernel.
  pub step_returns :
      IsSched k
      → {s : System} → Reach s
      → (e : Event) → s.lock.holder_repeat_cnt + 1 < 2 ^ 32
      → s.kernel.thread_ready_list ≢ []
      → (s.kernel.tasks s.kernel.current).stack_magic ≡ 0x20030621
      → (s' : System) × (step v2p e s
          ≡ (if legal e (s.place s.kernel.current) then ok s' else panic))
  step_returns v {s} r e small some magic =
      let inv = Reach-Inv v r in
      elim (Bool-cases (legal e (s.place s.kernel.current))) [
        | inl on ↦ let (s', same) = returns (step-Result v2p inv e small on) in (s', rw on same)
        | inr off ↦ (s, rw off (step-stops v2p inv e off))
      ]
    where
      returns : {o : Outcome System} → Result s o → (s' : System) × (o ≡ ok s')
      returns (inl (s', same, _)) = (s', same)
      returns (inr (_, inl none)) = absurd (some none)
      returns (inr (_, inr broken)) = absurd (broken magic)
