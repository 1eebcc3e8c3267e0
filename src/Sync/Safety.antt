-- ===== src/Sync/Safety.antt =====
-- No interleaving of tasks in the code of one lock of thread/sync.c breaks the lock: mutual
-- exclusion, and an assertion of that code fails only where a task releases a lock it does not hold.
use mathlib.Core.Path.{subst}
use goos.Prelude.{
  ℕ, ◌+◌, ◌-◌, ◌%◌, ◌^◌, ◌≤◌, ◌<◌, ◌≡◌, refl, sym, ap, ◌∙◌, ◌≢◌, List, Bool, panic, true, false,
  arith, ℕ_discrete, eq→==, ne→==, inl, inr, dec_lt, lt→ltb, not-lt→ltb,
}
use goos.Thread.{Kernel, may_block}
use goos.Thread.Timer.{Ticked, timer-Ticked, timer-panic}
use goos.Sync.{
  Place, idle, waiting, entered, named, holding, unnamed, cleared, System, Event, acquire, release,
  tick, move, enter, leave, step_acquire, step_release, step,
}
use goos.Sync.Mutex.{inside, is_named, CountOk, Mutex-moved}
use goos.Sync.Invariant.{Waiting, Inv, Result, quiet-IsSched, current-ne-null, moved-Inv}
use goos.Sync.Release.{quiet-Waiting, cleared-Result}
use goos.Sync.Steps.{down-Result}

named_inside : (p : Place) → is_named p ≡ true → inside p ≡ true
named_inside named h = refl
named_inside holding h = refl
named_inside p h = cc

-- A tick leaves the tasks that wait as they are.
Waiting-Ticked :
    {k k' : Kernel} (waiters : List ℕ) (place : ℕ → Place)
    → Ticked k k'
    → Waiting k waiters place
    → Waiting k' waiters place
Waiting-Ticked {k} {k'} waiters place u w = record {
  asleep =
      λ a h. ap (λ task. task.status) (u.asleep a (ap may_block (w.asleep a h))) ∙ w.asleep a h;
  at = w.at;
  known = λ a h. ground (arith, u.all, w.known a);
  distinct = w.distinct;
}

-- A task may go on with `lock_release` only where it holds the lock.
abbrev pub legal : Event → Place → Bool
legal release holding = true
legal release unnamed = true
legal release cleared = true
legal release _ = false
legal _ _ = true

-- Of the places, only those of the code that comes next.
module _ (v2p : ℕ → ℕ) {s : System} (v : Inv s) where
  abbrev c : ℕ
  c = s.kernel.current

  -- A task outside is not the holder.
  holder-ne : inside (s.place c) ≡ false → s.lock.holder ≢ c
  holder-ne out e =
      let h = v.mutex.of_holder (λ z. current-ne-null v.sched (sym e ∙ z)) in
      cc (named_inside (s.place s.lock.holder) h, out, e)

  holder-elsewhere : is_named (s.place c) ≡ false → s.lock.holder ≢ c
  holder-elsewhere out e =
      let h = v.mutex.of_holder (λ z. current-ne-null v.sched (sym e ∙ z)) in
      cc (h, ap (λ t. is_named (s.place t)) e, out)

  -- The head of `lock_release` stops a task that is not the holder.
  leave-elsewhere : is_named (s.place c) ≡ false → leave s ≡ panic
  unfolding leave
  leave-elsewhere out = rw (ne→== (holder-elsewhere out)) refl

  -- Nor does it let a task pass that is the holder, but has not set the repeat count yet.
  leave-named : s.place c ≡ named → leave s ≡ panic
  unfolding leave
  leave-named e =
      let mine : s.lock.holder ≡ c = v.mutex.holder_of c (rw e refl) in
      let zero : s.lock.holder_repeat_cnt ≡ 0 =
        subst (λ q. CountOk q s.lock.holder_repeat_cnt) e (v.mutex.counted c (rw e refl)) in
      rw (eq→== mine) (rw zero refl)

  enter-outside : inside (s.place c) ≡ false → Result s (enter v2p s)
  unfolding enter
  enter-outside out = rw (ne→== (holder-ne out)) (down-Result v2p v out)

  -- While the lock is held, its count may change.
  counted-Inv :
      (n : ℕ)
      → s.place c ≡ holding
      → 1 ≤ n
      → Inv (record s { lock = record s.lock { holder_repeat_cnt = n } })
  counted-Inv n e pos = record {
    sched = v.sched;
    mutex = record {
      small = v.mutex.small;
      free = v.mutex.free;
      used = v.mutex.used;
      one = v.mutex.one;
      holder_of = v.mutex.holder_of;
      of_holder = v.mutex.of_holder;
      counted = λ t h.
          let same : t ≡ c = v.mutex.one t c h (rw e refl) in
          subst (λ p. CountOk p n) (sym (ap s.place same ∙ e)) pos;
      uncounted = λ z. absurd (cc (v.mutex.free z c, e));
    };
    line = v.line;
  }

  enter-holding :
      s.place c ≡ holding → s.lock.holder_repeat_cnt + 1 < 2 ^ 32 → Result s (enter v2p s)
  unfolding enter
  enter-holding e small =
      let mine : s.lock.holder ≡ c = v.mutex.holder_of c (rw e refl) in
      inl (
        record s {
          lock = record s.lock { holder_repeat_cnt = (s.lock.holder_repeat_cnt + 1) % 2 ^ 32 };
        },
        rw (eq→== mine),
        counted-Inv ((s.lock.holder_repeat_cnt + 1) % 2 ^ 32) e (omega arith),
      )

  leave-holding : s.place c ≡ holding → Result s (leave s)
  unfolding leave
  leave-holding e =
      let mine : s.lock.holder ≡ c = v.mutex.holder_of c (rw e refl) in
      let pos : 1 ≤ s.lock.holder_repeat_cnt =
        subst (λ p. CountOk p s.lock.holder_repeat_cnt) e (v.mutex.counted c (rw e refl)) in
      elim (dec_lt 1 s.lock.holder_repeat_cnt) [
        | yes more ↦ inl (
          record s { lock = record s.lock { holder_repeat_cnt = s.lock.holder_repeat_cnt - 1 } },
          rw (eq→== mine) (rw (lt→ltb _ _ more)),
          counted-Inv (s.lock.holder_repeat_cnt - 1) e (omega arith),
        )
        | no last ↦
            let one : s.lock.holder_repeat_cnt ≡ 1 = omega arith in
            inl (
              record (move s unnamed) { lock = record s.lock { holder = 0 } },
              rw (eq→== mine)
                  (rw (not-lt→ltb 1 s.lock.holder_repeat_cnt (omega arith)) (rw (eq→== one))),
              moved-Inv v unnamed 0 s.lock.holder_repeat_cnt (
                  Mutex-moved v.mutex c unnamed 0 s.lock.holder_repeat_cnt (rw e refl) refl
                    (λ q. cc) (λ ne. absurd (ne refl)) one),
            )
      ]

  -- Each step of `lock_acquire`, by the place at which the current task stands.
  acquire-Result :
      (p : Place)
      → s.place c ≡ p
      → s.lock.holder_repeat_cnt + 1 < 2 ^ 32
      → Result s (step_acquire v2p p s)
  unfolding step_acquire
  acquire-Result idle e small = enter-outside (rw e refl)
  acquire-Result waiting e small = down-Result v2p v (rw e refl)
  acquire-Result entered e small = inl (
    record (move s named) { lock = record s.lock { holder = c } },
    refl,
    moved-Inv v named c s.lock.holder_repeat_cnt (
        Mutex-moved v.mutex c named c s.lock.holder_repeat_cnt (rw e refl) refl (λ _. refl)
          (λ _. (refl, refl))
          (subst (λ q. CountOk q s.lock.holder_repeat_cnt) e (v.mutex.counted c (rw e refl)))),
  )
  acquire-Result named e small =
      let zero : s.lock.holder_repeat_cnt ≡ 0 =
        subst (λ q. CountOk q s.lock.holder_repeat_cnt) e (v.mutex.counted c (rw e refl)) in
      let mine : s.lock.holder ≡ c = v.mutex.holder_of c (rw e refl) in
      inl (
        record (move s holding) { lock = record s.lock { holder_repeat_cnt = 1 } },
        rw (eq→== zero),
        moved-Inv v holding s.lock.holder 1 (
            Mutex-moved v.mutex c holding s.lock.holder 1 (rw e refl) refl (λ _. mine)
              (λ _. (mine, refl)) (omega arith)),
      )
  acquire-Result holding e small = enter-holding e small
  acquire-Result unnamed e small = inl (s, refl, v)
  acquire-Result cleared e small = inl (s, refl, v)

  no_holder : s.place c ≡ unnamed → s.lock.holder ≢ 0 → ⊥
  no_holder e ne =
      let h = v.mutex.of_holder ne in
      let same : s.lock.holder ≡ c = v.mutex.one s.lock.holder c (named_inside _ h) (rw e refl) in
      let none : is_named (s.place s.lock.holder) ≡ false = ap is_named (ap s.place same ∙ e) in
      cc (h, none)

  -- Each step of `lock_release`.
  release-Result :
      (p : Place) → s.place c ≡ p → legal release p ≡ true → Result s (step_release p s)
  unfolding step_release
  release-Result holding e on = leave-holding e
  release-Result unnamed e on = inl (
    record (move s cleared) { lock = record s.lock { holder_repeat_cnt = 0 } },
    refl,
    moved-Inv v cleared s.lock.holder 0 (
        Mutex-moved v.mutex c cleared s.lock.holder 0 (rw e refl) refl (λ q. cc)
          (λ ne. absurd (no_holder e ne)) refl),
  )
  release-Result cleared e on = cleared-Result v e
  release-Result p e on = cc

  release-stops : (p : Place) → s.place c ≡ p → legal release p ≡ false → step_release p s ≡ panic
  unfolding step_release
  release-stops idle e off = leave-elsewhere (rw e refl)
  release-stops waiting e off = leave-elsewhere (rw e refl)
  release-stops entered e off = leave-elsewhere (rw e refl)
  release-stops named e off = leave-named e
  release-stops p e off = cc

  tick-Result : Result s (step v2p tick s)
  unfolding step
  tick-Result = elim (ℕ_discrete (s.kernel.tasks c).stack_magic 0x20030621) [
    | yes magic ↦
        let (k', e, u) = timer-Ticked v2p (quiet-IsSched v.sched) refl magic in
        inl (
          record s { kernel = k' },
          rw e,
          record {
            sched = u.sched;
            mutex = v.mutex;
            line = Waiting-Ticked s.lock.semaphore.waiters s.place u (quiet-Waiting v v.line);
          },
        )
    | no broken ↦ inr (rw (timer-panic v2p (quiet-IsSched v.sched) refl broken), inr broken)
  ]

  -- From a state in which the invariant holds, every legal step returns and the invariant holds again;
  -- or the kernel stops, and that only because no task is ready to take over the processor, or
  -- because the current task's stack has overflowed. The lock is held fewer than 2 ^ 32 times.
  pub step-Result :
      (e : Event)
      → s.lock.holder_repeat_cnt + 1 < 2 ^ 32
      → legal e (s.place c) ≡ true
      → Result s (step v2p e s)
  unfolding step
  step-Result acquire small on = acquire-Result (s.place c) refl small
  step-Result release small on = release-Result (s.place c) refl on
  step-Result tick small on = tick-Result

  -- A step that is not legal stops the kernel.
  pub step-stops : (e : Event) → legal e (s.place c) ≡ false → step v2p e s ≡ panic
  unfolding step
  step-stops release off = release-stops (s.place c) refl off
  step-stops acquire off = cc
  step-stops tick off = cc
