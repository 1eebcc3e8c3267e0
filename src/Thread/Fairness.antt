-- ===== src/Thread/Fairness.antt =====
-- The clock of device/timer.c serves every task in line: how many ticks a ready task waits.
use mathlib.Core.Path.{ap₂}
use mathlib.Core.List.{append_assoc}
use goos.Prelude.{
  ℕ, zero, suc, ◌+◌, ◌≡◌, refl, sym, ap, ◌∙◌, ◌≢◌, List, [], ◌∷◌, ◌++◌, true, arith, ok, panic,
  fault, hang, Outcome, ℕ_discrete, ◌≤◌, ◌>>=◌, eq→==, ne→==,
}
use goos.Interrupt.{intr_off}
use goos.LinkedList.Distinct.{has}
use goos.Thread.{Kernel, task_running, task_ready, status_of, intr_timer_handler}
use goos.Thread.Queue.{has-append, has-cons}
use goos.Thread.Invariant.{IsSched}
use goos.Thread.Timer.{Ticked, timer-Ticked}

-- The clock ticks `n` times, and no task calls the scheduler.
unfoldable pub ticks_on : (ℕ → ℕ) → (n : ℕ) → Kernel → Outcome Kernel
ticks_on v2p zero k = ok k
ticks_on v2p (suc n) k = do k' ← intr_timer_handler v2p k; ticks_on v2p n k'

-- The ticks that the tasks of a list have left, and one more for each, at which it is switched away
-- from.
abbrev pub slices : Kernel → List ℕ → ℕ
slices k [] = 0
slices k (t ∷ ts) = (k.tasks t).ticks + 1 + slices k ts

-- The clock interrupts tasks whose stacks have not overflowed.
pub record IsTicking (k : Kernel) : Type 0 where
  pub sched : IsSched k
  pub off : k.intr ≡ intr_off
  pub stacks_intact : (t : ℕ) → (k.tasks t).stack_magic ≡ 0x20030621

Ticked-IsTicking : {k k' : Kernel} → IsTicking k → Ticked k k' → IsTicking k'
Ticked-IsTicking v w = record {
  sched = w.sched;
  off = w.intr ∙ v.off;
  stacks_intact = λ t. w.stacks_intact t ∙ v.stacks_intact t;
}

-- What a whole slice has done: the current task is last in line, and the slices of the others are kept.
record SliceDone (k k' : Kernel) : Type 0 where
  ticking : IsTicking k'
  line : k'.current ∷ k'.thread_ready_list ≡ k.thread_ready_list ++ (k.current ∷ [])
  kept : (t : ℕ) → t ≢ k.current → (k'.tasks t).ticks ≡ (k.tasks t).ticks

head_of : {x y : ℕ} {xs ys : List ℕ} → x ∷ xs ≡ y ∷ ys → x ≡ y
head_of e = cc

tail_of : {x y : ℕ} {xs ys : List ℕ} → x ∷ xs ≡ y ∷ ys → xs ≡ ys
tail_of e = cc

slice_done :
    (v2p : ℕ → ℕ) (n : ℕ) (k : Kernel)
    → IsTicking k
    → (k.tasks k.current).ticks ≡ n
    → (k' : Kernel) × (ticks_on v2p (suc n) k ≡ ok k') × SliceDone k k'
unfolding ticks_on
slice_done v2p zero k v e =
    let (k', run, w) = timer-Ticked v2p v.sched v.off (v.stacks_intact k.current) in
    (
      k',
      rw run refl,
      record { ticking = Ticked-IsTicking v w; line = w.line ∙ rw (eq→== e) refl; kept = w.slices },
    )
slice_done v2p (suc n) k v e =
    let (k₁, run, w) = timer-Ticked v2p v.sched v.off (v.stacks_intact k.current) in
    let more : (k.tasks k.current).ticks ≢ 0 = omega (arith, e) in
    let line : k₁.current ∷ k₁.thread_ready_list ≡ k.current ∷ k.thread_ready_list =
      w.line ∙ rw (ne→== more) refl in
    let same : k₁.current ≡ k.current = head_of line in
    let left : (k₁.tasks k₁.current).ticks ≡ n =
      ap (λ t. (k₁.tasks t).ticks) same ∙ w.slice ∙ rw (ne→== more) (omega (arith, e)) in
    let (k', run', d) = slice_done v2p n k₁ (Ticked-IsTicking v w) left in
    (
      k',
      rw run run',
      record {
        ticking = d.ticking;
        line = d.line ∙ ap₂ (λ xs x. xs ++ (x ∷ [])) (tail_of line) same;
        kept = λ t other. d.kept t (λ q. other (q ∙ same)) ∙ w.slices t other;
      },
    )

bind_same :
    {A : Type 0} (o : Outcome A) (f g : A → Outcome A) (h : A → Outcome A) (b : A)
    → ((a : A) → g a ≡ ok b → f a ≡ h b)
    → (o >>= g) ≡ ok b
    → (o >>= f) ≡ h b
bind_same (ok a) f g h b step e = step a e
bind_same panic f g h b step e = cc
bind_same fault f g h b step e = cc
bind_same hang f g h b step e = cc

ticks_on-add :
    (v2p : ℕ → ℕ) (a b : ℕ) (k k₁ : Kernel)
    → ticks_on v2p a k ≡ ok k₁
    → ticks_on v2p (a + b) k ≡ ticks_on v2p b k₁
unfolding ticks_on
ticks_on-add v2p zero b k k₁ e =
    let none : 0 + b ≡ b = omega arith in
    ap (λ n. ticks_on v2p n k) none ∙ ap (λ r. r >>= ticks_on v2p b) e
ticks_on-add v2p (suc a) b k k₁ e =
    let one : suc a + b ≡ suc (a + b) = omega arith in
    ap (λ n. ticks_on v2p n k) one
    ∙ bind_same (intr_timer_handler v2p k) (ticks_on v2p (a + b)) (ticks_on v2p a) (ticks_on v2p b)
        k₁ (λ k' e'. ticks_on-add v2p a b k' k₁ e') e

slices-kept :
    (k k' : Kernel) (xs : List ℕ)
    → ((t : ℕ) → has t xs ≡ true → (k'.tasks t).ticks ≡ (k.tasks t).ticks)
    → slices k' xs ≡ slices k xs
unfolding has
slices-kept k k' [] kept = refl
slices-kept k k' (x ∷ xs) kept =
    let here = kept x (ground arith) in
    let rest = slices-kept k k' xs (λ t h. kept t (ground (arith, h))) in omega (arith, here, rest)

-- A task in line is not the one that runs.
ready-ne-current :
    {k : Kernel} → IsSched k → (t : ℕ) → has t k.thread_ready_list ≡ true → t ≢ k.current
ready-ne-current v t h e = cc (v.switching.ready t h, v.running, e)

served_after :
    (v2p : ℕ → ℕ) (ahead : List ℕ) (t : ℕ) (behind : List ℕ) (k : Kernel)
    → IsTicking k
    → k.thread_ready_list ≡ ahead ++ (t ∷ behind)
    → (k' : Kernel) × (ticks_on v2p ((k.tasks k.current).ticks + 1 + slices k ahead) k ≡ ok k')
      × (k'.current ≡ t)
      × IsTicking k'
served_after v2p [] t behind k v e =
    let (k', run, d) = slice_done v2p (k.tasks k.current).ticks k v refl in
    (
      k',
      ap (λ n. ticks_on v2p n k) (omega arith) ∙ run,
      head_of (d.line ∙ ap (λ xs. xs ++ (k.current ∷ [])) e),
      d.ticking,
    )
served_after v2p (u ∷ ahead) t behind k v e =
    let (k₁, run, d) = slice_done v2p (k.tasks k.current).ticks k v refl in
    let line = d.line ∙ ap (λ xs. xs ++ (k.current ∷ [])) e in
    let ready = tail_of line ∙ append_assoc ahead (t ∷ behind) (k.current ∷ []) in
    let (k', run', now, ticking) =
      served_after v2p ahead t (behind ++ (k.current ∷ [])) k₁ d.ticking ready in
    let in_line : (x : ℕ) → has x (u ∷ ahead) ≡ true → has x k.thread_ready_list ≡ true =
      λ x h. ap (has x) e ∙ has-append x (u ∷ ahead) (t ∷ behind) ∙ ground (arith, h) in
    let kept : (x : ℕ) → has x (u ∷ ahead) ≡ true → (k₁.tasks x).ticks ≡ (k.tasks x).ticks =
      λ x h. d.kept x (ready-ne-current v.sched x (in_line x h)) in
    let first : (k₁.tasks k₁.current).ticks ≡ (k.tasks u).ticks =
      ap (λ x. (k₁.tasks x).ticks) (head_of line) ∙ kept u (has-cons u u ahead ∙ ground arith) in
    let others = slices-kept k k₁ ahead (λ x h. kept x (has-cons x u ahead ∙ ground (arith, h))) in
    (
      k',
      ap (λ n. ticks_on v2p n k) (omega (arith, first, others))
          ∙ ticks_on-add v2p (suc (k.tasks k.current).ticks)
              ((k₁.tasks k₁.current).ticks + 1 + slices k₁ ahead) k k₁ run
          ∙ run',
      now,
      ticking,
    )

has-split :
    (t : ℕ) (xs : List ℕ) → has t xs ≡ true → (ahead behind : List ℕ) × (xs ≡ ahead ++ (t ∷ behind))
unfolding has
has-split t [] h = cc
has-split t (x ∷ xs) h = elim (ℕ_discrete x t) [
  | yes e ↦ ([], xs, ap (λ y. y ∷ xs) e)
  | no ne ↦
      let (ahead, behind, e) = has-split t xs (ground (arith, h, ne)) in
      (x ∷ ahead, behind, ap (λ ys. x ∷ ys) e)
]

slices-append : (k : Kernel) (xs ys : List ℕ) → slices k (xs ++ ys) ≡ slices k xs + slices k ys
slices-append k [] ys = omega arith
slices-append k (x ∷ xs) ys = omega (arith, slices-append k xs ys)

-- Every READY task gets the processor: if interrupts are off, the invariant of the scheduler holds, no
-- stack has overflowed and nothing but the clock calls the scheduler, then it runs after a number of
-- ticks that is at most the sum of what the current task and those in line have left of their slices,
-- with one tick more for each of them. The handler returns at each of these ticks.
pub ready_task_runs :
    (v2p : ℕ → ℕ) (k : Kernel) (t : ℕ)
    → IsTicking k
    → has t k.thread_all_list ≡ true
    → status_of k t ≡ task_ready
    → (n : ℕ) × (k' : Kernel) × (n ≤ slices k (k.current ∷ k.thread_ready_list))
      × (ticks_on v2p n k ≡ ok k')
      × (k'.current ≡ t)
      × (status_of k' t ≡ task_running)
ready_task_runs v2p k t v known ready =
    let (ahead, behind, line) =
      has-split t k.thread_ready_list (v.sched.switching.queued t known ready) in
    let (k', run, now, ticking) = served_after v2p ahead t behind k v line in
    let all = ap (slices k) line ∙ slices-append k ahead (t ∷ behind) in
    (
      (k.tasks k.current).ticks + 1 + slices k ahead,
      k',
      omega (arith, all),
      run,
      now,
      ap (status_of k') (sym now) ∙ ticking.sched.running,
    )
