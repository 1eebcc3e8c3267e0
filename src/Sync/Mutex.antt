-- ===== src/Sync/Mutex.antt =====
-- The values of a lock of thread/sync.c against the places of the tasks in its code: one task at
-- most is past `sema_down`, and every step of that task keeps it so.
use goos.Prelude.{ℕ, ◌≤◌, ◌≡◌, ◌≢◌, Bool, true, false, arith, eq→==, ne→==, ℕ_discrete}
use goos.Thread.{put}
use goos.Sync.{Place, idle, waiting, entered, named, holding, unnamed, cleared}

-- Past `sema_down` and not yet through `sema_up`.
abbrev pub inside : Place → Bool
inside idle = false
inside waiting = false
inside _ = true

-- Between the two writes to `plock->holder`.
abbrev pub is_named : Place → Bool
is_named named = true
is_named holding = true
is_named _ = false

-- What the repeat count is, by the place of the task inside.
abbrev pub CountOk : Place → ℕ → Type 0
CountOk holding n = 1 ≤ n
CountOk unnamed n = n ≡ 1
CountOk _ n = n ≡ 0

pub record Mutex (value holder count : ℕ) (place : ℕ → Place) : Type 0 where
  pub small : value ≤ 1
  pub free : value ≡ 1 → (t : ℕ) → inside (place t) ≡ false
  pub used : value ≡ 0 → (t : ℕ) × (inside (place t) ≡ true)
  pub one : (t u : ℕ) → inside (place t) ≡ true → inside (place u) ≡ true → t ≡ u
  pub holder_of : (t : ℕ) → is_named (place t) ≡ true → holder ≡ t
  pub of_holder : holder ≢ 0 → is_named (place holder) ≡ true
  pub counted : (t : ℕ) → inside (place t) ≡ true → CountOk (place t) count
  pub uncounted : value ≡ 1 → count ≡ 0

abbrev pub IsOutside : Place → Type 0
IsOutside p = inside p ≡ false

module _ {value holder count : ℕ} {place : ℕ → Place} (m : Mutex value holder count place)
    (c : ℕ) where
  -- `sema_down` takes the semaphore.
  pub Mutex-taken : value ≡ 1 → IsOutside (place c) → Mutex 0 holder count (put place c entered)
  Mutex-taken v1 out = record {
    small = omega arith;
    free = λ z t. absurd (omega arith);
    used = λ z. (c, ground arith);
    one = λ t u ht hu. ground (arith, m.free v1 t, m.free v1 u);
    holder_of = λ t h. ground (arith, m.free v1 t);
    of_holder = λ ne. ground (arith, m.free v1 holder, m.of_holder ne);
    counted = λ t h. ground (arith, m.free v1 t, m.uncounted v1);
    uncounted = λ z. absurd (omega arith);
  }

  -- `sema_down` blocks.
  pub Mutex-waiting : IsOutside (place c) → Mutex value holder count (put place c waiting)
  Mutex-waiting out = record {
    small = m.small;
    free = λ z t. ground (arith, m.free z t);
    used = λ z. let (t, h) = m.used z in (t, ground arith);
    one = λ t u ht hu. ground (arith, m.one t u);
    holder_of = λ t h. ground (arith, m.holder_of t);
    of_holder = λ ne. ground (arith, m.of_holder ne);
    counted = λ t h. ground (arith, m.counted t);
    uncounted = m.uncounted;
  }

  -- The task inside changes its place, and with it the fields of the lock.
  pub Mutex-moved :
      (p : Place) (holder' count' : ℕ)
      → inside (place c) ≡ true
      → inside p ≡ true
      → (is_named p ≡ true → holder' ≡ c)
      → (holder' ≢ 0 → (holder' ≡ c) × (is_named p ≡ true))
      → CountOk p count'
      → Mutex value holder' count' (put place c p)
  Mutex-moved p holder' count' inn inp hn hh ok = record {
    small = m.small;
    free = λ z. absurd (cc (m.free z c, inn));
    used = λ z. (c, ground arith);
    one = λ t u ht hu. ground (arith, m.one t c, m.one u c);
    holder_of = λ t h. ground (arith, m.one t c);
    of_holder = λ ne. ground (arith, hh ne);
    counted = λ t h. elim (ℕ_discrete c t) [
      | yes e ↦ rw (eq→== e) ok
      | no ne ↦ absurd (ne (m.one c t inn (rw (ne→== ne) at h)))
    ];
    uncounted = λ z. absurd (cc (m.free z c, inn));
  }

  -- `sema_up` frees the semaphore.
  pub Mutex-freed : place c ≡ cleared → Mutex 1 holder count (put place c idle)
  Mutex-freed e = record {
    small = omega arith;
    free = λ z t. ground (arith, m.one t c);
    used = λ z. absurd (omega arith);
    one = λ t u ht hu. ground (arith, m.one t c, m.one u c);
    holder_of = λ t h. ground (arith, m.holder_of t, m.one t c);
    of_holder = λ ne. ground (arith, m.of_holder ne, m.one holder c);
    counted = λ t h. ground (arith, m.one t c);
    uncounted = λ z. ground (arith, m.counted c);
  }
