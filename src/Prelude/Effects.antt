-- ===== src/Prelude/Effects.antt =====
-- What a call of the kernel's code can end in. `panic` is `panic_spin` of kernel/debug.c, which
-- ASSERT and PANIC call and which never returns; `fault` is an access outside the object that the
-- code works on, or through NULL; `hang` is a loop that has not ended within its fuel.
use mathlib.Core.Bool.{Bool, true, false}

pub data Outcome {ℓ} (A : Type ℓ) : Type ℓ where
  ok : A → Outcome A
  panic : Outcome A
  fault : Outcome A
  hang : Outcome A

infixl 5 ◌>>=◌ ◌>>◌
abbrev pub ◌>>=◌ {ℓ κ} : {A : Type ℓ} {B : Type κ} → Outcome A → (A → Outcome B) → Outcome B
ok a >>= f = f a
panic >>= f = panic
fault >>= f = fault
hang >>= f = hang

abbrev pub ◌>>◌ {ℓ} : {B : Type ℓ} → Outcome (Unit {0}) → Outcome B → Outcome B
m >> k = m >>= λ _. k

-- `ASSERT(test)` of kernel/debug.h. The makefile does not define NDEBUG, so it is compiled in.
abbrev pub assert : Bool → Outcome (Unit {0})
assert true = ok tt
assert false = panic
