-- ===== src/Prelude/Table.antt =====
-- Facts about small numbers, by evaluation at each of them: a test of all the numbers below a bound.
use Prim.Native.Nat.{ℕ, zero, suc, ◌<◌}
use mathlib.Core.Path.{◌≡◌, refl}
use mathlib.Core.Bool.{Bool, true, ◌&&◌}
use native.Mathlib.Decide.{ℕ_discrete}
use native.Mathlib.Omega.{arith}

unfoldable pub passes : (test : ℕ → Bool) (bound : ℕ) → Bool
passes test zero = true
passes test (suc bound) = passes test bound && test bound

module _ (test : ℕ → Bool) where
  pub test_of_passes : (bound : ℕ) → passes test bound ≡ true → (x : ℕ) → x < bound → test x ≡ true
  unfolding passes
  test_of_passes zero e x lt = elim lt [ ]
  test_of_passes (suc bound) e x lt = elim (ℕ_discrete x bound) [
    | yes last ↦ rw last (ground arith)
    | no earlier ↦ test_of_passes bound (ground arith) x (omega arith)
  ]

  pub passes_of_test :
      (bound : ℕ) → ((x : ℕ) → x < bound → test x ≡ true) → passes test bound ≡ true
  unfolding passes
  passes_of_test zero all = refl
  passes_of_test (suc bound) all =
      rw (passes_of_test bound (λ x lt. all x (omega arith))) (all bound (omega arith))

-- Two ranges at once.
pub test_of_passes_two :
    (test : ℕ → ℕ → Bool) (n m : ℕ)
    → passes (λ a. passes (test a) m) n ≡ true
    → (x y : ℕ) → x < n
    → y < m
    → test x y ≡ true
test_of_passes_two test n m e x y hx hy =
    test_of_passes (test x) m (test_of_passes (λ a. passes (test a) m) n e x hx) y hy
