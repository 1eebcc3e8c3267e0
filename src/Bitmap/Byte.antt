-- ===== src/Bitmap/Byte.antt =====
-- The bit operations of bitmap.c on one byte: what each does to every bit, by evaluation.
use goos.Prelude.{
  ℕ, ◌-◌, ◌*◌, ◌/◌, ◌%◌, ◌^◌, ◌<◌, bit_and, bit_or, ◌≡◌, refl, Bool, true, ◌||◌, not, arith, ◌==◌,
  ==_iff, if◌then◌else◌,
}
use goos.Prelude.Table.{passes, test_of_passes, test_of_passes_two}

-- Bit `k` of `x`, 0 or 1.
abbrev pub bit_of : (x k : ℕ) → ℕ
bit_of x k = x / 2 ^ k % 2

test_check : ℕ → ℕ → Bool
test_check x k = bit_and x (2 ^ k) == bit_of x k * 2 ^ k

test_table : passes (λ x. passes (test_check x) 8) 256 ≡ true
unfolding test_check passes
test_table = refl

pub bit_and_test : (x k : ℕ) → x < 256 → k < 8 → bit_and x (2 ^ k) ≡ bit_of x k * 2 ^ k
unfolding test_check
bit_and_test x k hx hk = (==_iff _ _).0 (test_of_passes_two test_check 256 8 test_table x k hx hk)

-- Setting or clearing bit `k` leaves the other bits of the byte as they were.
set_check_at : ℕ → ℕ → ℕ → Bool
set_check_at x k j = (bit_of (bit_or x (2 ^ k) % 2 ^ 8) j == (if k == j then 1 else bit_of x j))

set_check : ℕ → ℕ → Bool
unfolding passes set_check_at
set_check x k = passes (set_check_at x k) 8

set_table : passes (λ x. passes (set_check x) 8) 256 ≡ true
unfolding set_check passes
set_table = refl

pub bit_of-set :
    (x k j : ℕ)
    → x < 256
    → k < 8
    → j < 8
    → bit_of (bit_or x (2 ^ k) % 2 ^ 8) j ≡ (if k == j then 1 else bit_of x j)
unfolding set_check
bit_of-set x k j hx hk hj = (==_iff _ _).0 (
    test_of_passes (set_check_at x k) 8 (test_of_passes_two set_check 256 8 set_table x k hx hk) j
      hj)

clear_check_at : ℕ → ℕ → ℕ → Bool
clear_check_at x k j =
    (bit_of (bit_and x (2 ^ 32 - 1 - 2 ^ k) % 2 ^ 8) j == (if k == j then 0 else bit_of x j))

clear_check : ℕ → ℕ → Bool
unfolding passes clear_check_at
clear_check x k = passes (clear_check_at x k) 8

clear_table : passes (λ x. passes (clear_check x) 8) 256 ≡ true
unfolding clear_check passes
clear_table = refl

pub bit_of-clear :
    (x k j : ℕ)
    → x < 256
    → k < 8
    → j < 8
    → bit_of (bit_and x (2 ^ 32 - 1 - 2 ^ k) % 2 ^ 8) j ≡ (if k == j then 0 else bit_of x j)
unfolding clear_check
bit_of-clear x k j hx hk hj = (==_iff _ _).0 (
    test_of_passes (clear_check_at x k) 8
      (test_of_passes_two clear_check 256 8 clear_table x k hx hk) j hj)

-- A byte other than 0xff has a clear bit; in 0xff every bit is set.
full_check : ℕ → Bool
unfolding passes
full_check x = (x == 0xff) || not (passes (λ k. bit_of x k == 1) 8)

full_table : passes full_check 256 ≡ true
unfolding full_check passes
full_table = refl

pub full_of_all_set :
    (x : ℕ) → x < 256 → passes (λ k. bit_of x k == 1) 8 ≡ true → (x == 0xff) ≡ true
unfolding full_check
full_of_all_set x hx h = ground (arith, test_of_passes full_check 256 full_table x hx)

pub bit_of_full : (k : ℕ) → k < 8 → bit_of 0xff k ≡ 1
unfolding passes
bit_of_full k h = (==_iff _ _).0 (test_of_passes (λ k. bit_of 0xff k == 1) 8 refl k h)
