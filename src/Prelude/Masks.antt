-- ===== src/Prelude/Masks.antt =====
-- `&` and `|` of numbers that are cut at the same bit: the two halves do not meet. Masks that keep
-- the high or the low bits of an address are instances.
use Prim.Native.Nat.{
  ℕ, zero, suc, ◌+◌, ◌-◌, ◌*◌, ◌/◌, ◌%◌, ◌^◌, ◌≤◌, ◌<◌, min, max, digits, bit_and, bit_or,
  bit_and-bitwise, bit_or-bitwise,
}
use mathlib.Core.Path.{◌≡◌, refl, sym, ap, ap₂, ◌∙◌}
use native.Mathlib.Nat.{pow-suc, one-le-pow, mod-lt, div-add-mod'}
use native.Mathlib.Omega.{arith}

-- The count of digits to go has no say once it is large enough.
module _ (z : ℕ → ℕ) (f : ℕ → ℕ → ℕ) where
  spent : (n b : ℕ) → digits z f n zero b ≡ z b
  spent zero b = refl
  spent (suc n) b = refl

  digits_count : (a b n m : ℕ) → a ≤ n → a ≤ m → digits z f n a b ≡ digits z f m a b
  digits_count zero b n m p q = spent n b ∙ sym (spent m b)
  digits_count (suc a) b zero m p q = elim p [ ]
  digits_count (suc a) b (suc n) zero p q = elim q [ ]
  digits_count (suc a) b (suc n) (suc m) p q =
      ap (λ d. d * 2 + f (suc a % 2) (b % 2))
        (digits_count (suc a / 2) (b / 2) n m (omega arith) (omega arith))

-- The lowest digit apart.
and_digit : (a b : ℕ) → bit_and a b ≡ bit_and (a / 2) (b / 2) * 2 + min (a % 2) (b % 2)
and_digit zero b = simp bit_and-bitwise (omega arith)
and_digit (suc a) b =
    let rest =
      digits_count (λ _. 0) min (suc a / 2) (b / 2) a (suc a / 2) (omega arith) (omega arith) in
    simp bit_and-bitwise (omega (arith, rest))

or_digit : (a b : ℕ) → bit_or a b ≡ bit_or (a / 2) (b / 2) * 2 + max (a % 2) (b % 2)
or_digit zero b = simp bit_or-bitwise (omega arith)
or_digit (suc a) b =
    let rest =
      digits_count (λ y. y) max (suc a / 2) (b / 2) a (suc a / 2) (omega arith) (omega arith) in
    simp bit_or-bitwise (omega (arith, rest))

and_digits_zero : (n a : ℕ) → digits (λ _. 0) min n a 0 ≡ 0
and_digits_zero zero a = refl
and_digits_zero (suc n) zero = refl
and_digits_zero (suc n) (suc a) = omega (arith, and_digits_zero n (suc a / 2))

pub bit_and_zero : (a : ℕ) → bit_and a 0 ≡ 0
bit_and_zero a = simp bit_and-bitwise (and_digits_zero a a)

double_pow : (q k : ℕ) → q * 2 ^ suc k ≡ q * 2 ^ k * 2
double_pow q k = omega (arith, ap (λ (t : ℕ). q * t) (pow-suc 2 k))

half_lt : (b k : ℕ) → b < 2 ^ suc k → b / 2 < 2 ^ k
half_lt b k h = omega (arith, pow-suc 2 k)

cut_half : (a b k : ℕ) → (a * 2 ^ suc k + b) / 2 ≡ a * 2 ^ k + b / 2
cut_half a b k = omega (arith, double_pow a k)

cut_digit : (a b k : ℕ) → (a * 2 ^ suc k + b) % 2 ≡ b % 2
cut_digit a b k = omega (arith, double_pow a k)

cut_none : (a b : ℕ) → b < 2 ^ 0 → a * 2 ^ 0 + b ≡ a
cut_none a b h = omega arith

module _ (k a b c d : ℕ) where
  cut_and :
      bit_and (a * 2 ^ k + b / 2) (c * 2 ^ k + d / 2)
        ≡ bit_and a c * 2 ^ k + bit_and (b / 2) (d / 2)
      → bit_and (a * 2 ^ suc k + b) (c * 2 ^ suc k + d) ≡ bit_and a c * 2 ^ suc k + bit_and b d
  cut_and ih =
      and_digit (a * 2 ^ suc k + b) (c * 2 ^ suc k + d)
      ∙ rw (cut_half a b k, cut_half c d k, cut_digit a b k, cut_digit c d k, ih)
          (omega (arith, and_digit b d, double_pow (bit_and a c) k))

  cut_or :
      bit_or (a * 2 ^ k + b / 2) (c * 2 ^ k + d / 2) ≡ bit_or a c * 2 ^ k + bit_or (b / 2) (d / 2)
      → bit_or (a * 2 ^ suc k + b) (c * 2 ^ suc k + d) ≡ bit_or a c * 2 ^ suc k + bit_or b d
  cut_or ih =
      or_digit (a * 2 ^ suc k + b) (c * 2 ^ suc k + d)
      ∙ rw (cut_half a b k, cut_half c d k, cut_digit a b k, cut_digit c d k, ih)
          (omega (arith, or_digit b d, double_pow (bit_or a c) k))

pub bit_and_halves :
    (k a b c d : ℕ)
    → b < 2 ^ k
    → d < 2 ^ k
    → bit_and (a * 2 ^ k + b) (c * 2 ^ k + d) ≡ bit_and a c * 2 ^ k + bit_and b d
bit_and_halves zero a b c d hb hd =
    let eb : b ≡ 0 = omega arith in
    let ed : d ≡ 0 = omega arith in
    ap₂ bit_and (cut_none a b hb) (cut_none c d hd) ∙ rw (eb, ed) (omega arith)
bit_and_halves (suc k) a b c d hb hd =
    cut_and k a b c d (bit_and_halves k a (b / 2) c (d / 2) (half_lt b k hb) (half_lt d k hd))

pub bit_or_halves :
    (k a b c d : ℕ)
    → b < 2 ^ k
    → d < 2 ^ k
    → bit_or (a * 2 ^ k + b) (c * 2 ^ k + d) ≡ bit_or a c * 2 ^ k + bit_or b d
bit_or_halves zero a b c d hb hd =
    let eb : b ≡ 0 = omega arith in
    let ed : d ≡ 0 = omega arith in
    ap₂ bit_or (cut_none a b hb) (cut_none c d hd) ∙ rw (eb, ed) (omega arith)
bit_or_halves (suc k) a b c d hb hd =
    cut_or k a b c d (bit_or_halves k a (b / 2) c (d / 2) (half_lt b k hb) (half_lt d k hd))

-- A mask of `k` ones on a number of `k` digits.
pub bit_and_ones : (k a : ℕ) → a < 2 ^ k → bit_and a (2 ^ k - 1) ≡ a
bit_and_ones zero a h = let e : a ≡ 0 = omega arith in rw e refl
bit_and_ones (suc k) a h =
    let half : a / 2 < 2 ^ k = omega (arith, pow-suc 2 k) in
    let mask : (2 ^ suc k - 1) / 2 ≡ 2 ^ k - 1 = omega (arith, pow-suc 2 k, one-le-pow k 2) in
    let odd : (2 ^ suc k - 1) % 2 ≡ 1 = omega (arith, pow-suc 2 k, one-le-pow k 2) in
    and_digit a (2 ^ suc k - 1) ∙ rw (mask, odd, bit_and_ones k (a / 2) half) (omega arith)

or_digits_zero : (n a : ℕ) → a ≤ n → digits (λ y. y) max n a 0 ≡ a
or_digits_zero zero a h = omega arith
or_digits_zero (suc n) zero h = refl
or_digits_zero (suc n) (suc a) h = omega (arith, or_digits_zero n (suc a / 2) (omega arith))

pub bit_or_zero : (a : ℕ) → bit_or a 0 ≡ a
bit_or_zero a = simp bit_or-bitwise (or_digits_zero a a (omega arith))

zero_bit_or : (b : ℕ) → bit_or 0 b ≡ b
zero_bit_or b = simp bit_or-bitwise

parts : (k a : ℕ) → a ≡ a / 2 ^ k * 2 ^ k + a % 2 ^ k
parts k a = sym (div-add-mod' a (2 ^ k))

low_part : (k a : ℕ) → a % 2 ^ k < 2 ^ k
low_part k a = mod-lt a (one-le-pow k 2 (omega arith))

-- A mask of the `k` lowest digits.
pub bit_and_low : (k a : ℕ) → bit_and a (2 ^ k - 1) ≡ a % 2 ^ k
bit_and_low k a =
    let pos : 0 < 2 ^ k = one-le-pow k 2 (omega arith) in
    let cut =
      bit_and_halves k (a / 2 ^ k) (a % 2 ^ k) 0 (2 ^ k - 1) (low_part k a) (omega (arith, pos)) in
    ap₂ bit_and (parts k a) (omega arith)
    ∙ cut
    ∙ rw (bit_and_zero (a / 2 ^ k), bit_and_ones k (a % 2 ^ k) (low_part k a)) (omega arith)

-- A mask of the `j` digits above the `k` lowest.
pub bit_and_high :
    (j k a : ℕ) → a / 2 ^ k < 2 ^ j → bit_and a ((2 ^ j - 1) * 2 ^ k) ≡ a / 2 ^ k * 2 ^ k
bit_and_high j k a h =
    let pos : 0 < 2 ^ k = one-le-pow k 2 (omega arith) in
    let cut = bit_and_halves k (a / 2 ^ k) (a % 2 ^ k) (2 ^ j - 1) 0 (low_part k a) pos in
    ap₂ bit_and (parts k a) (omega arith)
    ∙ cut
    ∙ rw (bit_and_zero (a % 2 ^ k), bit_and_ones j (a / 2 ^ k) h) (omega arith)

-- A mask of `j` digits in the middle.
pub bit_and_field : (j k a : ℕ) → bit_and a ((2 ^ j - 1) * 2 ^ k) ≡ a / 2 ^ k % 2 ^ j * 2 ^ k
bit_and_field j k a =
    let pos : 0 < 2 ^ k = one-le-pow k 2 (omega arith) in
    let cut = bit_and_halves k (a / 2 ^ k) (a % 2 ^ k) (2 ^ j - 1) 0 (low_part k a) pos in
    ap₂ bit_and (parts k a) (omega arith)
    ∙ cut
    ∙ rw (bit_and_zero (a % 2 ^ k), bit_and_low j (a / 2 ^ k)) (omega arith)

-- Flags in the `k` lowest digits, where the number has none.
pub bit_or_flags : (k a d : ℕ) → d < 2 ^ k → bit_or (a * 2 ^ k) d ≡ a * 2 ^ k + d
bit_or_flags k a d h =
    let pos : 0 < 2 ^ k = one-le-pow k 2 (omega arith) in
    let high : a * 2 ^ k ≡ a * 2 ^ k + 0 = omega arith in
    let low : d ≡ 0 * 2 ^ k + d = omega arith in
    ap₂ bit_or high low ∙ bit_or_halves k a 0 0 d pos h ∙ rw (bit_or_zero a, zero_bit_or d) refl
