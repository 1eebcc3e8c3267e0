-- ===== src/Bitmap/Laws.antt =====
-- lib/kernel/bitmap.c read as an array of bits: what `bitmap_init`, `bitmap_scan_test` and
-- `bitmap_set` do to each bit.
use native.Mathlib.Nat.{pow-suc}
use goos.Prelude.{
  eq→==, ne→==, ◌∙◌, ℕ_discrete, ℕ, zero, suc, ◌-◌, ◌*◌, ◌/◌, ◌%◌, ◌^◌, ◌≤◌, ◌<◌, bit_and, bit_or,
  ◌≡◌, refl, ap, ◌≢◌, ◌↔◌, false, List, arith, ok, panic, fault, ◌==◌, if◌then◌else◌, length,
  get_or, set, length-set, length-replicate, get_or-set_self, get_or-set_ne, get_elem?-eq-get_or,
  get_elem?-eq-none, get_or-replicate,
}
use goos.Bitmap.{Bitmap, read_byte, bitmap_init, bitmap_scan_test, bitmap_set}
use goos.Bitmap.Byte.{bit_of, bit_and_test, bit_of-set, bit_of-clear}

-- The array has the bytes that the length says, each below 256, and the bits can be counted in an
-- `int`.
pub record IsValid (b : Bitmap) : Type 0 where
  pub size : length b.bits ≡ b.btmp_bytes_len
  pub byte : (i : ℕ) → get_or b.bits i 0 < 256
  pub small : 8 * b.btmp_bytes_len < 2 ^ 31

abbrev pub byte_at : Bitmap → ℕ → ℕ
byte_at b i = get_or b.bits i 0

-- Bit `i` of the array, 0 or 1; 0 outside it.
abbrev pub bit : Bitmap → ℕ → ℕ
bit b i = bit_of (byte_at b (i / 8)) (i % 8)

abbrev pub bits_len : Bitmap → ℕ
bits_len b = 8 * b.btmp_bytes_len

module _ {b : Bitmap} (v : IsValid b) where
  pub read_byte-ok : (i : ℕ) → i < b.btmp_bytes_len → read_byte b i ≡ ok (byte_at b i)
  unfolding read_byte
  read_byte-ok i h = rw (read_byte, get_elem?-eq-get_or b.bits i 0 (omega (arith, v.size)))

  pub read_byte-fault : (i : ℕ) → b.btmp_bytes_len ≤ i → read_byte b i ≡ fault
  unfolding read_byte
  read_byte-fault i h = rw (read_byte, get_elem?-eq-none b.bits i (omega (arith, v.size)))

  pub scan_test-ok : (i : ℕ) → i < bits_len b → bitmap_scan_test b i ≡ ok (bit b i * 2 ^ (i % 8))
  unfolding bitmap_scan_test
  scan_test-ok i h =
      rw (read_byte-ok (i / 8) (omega arith))
        (ap ok (bit_and_test (byte_at b (i / 8)) (i % 8) (v.byte (i / 8)) (omega arith)))

-- A fresh bitmap is valid and has no bit set.
module _ (b : Bitmap) (small : 8 * b.btmp_bytes_len < 2 ^ 31) where
  pub bit-bitmap_init : (i : ℕ) → bit (bitmap_init b) i ≡ 0
  unfolding bitmap_init
  bit-bitmap_init i = rw (get_or-replicate {A = ℕ} b.btmp_bytes_len (i / 8) 0) (omega arith)

  pub bitmap_init-IsValid : IsValid (bitmap_init b)
  unfolding bitmap_init
  bitmap_init-IsValid = record {
    size = length-replicate b.btmp_bytes_len 0;
    byte = λ i. rw (get_or-replicate {A = ℕ} b.btmp_bytes_len i 0) (omega arith);
    small = small;
  }

get_or-set :
    (xs : List ℕ) (i j v : ℕ)
    → i < length xs
    → get_or (set xs i v) j 0 ≡ (if i == j then v else get_or xs j 0)
get_or-set xs i j v h = elim (ℕ_discrete i j) [
  | yes e ↦ ground (arith, get_or-set_self xs i v 0 h)
  | no ne ↦ ground (arith, get_or-set_ne xs i j v 0 ne)
]

-- The byte that `bitmap_set` writes.
abbrev new_byte : (x k value : ℕ) → ℕ
new_byte x k value =
    if value == 0 then bit_and x (2 ^ 32 - 1 - 2 ^ k) % 2 ^ 8 else bit_or x (2 ^ k) % 2 ^ 8

bit_of-new_byte :
    (x k value j : ℕ)
    → x < 256
    → k < 8
    → value < 2
    → j < 8
    → bit_of (new_byte x k value) j ≡ (if k == j then value else bit_of x j)
bit_of-new_byte x k value j hx hk hv hj =
    ground (arith, bit_of-set x k j hx hk hj, bit_of-clear x k j hx hk hj)

module _ {b : Bitmap} (v : IsValid b) (i value : ℕ) where
  abbrev written : Bitmap
  written = record b { bits = set b.bits (i / 8) (new_byte (byte_at b (i / 8)) (i % 8) value) }

  bitmap_set-written : i < bits_len b → value < 2 → bitmap_set b i value ≡ ok written
  unfolding bitmap_set
  bitmap_set-written h hv = elim (ℕ_discrete value 0) [
    | yes e ↦ rw (e, read_byte-ok v (i / 8) (omega arith))
    | no ne ↦ let e : value ≡ 1 = omega arith in rw (e, read_byte-ok v (i / 8) (omega arith))
  ]

  byte_at-written :
      (j : ℕ)
      → i < bits_len b
      → byte_at written j
        ≡ (if (i / 8) == j then new_byte (byte_at b (i / 8)) (i % 8) value else byte_at b j)
  byte_at-written j h = get_or-set b.bits (i / 8) j _ (omega (arith, v.size))

  new_byte-lt : new_byte (byte_at b (i / 8)) (i % 8) value < 256
  new_byte-lt = ground arith

  written-IsValid : i < bits_len b → IsValid written
  written-IsValid h = record {
    size = length-set b.bits (i / 8) _ ∙ v.size;
    byte = λ j. ground (arith, byte_at-written j h, new_byte-lt, v.byte j);
    small = v.small;
  }

  bit-written :
      i < bits_len b → value < 2 → (j : ℕ) → bit written j ≡ (if i == j then value else bit b j)
  bit-written h hv j = elim (ℕ_discrete (i / 8) (j / 8)) [
    | yes e ↦
        rw (byte_at-written (j / 8) h, eq→== e)
          (rw
            (bit_of-new_byte (byte_at b (i / 8)) (i % 8) value (j % 8) (v.byte _) (omega arith) hv
              (omega arith))
            (same_byte e))
    | no ne ↦ rw (byte_at-written (j / 8) h, ne→== ne, not_same_bit ne)
  ]
    where
      not_same_bit : i / 8 ≢ j / 8 → (i == j) ≡ false
      not_same_bit ne = ne→== (λ e. ne (omega arith))

      same_byte :
          i / 8 ≡ j / 8
          → (if (i % 8) == (j % 8) then value else bit_of (byte_at b (i / 8)) (j % 8))
            ≡ (if i == j then value else bit b j)
      same_byte e = elim (ℕ_discrete i j) [
        | yes same ↦ rw (eq→== same, eq→== {a = i % 8} {b = j % 8} (omega arith))
        | no ne ↦ rw (ne→== ne, ne→== {a = i % 8} {b = j % 8} (omega arith), e)
      ]

-- What a `bitmap_set` that returns has done: one bit has the value, the others are as they were.
pub record Written (b : Bitmap) (i value : ℕ) (b' : Bitmap) : Type 0 where
  pub valid : IsValid b'
  pub len : b'.btmp_bytes_len ≡ b.btmp_bytes_len
  pub bits : (j : ℕ) → bit b' j ≡ (if i == j then value else bit b j)

module _ {b : Bitmap} (v : IsValid b) (i value : ℕ) where
  -- Within the array, `bitmap_set` with 0 or 1 returns, the bit then has that value, every other
  -- bit is as it was, and the bitmap stays valid with its length.
  pub bitmap_set_lem :
      i < bits_len b
      → value < 2
      → (b' : Bitmap) × (bitmap_set b i value ≡ ok b') × Written b i value b'
  bitmap_set_lem h hv = (
    written v i value,
    bitmap_set-written v i value h hv,
    record { valid = written-IsValid v i value h; len = refl; bits = bit-written v i value h hv },
  )

  -- Outside the array the byte that `bitmap_set` changes is not the bitmap's; another value than
  -- 0 and 1 stops at the assertion.
  pub bitmap_set_errors :
      (bits_len b ≤ i → value < 2 → bitmap_set b i value ≡ fault)
      × (1 < value → bitmap_set b i value ≡ panic)
  unfolding bitmap_set
  bitmap_set_errors = (
    (λ h hv. elim (ℕ_discrete value 0) [
      | yes e ↦ rw (e, read_byte-fault v (i / 8) (omega arith))
      | no ne ↦ let e : value ≡ 1 = omega arith in rw (e, read_byte-fault v (i / 8) (omega arith))
    ]),
    λ h. rw (ne→== {a = value} {b = 0} (omega arith), ne→== {a = value} {b = 1} (omega arith)),
  )

pow_pos : (k : ℕ) → 0 < 2 ^ k
pow_pos zero = omega arith
pow_pos (suc k) = rw (pow-suc 2 k) (omega (arith, pow_pos k))

pub times_pow_iff : (x k : ℕ) → (x * 2 ^ k ≡ 0) ↔ (x ≡ 0)
times_pow_iff x k = grind (arith, pow_pos k)

-- `bitmap_scan_test` reads the bit: within the array it returns, and its result is 0 just when
-- the bit is clear.
pub scan_test_iff :
    {b : Bitmap}
    → IsValid b
    → (i : ℕ) → i < bits_len b
    → (t : ℕ) × (bitmap_scan_test b i ≡ ok t) × ((t ≡ 0) ↔ (bit b i ≡ 0))
scan_test_iff {b} v i h =
    (bit b i * 2 ^ (i % 8), scan_test-ok v i h, times_pow_iff (bit b i) (i % 8))
