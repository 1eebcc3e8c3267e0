-- ===== src/Memory/Ranges.antt =====
-- The loops of kernel/memory.c that write one value to a range of bits.
use goos.Prelude.{
  ℕ, zero, suc, ◌+◌, ◌≤◌, ◌<◌, ◌≡◌, refl, ap, ◌∙◌, Bool, arith, ok, if◌then◌else◌, ltb, leb, ◌&&◌,
  add32,
}
use goos.Bitmap.{Bitmap}
use goos.Bitmap.Laws.{IsValid, bit, bits_len, bitmap_set_lem}
use goos.Memory.{set_bits}

abbrev pub inside : (i n j : ℕ) → Bool
inside i n j = leb i j && ltb j (i + n)

-- The `n` bits from `i` on have the value, every other bit is as it was.
pub record Filled (b : Bitmap) (i n value : ℕ) (b' : Bitmap) : Type 0 where
  pub valid : IsValid b'
  pub len : b'.btmp_bytes_len ≡ b.btmp_bytes_len
  pub bits : (j : ℕ) → bit b' j ≡ (if inside i n j then value else bit b j)

pub set_bits-Filled :
    (b : Bitmap)
    → IsValid b
    → (i n value : ℕ) → i + n ≤ bits_len b
    → value < 2
    → (b' : Bitmap) × (set_bits b i n value ≡ ok b') × Filled b i n value b'
unfolding set_bits
set_bits-Filled b v i zero value h hv =
    (b, refl, record { valid = v; len = refl; bits = λ j. ground arith })
set_bits-Filled b v i (suc n) value h hv =
    let (b₁, e₁, w₁) = bitmap_set_lem v i value (omega arith) hv in
    let next : add32 i 1 ≡ i + 1 = omega (arith, v.small) in
    let (b₂, e₂, w₂) = set_bits-Filled b₁ w₁.valid (i + 1) n value (omega (arith, w₁.len)) hv in
    (
      b₂,
      rw e₁ (ap (λ k. set_bits b₁ k n value) next ∙ e₂),
      record {
        valid = w₂.valid;
        len = w₂.len ∙ w₁.len;
        bits = λ j. ground (arith, w₂.bits j, w₁.bits j);
      },
    )
