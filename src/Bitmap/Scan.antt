-- ===== src/Bitmap/Scan.antt =====
-- `bitmap_scan` of lib/kernel/bitmap.c is first fit.
use goos.Prelude.{
  not-lt→ltb, lt→ltb, not-le→leb, add32, mul32, dec_lt, ==_iff, ℕ, zero, suc, ◌+◌, ◌-◌, ◌*◌, ◌/◌,
  ◌%◌, ◌^◌, ◌≤◌, ◌<◌, ◌≡◌, refl, ◌≢◌, arith, ok, panic, ◌==◌, eq→==, ne→==, ℕ_discrete, inl, inr,
}
use goos.Bitmap.{Bitmap, skip_full, first_zero, bitmap_scan}
use goos.Bitmap.Byte.{bit_of, bit_and_test, bit_of_full, full_of_all_set}
use goos.Prelude.Table.{passes_of_test}
use goos.Bitmap.Laws.{IsValid, bit, bits_len, byte_at, times_pow_iff, read_byte-ok}
use goos.Bitmap.FindRun.{FirstFit, Scanning, find_run-FirstFit}

-- Every bit before `n` is in use.
abbrev pub UsedBelow : Bitmap → (n : ℕ) → Type 0
UsedBelow b n = (k : ℕ) → k < n → bit b k ≡ 1

UsedBelow-byte :
    (b : Bitmap) (i k : ℕ)
    → UsedBelow b (8 * i)
    → ((j : ℕ) → j < k → bit_of (byte_at b i) j ≡ 1)
    → k ≤ 8
    → UsedBelow b (8 * i + k)
UsedBelow-byte b i k low high le j lt = elim (dec_lt j (8 * i)) [
  | yes h ↦ low j h
  | no h ↦ let q : j / 8 ≡ i = omega arith in rw q (high (j % 8) (omega arith))
]

module _ {b : Bitmap} (v : IsValid b) where
  -- Where the first loop stops: at the end, or at a byte with a clear bit.
  record Skipped (r : ℕ) : Type 0 where
    within : r ≤ b.btmp_bytes_len
    before : UsedBelow b (8 * r)
    stop : r < b.btmp_bytes_len → byte_at b r ≢ 0xff

  skip_full-Skipped :
      (rounds i : ℕ)
      → i + rounds ≡ b.btmp_bytes_len
      → UsedBelow b (8 * i)
      → (r : ℕ) × (skip_full b rounds i ≡ ok r) × Skipped r
  unfolding skip_full
  skip_full-Skipped zero i h used =
      (i, refl, record { within = omega arith; before = used; stop = λ lt. absurd (omega arith) })
  skip_full-Skipped (suc rounds) i h used = elim (ℕ_discrete (byte_at b i) 0xff) [
    | yes full ↦
        rw (read_byte-ok v i (omega arith))
          (rw (eq→== full) (skip_full-Skipped rounds (i + 1) (omega arith) (more full)))
    | no ne ↦
        rw (read_byte-ok v i (omega arith))
          (rw (ne→== ne) (i, refl, record { within = omega arith; before = used; stop = λ lt. ne }))
  ]
    where
      more : byte_at b i ≡ 0xff → UsedBelow b (8 * (i + 1))
      more full k lt =
          UsedBelow-byte b i 8 used (λ j hj. rw full (bit_of_full j hj)) (omega arith) k
            (omega arith)

-- The second loop finds the lowest clear bit of a byte other than 0xff.
record LowestZero (x k : ℕ) : Type 0 where
  in_byte : k < 8
  clear : bit_of x k ≡ 0
  below : (j : ℕ) → j < k → bit_of x j ≡ 1

module _ {x : ℕ} (byte : x < 256) (ne : x ≢ 0xff) where
  not_all_set : ((j : ℕ) → j < 8 → bit_of x j ≡ 1) → ⊥
  not_all_set h = ne (
      (==_iff x 0xff).0
        (full_of_all_set x byte (passes_of_test (λ k. bit_of x k == 1) 8 (λ j hj. eq→== (h j hj)))))

  first_zero-LowestZero :
      (rounds off : ℕ)
      → off + rounds ≡ 9
      → ((j : ℕ) → j < off → bit_of x j ≡ 1)
      → (k : ℕ) × (first_zero x rounds off ≡ ok k) × LowestZero x k
  unfolding first_zero
  first_zero-LowestZero zero off h low = absurd (not_all_set λ j hj. low j (omega arith))
  first_zero-LowestZero (suc rounds) off h low = elim (dec_lt off 8) [
    | yes lt ↦ elim (ℕ_discrete (bit_of x off) 0) [
      | yes z ↦ rw (bit_and_test x off byte lt) (
          rw (z, eq→== {a = 0 * 2 ^ off} {b = 0} (omega arith))
            (off, refl, record { in_byte = lt; clear = z; below = low }))
      | no nz ↦ rw (bit_and_test x off byte lt) (
          rw (ne→== (λ e. nz ((times_pow_iff (bit_of x off) off).0 e)))
            (first_zero-LowestZero rounds (off + 1) (omega arith) (λ j hj. next nz j hj)))
    ]
    | no ge ↦ absurd (not_all_set λ j hj. low j (omega arith))
  ]
    where
      next : bit_of x off ≢ 0 → (j : ℕ) → j < off + 1 → bit_of x j ≡ 1
      next nz j hj = elim (ℕ_discrete j off) [
        | yes e ↦ rw e (omega arith)
        | no other ↦ low j (omega arith)
      ]

Scanning-start : (b : Bitmap) (cnt i : ℕ) → 0 < cnt → UsedBelow b i → Scanning b cnt i 0
Scanning-start b cnt i pos used = record {
  below = omega arith;
  less = pos;
  run = λ k lo hi. absurd (omega arith);
  edge = elim (ℕ_discrete 0 i) [ yes e ↦ inl e | no ne ↦ inr (used (i - 0 - 1) (omega arith)) ];
  earlier = λ s h f. absurd (omega (arith, used s (omega arith), f s (omega arith) (omega arith)));
}

module _ {b : Bitmap} (v : IsValid b) where
  -- A byte at which the first loop stops has a clear bit.
  not_all_used : (r : ℕ) → byte_at b r ≢ 0xff → ¬ UsedBelow b (8 * r + 8)
  not_all_used r ne used = not_all_set (v.byte r) ne λ j hj. at (8 * r + j) j refl hj
    where
      at : (i j : ℕ) → 8 * r + j ≡ i → j < 8 → bit_of (byte_at b r) j ≡ 1
      at i j e hj =
          let q : i / 8 ≡ r = omega arith in
          let m : i % 8 ≡ j = omega arith in rw (← q, ← m) (used i (omega arith))

  -- If every bit is set, `bitmap_scan` stops at its assertion; its `return -1` there is never
  -- reached.
  pub bitmap_scan-full : (cnt : ℕ) → UsedBelow b (bits_len b) → bitmap_scan b cnt ≡ panic
  unfolding bitmap_scan
  bitmap_scan-full cnt used =
      let (r, e, s) =
        skip_full-Skipped v b.btmp_bytes_len 0 (omega arith) (λ k lt. absurd (omega arith)) in
      elim (dec_lt r b.btmp_bytes_len) [
        | yes lt ↦ absurd (not_all_used r (s.stop lt) (λ k h. used k (omega arith)))
        | no ge ↦ rw e (rw (not-lt→ltb r b.btmp_bytes_len (omega arith)))
      ]

  -- If a bit is clear, `bitmap_scan` for `cnt` bits returns, and its answer is the least start of
  -- `cnt` clear bits in a row, or -1 where there is none.
  pub bitmap_scan-FirstFit :
      (cnt i : ℕ)
      → 0 < cnt
      → i < bits_len b
      → bit b i ≡ 0
      → (r : ℕ) × (bitmap_scan b cnt ≡ ok r) × FirstFit b cnt r
  unfolding bitmap_scan
  bitmap_scan-FirstFit cnt i pos h free =
      let (r, e, s) =
        skip_full-Skipped v b.btmp_bytes_len 0 (omega arith) (λ k lt. absurd (omega arith)) in
      elim (dec_lt r b.btmp_bytes_len) [
        | yes lt ↦
            let (k, e', z) =
              first_zero-LowestZero (v.byte r) (s.stop lt) 9 0 refl
                (λ j hj. absurd (omega arith)) in
            let at : add32 (mul32 r 8) k ≡ 8 * r + k = omega (arith, v.small, z.in_byte) in
            let len : mul32 b.btmp_bytes_len 8 ≡ bits_len b = omega (arith, v.small) in
            rw e (
              rw (lt→ltb r b.btmp_bytes_len lt, not-le→leb b.btmp_bytes_len r lt)
                (rw (read_byte-ok v r lt) (
                  rw e' (
                    rw (at, len)
                      (find_run-FirstFit v cnt (bits_len b - (8 * r + k)) (8 * r + k) 0
                        (Scanning-start b cnt (8 * r + k) pos
                          (UsedBelow-byte b r k s.before z.below (omega (arith, z.in_byte))))
                        (omega (arith, z.in_byte)))))))
        | no ge ↦ absurd (omega (arith, s.before i (omega arith)))
      ]
