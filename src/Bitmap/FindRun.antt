-- ===== src/Bitmap/FindRun.antt =====
-- The third loop of `bitmap_scan` in lib/kernel/bitmap.c, over the bits of the whole map.
use goos.Prelude.{
  ℕ, zero, suc, ◌+◌, ◌-◌, ◌≤◌, ◌<◌, ◌≡◌, refl, ap, ◌≢◌, arith, ok, eq→==, ne→==, ℕ_discrete, ◌⊎◌,
  inl, inr,
}
use goos.Bitmap.{Bitmap, not_found, find_run, bitmap_scan_test}
use goos.Bitmap.Laws.{IsValid, bit, bits_len, scan_test-ok, scan_test_iff}

-- The `n` bits from `s` on are clear.
abbrev pub IsFree : Bitmap → (s n : ℕ) → Type 0
IsFree b s n = (k : ℕ) → s ≤ k → k < s + n → bit b k ≡ 0

-- The answer of first fit for `cnt` bits: the least start of a free run, or `not_found`.
pub data FirstFit (b : Bitmap) (cnt r : ℕ) : Type 0 where
  found :
      r + cnt ≤ bits_len b
      → IsFree b r cnt
      → ((s : ℕ) → s < r → ¬ IsFree b s cnt)
      → FirstFit b cnt r
  missing : r ≡ not_found → ((s : ℕ) → s + cnt ≤ bits_len b → ¬ IsFree b s cnt) → FirstFit b cnt r

-- What the third loop knows at `bit_idx = i`: the last `count` bits are free, the bit before them
-- is not, and no run of `cnt` ends at or before `i`.
pub record Scanning (b : Bitmap) (cnt i count : ℕ) : Type 0 where
  pub below : count ≤ i
  pub less : count < cnt
  pub run : IsFree b (i - count) count
  pub edge : (count ≡ i) ⊎ (bit b (i - count - 1) ≡ 1)
  pub earlier : (s : ℕ) → s + cnt ≤ i → ¬ IsFree b s cnt

module _ {b : Bitmap} {cnt i count : ℕ} (c : Scanning b cnt i count) where
  open c use {below, less, run, edge, earlier}

  run_longer : bit b i ≡ 0 → IsFree b (i - count) (suc count)
  run_longer e k lo hi = elim (ℕ_discrete k i) [
    | yes same ↦ rw same e
    | no ne ↦ run k lo (omega arith)
  ]

  Scanning-used : bit b i ≡ 1 → Scanning b cnt (i + 1) 0
  Scanning-used e = record {
    below = omega arith;
    less = omega arith;
    run = λ k lo hi. absurd (omega arith);
    edge = inr (rw (i_again) e);
    earlier = λ s h f. elim (ℕ_discrete (s + cnt) (i + 1)) [
      | yes last ↦ absurd (omega (arith, f i (omega arith) (omega arith)))
      | no ne ↦ earlier s (omega arith) f
    ];
  }
    where
      i_again : i + 1 - 0 - 1 ≡ i
      i_again = omega arith

  Scanning-free : bit b i ≡ 0 → suc count ≢ cnt → Scanning b cnt (i + 1) (suc count)
  Scanning-free e ne = record {
    below = omega arith;
    less = omega arith;
    run = rw same (run_longer e);
    edge = elim edge [ inl all ↦ inl (omega arith) | inr u ↦ inr (rw same u) ];
    earlier = λ s h f. elim (ℕ_discrete (s + cnt) (i + 1)) [
      | yes last ↦ elim edge [
        | inl all ↦ absurd (omega arith)
        | inr u ↦ absurd (omega (arith, f (i - count - 1) (omega arith) (omega arith)))
      ]
      | no other ↦ earlier s (omega arith) f
    ];
  }
    where
      same : i + 1 - suc count ≡ i - count
      same = omega arith

  Scanning-done : bit b i ≡ 0 → suc count ≡ cnt → i < bits_len b → FirstFit b cnt (i + 1 - cnt)
  Scanning-done e full h =
      found (omega arith) (rw (← full, same) (run_longer e)) (λ s lt f. earlier s (omega arith) f)
    where
      same : i + 1 - suc count ≡ i - count
      same = omega arith

bit_cases : (b : Bitmap) (i : ℕ) → (bit b i ≡ 0) ⊎ (bit b i ≡ 1)
bit_cases b i = elim (ℕ_discrete (bit b i) 0) [ yes e ↦ inl e | no ne ↦ inr (omega arith) ]

module _ {b : Bitmap} (v : IsValid b) (cnt : ℕ) where
  -- The test of the third loop, where the bit is known.
  test_free : (i : ℕ) → i < bits_len b → bit b i ≡ 0 → bitmap_scan_test b i ≡ ok 0
  test_free i h e = rw (scan_test-ok v i h, e) (ap ok (omega arith))

  test_used :
      (i : ℕ) → i < bits_len b → bit b i ≡ 1 → (t : ℕ) × (bitmap_scan_test b i ≡ ok t) × (t ≢ 0)
  test_used i h e =
      let (t, p, q) = scan_test_iff v i h in (t, p, λ z. absurd (omega (arith, q.0 z)))

  find_run_used :
      (rounds i count : ℕ)
      → i < bits_len b
      → bit b i ≡ 1
      → 0 < cnt
      → find_run b cnt (suc rounds) i count ≡ find_run b cnt rounds (i + 1) 0
  unfolding find_run
  find_run_used rounds i count h e pos =
      let (t, p, q) = test_used i h e in rw p (rw (ne→== q, ne→== {a = 0} {b = cnt} (omega arith)))

  find_run_free :
      (rounds i count : ℕ)
      → i < bits_len b
      → bit b i ≡ 0
      → suc count ≢ cnt
      → find_run b cnt (suc rounds) i count ≡ find_run b cnt rounds (i + 1) (suc count)
  unfolding find_run
  find_run_free rounds i count h e ne = rw (test_free i h e) (
      rw (ne→== {a = count + 1} {b = cnt} (omega arith))
        (ap (find_run b cnt rounds (i + 1)) (omega arith)))

  find_run_done :
      (rounds i count : ℕ)
      → i < bits_len b
      → bit b i ≡ 0
      → suc count ≡ cnt
      → cnt ≤ i + 1
      → find_run b cnt (suc rounds) i count ≡ ok (i + 1 - cnt)
  unfolding find_run
  find_run_done rounds i count h e full le =
      rw (test_free i h e)
        (rw (eq→== {a = count + 1} {b = cnt} (omega arith)) (ap ok (omega (arith, v.small))))

  pub find_run-FirstFit :
      (rounds i count : ℕ)
      → Scanning b cnt i count
      → i + rounds ≡ bits_len b
      → (r : ℕ) × (find_run b cnt rounds i count ≡ ok r) × FirstFit b cnt r
  find_run-FirstFit zero i count c h =
      (not_found, unfold find_run in refl, missing refl (λ s le f. c.earlier s (omega arith) f))
  find_run-FirstFit (suc rounds) i count c h = elim (bit_cases b i) [
    | inl free ↦ elim (ℕ_discrete (suc count) cnt) [
      | yes full ↦ (
        i + 1 - cnt,
        find_run_done rounds i count (omega arith) free full (omega (arith, c.below)),
        Scanning-done c free full (omega arith),
      )
      | no ne ↦
          rw (find_run_free rounds i count (omega arith) free ne)
            (find_run-FirstFit rounds (i + 1) (suc count) (Scanning-free c free ne) (omega arith))
    ]
    | inr used ↦
        rw (find_run_used rounds i count (omega arith) used (omega (arith, c.less)))
          (find_run-FirstFit rounds (i + 1) 0 (Scanning-used c used) (omega arith))
  ]
