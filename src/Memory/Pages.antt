-- ===== src/Memory/Pages.antt =====
-- `palloc` and `pfree` of kernel/memory.c: the pages of a physical pool.
use goos.Prelude.{
  ℕ, ◌+◌, ◌*◌, ◌/◌, ◌^◌, ◌≤◌, ◌<◌, ◌≡◌, ◌≢◌, refl, ap, arith, ok, panic, ◌==◌, ne→==, if◌then◌else◌,
  le→leb, not-le→leb, add32, sub32, mul32,
}
use goos.Bitmap.{Bitmap, not_found}
use goos.Bitmap.Laws.{IsValid, bit, bits_len, bitmap_set_lem}
use goos.Bitmap.FindRun.{found, missing, IsFree}
use goos.Bitmap.Scan.{UsedBelow, bitmap_scan-FirstFit, bitmap_scan-full}
use goos.Memory.{MemPool, Memory, pg_size, palloc, pfree, free_page}

-- A pool whose pages have addresses below 2 ^ 32, none of them NULL.
pub record IsPool (p : MemPool) : Type 0 where
  pub valid : IsValid p.mem_pool_bitmap
  pub start : 0 < p.phy_addr_start
  pub fits : p.phy_addr_start + bits_len p.mem_pool_bitmap * 4096 < 2 ^ 32

-- Page `i` of the pool is in use, or not.
abbrev pub used : MemPool → (i : ℕ) → ℕ
used p i = bit p.mem_pool_bitmap i

abbrev pub pages : MemPool → ℕ
pages p = bits_len p.mem_pool_bitmap

-- What taking page `i` at address `a` has done.
pub record PageTaken (p : MemPool) (i a : ℕ) (p' : MemPool) : Type 0 where
  pub pool : IsPool p'
  pub inside : i < pages p
  pub free : used p i ≡ 0
  pub lowest : (j : ℕ) → j < i → used p j ≡ 1
  pub address : a ≡ p.phy_addr_start + i * 4096
  pub start : p'.phy_addr_start ≡ p.phy_addr_start
  pub len : pages p' ≡ pages p
  pub bits : (j : ℕ) → used p' j ≡ (if i == j then 1 else used p j)

-- What giving page `i` back has done.
pub record PageFreed (p : MemPool) (i : ℕ) (p' : MemPool) : Type 0 where
  pub pool : IsPool p'
  pub start : p'.phy_addr_start ≡ p.phy_addr_start
  pub len : pages p' ≡ pages p
  pub bits : (j : ℕ) → used p' j ≡ (if i == j then 0 else used p j)

bit_one : (b : Bitmap) (j : ℕ) → bit b j ≢ 0 → bit b j ≡ 1
bit_one b j ne = omega (arith, ne)

not_free_one : (b : Bitmap) (j : ℕ) → ¬ IsFree b j 1 → bit b j ≡ 1
not_free_one b j busy =
    bit_one b j (λ e. busy (λ k low high. let same : k ≡ j = omega arith in rw same e))

module _ {p : MemPool} (v : IsPool p) where
  -- While a page of the pool is free, `palloc` returns the address of the lowest free page, which is
  -- not NULL, and marks that page, and no other, as used.
  pub palloc-PageTaken :
      (k : ℕ)
      → k < pages p
      → used p k ≡ 0
      → (i a : ℕ) × (p' : MemPool) × (palloc p ≡ ok (a, p')) × PageTaken p i a p'
  unfolding palloc
  palloc-PageTaken k inside free =
      let (r, e, fit) = bitmap_scan-FirstFit v.valid 1 k (omega arith) inside free in
      elim fit [
        | missing none all ↦
            absurd
              (all k (omega arith) (λ j low high. let same : j ≡ k = omega arith in rw same free))
        | found room clear earlier ↦
            let (b', e', w) = bitmap_set_lem v.valid r 1 (omega arith) (omega arith) in
            let ne : r ≢ not_found = omega (arith, v.valid.small) in
            let at : add32 p.phy_addr_start (mul32 r pg_size) ≡ p.phy_addr_start + r * 4096 =
              omega (arith, v.fits) in
            (
              r,
              p.phy_addr_start + r * 4096,
              record p { mem_pool_bitmap = b' },
              rw (e, ne→== ne, e') (ap (λ x. ok (x, record p { mem_pool_bitmap = b' })) at),
              record {
                pool = record {
                  valid = w.valid;
                  start = v.start;
                  fits = omega (arith, w.len, v.fits);
                };
                inside = omega arith;
                free = clear r (omega arith) (omega arith);
                lowest = λ j lt. not_free_one p.mem_pool_bitmap j (earlier j lt);
                address = refl;
                start = refl;
                len = ap (λ n. 8 * n) w.len;
                bits = w.bits;
              },
            )
      ]

  -- When every page is used, `palloc` stops at the assertion of `bitmap_scan`: it does not return
  -- the NULL that its comment promises.
  pub palloc-full : UsedBelow p.mem_pool_bitmap (pages p) → palloc p ≡ panic
  unfolding palloc
  palloc-full all = rw (bitmap_scan-full v.valid 1 all) refl

  pub free_page-PageFreed :
      (i : ℕ)
      → i < pages p
      → (p' : MemPool) × (free_page p (p.phy_addr_start + i * 4096) ≡ ok p') × PageFreed p i p'
  free_page-PageFreed i inside =
      let (b', e', w) = bitmap_set_lem v.valid i 0 inside (omega arith) in
      let at : sub32 (p.phy_addr_start + i * 4096) p.phy_addr_start / pg_size ≡ i =
        omega (arith, v.fits) in
      (
        record p { mem_pool_bitmap = b' },
        rw (at, e') refl,
        record {
          pool = record { valid = w.valid; start = v.start; fits = omega (arith, w.len, v.fits) };
          start = refl;
          len = ap (λ n. 8 * n) w.len;
          bits = w.bits;
        },
      )

-- Both pools, that of the kernel below that of the users.
pub record IsMemory (m : Memory) : Type 0 where
  pub kernel : IsPool m.kernel_mem_pool
  pub user : IsPool m.user_mem_pool
  pub apart :
      m.kernel_mem_pool.phy_addr_start + pages m.kernel_mem_pool * 4096
      ≤ m.user_mem_pool.phy_addr_start

module _ {m : Memory} (v : IsMemory m) (i : ℕ) where
  -- `pfree` of the address of a page gives the page back to the pool that it is from, the kernel's
  -- or the users', and changes no other page and not the other pool.
  pub pfree-PageFreed :
      (i < pages m.kernel_mem_pool
        → (p' : MemPool) × (pfree m (m.kernel_mem_pool.phy_addr_start + i * 4096)
            ≡ ok (record m { kernel_mem_pool = p' }))
          × PageFreed m.kernel_mem_pool i p')
      × (i < pages m.user_mem_pool
          → (p' : MemPool) × (pfree m (m.user_mem_pool.phy_addr_start + i * 4096)
              ≡ ok (record m { user_mem_pool = p' }))
            × PageFreed m.user_mem_pool i p')
  unfolding pfree
  pfree-PageFreed = (
    λ inside.
        let (p', e, w) = free_page-PageFreed v.kernel i inside in
        (
          p',
          rw
              (not-le→leb m.user_mem_pool.phy_addr_start
                (m.kernel_mem_pool.phy_addr_start + i * 4096) (omega (arith, v.apart)))
              (rw e refl),
          w,
        ),
    λ inside.
        let (p', e, w) = free_page-PageFreed v.user i inside in
        (
          p',
          rw
              (le→leb m.user_mem_pool.phy_addr_start (m.user_mem_pool.phy_addr_start + i * 4096)
                (omega arith))
              (rw e refl),
          w,
        ),
  )
