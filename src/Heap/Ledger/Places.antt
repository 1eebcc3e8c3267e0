-- ===== src/Heap/Ledger/Places.antt =====
-- Where the blocks of the kernel's heap stand: blocks of different pages, and different blocks of one
-- page, have different addresses.
use native.Mathlib.Nat.{one-le-pow}
use goos.Prelude.{ℕ, ◌+◌, ◌*◌, ◌%◌, ◌^◌, ◌≤◌, ◌<◌, ◌≡◌, ◌≢◌, sym, ap, ◌∙◌, arith, dec_lt}
use goos.PageTable.Entries.{window}
use goos.Heap.{block2arena, arena_size}
use goos.Heap.Classes.{InArena, arena2block-InArena, block_ne}
use goos.Heap.Lists.{Differ}
use goos.Heap.Ledger.{block, per_arena, page_at}

block_size_pos : (i : ℕ) → 0 < 16 * 2 ^ i
block_size_pos i = omega (arith, one-le-pow i 2 (omega arith))

-- The pages of the heap are whole, and below the window of the page tables.
pub record IsPlaced (s n : ℕ) : Type 0 where
  pub whole : s % 4096 ≡ 0
  pub below : s + n * 4096 ≤ window

module _ {s n : ℕ} (placed : IsPlaced s n) where
  pub block-InArena : (x j i : ℕ) → x < n → j < per_arena i → InArena (page_at s n x) j (16 * 2 ^ i)
  block-InArena x j i lx lj =
      arena2block-InArena (page_at s n x) j (16 * 2 ^ i) (omega (arith, placed.whole))
        (omega (arith, placed.below)) (block_size_pos i) lj

  page-injective : (x y : ℕ) → page_at s n x ≡ page_at s n y → x ≡ y
  page-injective x y e = omega (arith, e)

  -- The page of a block.
  pub same_page :
      (x j i y k l : ℕ)
      → x < n
      → j < per_arena i
      → y < n
      → k < per_arena l
      → block (page_at s n x) j i ≡ block (page_at s n y) k l
      → x ≡ y
  same_page x j i y k l lx lj ly lk e =
      page-injective x y
        (sym (block-InArena x j i lx lj).home ∙ ap block2arena e ∙ (block-InArena y k l ly lk).home)

  pub block_differs :
      (x i j k : ℕ)
      → x < n
      → j < per_arena i
      → k < per_arena i
      → j ≢ k
      → block (page_at s n x) j i ≢ block (page_at s n x) k i
  block_differs x i j k lx lj lk ne e =
      let at = (block-InArena x j i lx lj).address in
      let at' = (block-InArena x k i lx lk).address in
      let same = sym at ∙ e ∙ at' in
      elim (dec_lt j k) [
        | yes lt ↦ block_ne (page_at s n x) j k (16 * 2 ^ i) (block_size_pos i) lt same
        | no ge ↦
            block_ne (page_at s n x) k j (16 * 2 ^ i) (block_size_pos i) (omega (arith, ge, ne))
              (sym same)
      ]

  pub Differ-page : (x i : ℕ) → x < n → Differ (page_at s n x) (16 * 2 ^ i) (per_arena i)
  Differ-page x i lx j k lt lk = block_differs x i j k lx (omega (arith, lk)) lk (omega arith)

  -- A pointer just behind the header of a page, and a block of another page.
  pub large_differs :
      (x y k l : ℕ)
      → x < n
      → y < n
      → k < per_arena l
      → x ≢ y
      → page_at s n x + arena_size ≢ block (page_at s n y) k l
  large_differs x y k l lx ly lk ne e =
      let b = block-InArena y k l ly lk in
      ne (omega (arith, e, b.address, b.ends, block_size_pos l))

  pub large_injective : (x y : ℕ) → page_at s n x + arena_size ≡ page_at s n y + arena_size → x ≡ y
  large_injective x y e = omega (arith, e)
