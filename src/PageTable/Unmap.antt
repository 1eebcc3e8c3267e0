-- ===== src/PageTable/Unmap.antt =====
-- The loop of `mfree_page` of kernel/memory.c for the kernel: each round takes one page out of the
-- mapping, and its frame is free again.
use mathlib.Core.Path.{fun_ext}
use goos.Prelude.{
  ℕ, zero, suc, ◌+◌, ◌*◌, ◌^◌, ◌≤◌, ◌<◌, ◌≡◌, refl, sym, ap, ◌∙◌, ◌≢◌, Bool, true, false, not,
  arith, ok, ◌==◌, ne→==, eq→==, ◌&&◌, add32, ℕ_discrete,
}
use goos.Memory.{MemPool, pg_size}
use goos.Memory.Ranges.{inside}
use goos.Memory.Pages.{used, pages, IsMemory, PageFreed, pfree-PageFreed}
use goos.PageTable.{Machine, pte_ptr, entry, addr_v2p, page_table_pte_remove, unmap_pages}
use goos.PageTable.Entries.{
  page, window, entry_lem, pte_ptr_lem, addr_v2p_lem, not_present_removed, pte_ne, pde_ne-pte,
}
use goos.PageTable.Map.{has_table, is_mapped}
use goos.PageTable.Count.{free_pages, free_pages_freed}
use goos.PageTable.Kernel.{IsMapping, heap_pages, heap_page, frame_number}

-- The pages in `mapped` but page `i`, and but the `n` from page `i` on.
abbrev pub without_page : (ℕ → Bool) → ℕ → ℕ → Bool
without_page mapped i = λ x. not (x == i) && mapped x

abbrev pub without_pages : (ℕ → Bool) → (i n : ℕ) → ℕ → Bool
without_pages mapped i n = λ x. not (inside i n x) && mapped x

without_pages-without_page :
    (mapped : ℕ → Bool) (i n x : ℕ)
    → without_pages (without_page mapped i) (i + 1) n x ≡ without_pages mapped i (suc n) x
without_pages-without_page mapped i n x = ground arith

without_pages-none : (mapped : ℕ → Bool) (i x : ℕ) → mapped x ≡ without_pages mapped i zero x
without_pages-none mapped i x = ground arith

module _ {m : Machine} {mapped : ℕ → Bool} {frame : ℕ → ℕ} (v : IsMapping m mapped frame) (i : ℕ)
    (within : i < heap_pages m) (there : mapped i ≡ true) where
  IsMemory_of : IsMemory m.memory
  IsMemory_of = record { kernel = v.pool; user = v.user; apart = v.ordered }

  low : (x : ℕ) → x < heap_pages m → heap_page m x < window
  low x h = omega (arith, v.below)

  number_fits : frame_number m (frame i) * 4096 < 2 ^ 32
  number_fits = let (lt, _) = v.owned i within there in omega (arith, lt, v.pool.fits, v.aligned)

  pub frame_address :
      addr_v2p m.words (heap_page m i) ≡ m.memory.kernel_mem_pool.phy_addr_start + frame i * 4096
  frame_address =
      let e = v.entries i within there in
      let at = pte_ptr_lem (heap_page m i) (omega (arith, low i within)) in
      addr_v2p_lem m.words (heap_page m i) (frame_number m (frame i)) (omega (arith, low i within))
        number_fits (ap m.words (sym at) ∙ e)
      ∙ omega (arith, v.start, v.aligned)

  module _ (p' : MemPool) (w : PageFreed m.memory.kernel_mem_pool (frame i) p') where
    abbrev after_one : Machine
    after_one = record m {
      memory = record m.memory { kernel_mem_pool = p' };
      words = page_table_pte_remove m.words (heap_page m i);
    }

    page_ne : (x : ℕ) → x ≢ i → page (heap_page m x) ≢ page (heap_page m i)
    page_ne x ne e = ne (omega (arith, v.start, e))

    kept :
        (x : ℕ)
        → x < heap_pages m
        → x ≢ i
        → after_one.words (pte_ptr (heap_page m x)) ≡ m.words (pte_ptr (heap_page m x))
    unfolding page_table_pte_remove
    kept x h ne =
        rw (ne→== (pte_ne (heap_page m x) (heap_page m i) (low x h) (low i within) (page_ne x ne)))
          refl

    same_number : (y : ℕ) → frame_number after_one y ≡ frame_number m y
    same_number y = rw w.start refl

    left : (x : ℕ) → without_page mapped i x ≡ true → (x ≢ i) × (mapped x ≡ true)
    left x on = (λ e. ground (arith, on, e), ground (arith, on))

    tables_after : (x : ℕ) → x < heap_pages m → has_table after_one (heap_page m x) ≡ true
    unfolding page_table_pte_remove
    tables_after x h =
        rw (ne→== (pde_ne-pte (heap_page m x) (heap_page m i) (low x h) (low i within)))
          (v.tables x h)

    owned_after :
        (x : ℕ)
        → x < heap_pages m
        → without_page mapped i x ≡ true
        → (frame x < pages p') × (used p' (frame x) ≡ 1)
    owned_after x h on =
        let (ne, old) = left x on in
        let (lt, busy) = v.owned x h old in
        let other : frame i ≢ frame x = λ e. ne (sym (v.apart i x within h there old e)) in
        (omega (arith, lt, w.len), w.bits (frame x) ∙ rw (ne→== other) busy)

    removed : is_mapped after_one (heap_page m i) ≡ false
    unfolding page_table_pte_remove
    removed =
        let word : m.words (pte_ptr (heap_page m i)) < 2 ^ 32 =
          rw (v.entries i within there, entry_lem (frame_number m (frame i)))
            (omega (arith, number_fits)) in
        rw (eq→== {a = pte_ptr (heap_page m i)} refl) (not_present_removed _ word)

    unmapped_after :
        (x : ℕ)
        → x < heap_pages m
        → without_page mapped i x ≡ false
        → is_mapped after_one (heap_page m x) ≡ false
    unmapped_after x h off = elim (ℕ_discrete x i) [
      | yes e ↦ rw e removed
      | no ne ↦ rw (kept x h ne) (v.unmapped x h (ground (arith, off, ne)))
    ]

    after_one-IsMapping : IsMapping after_one (without_page mapped i) frame
    after_one-IsMapping = record {
      pool = w.pool;
      user = v.user;
      ordered = rw (w.start, w.len) v.ordered;
      aligned = rw w.start v.aligned;
      start = v.start;
      not_null = v.not_null;
      below = v.below;
      tables = tables_after;
      entries = λ x h on.
          kept x h (left x on).0
          ∙ v.entries x h (left x on).1
          ∙ ap (λ y. entry (y * 4096)) (sym (same_number (frame x)));
      owned = owned_after;
      apart = λ x y hx hy onx ony. v.apart x y hx hy (left x onx).1 (left y ony).1;
      unmapped = unmapped_after;
    }

-- What the loop has done.
pub record ManyUnmapped (m : Machine) (mapped : ℕ → Bool) (frame : ℕ → ℕ) (i n : ℕ) (m' : Machine)
    : Type 0 where
  pub mapping : IsMapping m' (without_pages mapped i n) frame
  pub vaddr_pool : m'.memory.kernel_vaddr_pool ≡ m.memory.kernel_vaddr_pool
  pub user_pool : m'.memory.user_mem_pool ≡ m.memory.user_mem_pool
  pub free : free_pages m'.memory.kernel_mem_pool ≡ free_pages m.memory.kernel_mem_pool + n

pub unmap_pages-ManyUnmapped :
    (n : ℕ) (m : Machine) (mapped : ℕ → Bool) (frame : ℕ → ℕ)
    → IsMapping m mapped frame
    → (i : ℕ) → i + n ≤ heap_pages m
    → ((x : ℕ) → inside i n x ≡ true → mapped x ≡ true)
    → (m' : Machine) × (unmap_pages m (heap_page m i) n ≡ ok m')
      × ManyUnmapped m mapped frame i n m'
unfolding unmap_pages
unmap_pages-ManyUnmapped zero m mapped frame v i room there = (
  m,
  refl,
  record {
    mapping = rw (← fun_ext (without_pages-none mapped i)) v;
    vaddr_pool = refl;
    user_pool = refl;
    free = omega arith;
  },
)
unmap_pages-ManyUnmapped (suc n) m mapped frame v i room there =
    let here : mapped i ≡ true = there i (ground arith) in
    let within : i < heap_pages m = omega arith in
    let (lt, busy) = v.owned i within here in
    let (p', e, w) = (pfree-PageFreed (IsMemory_of v i within here) (frame i)).0 lt in
    let m₁ = after_one v i within here p' w in
    let next : add32 (heap_page m i) pg_size ≡ heap_page m (i + 1) = omega (arith, v.below) in
    let (m', e', many) =
      unmap_pages-ManyUnmapped n m₁ (without_page mapped i) frame
        (after_one-IsMapping v i within here p' w) (i + 1) (omega arith)
        (λ x h. ground (arith, there x, h)) in
    (
      m',
      rw (frame_address v i within here, e) (ap (λ y. unmap_pages m₁ y n) next ∙ e'),
      record {
        mapping = rw (← fun_ext (without_pages-without_page mapped i n)) many.mapping;
        vaddr_pool = many.vaddr_pool;
        user_pool = many.user_pool;
        free =
            omega
              (arith, many.free, free_pages_freed m.memory.kernel_mem_pool p' (frame i) w lt busy);
      },
    )
