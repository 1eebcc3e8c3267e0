-- ===== src/PageTable/Words.antt =====
-- The words of a page are no part of the page tables: a change below their window leaves the kernel's
-- pages as they are.
use goos.Prelude.{ℕ, ◌≤◌, ◌<◌, ◌≡◌, ◌∙◌, Bool, arith}
use goos.PageTable.{Machine, pte_ptr, pde_ptr, with_words}
use goos.PageTable.Entries.{window, pte_ptr_lem, pde_ptr_lem}
use goos.PageTable.Kernel.{IsMapping, IsHeap, heap_pages, heap_page}

module _ {m : Machine} {mapped : ℕ → Bool} {frame : ℕ → ℕ} (v : IsMapping m mapped frame)
    (words : ℕ → ℕ) (same : (a : ℕ) → window ≤ a → words a ≡ m.words a) where
  low : (i : ℕ) → i < heap_pages m → heap_page m i < window
  low i h = omega (arith, v.below)

  pte_kept :
      (i : ℕ)
      → i < heap_pages m
      → words (pte_ptr (heap_page m i)) ≡ m.words (pte_ptr (heap_page m i))
  pte_kept i h =
      same (pte_ptr (heap_page m i))
        (omega (arith, pte_ptr_lem (heap_page m i) (omega (arith, low i h))))

  pde_kept :
      (i : ℕ)
      → i < heap_pages m
      → words (pde_ptr (heap_page m i)) ≡ m.words (pde_ptr (heap_page m i))
  pde_kept i h =
      same (pde_ptr (heap_page m i))
        (omega (arith, pde_ptr_lem (heap_page m i) (omega (arith, low i h))))

  pub IsMapping-with_words : IsMapping (with_words m words) mapped frame
  IsMapping-with_words = record {
    pool = v.pool;
    user = v.user;
    ordered = v.ordered;
    aligned = v.aligned;
    start = v.start;
    not_null = v.not_null;
    below = v.below;
    tables = λ i h. rw (pde_kept i h) (v.tables i h);
    entries = λ i h on. pte_kept i h ∙ v.entries i h on;
    owned = v.owned;
    apart = v.apart;
    unmapped = λ i h off. rw (pte_kept i h) (v.unmapped i h off);
  }

pub IsHeap-with_words :
    {m : Machine} {frame : ℕ → ℕ}
    → IsHeap m frame
    → (words : ℕ → ℕ) → ((a : ℕ) → window ≤ a → words a ≡ m.words a)
    → IsHeap (with_words m words) frame
IsHeap-with_words v words same = record {
  addresses = v.addresses;
  mapping = IsMapping-with_words v.mapping words same;
}
