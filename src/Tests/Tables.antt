-- ===== src/Tests/Tables.antt =====
-- Page tables of kernel/memory.c over the 32 MB of Pages, with a table for each entry of the page
-- directory, as the loader leaves them for the kernel, and no page mapped.
use goos.Prelude.{
  ℕ, ◌+◌, ◌*◌, ◌≤◌, ◌<◌, ◌≡◌, refl, sym, ◌∙◌, true, false, arith, ok, ◌⊎◌, if◌then◌else◌, leb,
}
use goos.Bitmap.FindRun.{IsFree}
use goos.Memory.{pf_kernel, mem_pool_init}
use goos.Bitmap.{bitmap_init}
use goos.Memory.Pages.{pages}
use goos.PageTable.{Machine, page_table_map, malloc_page}
use goos.PageTable.Entries.{window, pte_ptr_lem, pde_ptr_lem}
use goos.PageTable.Map.{PageMapped, is_mapped, has_table, page_table_map-PageMapped}
use goos.PageTable.Count.{free_pages, free_below_all}
use goos.PageTable.Kernel.{IsHeap, in_use, heap_page, heap_pages}
use goos.PageTable.Alloc.{Allocated, malloc_page-Allocated}
use goos.PageTable.Free.{RoundTrip, malloc_page-mfree_page}
use goos.Tests.Pages.{memory, memory-Started, kernel_pages, addresses-IsVaddrPool}

abbrev pub machine : Machine
machine = record { memory = memory; words = λ a. if leb 0xfffff000 a then 1 else 0 }

tables_there : (u : ℕ) → u < window → has_table machine u ≡ true
tables_there u h = ground (arith, pde_ptr_lem u (omega arith))

pub nothing_mapped : (u : ℕ) → u < window → is_mapped machine u ≡ false
nothing_mapped u h = ground (arith, pte_ptr_lem u (omega arith))

pub none_in_use : (i : ℕ) → in_use machine i ≡ false
none_in_use i = rw (memory-Started.vaddr_free i) refl

pub machine-IsHeap : IsHeap machine (λ _. 0)
unfolding mem_pool_init bitmap_init
machine-IsHeap =
    let used_none : (i : ℕ) → in_use machine i ≡ true → ⊥ = λ i on. cc (sym on ∙ none_in_use i) in
    let start = memory-Started.kernel_start in
    let below_window : (i : ℕ) → i < heap_pages machine → heap_page machine i < window =
      λ i h. omega (arith, memory-Started.vaddr_pages, kernel_pages) in
    record {
      addresses = addresses-IsVaddrPool;
      mapping = record {
        pool = memory-Started.memory.kernel;
        user = memory-Started.memory.user;
        ordered = memory-Started.memory.apart;
        aligned = refl;
        start = refl;
        not_null = omega arith;
        below = omega (arith, memory-Started.vaddr_pages, kernel_pages);
        tables = λ i h. tables_there (heap_page machine i) (below_window i h);
        entries = λ i h on. absurd (used_none i on);
        owned = λ i h on. absurd (used_none i on);
        apart = λ i j hi hj on onj e. absurd (used_none i on);
        unmapped = λ i h off. nothing_mapped (heap_page machine i) (below_window i h);
      };
    }

pub all_free : free_pages memory.kernel_mem_pool ≡ 3840
all_free =
    free_below_all memory.kernel_mem_pool (pages memory.kernel_mem_pool) memory-Started.kernel_free
    ∙ kernel_pages

pub within : 0 < heap_pages machine
within = omega (arith, memory-Started.vaddr_pages, kernel_pages)

malloc_page-Allocated_example :
    ((malloc_page machine pf_kernel 3 ≡ ok (0, machine))
      × ((s : ℕ)
          → s + 3 ≤ heap_pages machine
          → ¬ IsFree machine.memory.kernel_vaddr_pool.vaddr_bitmap s 3))
    ⊎ ((i : ℕ) × (m' : Machine) × (frame' : ℕ → ℕ) × (malloc_page machine pf_kernel 3
          ≡ ok (heap_page machine i, m'))
        × Allocated machine (λ _. 0) 3 i m' frame')
malloc_page-Allocated_example =
    malloc_page-Allocated machine (λ _. 0) machine-IsHeap 3 0 (omega arith) (omega arith) within
      (none_in_use 0) (omega (arith, all_free))

malloc_page-mfree_page_example :
    (malloc_page machine pf_kernel 3 ≡ ok (0, machine))
    ⊎ ((i : ℕ) × (m' : Machine) × (malloc_page machine pf_kernel 3 ≡ ok (heap_page machine i, m'))
        × RoundTrip machine (λ _. 0) 3 i m')
malloc_page-mfree_page_example =
    malloc_page-mfree_page machine (λ _. 0) machine-IsHeap 3 0 (omega arith) (omega arith) within
      (none_in_use 0) (omega (arith, all_free))

page_table_map-PageMapped_example :
    (m' : Machine) × (page_table_map machine 0xc0100000 (0x300 * 4096) ≡ ok m')
    × PageMapped machine 0xc0100000 0x300 m'
page_table_map-PageMapped_example =
    page_table_map-PageMapped machine 0xc0100000 0x300 (omega arith) (omega arith)
      machine-IsHeap.mapping.pool machine-IsHeap.mapping.aligned 0 (omega (arith, kernel_pages))
      (memory-Started.kernel_free 0) (λ _. nothing_mapped 0xc0100000 (omega arith))
