-- ===== src/Heap/Owned/Boot.antt =====
-- The kernel's heap from its start: `mem_init` of kernel/memory.c over the page tables that
-- boot/loader.S leaves, and the calls of `sys_malloc` and `sys_free` that follow.
use goos.Prelude.{ℕ, ◌+◌, ◌*◌, ◌≤◌, ◌<◌, ◌≡◌, refl, true, false, arith}
use goos.Bitmap.{bitmap_init}
use goos.Memory.{k_heap_start, used_mem, mem_pool_init}
use goos.Memory.Pools.{ArraysFit, IsVaddrPool, Started, mem_pool_init-Started}
use goos.PageTable.{Machine}
use goos.PageTable.Entries.{window}
use goos.PageTable.Map.{has_table, is_mapped}
use goos.PageTable.Kernel.{IsHeap, heap_pages, heap_page, in_use}
use goos.Heap.{Heap, mem_init}
use goos.Heap.Classes.{block_desc_init-IsClasses}
use goos.Heap.Owned.Reach.{IsFresh, Reach}

-- What the loader leaves: the size of the memory, from the 2 MB that the kernel and its page tables use
-- to 343 MB, at 0xb00, and page tables for the kernel's heap, with no page mapped. The kernel runs.
pub record IsLoaded (h : Heap) : Type 0 where
  pub least : used_mem ≤ h.machine.words 0xb00
  pub most : h.machine.words 0xb00 ≤ 0x15700000
  pub kernel : h.pgdir ≡ 0
  pub tables :
      (vaddr : ℕ) → k_heap_start ≤ vaddr → vaddr < window → has_table h.machine vaddr ≡ true
  pub unmapped :
      (vaddr : ℕ) → k_heap_start ≤ vaddr → vaddr < window → is_mapped h.machine vaddr ≡ false

-- The kernel's virtual pages after `mem_init`.
abbrev pub all_pages : Heap → ℕ
all_pages h = heap_pages (mem_init h).machine

module _ (h : Heap) (l : IsLoaded h) where
  abbrev m : Machine
  m = record h.machine { memory = mem_pool_init h.machine.memory (h.machine.words 0xb00) }

  started : Started (h.machine.words 0xb00) m.memory
  started =
      mem_pool_init-Started h.machine.memory (h.machine.words 0xb00) l.least (omega (arith, l.most))

  start : m.memory.kernel_vaddr_pool.vaddr_start ≡ k_heap_start
  unfolding mem_pool_init
  start = refl

  last : k_heap_start + heap_pages m * 4096 ≤ window
  unfolding mem_pool_init bitmap_init
  last = omega (arith, l.least, l.most)

  addresses : IsVaddrPool m.memory.kernel_vaddr_pool
  unfolding mem_pool_init
  addresses = record { valid = started.memory.kernel.valid; fits = omega (arith, last, start) }

  unused : (x : ℕ) → in_use m x ≡ false
  unused x = rw (started.vaddr_free x) refl

  not_used : (x : ℕ) → in_use m x ≡ true → ⊥
  not_used x on = let off = unused x in cc (on, off)

  on_heap : (x : ℕ) → x < heap_pages m → (k_heap_start ≤ heap_page m x) × (heap_page m x < window)
  on_heap x lt = (omega (arith, start), omega (arith, start, last, lt))

  booted-IsHeap : IsHeap m (λ _. 0)
  booted-IsHeap = record {
    addresses = addresses;
    mapping = record {
      pool = started.memory.kernel;
      user = started.memory.user;
      ordered = started.memory.apart;
      aligned = rw started.kernel_start refl;
      start = rw start refl;
      not_null = rw start (omega arith);
      below = omega (arith, start, last);
      tables = λ x lt. let (lo, hi) = on_heap x lt in l.tables (heap_page m x) lo hi;
      entries = λ x lt on. absurd (not_used x on);
      owned = λ x lt on. absurd (not_used x on);
      apart = λ x y lx ly onx ony e. absurd (not_used x onx);
      unmapped = λ x lt off. let (lo, hi) = on_heap x lt in l.unmapped (heap_page m x) lo hi;
    };
  }

  pub mem_init-ArraysFit : ArraysFit (mem_init h).machine.memory
  unfolding mem_init
  mem_init-ArraysFit = started.arrays

  pub mem_init-IsFresh : IsFresh k_heap_start (all_pages h) (mem_init h)
  unfolding mem_init
  mem_init-IsFresh =
      let (classes, empty) = block_desc_init-IsClasses h.k_block_descs in
      record {
        frame = λ _. 0;
        heap = booted-IsHeap;
        kernel = l.kernel;
        start = start;
        pages = refl;
        above = omega arith;
        classes = classes;
        unused = λ x lt. unused x;
        empty = empty;
      }
