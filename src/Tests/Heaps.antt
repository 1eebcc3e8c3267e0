-- ===== src/Tests/Heaps.antt =====
-- The kernel's heap of kernel/memory.c from its start on, with 32 MB of memory and a table for each entry
-- of the page directory.
use goos.Prelude.{
  ℕ, ◌<◌, ◌≡◌, ◌⊎◌, refl, Bool, true, false, arith, eq→==, ◌==◌, leb, if◌then◌else◌, ok, none,
}
use goos.Memory.{k_heap_start}
use goos.PageTable.{Machine}
use goos.PageTable.Entries.{window, pte_ptr_lem, pde_ptr_lem}
use goos.PageTable.Map.{is_mapped, has_table}
use goos.Heap.{Heap, mem_init, sys_malloc, sys_free}
use goos.Heap.Ledger.Runs.{with_given}
use goos.Heap.Owned.{IsHeapOf}
use goos.Heap.Owned.Kept.{IsGiven, IsReturned}
use goos.Heap.Owned.Calls.{malloc_listed_or_new, sys_malloc-IsGiven, sys_free-IsReturned}
use goos.Heap.Owned.Reach.{nothing, Reach, fresh-IsHeapOf}
use goos.Heap.Owned.Boot.{IsLoaded, all_pages, mem_init-IsFresh}
use goos.Tests.Pages.{blank}
use goos.Tests.Tables.{none_in_use, within, all_free}
use goos.Tests.Blocks.{no_desc, pool_room}

abbrev loaded_machine : Machine
loaded_machine = record {
  memory = blank;
  words = λ a. if a == 0xb00 then 0x2000000 else if leb 0xfffff000 a then 1 else 0;
}

abbrev pub loaded : Heap
loaded = record {
  machine = loaded_machine;
  pgdir = 0;
  k_block_descs = no_desc;
  u_block_descs = no_desc;
  arenas = λ a. record { desc = none; cnt = 0; large = false };
}

tables_loaded : (u : ℕ) → u < window → has_table loaded_machine u ≡ true
tables_loaded u h = ground (arith, pde_ptr_lem u (omega arith))

none_mapped : (u : ℕ) → u < window → is_mapped loaded_machine u ≡ false
none_mapped u h = ground (arith, pte_ptr_lem u (omega arith))

pub loaded-IsLoaded : IsLoaded loaded
loaded-IsLoaded = record {
  least = omega arith;
  most = omega arith;
  kernel = refl;
  tables = λ u lo hi. tables_loaded u hi;
  unmapped = λ u lo hi. none_mapped u hi;
}

abbrev size : ℕ
size = all_pages loaded

booted-IsHeapOf : IsHeapOf k_heap_start size (mem_init loaded) nothing
unfolding mem_init
booted-IsHeapOf =
    fresh-IsHeapOf k_heap_start size (mem_init loaded) (mem_init-IsFresh loaded loaded-IsLoaded)

sys_malloc-IsGiven_example :
    ((1024 < 5000) × (sys_malloc (mem_init loaded) 5000 ≡ ok (0, mem_init loaded)))
    ⊎ ((p : ℕ) × (h' : Heap) × (sys_malloc (mem_init loaded) 5000 ≡ ok (p, h'))
        × IsGiven k_heap_start size (mem_init loaded) nothing 5000 p h')
unfolding mem_init
sys_malloc-IsGiven_example =
    sys_malloc-IsGiven k_heap_start size (mem_init loaded) nothing booted-IsHeapOf 5000 0
      (omega arith) (pool_room 5000 (omega arith)) within (none_in_use 0) (omega (arith, all_free))

-- A block of 16 bytes.
first_call :
    (p : ℕ) × (h' : Heap) × (sys_malloc (mem_init loaded) 16 ≡ ok (p, h'))
    × IsGiven k_heap_start size (mem_init loaded) nothing 16 p h'
unfolding mem_init
first_call =
    malloc_listed_or_new booted-IsHeapOf.owned 16 (omega arith) (pool_room 16 (omega arith)) 0
      within (none_in_use 0) (omega (arith, all_free))

abbrev block : ℕ
block = first_call.0

abbrev one_given : Heap
one_given = first_call.1

abbrev given : ℕ → Bool
given = with_given nothing block

one_given-IsHeapOf : IsHeapOf k_heap_start size one_given given
one_given-IsHeapOf = let (_, _, _, done) = first_call in done.heap

block-given : given block ≡ true
block-given = rw (eq→== {a = block} refl) refl

sys_free-IsReturned_example :
    (h' : Heap) × (sys_free one_given block ≡ ok h')
    × IsReturned k_heap_start size one_given given block h'
sys_free-IsReturned_example =
    sys_free-IsReturned k_heap_start size one_given given one_given-IsHeapOf block block-given
