-- ===== src/Tests/Blocks.antt =====
-- The block allocator of kernel/memory.c over the machine of Tables, with the classes as `block_desc_init`
-- leaves them.
use goos.Prelude.{ℕ, ◌+◌, ◌≤◌, ◌≡◌, refl, false, arith, ok, panic, ◌⊎◌, none, [], ◌∷◌}
use goos.Memory.{mem_pool_init}
use goos.Bitmap.{bitmap_init}
use goos.PageTable.Kernel.{heap_page}
use goos.Heap.{
  Heap, MemBlockDesc, block_desc_init, init_from, find_class, arena_size, sys_malloc, sys_free,
}
use goos.Heap.Classes.{IsClasses, block_desc_init-IsClasses}
use goos.Heap.Large.{LargeTaken, sys_malloc-sys_free_large}
use goos.Heap.Lists.{with_list}
use goos.Heap.Arenas.{arena_of}
use goos.Heap.SmallPage.{SmallTaken}
use goos.Heap.Small.{class_of, sys_malloc-sys_free_small}
use goos.Heap.Blocks.{sys_free-refused}
use goos.Tests.Tables.{machine, machine-IsHeap, none_in_use, within, all_free}

abbrev pub no_desc : ℕ → MemBlockDesc
no_desc = λ i. record { block_size = 0; blocks_per_arena = 0; free_list = [] }

abbrev pub descs : ℕ → MemBlockDesc
descs = block_desc_init no_desc

pub descs-IsClasses : IsClasses descs
descs-IsClasses = (block_desc_init-IsClasses no_desc).0

abbrev pub fresh_heap : Heap
fresh_heap = record {
  machine = machine;
  pgdir = 0;
  k_block_descs = descs;
  u_block_descs = no_desc;
  arenas = λ a. record { desc = none; cnt = 0; large = false };
}

pub pool_room : (size : ℕ) → size ≤ 10000 → size ≤ machine.memory.kernel_mem_pool.pool_size
unfolding mem_pool_init
pool_room size h = omega arith

sys_malloc-sys_free_large_example :
    (sys_malloc fresh_heap 5000 ≡ ok (0, fresh_heap))
    ⊎ ((i : ℕ) × (h' : Heap) × (sys_malloc fresh_heap 5000
          ≡ ok (heap_page machine i + arena_size, h'))
        × LargeTaken fresh_heap (λ _. 0) 5000 i h')
unfolding mem_pool_init bitmap_init
sys_malloc-sys_free_large_example =
    sys_malloc-sys_free_large fresh_heap (λ _. 0) machine-IsHeap refl (omega arith) 5000 0
      (omega arith) (omega arith) (pool_room 5000 (omega arith)) within (none_in_use 0)
      (omega (arith, all_free))

class_16 : class_of fresh_heap 16 ≡ 0
unfolding find_class block_desc_init init_from
class_16 = refl

sys_malloc-sys_free_small_example :
    (i : ℕ) × (h' : Heap) × (sys_malloc fresh_heap 16 ≡ ok (heap_page machine i + arena_size, h'))
    × (16 ≤ (descs (class_of fresh_heap 16)).block_size)
    × SmallTaken fresh_heap (λ _. 0) (class_of fresh_heap 16) i h'
unfolding mem_pool_init bitmap_init
sys_malloc-sys_free_small_example =
    sys_malloc-sys_free_small fresh_heap (λ _. 0) machine-IsHeap refl (omega arith) descs-IsClasses
      16 0 (omega arith) (pool_room 16 (omega arith))
      ((block_desc_init-IsClasses no_desc).1 (class_of fresh_heap 16) (omega (arith, class_16)))
      within (none_in_use 0) (omega (arith, all_free))

-- One block of class 0 is given, the one at the start of the first page of the heap.
abbrev used_heap : Heap
used_heap = record (with_list fresh_heap 0 (0xc010001c ∷ 0xc010002c ∷ [])) {
  arenas = λ a. arena_of 0 2;
}

sys_free-refused_example :
    (sys_free used_heap 0xc00fffff ≡ panic) × (sys_malloc used_heap 20000000 ≡ ok (0, used_heap))
unfolding mem_pool_init
sys_free-refused_example =
    sys_free-refused used_heap 0xc00fffff 20000000 refl (omega arith) (omega arith)
