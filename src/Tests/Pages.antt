-- ===== src/Tests/Pages.antt =====
-- kernel/memory.c with 32 MB of memory.
use goos.Prelude.{ℕ, ◌+◌, ◌*◌, ◌≤◌, ◌<◌, ◌≡◌, refl, [], arith, ok, ◌⊎◌}
use goos.Bitmap.{Bitmap, bitmap_init}
use goos.Bitmap.Laws.{bits_len, bitmap_init-IsValid}
use goos.Bitmap.FindRun.{IsFree}
use goos.Sync.{lock_init}
use goos.Memory.{
  Memory, MemPool, VirtualAddrPool, pf_kernel, mem_pool_init, palloc, pfree, get_virtual_addr,
  vaddr_remove,
}
use goos.Memory.Pages.{IsPool, PageTaken, PageFreed, pages, palloc-PageTaken, pfree-PageFreed}
use goos.Memory.Pools.{
  Started, Reserved, IsVaddrPool, taken, mem_pool_init-Started, get_virtual_addr-vaddr_remove,
}

abbrev pub empty_bitmap : Bitmap
empty_bitmap = record { btmp_bytes_len = 0; bits = [] }

abbrev pub empty_pool : MemPool
empty_pool = record {
  mem_pool_bitmap = empty_bitmap;
  phy_addr_start = 1;
  pool_size = 0;
  lock = lock_init;
}

abbrev pub empty_vaddr_pool : VirtualAddrPool
empty_vaddr_pool = record { vaddr_bitmap = empty_bitmap; vaddr_start = 0 }

abbrev pub blank : Memory
blank = record {
  kernel_mem_pool = empty_pool;
  user_mem_pool = empty_pool;
  kernel_vaddr_pool = empty_vaddr_pool;
  userprog_vaddr_pool = empty_vaddr_pool;
  kernel_bits = 0;
  user_bits = 0;
  kernel_vaddr_bits = 0;
}

abbrev pub memory : Memory
memory = mem_pool_init blank 0x2000000

mem_pool_init-Started_example : Started 0x2000000 memory
mem_pool_init-Started_example = mem_pool_init-Started blank 0x2000000 (omega arith) (omega arith)

pub memory-Started : Started 0x2000000 memory
memory-Started = mem_pool_init-Started blank 0x2000000 (omega arith) (omega arith)

pub kernel_pages : pages memory.kernel_mem_pool ≡ 3840
unfolding mem_pool_init bitmap_init
kernel_pages = refl

user_pages : pages memory.user_mem_pool ≡ 3840
unfolding mem_pool_init bitmap_init
user_pages = refl

palloc-PageTaken_example :
    (i a : ℕ) × (p' : MemPool) × (palloc memory.kernel_mem_pool ≡ ok (a, p'))
    × PageTaken memory.kernel_mem_pool i a p'
palloc-PageTaken_example =
    palloc-PageTaken memory-Started.memory.kernel 7 (omega (arith, kernel_pages))
      (memory-Started.kernel_free 7)

empty_pool-IsPool : IsPool empty_pool
unfolding bitmap_init
empty_pool-IsPool = record {
  valid = bitmap_init-IsValid empty_bitmap (omega arith);
  start = omega arith;
  fits = omega arith;
}

pfree-PageFreed_example :
    (5 < pages memory.kernel_mem_pool
      → (p' : MemPool) × (pfree memory (memory.kernel_mem_pool.phy_addr_start + 5 * 4096)
          ≡ ok (record memory { kernel_mem_pool = p' }))
        × PageFreed memory.kernel_mem_pool 5 p')
    × (5 < pages memory.user_mem_pool
        → (p' : MemPool) × (pfree memory (memory.user_mem_pool.phy_addr_start + 5 * 4096)
            ≡ ok (record memory { user_mem_pool = p' }))
          × PageFreed memory.user_mem_pool 5 p')
pfree-PageFreed_example = pfree-PageFreed memory-Started.memory 5

pub addresses-IsVaddrPool : IsVaddrPool memory.kernel_vaddr_pool
unfolding mem_pool_init bitmap_init
addresses-IsVaddrPool = record {
  valid = bitmap_init-IsValid (record { btmp_bytes_len = 480; bits = [] }) (omega arith);
  fits = omega arith;
}

get_virtual_addr-vaddr_remove_example :
    ((get_virtual_addr memory pf_kernel 3 ≡ ok (0, memory))
      × ((s : ℕ)
          → s + 3 ≤ bits_len memory.kernel_vaddr_pool.vaddr_bitmap
          → ¬ IsFree memory.kernel_vaddr_pool.vaddr_bitmap s 3))
    ⊎ ((i vaddr : ℕ) × (p' : VirtualAddrPool) × (get_virtual_addr memory pf_kernel 3
          ≡ ok (vaddr, record memory { kernel_vaddr_pool = p' }))
        × Reserved memory.kernel_vaddr_pool 3 i vaddr p'
        × ((m' : Memory) × (vaddr_remove
                (record memory { kernel_vaddr_pool = p' })
                pf_kernel
                vaddr
                3
              ≡ ok m')
            × ((j : ℕ) → taken m'.kernel_vaddr_pool j ≡ taken memory.kernel_vaddr_pool j)))
get_virtual_addr-vaddr_remove_example =
    get_virtual_addr-vaddr_remove memory addresses-IsVaddrPool 3 0 (omega arith)
      (omega (arith, memory-Started.vaddr_pages, kernel_pages)) (memory-Started.vaddr_free 0)
