-- ===== src/Memory.antt =====
-- kernel/memory.c and memory.h: the pools of physical pages and of virtual addresses. Addresses are
-- numbers below 2 ^ 32, and NULL is 0. The pool of a user process is that of the running task.
pub mod Ranges
pub mod Pages
pub mod Pools
use goos.Prelude.{
  ℕ, zero, suc, ◌+◌, ◌-◌, ◌*◌, ◌/◌, ◌%◌, ◌^◌, Bool, List, [], none, some, Option, Outcome, ok,
  ◌>>=◌, ◌>>◌, assert, ltb, leb, ◌==◌, if◌then◌else◌, add32, sub32, mul32,
}
use goos.Bitmap.{Bitmap, not_found, bitmap_init, bitmap_scan, bitmap_set}
use goos.Sync.{Lock, lock_init}

abbrev pub pg_size : ℕ
pg_size = 4096

abbrev pub k_heap_start : ℕ
k_heap_start = 0xc0100000

pub record VirtualAddrPool : Type 0 where
  pub vaddr_bitmap : Bitmap
  pub vaddr_start : ℕ

pub record MemPool : Type 0 where
  pub mem_pool_bitmap : Bitmap
  pub phy_addr_start : ℕ
  pub pool_size : ℕ
  pub lock : Lock

pub data PoolFlags : Type 0 where
  pf_kernel pf_user : PoolFlags

pub record Memory : Type 0 where
  pub kernel_mem_pool : MemPool
  pub user_mem_pool : MemPool
  pub kernel_vaddr_pool : VirtualAddrPool
  pub userprog_vaddr_pool : VirtualAddrPool
  -- `vaddr_bitmap.bits` and `mem_pool_bitmap.bits` of the pools: where each array stands
  pub kernel_bits : ℕ
  pub user_bits : ℕ
  pub kernel_vaddr_bits : ℕ

abbrev pub mem_bitmap_base : ℕ
mem_bitmap_base = 0xc009a000

abbrev pub used_mem : ℕ
used_mem = pg_size * 256 + 0x100000

-- Each bit array is a list of its own, beside the address at which it stands. The messages are left out.
unfoldable pub mem_pool_init : Memory → (all_mem : ℕ) → Memory
mem_pool_init m all_mem =
    let free_mem = sub32 all_mem used_mem in
    let free_pages = free_mem / pg_size in
    let kernel_free_pages = free_pages / 2 in
    let user_free_pages = free_pages - kernel_free_pages in
    let kbm_len = kernel_free_pages / 8 in
    let ubm_len = user_free_pages / 8 in
    record m {
      kernel_mem_pool = record {
        mem_pool_bitmap = bitmap_init (record { btmp_bytes_len = kbm_len; bits = [] });
        phy_addr_start = used_mem;
        pool_size = mul32 kernel_free_pages pg_size;
        lock = lock_init;
      };
      user_mem_pool = record {
        mem_pool_bitmap = bitmap_init (record { btmp_bytes_len = ubm_len; bits = [] });
        phy_addr_start = add32 used_mem (mul32 kernel_free_pages pg_size);
        pool_size = mul32 user_free_pages pg_size;
        lock = lock_init;
      };
      kernel_vaddr_pool = record {
        vaddr_bitmap = bitmap_init (record { btmp_bytes_len = kbm_len; bits = [] });
        vaddr_start = k_heap_start;
      };
      kernel_bits = mem_bitmap_base;
      user_bits = add32 mem_bitmap_base kbm_len;
      kernel_vaddr_bits = add32 (add32 mem_bitmap_base kbm_len) ubm_len;
    }

-- The loops that write `value` to `pg_cnt` bits from `bit_idx` on.
unfoldable pub set_bits : Bitmap → (bit_idx pg_cnt value : ℕ) → Outcome Bitmap
set_bits b bit_idx zero value = ok b
set_bits b bit_idx (suc pg_cnt) value = do
  b' ← bitmap_set b bit_idx value
  set_bits b' (add32 bit_idx 1) pg_cnt value

-- Both branches of `get_virtual_addr` on their pool.
unfoldable pub reserve : VirtualAddrPool → (pg_cnt : ℕ) → Outcome (Option (ℕ × VirtualAddrPool))
reserve p pg_cnt = do
  bit_idx_start ← bitmap_scan p.vaddr_bitmap pg_cnt
  if bit_idx_start == not_found then ok none else do
    b ← set_bits p.vaddr_bitmap bit_idx_start pg_cnt 1
    ok (some (add32 p.vaddr_start (mul32 bit_idx_start pg_size), record p { vaddr_bitmap = b }))

unfoldable pub get_virtual_addr : Memory → PoolFlags → (pg_cnt : ℕ) → Outcome (ℕ × Memory)
get_virtual_addr m pf_kernel pg_cnt = do
  r ← reserve m.kernel_vaddr_pool pg_cnt
  elim r [ none ↦ ok (0, m) | some (vaddr, p) ↦ ok (vaddr, record m { kernel_vaddr_pool = p }) ]
get_virtual_addr m pf_user pg_cnt = do
  r ← reserve m.userprog_vaddr_pool pg_cnt
  elim r [
    | none ↦ ok (0, m)
    | some (vaddr, p) ↦ do
      assert (ltb vaddr (0xc0000000 - pg_size))
      ok (vaddr, record m { userprog_vaddr_pool = p })
  ]

unfoldable pub palloc : MemPool → Outcome (ℕ × MemPool)
palloc m_pool = do
  bit_idx ← bitmap_scan m_pool.mem_pool_bitmap 1
  if bit_idx == not_found then ok (0, m_pool) else do
    b ← bitmap_set m_pool.mem_pool_bitmap bit_idx 1
    ok (add32 m_pool.phy_addr_start (mul32 bit_idx pg_size), record m_pool { mem_pool_bitmap = b })

abbrev pub free_page : MemPool → (pg_phy_addr : ℕ) → Outcome MemPool
free_page p pg_phy_addr = do
  b ← bitmap_set p.mem_pool_bitmap (sub32 pg_phy_addr p.phy_addr_start / pg_size) 0
  ok (record p { mem_pool_bitmap = b })

unfoldable pub pfree : Memory → (pg_phy_addr : ℕ) → Outcome Memory
pfree m pg_phy_addr =
    if leb m.user_mem_pool.phy_addr_start pg_phy_addr
    then (do p ← free_page m.user_mem_pool pg_phy_addr; ok (record m { user_mem_pool = p }))
    else (do p ← free_page m.kernel_mem_pool pg_phy_addr; ok (record m { kernel_mem_pool = p }))

abbrev pub release : VirtualAddrPool → (vaddr pg_cnt : ℕ) → Outcome VirtualAddrPool
release p vaddr pg_cnt = do
  b ← set_bits p.vaddr_bitmap (sub32 vaddr p.vaddr_start / pg_size) pg_cnt 0
  ok (record p { vaddr_bitmap = b })

unfoldable pub vaddr_remove : Memory → PoolFlags → (vaddr pg_cnt : ℕ) → Outcome Memory
vaddr_remove m pf_kernel vaddr pg_cnt = do
  p ← release m.kernel_vaddr_pool vaddr pg_cnt
  ok (record m { kernel_vaddr_pool = p })
vaddr_remove m pf_user vaddr pg_cnt = do
  p ← release m.userprog_vaddr_pool vaddr pg_cnt
  ok (record m { userprog_vaddr_pool = p })
