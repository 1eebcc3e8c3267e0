-- ===== src/PageTable.antt =====
-- kernel/memory.c: page tables, and the pages that they map. `words` gives each virtual address the
-- 32-bit word that stands there; the tables themselves are seen through the window from 0xffc00000
-- on, by the last entry of the page directory. A call here is one step: the callers hold the lock
-- of the pool.
pub mod Entries
pub mod Map
pub mod Count
pub mod Kernel
pub mod Alloc
pub mod Cleared
pub mod Unmap
pub mod Free
pub mod Words
use goos.Prelude.{
  ℕ, zero, suc, ◌+◌, ◌-◌, ◌*◌, ◌/◌, ◌%◌, ◌^◌, bit_and, bit_or, Bool, true, false, not, ◌&&◌,
  Outcome, ok, panic, ◌>>=◌, ◌>>◌, assert, ltb, leb, ◌==◌, if◌then◌else◌, add32, sub32, mul32,
}
use goos.Bitmap.{bitmap_set}
use goos.Memory.{
  Memory, MemPool, VirtualAddrPool, PoolFlags, pf_kernel, pf_user, pg_size, get_virtual_addr,
  palloc, pfree, vaddr_remove,
}

pub record Machine : Type 0 where
  pub memory : Memory
  pub words : ℕ → ℕ

abbrev pub pde_idx : ℕ → ℕ
pde_idx addr = bit_and addr 0xffc00000 / 2 ^ 22

abbrev pub pte_idx : ℕ → ℕ
pte_idx addr = bit_and addr 0x003ff000 / 2 ^ 12

unfoldable pub pte_ptr : (vaddr : ℕ) → ℕ
pte_ptr vaddr =
    add32 (add32 0xffc00000 (bit_and vaddr 0xffc00000 / 2 ^ 10)) (mul32 (pte_idx vaddr) 4)

unfoldable pub pde_ptr : (vaddr : ℕ) → ℕ
pde_ptr vaddr = add32 0xfffff000 (mul32 (pde_idx vaddr) 4)

-- `paddr | PG_US_U | PG_RW_W | PG_P_1`
unfoldable pub entry : (paddr : ℕ) → ℕ
entry paddr = bit_or (bit_or (bit_or paddr 4) 2) 1

-- `word & 0x00000001`
abbrev pub present : ℕ → Bool
present word = not (bit_and word 1 == 0)

abbrev pub store : (ℕ → ℕ) → (p word : ℕ) → ℕ → ℕ
store words p word = λ a. if a == p then word else words a

-- `memset(p, 0, size)` on whole words.
abbrev pub clear : (ℕ → ℕ) → (p size : ℕ) → ℕ → ℕ
clear words p size = λ a. if leb p a && ltb a (p + size) then 0 else words a

abbrev pub with_words : Machine → (ℕ → ℕ) → Machine
with_words m words = record m { words = words }

abbrev pub with_kernel_pool : Machine → MemPool → Machine
with_kernel_pool m p = record m { memory = record m.memory { kernel_mem_pool = p } }

abbrev pub with_user_pool : Machine → MemPool → Machine
with_user_pool m p = record m { memory = record m.memory { user_mem_pool = p } }

-- The page directory has no table for the address yet.
unfoldable pub add_table : Machine → (vaddr paddr : ℕ) → Outcome Machine
add_table m vaddr paddr = do
  (pgt_paddr, pool) ← palloc m.memory.kernel_mem_pool
  let base = bit_and (pte_ptr vaddr) 0xfffff000
  assert (not (base == 0))
  let words = clear (store m.words (pde_ptr vaddr) (entry pgt_paddr)) base pg_size
  assert (not (present (words (pte_ptr vaddr))))
  ok (with_words (with_kernel_pool m pool) (store words (pte_ptr vaddr) (entry paddr)))

unfoldable pub page_table_map : Machine → (vaddr paddr : ℕ) → Outcome Machine
page_table_map m vaddr paddr =
    if present (m.words (pde_ptr vaddr))
    then (do
      assert (not (present (m.words (pte_ptr vaddr))))
      if not (present (m.words (pte_ptr vaddr)))
          then ok (with_words m (store m.words (pte_ptr vaddr) (entry paddr)))
          else panic)
    else add_table m vaddr paddr

-- One page from the pool of the flag.
unfoldable pub take_page : Machine → PoolFlags → Outcome (ℕ × Machine)
take_page m pf_kernel = do (a, p) ← palloc m.memory.kernel_mem_pool; ok (a, with_kernel_pool m p)
take_page m pf_user = do (a, p) ← palloc m.memory.user_mem_pool; ok (a, with_user_pool m p)

-- The loop of `malloc_page`; `false` where it returns NULL.
unfoldable pub map_pages : Machine → PoolFlags → (vaddr cnt : ℕ) → Outcome (Bool × Machine)
map_pages m pf vaddr zero = ok (true, m)
map_pages m pf vaddr (suc cnt) = do
  (page_phyaddr, m₁) ← take_page m pf
  if page_phyaddr == 0
      then ok (false, m₁)
      else do m₂ ← page_table_map m₁ vaddr page_phyaddr; map_pages m₂ pf (add32 vaddr pg_size) cnt

unfoldable pub malloc_page : Machine → PoolFlags → (pg_cnt : ℕ) → Outcome (ℕ × Machine)
malloc_page m pf pg_cnt = do
  assert (ltb 0 pg_cnt && ltb pg_cnt 3840)
  (vaddr_start, memory) ← get_virtual_addr m.memory pf pg_cnt
  let m₁ = record m { memory = memory }
  if vaddr_start == 0 then ok (0, m₁) else do
    (mapped, m₂) ← map_pages m₁ pf vaddr_start pg_cnt
    ok (if mapped then vaddr_start else 0, m₂)

-- `get_kernel_pages` and `get_user_pages`
unfoldable pub get_pages : Machine → PoolFlags → (pg_cnt : ℕ) → Outcome (ℕ × Machine)
get_pages m pf pg_cnt = do
  (vaddr, m₁) ← malloc_page m pf pg_cnt
  ok (
    vaddr,
    (if vaddr == 0 then m₁ else with_words m₁ (clear m₁.words vaddr (mul32 pg_cnt pg_size))),
  )

-- Marks the page of an address in a pool of virtual addresses.
abbrev pub mark : VirtualAddrPool → (vaddr : ℕ) → Outcome VirtualAddrPool
mark p vaddr = do
  b ← bitmap_set p.vaddr_bitmap (sub32 vaddr p.vaddr_start / pg_size) 1
  ok (record p { vaddr_bitmap = b })

-- The first part of `get_a_page`; `pgdir` is that of the running task.
abbrev pub mark_page : (pgdir : ℕ) → Memory → PoolFlags → (vaddr : ℕ) → Outcome Memory
mark_page pgdir m pf_user vaddr =
    if not (pgdir == 0)
    then (do p ← mark m.userprog_vaddr_pool vaddr; ok (record m { userprog_vaddr_pool = p }))
    else panic
mark_page pgdir m pf_kernel vaddr =
    if pgdir == 0
    then (do p ← mark m.kernel_vaddr_pool vaddr; ok (record m { kernel_vaddr_pool = p }))
    else panic

unfoldable pub get_a_page : (pgdir : ℕ) → Machine → PoolFlags → (vaddr : ℕ) → Outcome (ℕ × Machine)
get_a_page pgdir m pf vaddr = do
  memory ← mark_page pgdir m.memory pf vaddr
  (page_phyaddr, m₁) ← take_page (record m { memory = memory }) pf
  if page_phyaddr == 0
      then ok (0, m₁)
      else do m₂ ← page_table_map m₁ vaddr page_phyaddr; ok (vaddr, m₂)

unfoldable pub addr_v2p : (ℕ → ℕ) → (vaddr : ℕ) → ℕ
addr_v2p words vaddr = add32 (bit_and (words (pte_ptr vaddr)) 0xfffff000) (bit_and vaddr 0x00000fff)

-- `*pte &= ~PG_P_1`; the cached translation is dropped with it.
unfoldable pub page_table_pte_remove : (ℕ → ℕ) → (vaddr : ℕ) → ℕ → ℕ
page_table_pte_remove words vaddr =
    store words (pte_ptr vaddr) (bit_and (words (pte_ptr vaddr)) 0xfffffffe)

-- The loop of `mfree_page`.
unfoldable pub unmap_pages : Machine → (vaddr page_cnt : ℕ) → Outcome Machine
unmap_pages m vaddr zero = ok m
unmap_pages m vaddr (suc page_cnt) = do
  memory ← pfree m.memory (addr_v2p m.words vaddr)
  let m₁ = record m { memory = memory; words = page_table_pte_remove m.words vaddr }
  unmap_pages m₁ (add32 vaddr pg_size) page_cnt

unfoldable pub mfree_page : Machine → PoolFlags → (vaddr pg_cnt : ℕ) → Outcome Machine
mfree_page m pf vaddr pg_cnt = do
  assert (leb 1 pg_cnt && (vaddr % pg_size == 0))
  m₁ ← unmap_pages m vaddr pg_cnt
  memory ← vaddr_remove m₁.memory pf vaddr pg_cnt
  ok (record m₁ { memory = memory })
