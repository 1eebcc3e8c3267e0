-- ===== src/Heap.antt =====
-- The block allocator of kernel/memory.c: `sys_malloc` and `sys_free`. A page that holds blocks of one
-- size is an arena. The headers of arenas and the lists of free blocks are kept here, apart from the
-- words of the pages in which they stand; a free list is the sequence of its blocks, by address.
-- A call is one step under the lock of the pool.
pub mod Arenas
pub mod Blocks
pub mod Classes
pub mod Large
pub mod Ledger
pub mod Lists
pub mod Owned
pub mod Small
pub mod SmallPage
use goos.Prelude.{
  ℕ, zero, suc, ◌+◌, ◌-◌, ◌*◌, ◌/◌, ◌%◌, ◌^◌, bit_and, Bool, true, false, not, ◌&&◌, List, [], ◌∷◌,
  ◌++◌, Option, none, some, Outcome, ok, fault, ◌>>=◌, ◌>>◌, assert, ltb, leb, ◌==◌, if◌then◌else◌,
  add32, sub32, mul32,
}
use goos.LinkedList.Distinct.{has}
use goos.Memory.{PoolFlags, pf_kernel, pf_user, pg_size, k_heap_start, mem_pool_init}
use goos.PageTable.{Machine, with_words, clear, malloc_page, mfree_page}

abbrev pub mem_block_desc_cnt : ℕ
mem_block_desc_cnt = 7

-- `sizeof(struct arena)`
abbrev pub arena_size : ℕ
arena_size = 12

pub record MemBlockDesc : Type 0 where
  pub block_size : ℕ
  pub blocks_per_arena : ℕ
  pub free_list : List ℕ

-- `desc` is the index of the arena's class, and `none` for NULL.
pub record Arena : Type 0 where
  pub desc : Option ℕ
  pub cnt : ℕ
  pub large : Bool

-- `pgdir` and `u_block_descs` are those of the running task.
pub record Heap : Type 0 where
  pub machine : Machine
  pub pgdir : ℕ
  pub k_block_descs : ℕ → MemBlockDesc
  pub u_block_descs : ℕ → MemBlockDesc
  pub arenas : ℕ → Arena

abbrev pub put {ℓ} : {A : Type ℓ} → (ℕ → A) → ℕ → A → ℕ → A
put f i a = λ j. if j == i then a else f j

-- The loop over the classes, with those left.
unfoldable pub init_from : (ℕ → MemBlockDesc) → (rounds desc_idx block_size : ℕ) → ℕ → MemBlockDesc
init_from descs zero desc_idx block_size = descs
init_from descs (suc rounds) desc_idx block_size =
    init_from
      (put descs desc_idx (record {
        block_size = block_size;
        blocks_per_arena = (pg_size - arena_size) / block_size;
        free_list = [];
      }))
      rounds (desc_idx + 1) (block_size * 2 % 2 ^ 16)

unfoldable pub block_desc_init : (ℕ → MemBlockDesc) → ℕ → MemBlockDesc
unfolding init_from
block_desc_init descs = init_from descs mem_block_desc_cnt 0 16

-- The loader leaves the size of the memory at 0xb00.
unfoldable pub mem_init : Heap → Heap
mem_init h =
    let mem_bytes_total = h.machine.words 0xb00 in
    record h {
      machine = record h.machine { memory = mem_pool_init h.machine.memory mem_bytes_total };
      k_block_descs = block_desc_init h.k_block_descs;
    }

abbrev pub flags_of : (pgdir : ℕ) → PoolFlags
flags_of pgdir = if pgdir == 0 then pf_kernel else pf_user

abbrev pub pool_size : Heap → PoolFlags → ℕ
pool_size h pf_kernel = h.machine.memory.kernel_mem_pool.pool_size
pool_size h pf_user = h.machine.memory.user_mem_pool.pool_size

abbrev pub descs_of : Heap → PoolFlags → ℕ → MemBlockDesc
descs_of h pf_kernel = h.k_block_descs
descs_of h pf_user = h.u_block_descs

abbrev pub with_free_list : Heap → PoolFlags → (desc_idx : ℕ) → List ℕ → Heap
with_free_list h pf_kernel desc_idx bs = record h {
  k_block_descs =
      put h.k_block_descs desc_idx (record (h.k_block_descs desc_idx) { free_list = bs });
}
with_free_list h pf_user desc_idx bs = record h {
  u_block_descs =
      put h.u_block_descs desc_idx (record (h.u_block_descs desc_idx) { free_list = bs });
}

abbrev pub with_arena : Heap → (a : ℕ) → Arena → Heap
with_arena h a arena = record h { arenas = put h.arenas a arena }

abbrev pub with_machine : Heap → Machine → Heap
with_machine h m = record h { machine = m }

abbrev pub arena2block : (a idx block_size : ℕ) → ℕ
arena2block a idx block_size = add32 (add32 a arena_size) (mul32 idx block_size)

unfoldable pub block2arena : (b : ℕ) → ℕ
block2arena b = bit_and b 0xfffff000

-- `DIV_ROUND_UP(size + sizeof(struct arena), PG_SIZE)`
abbrev pub pages_for : (size : ℕ) → ℕ
pages_for size = sub32 (add32 (add32 size arena_size) pg_size) 1 / pg_size

abbrev pub zeroed : Machine → (a size : ℕ) → Machine
zeroed m a size = with_words m (clear m.words a size)

unfoldable pub malloc_large : Heap → PoolFlags → (size : ℕ) → Outcome (ℕ × Heap)
malloc_large h pf size = do
  let pg_cnt = pages_for size
  (a, m) ← malloc_page h.machine pf pg_cnt
  if a == 0
      then ok (0, with_machine h m)
      else ok (
        add32 a arena_size,
        with_arena (with_machine h (zeroed m a (mul32 pg_cnt pg_size))) a
            (record { desc = none; cnt = pg_cnt; large = true }),
      )

-- The class of a size: the loop over the classes that are left.
unfoldable pub find_class : (ℕ → MemBlockDesc) → (size rounds desc_idx : ℕ) → ℕ
find_class descs size zero desc_idx = desc_idx
find_class descs size (suc rounds) desc_idx =
    let rest = find_class descs size rounds (desc_idx + 1) in
    if leb size (descs desc_idx).block_size then desc_idx else rest

-- The blocks of a new arena are put into the free list, one after the other.
unfoldable pub add_blocks : Heap → PoolFlags → (desc_idx a rounds block_idx : ℕ) → Outcome Heap
add_blocks h pf desc_idx a zero block_idx = ok h
add_blocks h pf desc_idx a (suc rounds) block_idx = do
  let desc = descs_of h pf desc_idx
  let b = arena2block a block_idx desc.block_size
  assert (not (has b desc.free_list))
  add_blocks (with_free_list h pf desc_idx (desc.free_list ++ (b ∷ []))) pf desc_idx a rounds
      (block_idx + 1)

-- `none` where no page is to be had.
unfoldable pub new_arena : Heap → PoolFlags → (desc_idx : ℕ) → Outcome (Option Heap × Heap)
new_arena h pf desc_idx = do
  (a, m) ← malloc_page h.machine pf 1
  if a == 0 then ok (none, with_machine h m) else do
    let cnt = (descs_of h pf desc_idx).blocks_per_arena
    let h₁ =
        with_arena (with_machine h (zeroed m a pg_size)) a
          (record { desc = some desc_idx; cnt = cnt; large = false })
    h₂ ← add_blocks h₁ pf desc_idx a cnt 0
    ok (some h₂, h₂)

-- `list_pop` of an empty list writes through NULL.
unfoldable pub take_block : Heap → PoolFlags → (desc_idx : ℕ) → Outcome (ℕ × Heap)
take_block h pf desc_idx = elim (descs_of h pf desc_idx).free_list [
  | [] ↦ fault
  | b ∷ rest ↦
      let a = block2arena b in
      let h₁ = with_free_list h pf desc_idx rest in
      ok (b, with_arena h₁ a (record (h.arenas a) { cnt = sub32 (h.arenas a).cnt 1 }))
]

abbrev pub is_empty : List ℕ → Bool
is_empty [] = true
is_empty _ = false

unfoldable pub malloc_small : Heap → PoolFlags → (size : ℕ) → Outcome (ℕ × Heap)
malloc_small h pf size = do
  let desc_idx = find_class (descs_of h pf) size mem_block_desc_cnt 0
  if leb mem_block_desc_cnt desc_idx
      then fault
      else if is_empty (descs_of h pf desc_idx).free_list
      then (do
        (made, h₁) ← new_arena h pf desc_idx
        elim made [ none ↦ ok (0, h₁) | some h₂ ↦ take_block h₂ pf desc_idx ])
      else take_block h pf desc_idx

unfoldable pub sys_malloc : Heap → (size : ℕ) → Outcome (ℕ × Heap)
sys_malloc h size =
    let pf = flags_of h.pgdir in
    if ltb (pool_size h pf) size
    then ok (0, h)
    else if ltb 1024 size
    then malloc_large h pf size
    else malloc_small h pf size

abbrev pub remove : (b : ℕ) → List ℕ → List ℕ
remove b [] = []
remove b (x ∷ xs) = if x == b then xs else x ∷ remove b xs

-- All blocks of a full arena leave the free list.
unfoldable pub remove_blocks : Heap → PoolFlags → (desc_idx a rounds block_idx : ℕ) → Outcome Heap
remove_blocks h pf desc_idx a zero block_idx = ok h
remove_blocks h pf desc_idx a (suc rounds) block_idx = do
  let desc = descs_of h pf desc_idx
  let b = arena2block a block_idx desc.block_size
  assert (has b desc.free_list)
  remove_blocks (with_free_list h pf desc_idx (remove b desc.free_list)) pf desc_idx a rounds
      (block_idx + 1)

unfoldable pub free_small : Heap → PoolFlags → (desc_idx a b : ℕ) → Outcome Heap
free_small h pf desc_idx a b = do
  let desc = descs_of h pf desc_idx
  let cnt = add32 (h.arenas a).cnt 1
  let h₁ =
      with_arena (with_free_list h pf desc_idx (desc.free_list ++ (b ∷ []))) a
        (record (h.arenas a) { cnt = cnt })
  if cnt == desc.blocks_per_arena
      then (do
        h₂ ← remove_blocks h₁ pf desc_idx a desc.blocks_per_arena 0
        m ← mfree_page h₂.machine pf a 1
        ok (with_machine h₂ m))
      else ok h₁

abbrev pub free_in : Heap → PoolFlags → (a b : ℕ) → Outcome Heap
free_in h pf a b = elim (h.arenas a).desc [
  | some desc_idx ↦ free_small h pf desc_idx a b
  | none ↦
      if (h.arenas a).large
      then (do m ← mfree_page h.machine pf a (h.arenas a).cnt; ok (with_machine h m))
      else fault
]

unfoldable pub sys_free : Heap → (ptr : ℕ) → Outcome Heap
sys_free h ptr = do
  assert (not (ptr == 0))
  assert (if h.pgdir == 0 then leb k_heap_start ptr else true)
  free_in h (flags_of h.pgdir) (block2arena ptr) ptr
