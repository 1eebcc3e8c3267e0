-- ===== src/Heap/Ledger.antt =====
-- Who owns what in the kernel's heap of kernel/memory.c: each page is free, an arena of one class, or
-- part of a large block; each block of an arena is in the free list of its class, or given away. The
-- lists, the headers and the pointers that were given away are seen apart from the machine here.
pub mod Counting
pub mod Kinds
pub mod Places
pub mod Listed
pub mod Flip
pub mod Pages
pub mod Drop
pub mod Runs
pub mod Freed
use goos.Prelude.{
  ℕ, zero, suc, ◌+◌, ◌-◌, ◌*◌, ◌/◌, ◌^◌, ◌≤◌, ◌<◌, ◌≡◌, ◌⊎◌, Bool, true, false, not, none, List,
}
use goos.LinkedList.Chain.{Distinct}
use goos.LinkedList.Distinct.{has}
use goos.Memory.{pg_size}
use goos.Heap.{Arena, arena2block, arena_size, mem_block_desc_cnt}
use goos.Heap.Arenas.{arena_of}
use goos.Heap.Ledger.Counting.{count}

-- What a page is: `large m` is the first page of `m`, and `inner x` one behind the first page `x`.
pub data Kind : Type 0 where
  unowned : Kind
  small : (idx : ℕ) → Kind
  large : (m : ℕ) → Kind
  inner : (x : ℕ) → Kind

abbrev pub is_owned : Kind → Bool
is_owned unowned = false
is_owned k = true

-- Block `j` of an arena of class `i`, and how many blocks an arena of the class has.
abbrev pub block : (a j i : ℕ) → ℕ
block a j i = arena2block a j (16 * 2 ^ i)

abbrev pub per_arena : (i : ℕ) → ℕ
per_arena i = (pg_size - arena_size) / (16 * 2 ^ i)

-- The free blocks of an arena, by their number.
abbrev pub free_block : (List ℕ) → (a i : ℕ) → ℕ → Bool
free_block xs a i = λ j. has (block a j i) xs

-- The header of an arena counts its free blocks, and a block is free just when it is not given.
pub record IsArena (free : ℕ → List ℕ) (arenas : ℕ → Arena) (given : ℕ → Bool) (a i : ℕ)
    : Type 0 where
  pub class : i < mem_block_desc_cnt
  pub header : arenas a ≡ arena_of i (count (free_block (free i) a i) (per_arena i))
  pub split : (j : ℕ) → j < per_arena i → has (block a j i) (free i) ≡ not (given (block a j i))

abbrev pub large_header : (m : ℕ) → Arena
large_header m = record { desc = none; cnt = m; large = true }

-- The heap has `n` pages from `s` on.
module _ (s n : ℕ) where
  abbrev pub page_at : (x : ℕ) → ℕ
  page_at x = s + x * 4096

  pub record IsLarge (arenas : ℕ → Arena) (kind : ℕ → Kind) (given : ℕ → Bool) (x m : ℕ)
      : Type 0 where
    pub some_page : 0 < m
    pub room : x + m ≤ n
    pub header : arenas (page_at x) ≡ large_header m
    pub inside : (y : ℕ) → x < y → y < x + m → kind y ≡ inner x
    pub held : given (page_at x + arena_size) ≡ true

  -- The block `b` belongs to the arena on page `x`.
  pub record IsBlockOf (kind : ℕ → Kind) (i b x j : ℕ) : Type 0 where
    pub within : x < n
    pub arena : kind x ≡ small i
    pub number : j < per_arena i
    pub address : b ≡ block (page_at x) j i

  pub record IsLargeOf (kind : ℕ → Kind) (p x m : ℕ) : Type 0 where
    pub within : x < n
    pub first : kind x ≡ large m
    pub address : p ≡ page_at x + arena_size

  pub record IsLedger (free : ℕ → List ℕ) (arenas : ℕ → Arena) (kind : ℕ → Kind) (given : ℕ → Bool)
      : Type 0 where
    pub arena : (x i : ℕ) → x < n → kind x ≡ small i → IsArena free arenas given (page_at x) i
    pub whole : (x m : ℕ) → x < n → kind x ≡ large m → IsLarge arenas kind given x m
    pub distinct : (i : ℕ) → i < mem_block_desc_cnt → Distinct (free i)
    pub member :
        (i b : ℕ)
        → i < mem_block_desc_cnt
        → has b (free i) ≡ true
        → (x j : ℕ) × IsBlockOf kind i b x j
    pub owner :
        (p : ℕ)
        → given p ≡ true
        → ((i x j : ℕ) × IsBlockOf kind i p x j) ⊎ ((x m : ℕ) × IsLargeOf kind p x m)
