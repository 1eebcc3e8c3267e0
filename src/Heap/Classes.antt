-- ===== src/Heap/Classes.antt =====
-- The classes of blocks of kernel/memory.c: their sizes, the class of a request, and where the blocks
-- of an arena stand.
use native.Mathlib.Nat.{mul-le-mul_right, div-mul-le_self, mul-lt-mul_of_pos_right}
use goos.Prelude.{
  ℕ, zero, suc, ◌+◌, ◌-◌, ◌*◌, ◌/◌, ◌%◌, ◌^◌, ◌≤◌, ◌<◌, ◌≡◌, refl, sym, ap, ◌∙◌, ◌≢◌, false, arith,
  leb, le→leb, dec_lt, ℕ_discrete, [],
}
use goos.Prelude.Masks.{bit_and_high}
use goos.Memory.{pg_size}
use goos.Heap.{
  MemBlockDesc, mem_block_desc_cnt, arena_size, init_from, block_desc_init, find_class, arena2block,
  block2arena,
}

-- The classes are powers of 2 from 16 to 1024, with as many blocks as fit behind the arena's header.
pub record IsClasses (descs : ℕ → MemBlockDesc) : Type 0 where
  pub sizes : (i : ℕ) → i < mem_block_desc_cnt → (descs i).block_size ≡ 16 * 2 ^ i
  pub counts :
      (i : ℕ)
      → i < mem_block_desc_cnt
      → (descs i).blocks_per_arena ≡ (pg_size - arena_size) / (16 * 2 ^ i)

-- A property of the classes, from each of them.
each_class {ℓ} :
    (P : ℕ → Type ℓ)
    → P 0
    → P 1
    → P 2
    → P 3
    → P 4
    → P 5
    → P 6
    → (i : ℕ) → i < mem_block_desc_cnt
    → P i
each_class P p₀ p₁ p₂ p₃ p₄ p₅ p₆ zero h = p₀
each_class P p₀ p₁ p₂ p₃ p₄ p₅ p₆ (suc zero) h = p₁
each_class P p₀ p₁ p₂ p₃ p₄ p₅ p₆ (suc (suc zero)) h = p₂
each_class P p₀ p₁ p₂ p₃ p₄ p₅ p₆ (suc (suc (suc zero))) h = p₃
each_class P p₀ p₁ p₂ p₃ p₄ p₅ p₆ (suc (suc (suc (suc zero)))) h = p₄
each_class P p₀ p₁ p₂ p₃ p₄ p₅ p₆ (suc (suc (suc (suc (suc zero))))) h = p₅
each_class P p₀ p₁ p₂ p₃ p₄ p₅ p₆ (suc (suc (suc (suc (suc (suc zero)))))) h = p₆
each_class P p₀ p₁ p₂ p₃ p₄ p₅ p₆ (suc (suc (suc (suc (suc (suc (suc i))))))) h =
    absurd (omega arith)

-- `block_desc_init` makes all classes, with empty free lists.
pub block_desc_init-IsClasses :
    (descs : ℕ → MemBlockDesc)
    → IsClasses (block_desc_init descs)
      × ((i : ℕ) → i < mem_block_desc_cnt → (block_desc_init descs i).free_list ≡ [])
unfolding block_desc_init init_from
block_desc_init-IsClasses descs = (
  record {
    sizes =
        each_class (λ i. (block_desc_init descs i).block_size ≡ 16 * 2 ^ i) refl refl refl refl refl
          refl refl;
    counts =
        each_class
          (λ i. (block_desc_init descs i).blocks_per_arena ≡ (pg_size - arena_size) / (16 * 2 ^ i))
          refl refl refl refl refl refl refl;
  },
  each_class (λ i. (block_desc_init descs i).free_list ≡ []) refl refl refl refl refl refl refl,
)

-- The search from class `i` on stops at the first class that is large enough.
pub record IsLeast (descs : ℕ → MemBlockDesc) (size i j : ℕ) : Type 0 where
  pub from : i ≤ j
  pub fits : size ≤ (descs j).block_size
  pub least : (x : ℕ) → i ≤ x → x < j → (descs x).block_size < size

pub find_class-IsLeast :
    (descs : ℕ → MemBlockDesc) (size n i k : ℕ)
    → i ≤ k
    → k < i + n
    → size ≤ (descs k).block_size
    → (find_class descs size n i ≤ k) × IsLeast descs size i (find_class descs size n i)
unfolding find_class
find_class-IsLeast descs size zero i k p q h = absurd (omega arith)
find_class-IsLeast descs size (suc n) i k p q h = elim (dec_lt (descs i).block_size size) [
  | yes small ↦
      let ne : i ≢ k = λ e. absurd (omega (arith, small, h, ap (λ x. (descs x).block_size) e)) in
      let (below, w) =
        find_class-IsLeast descs size n (i + 1) k (omega (arith, ne)) (omega arith) h in
      let off : leb size (descs i).block_size ≡ false = ground (arith, small) in
      rw off (
        below,
        record {
          from = omega (arith, w.from);
          fits = w.fits;
          least = λ x lo hi. elim (ℕ_discrete x i) [
            | yes e ↦ rw e small
            | no ne' ↦ w.least x (omega (arith, ne')) hi
          ];
        },
      )
  | no large ↦ rw (le→leb size (descs i).block_size (omega (arith, large))) (
    p,
    record {
      from = omega arith;
      fits = omega (arith, large);
      least = λ x lo hi. absurd (omega arith);
    },
  )
]

-- A request of at most 1024 bytes gets one of the classes, the smallest that holds it.
pub find_class_lem :
    (descs : ℕ → MemBlockDesc)
    → IsClasses descs
    → (size : ℕ) → size ≤ 1024
    → (find_class descs size mem_block_desc_cnt 0 < mem_block_desc_cnt)
      × IsLeast descs size 0 (find_class descs size mem_block_desc_cnt 0)
find_class_lem descs c size h =
    let (below, w) =
      find_class-IsLeast descs size mem_block_desc_cnt 0 6 (omega arith) (omega arith)
        (omega (arith, c.sizes 6 (omega arith))) in
    (omega (arith, below), w)

-- Block `idx` of the arena at `a` lies on the arena's page, behind the header.
pub record InArena (a idx block_size : ℕ) : Type 0 where
  pub address : arena2block a idx block_size ≡ a + arena_size + idx * block_size
  pub ends : idx * block_size + block_size ≤ pg_size - arena_size
  pub home : block2arena (arena2block a idx block_size) ≡ a

-- The blocks of an arena, as many as its class counts, lie one after the other on the arena's page,
-- and `block2arena` finds the arena from each of them.
pub arena2block-InArena :
    (a idx block_size : ℕ)
    → a % pg_size ≡ 0
    → a + pg_size ≤ 2 ^ 32
    → 0 < block_size
    → idx < (pg_size - arena_size) / block_size
    → InArena a idx block_size
unfolding block2arena
arena2block-InArena a idx block_size whole fits pos h =
    let all : (pg_size - arena_size) / block_size * block_size ≤ pg_size - arena_size =
      div-mul-le_self (pg_size - arena_size) block_size in
    let up : suc idx * block_size ≤ (pg_size - arena_size) / block_size * block_size =
      mul-le-mul_right block_size h in
    let ends : idx * block_size + block_size ≤ pg_size - arena_size = omega (arith, up, all) in
    let at : arena2block a idx block_size ≡ a + arena_size + idx * block_size =
      omega (arith, ends, pos) in
    record {
      address = at;
      ends = ends;
      home = rw at (
          bit_and_high 20 12 (a + arena_size + idx * block_size) (omega (arith, ends, pos))
          ∙ omega (arith, ends, pos));
    }

-- Different blocks of an arena stand at different addresses.
pub block_ne :
    (a i j block_size : ℕ)
    → 0 < block_size
    → i < j
    → a + arena_size + i * block_size ≢ a + arena_size + j * block_size
block_ne a i j block_size pos h e =
    let up : i * block_size < j * block_size = mul-lt-mul_of_pos_right h pos in
    absurd (omega (arith, e, up))

-- The numbers of a class: its size, and the count of blocks in an arena.
pub record ClassNumbers (d : MemBlockDesc) : Type 0 where
  pub least : 16 ≤ d.block_size
  pub most : d.block_size ≤ 1024
  pub count : d.blocks_per_arena ≡ (pg_size - arena_size) / d.block_size
  pub several : 2 < d.blocks_per_arena
  pub few : d.blocks_per_arena < 256

pub class_numbers :
    (descs : ℕ → MemBlockDesc)
    → IsClasses descs
    → (i : ℕ) → i < mem_block_desc_cnt
    → ClassNumbers (descs i)
class_numbers descs c i h =
    let s = c.sizes i h in
    let n = c.counts i h in
    let (least, most, several, few) =
      each_class
        (λ j.
          (16 ≤ 16 * 2 ^ j)
          × (16 * 2 ^ j ≤ 1024)
          × (2 < (pg_size - arena_size) / (16 * 2 ^ j))
          × ((pg_size - arena_size) / (16 * 2 ^ j) < 256))
        (omega arith, omega arith, omega arith, omega arith)
        (omega arith, omega arith, omega arith, omega arith)
        (omega arith, omega arith, omega arith, omega arith)
        (omega arith, omega arith, omega arith, omega arith)
        (omega arith, omega arith, omega arith, omega arith)
        (omega arith, omega arith, omega arith, omega arith)
        (omega arith, omega arith, omega arith, omega arith) i h in
    record {
      least = rw s least;
      most = rw s most;
      count = n ∙ ap (λ x. (pg_size - arena_size) / x) (sym s);
      several = rw n several;
      few = rw n few;
    }
