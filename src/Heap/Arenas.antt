-- ===== src/Heap/Arenas.antt =====
-- The arenas of kernel/memory.c, one step each: a new one, a block taken from it, and the last block
-- that comes back.
use goos.Prelude.{
  ℕ, suc, ◌+◌, ◌%◌, ◌^◌, ◌≤◌, ◌<◌, ◌≡◌, refl, sym, ap, ◌∙◌, ◌≢◌, false, arith, ok, ne→==, eq→==,
  add32, sub32, some, List, [], ◌∷◌, ◌++◌,
}
use goos.Memory.{pf_kernel, pg_size}
use goos.PageTable.{Machine, malloc_page, mfree_page}
use goos.Heap.{
  Heap, Arena, MemBlockDesc, zeroed, with_arena, with_machine, arena2block, block2arena, new_arena,
  take_block, free_small, free_in, remove_blocks, add_blocks,
}
use goos.Heap.Classes.{ClassNumbers, arena2block-InArena, block_ne}
use goos.Heap.Lists.{
  with_list, blocks_from, Differ, Holds, Holds-with_list, add_all, remove_all, has_none,
}

-- The blocks of an arena on a page of its own.
pub Differ-arena :
    (d : MemBlockDesc)
    → ClassNumbers d
    → (a : ℕ) → a % pg_size ≡ 0
    → a + pg_size ≤ 2 ^ 32
    → Differ a d.block_size d.blocks_per_arena
Differ-arena d c a whole fits i j lt below e =
    let at = λ (x : ℕ) (h : x < d.blocks_per_arena).
      (arena2block-InArena a x d.block_size whole fits (omega (arith, c.least))
        (omega (arith, h, c.count))).address in
    block_ne a i j d.block_size (omega (arith, c.least)) lt
      (sym (at i (omega arith)) ∙ e ∙ at j below)

abbrev pub arena_of : (idx cnt : ℕ) → Arena
arena_of idx cnt = record { desc = some idx; cnt = cnt; large = false }

-- The last block to come back to its arena: all its blocks leave the list, and the page is free.
pub free_small_full :
    (h : Heap) (idx a n size : ℕ) (m : Machine)
    → Holds h idx size (blocks_from a size n 1)
    → (h.k_block_descs idx).blocks_per_arena ≡ suc n
    → h.arenas a ≡ arena_of idx n
    → n < 256
    → Differ a size (suc n)
    → mfree_page h.machine pf_kernel a 1 ≡ ok m
    → free_small h pf_kernel idx a (arena2block a 0 size)
      ≡ ok (
          with_machine
            (with_list
              (with_arena
                (with_list h idx ((h.k_block_descs idx).free_list ++ (arena2block a 0 size ∷ [])))
                a
                (record (h.arenas a) { cnt = suc n }))
              idx
              [])
            m)
unfolding free_small
free_small_full h idx a n size m w count header small d freed =
    let b = arena2block a 0 size in
    let xs = (h.k_block_descs idx).free_list ++ (b ∷ []) in
    let full : add32 (h.arenas a).cnt 1 ≡ suc n = omega (arith, ap (λ r. r.cnt) header) in
    let h₁ = with_arena (with_list h idx xs) a (record (h.arenas a) { cnt = suc n }) in
    let (es, ex) = Holds-with_list h idx size (blocks_from a size n 1) xs w in
    let gone =
      ap (λ r. remove_blocks h₁ pf_kernel idx a r 0) count
      ∙ remove_all idx a size (suc n) d n h₁ (omega arith)
          (es, ex ∙ ap (λ ys. ys ++ (b ∷ [])) w.1) in
    rw (full, eq→== (sym count)) (rw gone (rw freed refl))

pub free_in_small :
    (h : Heap) (a idx n b : ℕ)
    → h.arenas a ≡ arena_of idx n
    → free_in h pf_kernel a b ≡ free_small h pf_kernel idx a b
free_in_small h a idx n b e = rw (free_in, ap (λ r. r.desc) e) refl

-- The heap with a new arena on page `a`, before its blocks are put into the list.
abbrev pub made : Heap → (idx a : ℕ) → Machine → Heap
made h idx a m =
    with_arena (with_machine h (zeroed m a pg_size)) a
      (arena_of idx (h.k_block_descs idx).blocks_per_arena)

abbrev pub filled : Heap → (idx a n size : ℕ) → Machine → Heap
filled h idx a n size m = with_list (made h idx a m) idx (blocks_from a size n 0)

pub new_arena_lem :
    (h : Heap) (idx a n size : ℕ) (m : Machine)
    → Holds h idx size []
    → (h.k_block_descs idx).blocks_per_arena ≡ suc n
    → Differ a size (suc n)
    → a ≢ 0
    → malloc_page h.machine pf_kernel 1 ≡ ok (a, m)
    → new_arena h pf_kernel idx
      ≡ ok (some (filled h idx a (suc n) size m), filled h idx a (suc n) size m)
unfolding new_arena
new_arena_lem h idx a n size m w count d not_null got =
    let put_in =
      ap (λ r. add_blocks (made h idx a m) pf_kernel idx a r 0) count
      ∙ add_all idx a size (suc n) d (suc n) 0 (made h idx a m) [] w (omega arith)
          (λ j lo hi. has_none (arena2block a j size)) in
    rw got (rw (ne→== not_null) (rw put_in refl))

-- A block is taken from the front of the list.
abbrev pub without_first : Heap → (idx a : ℕ) → List ℕ → Heap
without_first h idx a rest =
    with_arena (with_list h idx rest) a (record (h.arenas a) { cnt = sub32 (h.arenas a).cnt 1 })

pub take_block_lem :
    (h : Heap) (idx a b size : ℕ) (rest : List ℕ)
    → Holds h idx size (b ∷ rest)
    → block2arena b ≡ a
    → take_block h pf_kernel idx ≡ ok (b, without_first h idx a rest)
unfolding take_block
take_block_lem h idx a b size rest w home =
    rw (take_block, w.1) (ap (λ x. ok (b, without_first h idx x rest)) home)

-- A block comes back, and its arena has only free blocks then.
pub free_all :
    (h h₂ : Heap) (idx a b cnt : ℕ) (m : Machine)
    → h.arenas a ≡ arena_of idx cnt
    → cnt < 256
    → suc cnt ≡ (h.k_block_descs idx).blocks_per_arena
    → remove_blocks
        (with_arena
          (with_list h idx ((h.k_block_descs idx).free_list ++ (b ∷ [])))
          a
          (record (h.arenas a) { cnt = suc cnt }))
        pf_kernel
        idx
        a
        (h.k_block_descs idx).blocks_per_arena
        0
      ≡ ok h₂
    → mfree_page h₂.machine pf_kernel a 1 ≡ ok m
    → free_small h pf_kernel idx a b ≡ ok (with_machine h₂ m)
unfolding free_small
free_all h h₂ idx a b cnt m header few full removed freed =
    let more : add32 (h.arenas a).cnt 1 ≡ suc cnt = omega (arith, ap (λ r. r.cnt) header) in
    rw (more, eq→== full) (rw removed (rw freed refl))
