-- ===== src/Heap/Blocks.antt =====
-- `sys_malloc` and `sys_free` of kernel/memory.c for a kernel thread and at most 1024 bytes, where the
-- class has a free block; and the requests that are refused.
use goos.Prelude.{
  ℕ, suc, ◌-◌, ◌≤◌, ◌<◌, ◌≡◌, refl, sym, ap, ◌∙◌, ◌≢◌, false, arith, ok, panic, ne→==, eq→==, leb,
  add32, sub32, lt→ltb, List, [], ◌∷◌, ◌++◌, ℕ_discrete,
}
use goos.Memory.{pf_kernel, k_heap_start}
use goos.Heap.{
  Heap, Arena, mem_block_desc_cnt, put, with_arena, block2arena, free_small, malloc_small,
  sys_malloc, sys_free,
}
use goos.Heap.Classes.{IsClasses, find_class_lem, class_numbers}
use goos.Heap.Large.{sys_free_kernel}
use goos.Heap.Lists.{with_list, with_list_twice, with_list_at, put-put, put_at, put_same}
use goos.Heap.Arenas.{arena_of, without_first, take_block_lem, free_in_small}
use goos.Heap.Small.{class_of, sys_malloc_small}

-- A block of the list, and its arena.
pub record IsBlock (h : Heap) (idx b a cnt : ℕ) (rest : List ℕ) : Type 0 where
  pub list : (h.k_block_descs idx).free_list ≡ b ∷ rest
  pub home : block2arena b ≡ a
  pub header : h.arenas a ≡ arena_of idx cnt
  pub some_free : 0 < cnt
  pub some_given : cnt < (h.k_block_descs idx).blocks_per_arena
  pub above : k_heap_start ≤ b

pub malloc_first :
    (h : Heap) (size b a : ℕ) (rest : List ℕ)
    → class_of h size < mem_block_desc_cnt
    → (h.k_block_descs (class_of h size)).free_list ≡ b ∷ rest
    → block2arena b ≡ a
    → malloc_small h pf_kernel size ≡ ok (b, without_first h (class_of h size) a rest)
unfolding malloc_small
malloc_first h size b a rest one_of list home =
    let is_class : leb mem_block_desc_cnt (class_of h size) ≡ false = ground (arith, one_of) in
    rw (is_class, list)
      (take_block_lem h (class_of h size) a b (h.k_block_descs (class_of h size)).block_size rest
        (refl, list) home)

pub free_some :
    (h : Heap) (idx a b cnt : ℕ)
    → h.arenas a ≡ arena_of idx cnt
    → cnt < 256
    → suc cnt ≢ (h.k_block_descs idx).blocks_per_arena
    → free_small h pf_kernel idx a b
      ≡ ok (
          with_arena
            (with_list h idx ((h.k_block_descs idx).free_list ++ (b ∷ [])))
            a
            (record (h.arenas a) { cnt = suc cnt }))
unfolding free_small
free_some h idx a b cnt header small not_full =
    let more : add32 (h.arenas a).cnt 1 ≡ suc cnt = omega (arith, ap (λ r. r.cnt) header) in
    rw (more, ne→== not_full) refl

-- Where the classes are those of `block_desc_init`, and the class of a request of at most 1024 bytes, no
-- more than the pool has, has a free block on the heap, of whose arena some blocks are given and some
-- are free, `sys_malloc` for a kernel thread returns the first block of the list, which is large enough,
-- and takes no page. `sys_free` of it returns: the block stands at the end of the list, and all else of
-- the heap is as before the two calls.
pub sys_malloc-sys_free_block :
    (h : Heap) (size b a cnt : ℕ) (rest : List ℕ)
    → h.pgdir ≡ 0
    → IsClasses h.k_block_descs
    → size ≤ 1024
    → size ≤ h.machine.memory.kernel_mem_pool.pool_size
    → IsBlock h (class_of h size) b a cnt rest
    → (h' : Heap) × (sys_malloc h size ≡ ok (b, h'))
      × (size ≤ (h.k_block_descs (class_of h size)).block_size)
      × (h'.machine ≡ h.machine)
      × ((h'.k_block_descs (class_of h size)).free_list ≡ rest)
      × (sys_free h' b ≡ ok (with_list h (class_of h size) (rest ++ (b ∷ []))))
sys_malloc-sys_free_block h size b a cnt rest kernel classes small capacity w =
    let (one_of, least) = find_class_lem h.k_block_descs classes size small in
    let idx = class_of h size in
    let c = class_numbers h.k_block_descs classes idx one_of in
    let h' = without_first h idx a rest in
    let at = with_list_at h idx rest in
    let header : h'.arenas a ≡ arena_of idx (cnt - 1) =
      put_at h.arenas a _
      ∙ ap (λ (r : Arena). record r { cnt = sub32 r.cnt 1 }) w.header
      ∙ ap (arena_of idx) (omega (arith, w.some_free, w.some_given, c.few)) in
    let not_full : suc (cnt - 1) ≢ (h'.k_block_descs idx).blocks_per_arena =
      λ e. absurd (omega (arith, w.some_free, w.some_given, e, ap (λ d. d.blocks_per_arena) at)) in
    let list : (h'.k_block_descs idx).free_list ++ (b ∷ []) ≡ rest ++ (b ∷ []) =
      ap (λ d. d.free_list ++ (b ∷ [])) at in
    let counted : record (h'.arenas a) { cnt = suc (cnt - 1) } ≡ h.arenas a =
      ap (λ (r : Arena). record r { cnt = suc (cnt - 1) }) header
      ∙ ap (arena_of idx) (omega (arith, w.some_free))
      ∙ sym w.header in
    let back : with_arena (with_list h' idx ((h'.k_block_descs idx).free_list ++ (b ∷ []))) a
          (record (h'.arenas a) { cnt = suc (cnt - 1) })
        ≡ with_list h idx (rest ++ (b ∷ [])) =
      ap (λ ys. with_arena (with_list h' idx ys) a (record (h'.arenas a) { cnt = suc (cnt - 1) }))
        list
      ∙ ap
          (λ f. record h' {
            k_block_descs = f;
            arenas = put h'.arenas a (record (h'.arenas a) { cnt = suc (cnt - 1) });
          })
          (ap (λ x. x.k_block_descs) (with_list_twice h idx rest (rest ++ (b ∷ []))))
      ∙ ap (λ f. record (with_list h idx (rest ++ (b ∷ []))) { arenas = f })
          (put-put h.arenas a _ _ ∙ ap (put h.arenas a) counted ∙ put_same h.arenas a) in
    (
      h',
      sys_malloc_small h size kernel small capacity
          ∙ malloc_first h size b a rest one_of w.list w.home,
      least.fits,
      refl,
      ap (λ d. d.free_list) at,
      sys_free_kernel h' b a kernel w.above w.home
          ∙ free_in_small h' a idx (cnt - 1) b header
          ∙ free_some h' idx a b (cnt - 1) header (omega (arith, w.some_given, c.few)) not_full
          ∙ ap ok back,
    )

-- For a kernel thread, `sys_free` of an address below the heap, NULL among them, stops the kernel, and a
-- request for more bytes than the kernel's pool has gets NULL and changes nothing.
pub sys_free-refused :
    (h : Heap) (ptr size : ℕ)
    → h.pgdir ≡ 0
    → ptr < k_heap_start
    → h.machine.memory.kernel_mem_pool.pool_size < size
    → (sys_free h ptr ≡ panic) × (sys_malloc h size ≡ ok (0, h))
unfolding sys_free sys_malloc
sys_free-refused h ptr size kernel low large = (
  elim (ℕ_discrete ptr 0) [
    | yes e ↦ rw (eq→== e) refl
    | no ne ↦
        let off : leb k_heap_start ptr ≡ false = ground (arith, low) in
        rw (ne→== ne, eq→== kernel, off) refl
  ],
  rw (eq→== kernel) (rw (lt→ltb h.machine.memory.kernel_mem_pool.pool_size size large) refl),
)
