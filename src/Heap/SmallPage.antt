-- ===== src/Heap/SmallPage.antt =====
-- A page that becomes an arena for one block, and is given back with it, by kernel/memory.c for a kernel
-- thread.
use goos.Prelude.{
  ℕ, suc, ◌+◌, ◌-◌, ◌%◌, ◌≤◌, ◌<◌, ◌≡◌, refl, sym, ap, ◌∙◌, ◌≢◌, true, false, arith, ok, ne→==,
  sub32, some, List, [], ◌∷◌, ◌++◌,
}
use goos.Memory.{pf_kernel, pg_size, k_heap_start}
use goos.Memory.Ranges.{inside}
use goos.PageTable.{Machine, malloc_page, mfree_page}
use goos.PageTable.Entries.{window}
use goos.PageTable.Count.{free_pages}
use goos.PageTable.Kernel.{IsHeap, heap_pages, heap_page, in_use}
use goos.PageTable.Alloc.{Allocated}
use goos.PageTable.Free.{Freed, mfree_page-Freed}
use goos.Heap.{
  Heap, Arena, arena_size, with_arena, with_machine, arena2block, block2arena, new_arena,
  take_block, sys_free,
}
use goos.Heap.Classes.{ClassNumbers, arena2block-InArena}
use goos.Heap.Large.{sys_free_kernel, zeroed-IsHeap}
use goos.Heap.Lists.{
  with_list, with_list_twice, with_list_same, with_list_at, blocks_from, Differ, Holds,
  Holds-with_list, put_at,
}
use goos.Heap.Arenas.{
  Differ-arena, arena_of, free_small_full, free_in_small, made, filled, new_arena_lem,
  without_first, take_block_lem,
}

-- What giving the page back has done: as before the two calls.
pub record SmallFreed (h : Heap) (frame : ℕ → ℕ) (h'' : Heap) : Type 0 where
  pub heap : IsHeap h''.machine frame
  pub used : (x : ℕ) → in_use h''.machine x ≡ in_use h.machine x
  pub free :
      free_pages h''.machine.memory.kernel_mem_pool ≡ free_pages h.machine.memory.kernel_mem_pool
  pub lists : h''.k_block_descs ≡ h.k_block_descs
  pub arenas :
      (x : ℕ)
      → in_use h.machine x ≡ true
      → h''.arenas (heap_page h.machine x) ≡ h.arenas (heap_page h.machine x)

-- What taking a block of a new arena on page `i` has done.
pub record SmallTaken (h : Heap) (frame : ℕ → ℕ) (idx i : ℕ) (h' : Heap) : Type 0 where
  pub frames : ℕ → ℕ
  pub heap : IsHeap h'.machine frames
  pub within : i < heap_pages h.machine
  pub fresh : in_use h.machine i ≡ false
  pub header :
      h'.arenas (heap_page h.machine i) ≡ arena_of idx ((h.k_block_descs idx).blocks_per_arena - 1)
  pub list :
      (h'.k_block_descs idx).free_list
      ≡ blocks_from
          (heap_page h.machine i)
          (h.k_block_descs idx).block_size
          ((h.k_block_descs idx).blocks_per_arena - 1)
          1
  pub kept : (x : ℕ) → in_use h.machine x ≡ true → frames x ≡ frame x
  pub after : Heap
  pub free : sys_free h' (heap_page h.machine i + arena_size) ≡ ok after
  pub freed : SmallFreed h frames after

module _ (h : Heap) (frame : ℕ → ℕ) (v : IsHeap h.machine frame) (kernel : h.pgdir ≡ 0)
    (above : k_heap_start ≤ h.machine.memory.kernel_vaddr_pool.vaddr_start) (idx : ℕ)
    (c : ClassNumbers (h.k_block_descs idx)) (empty : (h.k_block_descs idx).free_list ≡ []) (i : ℕ)
    (m : Machine) (frames : ℕ → ℕ) (w : Allocated h.machine frame 1 i m frames) where
  abbrev a : ℕ
  a = heap_page h.machine i

  abbrev size : ℕ
  size = (h.k_block_descs idx).block_size

  abbrev n : ℕ
  n = (h.k_block_descs idx).blocks_per_arena - 1

  abbrev rest : List ℕ
  rest = blocks_from a size n 1

  abbrev pub full : Heap
  full = filled h idx a (suc n) size m

  abbrev pub taken : Heap
  taken = without_first full idx a rest

  count : (h.k_block_descs idx).blocks_per_arena ≡ suc n
  count = omega (arith, c.several)

  whole : a % pg_size ≡ 0
  whole = omega (arith, v.mapping.start)

  low : a + pg_size ≤ window
  low = omega (arith, w.room, v.mapping.below)

  differ : Differ a size (suc n)
  differ = rw (← count) (Differ-arena (h.k_block_descs idx) c a whole (omega (arith, low)))

  pub first : arena2block a 0 size ≡ a + arena_size
  first = omega (arith, low)

  home : block2arena (arena2block a 0 size) ≡ a
  home =
      (arena2block-InArena a 0 size whole (omega (arith, low)) (omega (arith, c.least))
        (omega (arith, c.several, c.count))).home

  not_null : a ≢ 0
  not_null = omega (arith, v.mapping.not_null)

  full-Holds : Holds full idx size (blocks_from a size (suc n) 0)
  full-Holds =
      Holds-with_list (made h idx a m) idx size [] (blocks_from a size (suc n) 0) (refl, empty)

  taken-Holds : Holds taken idx size rest
  taken-Holds = Holds-with_list full idx size (blocks_from a size (suc n) 0) rest full-Holds

  pub malloc_new :
      malloc_page h.machine pf_kernel 1 ≡ ok (a, m)
      → (new_arena h pf_kernel idx ≡ ok (some full, full))
        × (take_block full pf_kernel idx ≡ ok (arena2block a 0 size, taken))
  malloc_new got = (
    new_arena_lem h idx a n size m (refl, empty) count differ not_null got,
    take_block_lem full idx a (arena2block a 0 size) size rest full-Holds home,
  )

  header_full : full.arenas a ≡ arena_of idx (suc n)
  header_full = put_at h.arenas a _ ∙ ap (arena_of idx) count

  header : taken.arenas a ≡ arena_of idx n
  header =
      put_at full.arenas a _
      ∙ ap (λ (r : Arena). record r { cnt = sub32 r.cnt 1 }) header_full
      ∙ ap (arena_of idx) (omega (arith, c.few))

  page_back :
      (m'' : Machine) × (mfree_page taken.machine pf_kernel a 1 ≡ ok m'')
      × Freed taken.machine frames 1 i m''
  page_back =
      let zero_heap = zeroed-IsHeap w.heap a pg_size low in
      let there : (x : ℕ) → inside i 1 x ≡ true → in_use m x ≡ true =
        λ x e. ground (arith, w.used x, e) in
      let (m'', e, f) =
        mfree_page-Freed taken.machine frames zero_heap 1 i (omega arith)
          (omega (arith, w.room, w.pages)) there in
      let at : heap_page taken.machine i ≡ a = omega (arith, w.start) in
      (m'', ap (λ x. mfree_page taken.machine pf_kernel x 1) (sym at) ∙ e, f)

  abbrev free_list_of_taken : List ℕ
  free_list_of_taken = (taken.k_block_descs idx).free_list ++ (arena2block a 0 size ∷ [])

  abbrev listed : Heap
  listed =
      with_arena (with_list taken idx free_list_of_taken) a
        (record (taken.arenas a) { cnt = suc n })

  lists_back : (with_list listed idx []).k_block_descs ≡ h.k_block_descs
  lists_back =
      let made_k : with_list
            (with_list (with_list (with_list h idx (blocks_from a size (suc n) 0)) idx rest) idx
              free_list_of_taken)
            idx []
          ≡ h =
        with_list_twice (with_list (with_list h idx (blocks_from a size (suc n) 0)) idx rest) idx
          free_list_of_taken []
        ∙ with_list_twice (with_list h idx (blocks_from a size (suc n) 0)) idx rest []
        ∙ with_list_twice h idx (blocks_from a size (suc n) 0) []
        ∙ ap (with_list h idx) (sym empty)
        ∙ with_list_same h idx in
      ap (λ x. x.k_block_descs) made_k

  block_back : (h'' : Heap) × (sys_free taken (a + arena_size) ≡ ok h'') × SmallFreed h frames h''
  block_back =
      let (m'', e, f) = page_back in
      let taken_count : (taken.k_block_descs idx).blocks_per_arena ≡ suc n =
        ap (λ d. d.blocks_per_arena) (with_list_at full idx rest)
        ∙ ap (λ d. d.blocks_per_arena)
            (with_list_at (made h idx a m) idx (blocks_from a size (suc n) 0))
        ∙ count in
      let freed =
        free_small_full taken idx a n size m'' taken-Holds taken_count header (omega (arith, c.few))
          differ e in
      let other : (x : ℕ) → in_use h.machine x ≡ true → heap_page h.machine x ≢ a = λ x on same.
        let here : x ≡ i = omega (arith, same) in ground (arith, w.fresh x, on, here) in
      (
        with_machine (with_list listed idx []) m'',
        ap (sys_free taken) (sym first)
            ∙ sys_free_kernel taken (arena2block a 0 size) a kernel (omega (arith, above, first))
                home
            ∙ free_in_small taken a idx n (arena2block a 0 size) header
            ∙ freed,
        record {
          heap = f.heap;
          used = λ x. ground (arith, f.used x, w.used x, w.fresh x);
          free = omega (arith, f.free, w.free);
          lists = lists_back;
          arenas = λ x on. rw (ne→== (other x on)) refl;
        },
      )

  pub small_taken : SmallTaken h frame idx i taken
  small_taken =
      let (h'', e, f) = block_back in
      record {
        frames = frames;
        heap = zeroed-IsHeap w.heap a pg_size low;
        within = omega (arith, w.room);
        fresh = w.fresh i (ground arith);
        header = header;
        list = taken-Holds.1;
        kept = λ x on. w.frames x (ground (arith, w.fresh x, on));
        after = h'';
        free = e;
        freed = f;
      }
