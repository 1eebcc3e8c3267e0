-- ===== src/Heap/Large.antt =====
-- `sys_malloc` and `sys_free` of kernel/memory.c for a kernel thread and more than 1024 bytes: whole
-- pages, with the arena's header at their start.
use goos.Prelude.{
  ℕ, ◌+◌, ◌*◌, ◌%◌, ◌≤◌, ◌<◌, ◌≡◌, refl, sym, ap, ◌∙◌, ◌≢◌, ◌⊎◌, inl, inr, true, false, arith, ok,
  ne→==, eq→==, ltb, add32, mul32, le→leb, lt→ltb, none,
}
use goos.Prelude.Masks.{bit_and_high}
use goos.Memory.{PoolFlags, pf_kernel, pg_size, k_heap_start}
use goos.Memory.Ranges.{inside}
use goos.PageTable.{Machine, clear, mfree_page}
use goos.PageTable.Entries.{window}
use goos.PageTable.Count.{free_pages}
use goos.PageTable.Kernel.{IsHeap, heap_pages, heap_page, in_use}
use goos.PageTable.Alloc.{Allocated, malloc_page-Allocated}
use goos.PageTable.Free.{mfree_page-Freed}
use goos.PageTable.Words.{IsHeap-with_words}
use goos.Heap.{
  Heap, arena_size, pages_for, zeroed, malloc_large, with_arena, with_machine, block2arena,
  sys_malloc, sys_free, free_in,
}

-- Memory below the window of the page tables can be cleared: no page is mapped in another way.
pub zeroed-IsHeap :
    {m : Machine} {frame : ℕ → ℕ}
    → IsHeap m frame
    → (a size : ℕ) → a + size ≤ window
    → IsHeap (zeroed m a size) frame
zeroed-IsHeap {m} v a size below = IsHeap-with_words v (clear m.words a size) (λ x h. ground arith)

pub pages_for_lem :
    (size : ℕ)
    → size + arena_size ≤ 3839 * pg_size
    → (size + arena_size ≤ pages_for size * pg_size)
      × (0 < pages_for size)
      × (pages_for size < 3840)
      × (mul32 (pages_for size) pg_size ≡ pages_for size * pg_size)
pages_for_lem size h = (omega (arith, h), omega (arith, h), omega (arith, h), omega (arith, h))

-- The arena of the address behind the header.
pub behind_header :
    (a : ℕ)
    → a % pg_size ≡ 0
    → a < window
    → (add32 a arena_size ≡ a + arena_size) × (block2arena (a + arena_size) ≡ a)
unfolding block2arena
behind_header a whole h = (
  omega (arith, h),
  bit_and_high 20 12 (a + arena_size) (omega (arith, h)) ∙ omega (arith, whole),
)

pub free_in_large :
    (h : Heap) (pf : PoolFlags) (a b cnt : ℕ) (m : Machine)
    → h.arenas a ≡ record { desc = none; cnt = cnt; large = true }
    → mfree_page h.machine pf a cnt ≡ ok m
    → free_in h pf a b ≡ ok (with_machine h m)
free_in_large h pf a b cnt m e e' =
    rw (free_in, ap (λ r. r.desc) e, ap (λ r. r.large) e, ap (λ r. r.cnt) e, e') refl

pub sys_free_kernel :
    (h : Heap) (ptr a : ℕ)
    → h.pgdir ≡ 0
    → k_heap_start ≤ ptr
    → block2arena ptr ≡ a
    → sys_free h ptr ≡ free_in h pf_kernel a ptr
unfolding sys_free
sys_free_kernel h ptr a kernel above home =
    let not_null : ptr ≢ 0 = omega (arith, above) in
    rw (ne→== not_null, eq→== kernel, le→leb k_heap_start ptr above)
      (ap (λ x. free_in h pf_kernel x ptr) home)

-- What freeing the block has done.
pub record LargeFreed (h : Heap) (frame : ℕ → ℕ) (h'' : Heap) : Type 0 where
  pub heap : IsHeap h''.machine frame
  pub used : (x : ℕ) → in_use h''.machine x ≡ in_use h.machine x
  pub free :
      free_pages h''.machine.memory.kernel_mem_pool ≡ free_pages h.machine.memory.kernel_mem_pool
  pub lists : h''.k_block_descs ≡ h.k_block_descs
  pub arenas :
      (x : ℕ)
      → in_use h.machine x ≡ true
      → h''.arenas (heap_page h.machine x) ≡ h.arenas (heap_page h.machine x)

-- What allocating the block has done.
pub record LargeTaken (h : Heap) (frame : ℕ → ℕ) (size i : ℕ) (h' : Heap) : Type 0 where
  pub frames : ℕ → ℕ
  pub heap : IsHeap h'.machine frames
  pub room : size + arena_size ≤ pages_for size * pg_size
  pub within : i + pages_for size ≤ heap_pages h.machine
  pub fresh : (x : ℕ) → inside i (pages_for size) x ≡ true → in_use h.machine x ≡ false
  pub zeros :
      (a : ℕ)
      → heap_page h.machine i ≤ a
      → a < heap_page h.machine i + pages_for size * pg_size
      → h'.machine.words a ≡ 0
  pub kept : (x : ℕ) → in_use h.machine x ≡ true → frames x ≡ frame x
  pub after : Heap
  pub free : sys_free h' (heap_page h.machine i + arena_size) ≡ ok after
  pub freed : LargeFreed h frames after

-- The heap when `malloc_page` gave the pages from page `i` on.
abbrev given : Heap → (size i : ℕ) → Machine → Heap
given h size i m =
    with_arena (with_machine h (zeroed m (heap_page h.machine i) (mul32 (pages_for size) pg_size)))
      (heap_page h.machine i) (record { desc = none; cnt = pages_for size; large = true })

module _ (h : Heap) (frame : ℕ → ℕ) (v : IsHeap h.machine frame) (kernel : h.pgdir ≡ 0)
    (above : k_heap_start ≤ h.machine.memory.kernel_vaddr_pool.vaddr_start) (size : ℕ)
    (large : 1024 < size) (fits : size + arena_size ≤ 3839 * pg_size) (i : ℕ) (m : Machine)
    (frames : ℕ → ℕ) (w : Allocated h.machine frame (pages_for size) i m frames) where
  low_page : heap_page h.machine i < window
  low_page =
      let (_, pos, _, _) = pages_for_lem size fits in omega (arith, pos, w.room, v.mapping.below)

  same_page : (x : ℕ) → heap_page m x ≡ heap_page h.machine x
  same_page x = omega (arith, w.start)

  given-IsHeap : IsHeap (given h size i m).machine frames
  given-IsHeap =
      zeroed-IsHeap w.heap (heap_page h.machine i) (mul32 (pages_for size) pg_size)
        (omega (arith, fits, w.room, v.mapping.below))

  header :
      (given h size i m).arenas (heap_page h.machine i)
      ≡ record { desc = none; cnt = pages_for size; large = true }
  header = rw (eq→== {a = heap_page h.machine i} refl) refl

  whole_page : heap_page h.machine i % pg_size ≡ 0
  whole_page = omega (arith, v.mapping.start)

  taken_pages : (x : ℕ) → inside i (pages_for size) x ≡ true → in_use m x ≡ true
  taken_pages x e = ground (arith, w.used x, e)

  free_large :
      (h'' : Heap) × (sys_free (given h size i m) (heap_page h.machine i + arena_size) ≡ ok h'')
      × LargeFreed h frames h''
  free_large =
      let (m'', e, f) =
        mfree_page-Freed (given h size i m).machine frames given-IsHeap (pages_for size) i
          (omega (arith, fits)) (omega (arith, w.room, w.pages)) taken_pages in
      let e' : mfree_page (given h size i m).machine pf_kernel (heap_page h.machine i)
            (pages_for size)
          ≡ ok m'' =
        ap (λ a. mfree_page (given h size i m).machine pf_kernel a (pages_for size))
          (sym (same_page i))
        ∙ e in
      let (_, home) = behind_header (heap_page h.machine i) whole_page low_page in
      let other : (x : ℕ) → in_use h.machine x ≡ true → x ≢ i =
        λ x on same. ground (arith, w.fresh x, on, same, fits) in
      (
        with_machine (given h size i m) m'',
        sys_free_kernel (given h size i m) (heap_page h.machine i + arena_size)
              (heap_page h.machine i) kernel (omega (arith, above)) home
            ∙ free_in_large (given h size i m) pf_kernel (heap_page h.machine i)
                (heap_page h.machine i + arena_size) (pages_for size) m'' header e',
        record {
          heap = f.heap;
          used = λ x. ground (arith, f.used x, w.used x, w.fresh x);
          free = omega (arith, f.free, w.free);
          lists = refl;
          arenas = λ x on.
              rw
                (ne→== {a = heap_page h.machine x} {b = heap_page h.machine i}
                  (λ same. other x on (omega (arith, same))))
                refl;
        },
      )

  large_taken : LargeTaken h frame size i (given h size i m)
  large_taken =
      let (h'', e, f) = free_large in
      let (room, _, _, bytes) = pages_for_lem size fits in
      record {
        frames = frames;
        heap = given-IsHeap;
        room = room;
        within = w.room;
        fresh = w.fresh;
        zeros = λ a lo hi. ground (arith, bytes);
        kept = λ x on. w.frames x (ground (arith, w.fresh x, on));
        after = h'';
        free = e;
        freed = f;
      }

-- Where the invariant of the kernel's heap holds, and the heap starts at K_HEAP_START or above, a kernel
-- thread that asks for more than 1024 bytes, no more than the pool has and 3839 pages hold behind a
-- header, while a virtual page and enough frames are free, gets either NULL, with nothing changed, or a
-- pointer just behind the header of fresh pages that hold the header and the bytes asked for and were
-- set to zero. `sys_free` of that pointer returns: the pages given away, the number of free frames, the
-- lists of blocks and the arenas of the other pages are then as before. The invariant holds after each
-- of the two calls, and the pages given away before keep their frames.
pub sys_malloc-sys_free_large :
    (h : Heap) (frame : ℕ → ℕ)
    → IsHeap h.machine frame
    → h.pgdir ≡ 0
    → k_heap_start ≤ h.machine.memory.kernel_vaddr_pool.vaddr_start
    → (size k : ℕ) → 1024 < size
    → size + arena_size ≤ 3839 * pg_size
    → size ≤ h.machine.memory.kernel_mem_pool.pool_size
    → k < heap_pages h.machine
    → in_use h.machine k ≡ false
    → pages_for size ≤ free_pages h.machine.memory.kernel_mem_pool
    → (sys_malloc h size ≡ ok (0, h))
      ⊎ ((i : ℕ) × (h' : Heap) × (sys_malloc h size ≡ ok (heap_page h.machine i + arena_size, h'))
          × LargeTaken h frame size i h')
unfolding sys_malloc malloc_large
sys_malloc-sys_free_large h frame v kernel above size k large fits capacity within free enough =
    let (_, pos, small, _) = pages_for_lem size fits in
    let not_more : ltb h.machine.memory.kernel_mem_pool.pool_size size ≡ false =
      ground (arith, capacity) in
    elim (malloc_page-Allocated h.machine frame v (pages_for size) k pos small within free enough) [
      | inl (e, _) ↦ inl (rw (eq→== kernel, not_more, lt→ltb 1024 size large) (rw e refl))
      | inr (i, m, frames, e, w) ↦
          let ne : heap_page h.machine i ≢ 0 = omega (arith, v.mapping.not_null) in
          let low = low_page h frame v kernel above size large fits i m frames w in
          let (at, _) =
            behind_header (heap_page h.machine i) (omega (arith, v.mapping.start)) low in
          inr (
            i,
            given h size i m,
            rw (eq→== kernel, not_more, lt→ltb 1024 size large)
                (rw e (rw (ne→== ne) (ap (λ a. ok (a, given h size i m)) at))),
            large_taken h frame v kernel above size large fits i m frames w,
          )
    ]
