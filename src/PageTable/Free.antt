-- ===== src/PageTable/Free.antt =====
-- `mfree_page` of kernel/memory.c for the kernel: pages go back, with their frames.
use mathlib.Core.Path.{fun_ext}
use goos.Prelude.{
  ℕ, ◌+◌, ◌*◌, ◌%◌, ◌≤◌, ◌<◌, ◌≡◌, refl, sym, ap, ◌∙◌, ◌⊎◌, inl, inr, true, false, arith, ok, eq→==,
  le→leb,
}
use goos.Bitmap.Laws.{bits_len, bit}
use goos.Memory.{pf_kernel, pg_size}
use goos.Memory.Ranges.{inside}
use goos.Memory.Pages.{used}
use goos.Memory.Pools.{IsVaddrPool, vaddr_remove-Released}
use goos.PageTable.{Machine, mfree_page, malloc_page}
use goos.PageTable.Alloc.{Allocated, malloc_page-Allocated}
use goos.PageTable.Count.{free_pages}
use goos.PageTable.Kernel.{
  heap_pages, heap_page, IsHeap, in_use, with_vaddr_pool, IsMapping-with_vaddr_pool,
}
use goos.PageTable.Unmap.{without_pages, unmap_pages-ManyUnmapped}

-- What freeing the `n` pages from page `i` on has done.
pub record Freed (m : Machine) (frame : ℕ → ℕ) (n i : ℕ) (m' : Machine) : Type 0 where
  pub heap : IsHeap m' frame
  pub start : m'.memory.kernel_vaddr_pool.vaddr_start ≡ m.memory.kernel_vaddr_pool.vaddr_start
  pub pages : heap_pages m' ≡ heap_pages m
  pub used : (x : ℕ) → in_use m' x ≡ without_pages (in_use m) i n x
  pub user_pool : m'.memory.user_mem_pool ≡ m.memory.user_mem_pool
  pub free : free_pages m'.memory.kernel_mem_pool ≡ free_pages m.memory.kernel_mem_pool + n

-- `mfree_page` of at least one page, all of them given away, returns. The pages and their frames are
-- free again, other pages keep their frames, and the invariant of the heap is kept.
pub mfree_page-Freed :
    (m : Machine) (frame : ℕ → ℕ)
    → IsHeap m frame
    → (n i : ℕ) → 0 < n
    → i + n ≤ heap_pages m
    → ((x : ℕ) → inside i n x ≡ true → in_use m x ≡ true)
    → (m' : Machine) × (mfree_page m pf_kernel (heap_page m i) n ≡ ok m') × Freed m frame n i m'
unfolding mfree_page
mfree_page-Freed m frame v n i pos room there =
    let (m₁, e, many) = unmap_pages-ManyUnmapped n m (in_use m) frame v.mapping i room there in
    let addresses : IsVaddrPool m₁.memory.kernel_vaddr_pool = rw many.vaddr_pool v.addresses in
    let (p', e', w) = vaddr_remove-Released m₁.memory addresses n i (rw many.vaddr_pool room) pos in
    let start = ap (λ p. p.vaddr_start) many.vaddr_pool in
    let len = ap (λ p. bits_len p.vaddr_bitmap) many.vaddr_pool in
    let at : m₁.memory.kernel_vaddr_pool.vaddr_start + i * 4096 ≡ heap_page m i =
      omega (arith, start) in
    let used : (x : ℕ) → in_use (with_vaddr_pool m₁ p') x ≡ without_pages (in_use m) i n x =
      λ x. ground (arith, w.bits x, ap (λ p. bit p.vaddr_bitmap x) many.vaddr_pool) in
    let whole : heap_page m i % pg_size ≡ 0 = omega (arith, v.mapping.start) in
    (
      with_vaddr_pool m₁ p',
      rw (le→leb 1 n pos, eq→== whole) (rw e (rw (← at, e') refl)),
      record {
        heap = record {
          addresses = w.pool;
          mapping = rw (fun_ext used) (IsMapping-with_vaddr_pool many.mapping p' w.start w.len);
        };
        start = w.start ∙ start;
        pages = w.len ∙ len;
        used = used;
        user_pool = many.user_pool;
        free = many.free;
      },
    )

free-Allocated :
    (m : Machine) (frame : ℕ → ℕ)
    → IsHeap m frame
    → (n i : ℕ) (m' : Machine) (frame' : ℕ → ℕ) → 0 < n
    → Allocated m frame n i m' frame'
    → (m'' : Machine) × (mfree_page m' pf_kernel (heap_page m i) n ≡ ok m'')
      × IsHeap m'' frame'
      × ((x : ℕ) → in_use m'' x ≡ in_use m x)
      × (free_pages m''.memory.kernel_mem_pool ≡ free_pages m.memory.kernel_mem_pool)
      × ((x : ℕ) → in_use m x ≡ true → frame' x ≡ frame x)
free-Allocated m frame v n i m' frame' pos w =
    let (m'', e, f) =
      mfree_page-Freed m' frame' w.heap n i pos (omega (arith, w.room, w.pages))
        (λ x h. ground (arith, w.used x, h)) in
    let at : heap_page m' i ≡ heap_page m i = omega (arith, w.start) in
    (
      m'',
      ap (λ a. mfree_page m' pf_kernel a n) (sym at) ∙ e,
      f.heap,
      λ x. ground (arith, f.used x, w.used x, w.fresh x),
      omega (arith, f.free, w.free),
      λ x on. w.frames x (ground (arith, w.fresh x, on)),
    )

-- What allocating `n` pages and freeing them again has done.
pub record RoundTrip (m : Machine) (frame : ℕ → ℕ) (n i : ℕ) (m' : Machine) : Type 0 where
  pub after : Machine
  pub frames : ℕ → ℕ
  pub freed : mfree_page m' pf_kernel (heap_page m i) n ≡ ok after
  pub heap : IsHeap after frames
  pub used : (x : ℕ) → in_use after x ≡ in_use m x
  pub free : free_pages after.memory.kernel_mem_pool ≡ free_pages m.memory.kernel_mem_pool
  pub kept : (x : ℕ) → in_use m x ≡ true → frames x ≡ frame x

-- Under the conditions of `malloc_page-Allocated`, the pages that `malloc_page` gives can be freed:
-- `mfree_page` of them returns, the pages that are given away and the number of free frames are then
-- as before, and every page that was given away before has kept its frame.
pub malloc_page-mfree_page :
    (m : Machine) (frame : ℕ → ℕ)
    → IsHeap m frame
    → (n k : ℕ) → 0 < n
    → n < 3840
    → k < heap_pages m
    → in_use m k ≡ false
    → n ≤ free_pages m.memory.kernel_mem_pool
    → (malloc_page m pf_kernel n ≡ ok (0, m))
      ⊎ ((i : ℕ) × (m' : Machine) × (malloc_page m pf_kernel n ≡ ok (heap_page m i, m'))
          × RoundTrip m frame n i m')
malloc_page-mfree_page m frame v n k pos small within free enough =
    elim (malloc_page-Allocated m frame v n k pos small within free enough) [
      | inl (e, _) ↦ inl e
      | inr (i, m', frame', e, w) ↦
          let (m'', e', heap, used, count, kept) = free-Allocated m frame v n i m' frame' pos w in
          inr (
            i,
            m',
            e,
            record {
              after = m'';
              frames = frame';
              freed = e';
              heap = heap;
              used = used;
              free = count;
              kept = kept;
            },
          )
    ]
