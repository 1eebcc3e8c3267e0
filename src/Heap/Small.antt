-- ===== src/Heap/Small.antt =====
-- `sys_malloc` and `sys_free` of kernel/memory.c for a kernel thread and at most 1024 bytes, where the
-- class has no free block: a page is taken as an arena, and goes back when its blocks are free again.
use goos.Prelude.{
  ℕ, ◌+◌, ◌≤◌, ◌<◌, ◌≡◌, refl, ap, ◌∙◌, inl, inr, false, arith, ok, eq→==, ltb, leb, some, [],
}
use goos.Memory.{pf_kernel, k_heap_start}
use goos.PageTable.Count.{free_pages}
use goos.PageTable.Kernel.{IsHeap, heap_pages, heap_page, in_use}
use goos.PageTable.Alloc.{malloc_page-Allocated}
use goos.Heap.{
  Heap, arena_size, mem_block_desc_cnt, new_arena, take_block, find_class, flags_of, malloc_small,
  sys_malloc,
}
use goos.Heap.Classes.{IsClasses, find_class_lem, class_numbers}
use goos.Heap.SmallPage.{SmallTaken, malloc_new, first, full, taken, small_taken}

-- The class of a request.
abbrev pub class_of : Heap → (size : ℕ) → ℕ
class_of h size = find_class h.k_block_descs size mem_block_desc_cnt 0

pub sys_malloc_small :
    (h : Heap) (size : ℕ)
    → h.pgdir ≡ 0
    → size ≤ 1024
    → size ≤ h.machine.memory.kernel_mem_pool.pool_size
    → sys_malloc h size ≡ malloc_small h pf_kernel size
unfolding sys_malloc
sys_malloc_small h size kernel small capacity =
    let flag : flags_of h.pgdir ≡ pf_kernel = rw (eq→== kernel) refl in
    let not_more : ltb h.machine.memory.kernel_mem_pool.pool_size size ≡ false =
      ground (arith, capacity) in
    let not_large : ltb 1024 size ≡ false = ground (arith, small) in
    rw flag (rw (not_more, not_large) refl)

pub malloc_small_new :
    (h full : Heap) (size : ℕ) (r : ℕ × Heap)
    → class_of h size < mem_block_desc_cnt
    → (h.k_block_descs (class_of h size)).free_list ≡ []
    → new_arena h pf_kernel (class_of h size) ≡ ok (some full, full)
    → take_block full pf_kernel (class_of h size) ≡ ok r
    → malloc_small h pf_kernel size ≡ ok r
unfolding malloc_small
malloc_small_new h full size r one_of empty made_arena taken_block =
    let is_class : leb mem_block_desc_cnt (class_of h size) ≡ false = ground (arith, one_of) in
    rw (is_class, empty, made_arena) taken_block

-- Where the invariant of the kernel's heap holds, the heap starts at K_HEAP_START or above and the
-- classes are those of `block_desc_init`, a kernel thread asks for at most 1024 bytes, no more than the
-- pool has, and the class for them has no free block, while a virtual page and a frame are free. Then
-- `sys_malloc` returns the first block, which is large enough, of a fresh page; the other blocks of the
-- page are in the list of the class, in order. `sys_free` of the block returns: all blocks have left the
-- list, and the pages given away, the number of free frames, the lists of all classes and the arenas of
-- the other pages are as before. The invariant holds after each of the two calls, and the pages given
-- away before keep their frames.
pub sys_malloc-sys_free_small :
    (h : Heap) (frame : ℕ → ℕ)
    → IsHeap h.machine frame
    → h.pgdir ≡ 0
    → k_heap_start ≤ h.machine.memory.kernel_vaddr_pool.vaddr_start
    → IsClasses h.k_block_descs
    → (size k : ℕ) → size ≤ 1024
    → size ≤ h.machine.memory.kernel_mem_pool.pool_size
    → (h.k_block_descs (class_of h size)).free_list ≡ []
    → k < heap_pages h.machine
    → in_use h.machine k ≡ false
    → 1 ≤ free_pages h.machine.memory.kernel_mem_pool
    → (i : ℕ) × (h' : Heap) × (sys_malloc h size ≡ ok (heap_page h.machine i + arena_size, h'))
      × (size ≤ (h.k_block_descs (class_of h size)).block_size)
      × SmallTaken h frame (class_of h size) i h'
sys_malloc-sys_free_small h frame v kernel above classes size k small capacity empty within free
      enough =
    let (one_of, least) = find_class_lem h.k_block_descs classes size small in
    let idx = class_of h size in
    let c = class_numbers h.k_block_descs classes idx one_of in
    elim (malloc_page-Allocated h.machine frame v 1 k (omega arith) (omega arith) within free
      enough) [
        | inl (e, none_free) ↦ absurd (
            none_free k (omega arith)
              (λ x lo hi. let here : x ≡ k = omega arith in ground (arith, free, here)))
        | inr (i, m, frames, got, w) ↦
            let (e, e') = malloc_new h frame v kernel above idx c empty i m frames w got in
            let at = first h frame v kernel above idx c empty i m frames w in
            let T = taken h frame v kernel above idx c empty i m frames w in
            (
              i,
              T,
              sys_malloc_small h size kernel small capacity
                  ∙ malloc_small_new h (full h frame v kernel above idx c empty i m frames w) size _
                      one_of empty e e'
                  ∙ ap (λ p. ok (p, T)) at,
              least.fits,
              small_taken h frame v kernel above idx c empty i m frames w,
            )
      ]
