-- ===== src/PageTable/Cleared.antt =====
-- `get_kernel_pages` of kernel/memory.c, where so many pages in a row are free.
use goos.Prelude.{
  ℕ, ◌+◌, ◌*◌, ◌≤◌, ◌<◌, ◌≡◌, ◌≢◌, refl, inl, inr, true, false, arith, ok, ne→==, mul32,
}
use goos.Memory.{pf_kernel, pg_size}
use goos.Memory.Ranges.{inside}
use goos.PageTable.{Machine, with_words, clear, get_pages}
use goos.PageTable.Entries.{window}
use goos.PageTable.Count.{free_pages}
use goos.PageTable.Kernel.{IsHeap, heap_pages, heap_page, in_use}
use goos.PageTable.Alloc.{Allocated, malloc_page-Allocated}
use goos.PageTable.Words.{IsHeap-with_words}

-- The pages that were given are cleared.
cleared-Allocated :
    {m m' : Machine} {frame frame' : ℕ → ℕ} {n i : ℕ}
    → IsHeap m frame
    → n < 3840
    → Allocated m frame n i m' frame'
    → Allocated m frame n i
        (with_words m' (clear m'.words (heap_page m i) (mul32 n pg_size)))
        frame'
cleared-Allocated {m} {m'} {n = n} {i} v small w = record {
  heap = IsHeap-with_words w.heap (clear m'.words (heap_page m i) (mul32 n pg_size)) (λ x h.
      let low : heap_page m i + n * 4096 ≤ window = omega (arith, w.room, v.mapping.below) in
      ground (arith, low, small));
  start = w.start;
  pages = w.pages;
  room = w.room;
  fresh = w.fresh;
  used = w.used;
  frames = w.frames;
  user_pool = w.user_pool;
  free = w.free;
}

pub get_pages-Allocated :
    (m : Machine) (frame : ℕ → ℕ)
    → IsHeap m frame
    → (n r : ℕ) → 0 < n
    → n < 3840
    → r + n ≤ heap_pages m
    → ((x : ℕ) → inside r n x ≡ true → in_use m x ≡ false)
    → n ≤ free_pages m.memory.kernel_mem_pool
    → (i : ℕ) × (m' : Machine) × (frame' : ℕ → ℕ) × (get_pages m pf_kernel n
        ≡ ok (heap_page m i, m'))
      × Allocated m frame n i m' frame'
unfolding get_pages
get_pages-Allocated m frame v n r pos small room unused enough =
    elim (malloc_page-Allocated m frame v n r pos small (omega (arith, room, pos))
      (unused r (ground (arith, pos))) enough) [
        | inl (e, none_free) ↦ absurd (
            none_free r room
              (λ x lo hi. let off = unused x (ground (arith, lo, hi)) in ground (arith, off)))
        | inr (i, m', frame', e, w) ↦
            let not_null : heap_page m i ≢ 0 = omega (arith, v.mapping.not_null) in
            (
              i,
              with_words m' (clear m'.words (heap_page m i) (mul32 n pg_size)),
              frame',
              rw e (rw (ne→== not_null) refl),
              cleared-Allocated v small w,
            )
      ]
