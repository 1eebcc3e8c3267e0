-- ===== src/Heap/Owned/Large.antt =====
-- Large blocks of the kernel's heap: the pages that `sys_malloc` of kernel/memory.c takes for more than
-- 1024 bytes.
use goos.Prelude.{
  ℕ, ◌+◌, ◌*◌, ◌%◌, ◌≤◌, ◌<◌, ◌≡◌, ◌≢◌, refl, sym, ap, ◌∙◌, arith, Bool, true, false, eq→==, ne→==,
  ok, ltb, lt→ltb, mul32, ℕ_discrete, inl, inr, Bool-cases,
}
use goos.Memory.{pf_kernel, pg_size}
use goos.Memory.Ranges.{inside}
use goos.PageTable.{Machine, malloc_page}
use goos.PageTable.Entries.{window}
use goos.PageTable.Kernel.{heap_page, in_use}
use goos.PageTable.Alloc.{Allocated}
use goos.Heap.{
  Heap, arena_size, pages_for, zeroed, malloc_large, with_arena, with_machine, sys_malloc,
}
use goos.Heap.Large.{zeroed-IsHeap, pages_for_lem, behind_header}
use goos.Heap.Ledger.{Kind, unowned, is_owned, page_at, large_header, IsLargeOf}
use goos.Heap.Ledger.Kinds.{unowned_of, unowned-ne-small, unowned-ne-large}
use goos.Heap.Ledger.Places.{large_differs, large_injective}
use goos.Heap.Ledger.Runs.{run_kind, with_given, run-IsLedger}
use goos.Heap.Owned.Extent.{extent, extent_large}
use goos.Heap.Owned.Kept.{IsGiven, KeepsKinds, extents_kept}
use goos.Heap.Owned.{IsOwned, owned-IsPlaced, page_of}

-- The heap when `malloc_page` gave the pages from `a` on.
abbrev pub taken_at : Heap → (size a : ℕ) → Machine → Heap
taken_at h size a m =
    with_arena (with_machine h (zeroed m a (mul32 (pages_for size) pg_size))) a
      (large_header (pages_for size))

malloc_large_lem :
    (h : Heap) (size a : ℕ) (m : Machine)
    → malloc_page h.machine pf_kernel (pages_for size) ≡ ok (a, m)
    → a % pg_size ≡ 0
    → a < window
    → a ≢ 0
    → malloc_large h pf_kernel size ≡ ok (a + arena_size, taken_at h size a m)
unfolding malloc_large
malloc_large_lem h size a m got whole low ne =
    rw got (rw (ne→== ne) (ap (λ p. ok (p, taken_at h size a m)) (behind_header a whole low).0))

pub malloc_large_none :
    (h : Heap) (size : ℕ)
    → malloc_page h.machine pf_kernel (pages_for size) ≡ ok (0, h.machine)
    → malloc_large h pf_kernel size ≡ ok (0, h)
unfolding malloc_large
malloc_large_none h size none = rw none refl

pub sys_malloc_large :
    (h : Heap) (size : ℕ)
    → h.pgdir ≡ 0
    → 1024 < size
    → size ≤ h.machine.memory.kernel_mem_pool.pool_size
    → sys_malloc h size ≡ malloc_large h pf_kernel size
unfolding sys_malloc
sys_malloc_large h size kernel big capacity =
    let not_more : ltb h.machine.memory.kernel_mem_pool.pool_size size ≡ false =
      ground (arith, capacity) in
    rw (eq→== kernel) (rw (not_more, lt→ltb 1024 size big) refl)

module _ {s n : ℕ} {h : Heap} {frame : ℕ → ℕ} {kind : ℕ → Kind} {given : ℕ → Bool}
    (v : IsOwned s n h frame kind given) where
  module _ (size : ℕ) (fits : size + arena_size ≤ 3839 * pg_size) (i : ℕ) (m : Machine)
      (frames : ℕ → ℕ) (w : Allocated h.machine frame (pages_for size) i m frames) where
    abbrev count : ℕ
    count = pages_for size

    abbrev p : ℕ
    p = page_at s n i + arena_size

    abbrev taken : Heap
    taken = taken_at h size (page_at s n i) m

    room : i + count ≤ n
    room = omega (arith, w.room, v.pages)

    some_page : 0 < count
    some_page = let (_, pos, _, _) = pages_for_lem size fits in pos

    fresh : (y : ℕ) → inside i count y ≡ true → kind y ≡ unowned
    fresh y on =
        let lt : y < n = ground (arith, on, room) in
        unowned_of (kind y) (sym (v.used y lt) ∙ w.fresh y on)

    fresh_first : kind i ≡ unowned
    fresh_first = fresh i (ground (arith, some_page))

    not_given : given p ≡ false
    not_given = elim (Bool-cases (given p)) [
      | inr off ↦ off
      | inl on ↦ elim (v.ledger.owner p on) [
        | inl (l, y, k, b) ↦
            let ne : i ≢ y = λ e. unowned-ne-small (sym fresh_first ∙ ap kind e ∙ b.arena) in
            absurd (
              large_differs (owned-IsPlaced v) i y k l (omega (arith, some_page, room)) b.within
                b.number ne b.address)
        | inr (y, k, b) ↦
            let same = large_injective (owned-IsPlaced v) i y b.address in
            absurd (unowned-ne-large (sym fresh_first ∙ ap kind same ∙ b.first))
      ]
    ]

    used_after : (x : ℕ) → x < n → in_use m x ≡ is_owned (run_kind kind i count x)
    used_after x lx =
        let here = w.used x in
        elim (ℕ_discrete x i) [
          | yes e ↦ rw (eq→== e) (ground (arith, here, e, some_page))
          | no ne ↦ elim (Bool-cases (inside i count x)) [
            | inl on ↦ rw (ne→== ne, on) (here ∙ rw on refl)
            | inr off ↦ rw (ne→== ne, off) (here ∙ rw off (v.used x lx))
          ]
        ]

    taken-IsOwned : IsOwned s n taken frames (run_kind kind i count) (with_given given p)
    taken-IsOwned = record {
      heap =
          zeroed-IsHeap w.heap (page_at s n i) (mul32 count pg_size)
            (omega (arith, fits, room, (owned-IsPlaced v).below));
      kernel = v.kernel;
      start = w.start ∙ v.start;
      pages = w.pages ∙ v.pages;
      above = v.above;
      classes = v.classes;
      used = used_after;
      ledger = run-IsLedger (owned-IsPlaced v) v.ledger i count some_page room fresh;
    }

    bytes : size ≤ extent taken p
    bytes =
        let (enough, _, _, _) = pages_for_lem size fits in
        let at : IsLargeOf s n (run_kind kind i count) p i count = record {
          within = omega (arith, some_page, room);
          first = rw (eq→== {a = i} refl) refl;
          address = refl;
        } in
        omega (arith, enough, extent_large taken-IsOwned p i count at)

    kinds_kept : KeepsKinds kind (run_kind kind i count)
    kinds_kept x = elim (Bool-cases (inside i count x)) [
      | inl on ↦ inr (inl (fresh x on))
      | inr off ↦
          let ne : x ≢ i = λ e. ground (arith, off, e, some_page) in inl (rw (ne→== ne, off) refl)
    ]

    malloc_taken :
        malloc_page h.machine pf_kernel count ≡ ok (heap_page h.machine i, m)
        → malloc_large h pf_kernel size ≡ ok (p, taken)
    malloc_taken got =
        malloc_large_lem h size (page_at s n i) m (got ∙ ap (λ z. ok (z, m)) (page_of v i))
          (omega (arith, (owned-IsPlaced v).whole))
          (omega (arith, some_page, room, (owned-IsPlaced v).below)) (omega (arith, v.above))

    pub malloc_large-IsGiven :
        malloc_page h.machine pf_kernel count ≡ ok (heap_page h.machine i, m)
        → (q : ℕ) × (h' : Heap) × (malloc_large h pf_kernel size ≡ ok (q, h'))
          × IsGiven s n h given size q h'
    malloc_large-IsGiven got = (
      p,
      taken,
      malloc_taken got,
      record {
        fresh = not_given;
        fits = bytes;
        same = extents_kept v taken-IsOwned kinds_kept;
        heap = record { frame = frames; kind = run_kind kind i count; owned = taken-IsOwned };
      },
    )
