-- ===== src/Heap/Owned/Calls.antt =====
-- Each call of kernel/memory.c's `sys_malloc` and `sys_free` for a kernel thread keeps the heap sound.
use goos.Prelude.{
  ℕ, ◌+◌, ◌*◌, ◌^◌, ◌≤◌, ◌<◌, ◌≡◌, ◌⊎◌, inl, inr, refl, ◌∙◌, arith, Bool, true, false, List, [],
  ◌∷◌, ok, dec_lt,
}
use goos.Memory.{pg_size}
use goos.PageTable.Count.{free_pages}
use goos.PageTable.Kernel.{heap_pages, in_use}
use goos.PageTable.Alloc.{malloc_page-Allocated, malloc_one}
use goos.Heap.{Heap, arena_size, mem_block_desc_cnt, pages_for, sys_malloc, sys_free}
use goos.Heap.Classes.{find_class_lem}
use goos.Heap.Large.{pages_for_lem}
use goos.Heap.Small.{class_of, sys_malloc_small, malloc_small_new}
use goos.Heap.Ledger.{Kind}
use goos.Heap.Owned.{IsOwned, IsHeapOf, lists_of}
use goos.Heap.Owned.Extent.{extent_block}
use goos.Heap.Owned.Kept.{SameExtents, IsGiven, IsReturned}
use goos.Heap.Owned.Take.{BlockTaken, take_block-BlockTaken, malloc_listed}
use goos.Heap.Owned.Fill.{new_arena-ArenaMade}
use goos.Heap.Owned.Large.{sys_malloc_large, malloc_large-IsGiven, malloc_large_none}
use goos.Heap.Owned.Return.{sys_free-block}
use goos.Heap.Owned.LargeReturn.{sys_free-large}

module _ {s n : ℕ} {h : Heap} {frame : ℕ → ℕ} {kind : ℕ → Kind} {given : ℕ → Bool}
    (v : IsOwned s n h frame kind given) (size : ℕ) (low : size ≤ 1024)
    (capacity : size ≤ h.machine.memory.kernel_mem_pool.pool_size) where
  abbrev idx : ℕ
  idx = class_of h size

  class : idx < mem_block_desc_cnt
  class = (find_class_lem h.k_block_descs v.classes size low).0

  fits_class : size ≤ 16 * 2 ^ idx
  fits_class =
      let (_, least) = find_class_lem h.k_block_descs v.classes size low in
      omega (arith, least.fits, v.classes.sizes idx class)

  -- A block that was taken is as large as its class.
  given_of :
      {h₁ h' : Heap} {frames : ℕ → ℕ} {kinds : ℕ → Kind} (p : ℕ)
      → SameExtents h h₁ given given
      → BlockTaken s n h₁ frames kinds given idx p h'
      → IsGiven s n h given size p h'
  given_of p before t = record {
    fresh = t.fresh;
    same = λ q on on'. t.same q on on' ∙ before q on on;
    fits = omega (arith, fits_class, extent_block t.owned idx p t.page t.number t.place);
    heap = record { frame = _; kind = _; owned = t.owned };
  }

  malloc_from_list :
      (b : ℕ) (rest : List ℕ)
      → lists_of h idx ≡ b ∷ rest
      → (p : ℕ) × (h' : Heap) × (sys_malloc h size ≡ ok (p, h')) × IsGiven s n h given size p h'
  malloc_from_list b rest list =
      let (h', t) = take_block-BlockTaken v idx class b rest list in
      (
        b,
        h',
        sys_malloc_small h size v.kernel low capacity
            ∙ malloc_listed h size b rest (b, h') class list t.taken,
        given_of b (λ q on on'. refl) t,
      )

  malloc_from_page :
      (k : ℕ)
      → k < n
      → in_use h.machine k ≡ false
      → 1 ≤ free_pages h.machine.memory.kernel_mem_pool
      → lists_of h idx ≡ []
      → (p : ℕ) × (h' : Heap) × (sys_malloc h size ≡ ok (p, h')) × IsGiven s n h given size p h'
  malloc_from_page k within free enough empty =
      let (i, m, frames, got, w) =
        malloc_one h.machine frame v.heap k (omega (arith, within, v.pages)) free enough in
      let made = new_arena-ArenaMade v idx class empty i m frames w got in
      let (h', t) = take_block-BlockTaken made.owned idx class made.first made.rest made.list in
      (
        made.first,
        h',
        sys_malloc_small h size v.kernel low capacity
            ∙ malloc_small_new h _ size (made.first, h') class empty made.made t.taken,
        given_of made.first made.same t,
      )

  pub malloc_listed_or_new :
      (k : ℕ)
      → k < n
      → in_use h.machine k ≡ false
      → 1 ≤ free_pages h.machine.memory.kernel_mem_pool
      → (p : ℕ) × (h' : Heap) × (sys_malloc h size ≡ ok (p, h')) × IsGiven s n h given size p h'
  malloc_listed_or_new k within free enough = from_list (lists_of h idx) refl
    where
      from_list :
          (xs : List ℕ)
          → lists_of h idx ≡ xs
          → (p : ℕ) × (h' : Heap) × (sys_malloc h size ≡ ok (p, h')) × IsGiven s n h given size p h'
      from_list [] e = malloc_from_page k within free enough e
      from_list (b ∷ rest) e = malloc_from_list b rest e

-- Where the kernel's heap is sound, a virtual page is free, and as many frames are free as the pages of
-- the request, a kernel thread asks for no more bytes than the pool has and 3839 pages hold behind a
-- header. Then `sys_malloc` returns. Either it returns NULL and changes nothing, which it does only for
-- more than 1024 bytes; or it returns a pointer that was not given away, with at least the bytes asked
-- for, the pointers given away before keep theirs, and the heap is sound with the new one given away.
pub sys_malloc-IsGiven :
    (s n : ℕ) (h : Heap) (given : ℕ → Bool)
    → IsHeapOf s n h given
    → (size k : ℕ) → size + arena_size ≤ 3839 * pg_size
    → size ≤ h.machine.memory.kernel_mem_pool.pool_size
    → k < n
    → in_use h.machine k ≡ false
    → pages_for size ≤ free_pages h.machine.memory.kernel_mem_pool
    → ((1024 < size) × (sys_malloc h size ≡ ok (0, h)))
      ⊎ ((p : ℕ) × (h' : Heap) × (sys_malloc h size ≡ ok (p, h')) × IsGiven s n h given size p h')
sys_malloc-IsGiven s n h given sound size k fits capacity within free enough =
    let v = sound.owned in
    let (_, pos, few, _) = pages_for_lem size fits in
    let within' : k < heap_pages h.machine = omega (arith, within, v.pages) in
    elim (dec_lt 1024 size) [
      | no small_size ↦ inr (
          malloc_listed_or_new v size (omega (arith, small_size)) capacity k within free
            (omega (arith, pos, enough)))
      | yes big ↦
          let to_pages = sys_malloc_large h size v.kernel big capacity in
          elim (malloc_page-Allocated h.machine sound.frame v.heap (pages_for size) k pos few
            within' free enough) [
              | inl (e, _) ↦ inl (big, to_pages ∙ malloc_large_none h size e)
              | inr (i, m, frames, e, w) ↦
                  let (p, h', e', done) = malloc_large-IsGiven v size fits i m frames w e in
                  inr (p, h', to_pages ∙ e', done)
            ]
    ]

-- Where the kernel's heap is sound, `sys_free` of any pointer that is given away returns: the other
-- pointers given away keep their bytes, and the heap is sound without the pointer.
pub sys_free-IsReturned :
    (s n : ℕ) (h : Heap) (given : ℕ → Bool)
    → IsHeapOf s n h given
    → (p : ℕ) → given p ≡ true
    → (h' : Heap) × (sys_free h p ≡ ok h') × IsReturned s n h given p h'
sys_free-IsReturned s n h given sound p on = elim (sound.owned.ledger.owner p on) [
  | inl (i, x, j, w) ↦ sys_free-block sound.owned i p x j w on
  | inr (x, m, w) ↦ sys_free-large sound.owned p x m w
]
