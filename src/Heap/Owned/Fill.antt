-- ===== src/Heap/Owned/Fill.antt =====
-- A page becomes an arena of a class that has no free block: `new_arena` of kernel/memory.c.
use goos.Prelude.{
  ℕ, suc, ◌-◌, ◌*◌, ◌^◌, ◌<◌, ◌≡◌, ◌≢◌, sym, ap, ◌∙◌, arith, Bool, true, false, List, [], ◌∷◌,
  eq→==, ne→==, ok, some, ℕ_discrete, inl, inr, Bool-cases,
}
use goos.LinkedList.Distinct.{has}
use goos.Memory.{pf_kernel, pg_size}
use goos.PageTable.{Machine, malloc_page}
use goos.PageTable.Kernel.{heap_page, in_use}
use goos.PageTable.Alloc.{Allocated}
use goos.Heap.{Heap, put, mem_block_desc_cnt, new_arena}
use goos.Heap.Classes.{class_numbers}
use goos.Heap.Arenas.{arena_of, made, filled, new_arena_lem}
use goos.Heap.Large.{zeroed-IsHeap}
use goos.Heap.Lists.{blocks_from, Differ, IsClasses-with_list, has_none, put_at}
use goos.Heap.Ledger.{Kind, unowned, small, is_owned, block, per_arena, page_at, IsLedger}
use goos.Heap.Ledger.Kinds.{unowned_of}
use goos.Heap.Ledger.Places.{Differ-page, same_page}
use goos.Heap.Ledger.Listed.{block_of, has_block, blocks-Distinct}
use goos.Heap.Ledger.Pages.{fill-IsLedger}
use goos.Heap.Ledger.Flip.{put_ne}
use goos.Heap.Owned.Kept.{SameExtents, KeepsKinds, extents_kept}
use goos.Heap.Owned.{
  IsOwned, lists_of, lists_of-with_list, owned-IsPlaced, page_of, count_of, IsLedger-cast,
}

-- What the new arena has done.
pub record ArenaMade (s n : ℕ) (h : Heap) (kind : ℕ → Kind) (given : ℕ → Bool) (idx i : ℕ)
    (h' : Heap) : Type 0 where
  pub frames : ℕ → ℕ
  pub made : new_arena h pf_kernel idx ≡ ok (some h', h')
  pub owned : IsOwned s n h' frames (put kind i (small idx)) given
  pub same : SameExtents h h' given given
  pub first : ℕ
  pub rest : List ℕ
  pub list : lists_of h' idx ≡ first ∷ rest

module _ {s n : ℕ} {h : Heap} {frame : ℕ → ℕ} {kind : ℕ → Kind} {given : ℕ → Bool}
    (v : IsOwned s n h frame kind given) (idx : ℕ) (class : idx < mem_block_desc_cnt)
    (empty : lists_of h idx ≡ []) (i : ℕ) (m : Machine) (frames : ℕ → ℕ)
    (w : Allocated h.machine frame 1 i m frames) where
  abbrev a : ℕ
  a = page_at s n i

  abbrev size : ℕ
  size = 16 * 2 ^ idx

  abbrev others : ℕ
  others = per_arena idx - 1

  abbrev ys : List ℕ
  ys = blocks_from a size (suc others) 0

  abbrev full : Heap
  full = filled h idx a (suc others) size m

  all_blocks : per_arena idx ≡ suc others
  all_blocks =
      let c = class_numbers h.k_block_descs v.classes idx class in
      omega (arith, c.several, count_of v idx class)

  within : i < n
  within = omega (arith, w.room, v.pages)

  differ : Differ a size (suc others)
  differ = rw (← all_blocks) (Differ-page (owned-IsPlaced v) i idx within)

  unowned_before : kind i ≡ unowned
  unowned_before = unowned_of (kind i) (sym (v.used i within) ∙ w.fresh i (ground arith))

  blocks : (b : ℕ) → has b ys ≡ true → (j : ℕ) × (j < per_arena idx) × (b ≡ block a j idx)
  blocks b on =
      let (j, lo, hi, at) = block_of a size (suc others) 0 b on in
      (j, omega (arith, hi, all_blocks), at)

  elsewhere :
      (y k l : ℕ)
      → y < n
      → k < per_arena l
      → y ≢ i
      → has (block (page_at s n y) k l) ys ≡ has (block (page_at s n y) k l) (lists_of h idx)
  elsewhere y k l ly lk ne =
      let q = block (page_at s n y) k l in
      let off : has q ys ≡ false = elim (Bool-cases (has q ys)) [
        | inr off ↦ off
        | inl on ↦
            let (j, lt, at) = blocks q on in
            absurd (ne (same_page (owned-IsPlaced v) y k l i j idx ly lk within lt at))
      ] in
      off ∙ sym (ap (has q) empty ∙ has_none q)

  IsLedger-after : IsLedger s n (lists_of full) full.arenas (put kind i (small idx)) given
  IsLedger-after =
      IsLedger-cast
        (fill-IsLedger (owned-IsPlaced v) v.ledger idx i class within ys
          (blocks-Distinct a size (suc others) differ (suc others) 0 (omega arith)) elsewhere
          unowned_before empty blocks
          (λ j lt. has_block a size (suc others) 0 j (omega arith) (omega (arith, lt, all_blocks))))
        (lists_of-with_list (made h idx a m) idx ys)
        (ap (λ c. put h.arenas a (arena_of idx c)) (count_of v idx class))

  used_after : (x : ℕ) → x < n → in_use m x ≡ is_owned (put kind i (small idx) x)
  used_after x lx = elim (ℕ_discrete x i) [
    | yes e ↦ let here = w.used x in rw (eq→== e) (ground (arith, here, e))
    | no ne ↦
        let here = w.used x in
        let before = v.used x lx in rw (ne→== ne) (ground (arith, here, before, ne))
  ]

  IsOwned-after : IsOwned s n full frames (put kind i (small idx)) given
  IsOwned-after = record {
    heap = zeroed-IsHeap w.heap a pg_size (omega (arith, within, (owned-IsPlaced v).below));
    kernel = v.kernel;
    start = w.start ∙ v.start;
    pages = w.pages ∙ v.pages;
    above = v.above;
    classes = IsClasses-with_list (made h idx a m) idx ys v.classes;
    used = used_after;
    ledger = IsLedger-after;
  }

  kinds_kept : KeepsKinds kind (put kind i (small idx))
  kinds_kept x = elim (ℕ_discrete x i) [
    | yes e ↦ inr (inl (ap kind e ∙ unowned_before))
    | no ne ↦ inl (put_ne kind i (small idx) x ne)
  ]

  pub new_arena-ArenaMade :
      malloc_page h.machine pf_kernel 1 ≡ ok (heap_page h.machine i, m)
      → ArenaMade s n h kind given idx i full
  new_arena-ArenaMade got = record {
    frames = frames;
    made =
        new_arena_lem h idx a others size m (v.classes.sizes idx class, empty)
          (count_of v idx class ∙ all_blocks) differ
          (omega (arith, v.heap.mapping.not_null, v.start))
          (got ∙ ap (λ z. ok (z, m)) (page_of v i));
    owned = IsOwned-after;
    same = extents_kept v IsOwned-after kinds_kept;
    first = block a 0 idx;
    rest = blocks_from a size others 1;
    list =
        ap (λ f. f idx) (lists_of-with_list (made h idx a m) idx ys) ∙ put_at (lists_of h) idx ys;
  }
