-- ===== src/Heap/Owned/Take.antt =====
-- A block of the free list of its class is given away: `take_block` of kernel/memory.c.
use mathlib.Core.Path.{subst}
use goos.Prelude.{
  ℕ, suc, ◌<◌, ◌≡◌, ◌≢◌, refl, sym, ap, ◌∙◌, arith, Bool, true, false, not, List, ◌∷◌, eq→==, ne→==,
  ok, sub32, leb, inl,
}
use goos.LinkedList.Chain.{Distinct}
use goos.LinkedList.Distinct.{has, has_of_NotIn}
use goos.Memory.{pf_kernel}
use goos.Heap.{Heap, Arena, put, mem_block_desc_cnt, block2arena, malloc_small, take_block}
use goos.Heap.Arenas.{arena_of, without_first, take_block_lem}
use goos.Heap.Lists.{IsClasses-with_list}
use goos.Heap.Small.{class_of}
use goos.Heap.Ledger.{Kind, block, per_arena, free_block, page_at, IsBlockOf, IsLedger}
use goos.Heap.Ledger.Counting.{count, count_one_more, count_bound}
use goos.Heap.Ledger.Places.{block-InArena, block_differs}
use goos.Heap.Ledger.Flip.{flip-IsLedger}
use goos.Heap.Ledger.Runs.{with_given, with_given_other}
use goos.Heap.Owned.Kept.{SameExtents, extents_kept}
use goos.Heap.Owned.{
  IsOwned, lists_of, lists_of-with_list, owned-IsPlaced, few_blocks, IsLedger-cast,
}

has_first : (b : ℕ) (rest : List ℕ) → has b (b ∷ rest) ≡ true
unfolding has
has_first b rest = rw (eq→== {a = b} refl) refl

has_other : (b q : ℕ) (rest : List ℕ) → q ≢ b → has q (b ∷ rest) ≡ has q rest
unfolding has
has_other b q rest ne = rw (ne→== (λ e. ne (sym e))) refl

-- What giving a block away has done.
pub record BlockTaken (s n : ℕ) (h : Heap) (frame : ℕ → ℕ) (kind : ℕ → Kind) (given : ℕ → Bool)
    (idx b : ℕ) (h' : Heap) : Type 0 where
  pub taken : take_block h pf_kernel idx ≡ ok (b, h')
  pub owned : IsOwned s n h' frame kind (with_given given b)
  pub same : SameExtents h h' given (with_given given b)
  pub fresh : given b ≡ false
  pub page : ℕ
  pub number : ℕ
  pub place : IsBlockOf s n kind idx b page number

module _ {s n : ℕ} {h : Heap} {frame : ℕ → ℕ} {kind : ℕ → Kind} {given : ℕ → Bool}
    (v : IsOwned s n h frame kind given) (idx : ℕ) (class : idx < mem_block_desc_cnt) (b : ℕ)
    (rest : List ℕ) (list : lists_of h idx ≡ b ∷ rest) where
  there : has b (lists_of h idx) ≡ true
  there = ap (has b) list ∙ has_first b rest

  apart : Distinct (b ∷ rest)
  apart = subst Distinct list (v.ledger.distinct idx class)

  module _ (x j : ℕ) (w : IsBlockOf s n kind idx b x j) where
    abbrev a : ℕ
    a = page_at s n x

    abbrev left : ℕ
    left = count (free_block rest a idx) (per_arena idx)

    abbrev taken : Heap
    taken = without_first h idx a rest

    home : block2arena b ≡ a
    home =
        ap block2arena w.address ∙ (block-InArena (owned-IsPlaced v) x j idx w.within w.number).home

    counted : count (free_block (lists_of h idx) a idx) (per_arena idx) ≡ suc left
    counted =
        count_one_more (free_block (lists_of h idx) a idx) (free_block rest a idx) (per_arena idx) j
          w.number (ap (λ q. has q (lists_of h idx)) (sym w.address) ∙ there)
          (ap (λ q. has q rest) (sym w.address) ∙ has_of_NotIn b rest apart.0)
          (λ k lt ne.
            let far : block a k idx ≢ b = λ e.
              block_differs (owned-IsPlaced v) x idx k j w.within lt w.number ne (e ∙ w.address) in
            ap (has (block a k idx)) list ∙ has_other b (block a k idx) rest far)

    header : record (h.arenas a) { cnt = sub32 (h.arenas a).cnt 1 } ≡ arena_of idx left
    header =
        let bound = count_bound (free_block (lists_of h idx) a idx) (per_arena idx) in
        ap (λ (r : Arena). record r { cnt = sub32 r.cnt 1 })
          ((v.ledger.arena x idx w.within w.arena).header)
        ∙ ap (arena_of idx) (omega (arith, counted, bound, few_blocks v idx class))

    not_given : given b ≡ false
    not_given =
        let split = (v.ledger.arena x idx w.within w.arena).split j w.number in
        let on : has b (lists_of h idx) ≡ not (given b) =
          ap (λ q. has q (lists_of h idx)) w.address
          ∙ split
          ∙ ap (λ q. not (given q)) (sym w.address) in
        ground (arith, there, on)

    now : has b rest ≡ not (with_given given b b)
    now = has_of_NotIn b rest apart.0 ∙ rw (eq→== {a = b} refl) refl

    IsLedger-after : IsLedger s n (lists_of taken) taken.arenas kind (with_given given b)
    IsLedger-after =
        IsLedger-cast
          (flip-IsLedger (owned-IsPlaced v) v.ledger idx b x j w rest (with_given given b) left
            apart.1 (λ q ne. sym (ap (has q) list ∙ has_other b q rest ne)) now
            (with_given_other given b) refl)
          (lists_of-with_list h idx rest) (ap (put h.arenas a) header)

    IsOwned-after : IsOwned s n taken frame kind (with_given given b)
    IsOwned-after = record {
      heap = v.heap;
      kernel = v.kernel;
      start = v.start;
      pages = v.pages;
      above = v.above;
      classes = IsClasses-with_list h idx rest v.classes;
      used = v.used;
      ledger = IsLedger-after;
    }

    block_taken : BlockTaken s n h frame kind given idx b taken
    block_taken = record {
      taken = take_block_lem h idx a b (h.k_block_descs idx).block_size rest (refl, list) home;
      owned = IsOwned-after;
      same = extents_kept v IsOwned-after (λ y. inl refl);
      fresh = not_given;
      page = x;
      number = j;
      place = w;
    }

  -- The first block of a list that is not empty.
  pub take_block-BlockTaken : (h' : Heap) × BlockTaken s n h frame kind given idx b h'
  take_block-BlockTaken =
      let (x, j, w) = v.ledger.member idx b class there in (taken x j w, block_taken x j w)

pub malloc_listed :
    (h : Heap) (size b : ℕ) (rest : List ℕ) (r : ℕ × Heap)
    → class_of h size < mem_block_desc_cnt
    → lists_of h (class_of h size) ≡ b ∷ rest
    → take_block h pf_kernel (class_of h size) ≡ ok r
    → malloc_small h pf_kernel size ≡ ok r
unfolding malloc_small
malloc_listed h size b rest r one_of list taken =
    let is_class : leb mem_block_desc_cnt (class_of h size) ≡ false = ground (arith, one_of) in
    rw (is_class, list) taken
