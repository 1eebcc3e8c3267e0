-- ===== src/Heap/Owned/Return.antt =====
-- A block comes back to its arena: `sys_free` of kernel/memory.c for a pointer into an arena. With its
-- last block the arena's page is given back.
use goos.Prelude.{
  ℕ, suc, ◌*◌, ◌^◌, ◌<◌, ◌≡◌, ◌≢◌, refl, sym, ap, ◌∙◌, arith, Bool, true, false, not, List, [], ◌∷◌,
  ◌++◌, ◌==◌, eq→==, ne→==, ok, ◌||◌, ℕ_discrete, inl, inr,
}
use goos.LinkedList.Distinct.{has}
use goos.Memory.{pf_kernel}
use goos.PageTable.{Machine, mfree_page}
use goos.PageTable.Kernel.{in_use}
use goos.PageTable.Free.{Freed, mfree_page-Freed}
use goos.Heap.{
  Heap, Arena, put, mem_block_desc_cnt, with_arena, with_machine, block2arena, free_small,
  remove_blocks, sys_free,
}
use goos.Heap.Arenas.{arena_of, free_in_small, free_all}
use goos.Heap.Blocks.{free_some}
use goos.Heap.Large.{sys_free_kernel}
use goos.Heap.Lists.{with_list, Holds-with_list, IsClasses-with_list, has_append, put_at}
use goos.Heap.Ledger.{
  Kind, unowned, is_owned, block, per_arena, free_block, page_at, IsBlockOf, IsLedger,
}
use goos.Heap.Ledger.Counting.{count, count_one_more, count_bound, all_of_count}
use goos.Heap.Ledger.Places.{block-InArena, block_differs, Differ-page, same_page}
use goos.Heap.Ledger.Listed.{Removed, remove_blocks-Removed, Distinct-snoc}
use goos.Heap.Ledger.Flip.{flip-IsLedger, put_ne}
use goos.Heap.Ledger.Drop.{drop-IsLedger}
use goos.Heap.Ledger.Runs.{without_given, without_given_other}
use goos.Heap.Owned.Kept.{IsReturned, KeepsKinds, extents_kept}
use goos.Heap.Owned.{
  IsOwned, lists_of, lists_of-with_list, owned-IsPlaced, page_of, count_of, few_blocks,
  IsLedger-cast,
}

module _ {s n : ℕ} {h : Heap} {frame : ℕ → ℕ} {kind : ℕ → Kind} {given : ℕ → Bool}
    (v : IsOwned s n h frame kind given) (idx p x j : ℕ) (w : IsBlockOf s n kind idx p x j)
    (held : given p ≡ true) where
  abbrev a : ℕ
  a = page_at s n x

  abbrev before : ℕ
  before = count (free_block (lists_of h idx) a idx) (per_arena idx)

  abbrev ys : List ℕ
  ys = lists_of h idx ++ (p ∷ [])

  abbrev left : ℕ → Bool
  left = without_given given p

  abbrev listed : Heap
  listed = with_arena (with_list h idx ys) a (record (h.arenas a) { cnt = suc before })

  class : idx < mem_block_desc_cnt
  class = (v.ledger.arena x idx w.within w.arena).class

  header : h.arenas a ≡ arena_of idx before
  header = (v.ledger.arena x idx w.within w.arena).header

  not_listed : has p (lists_of h idx) ≡ false
  not_listed =
      ap (λ q. has q (lists_of h idx)) w.address
      ∙ (v.ledger.arena x idx w.within w.arena).split j w.number
      ∙ ap (λ q. not (given q)) (sym w.address)
      ∙ ap not held

  has_last : (q : ℕ) → has q ys ≡ (has q (lists_of h idx) || (p == q))
  unfolding has
  has_last q = has_append q (lists_of h idx) (p ∷ []) ∙ ground arith

  on_list : has p ys ≡ true
  on_list = has_last p ∙ rw (eq→== {a = p} refl) (ground arith)

  others : (q : ℕ) → q ≢ p → has q ys ≡ has q (lists_of h idx)
  others q ne = has_last q ∙ rw (ne→== (λ e. ne (sym e))) (ground arith)

  counted : count (free_block ys a idx) (per_arena idx) ≡ suc before
  counted =
      count_one_more (free_block ys a idx) (free_block (lists_of h idx) a idx) (per_arena idx) j
        w.number (ap (λ q. has q ys) (sym w.address) ∙ on_list)
        (ap (λ q. has q (lists_of h idx)) (sym w.address) ∙ not_listed)
        (λ k lt ne.
          others (block a k idx) (λ e.
            block_differs (owned-IsPlaced v) x idx k j w.within lt w.number ne (e ∙ w.address)))

  few : before < 256
  few = omega (
    arith,
    few_blocks v idx class,
    count_bound (free_block (lists_of h idx) a idx) (per_arena idx),
  )

  now : has p ys ≡ not (left p)
  now = on_list ∙ rw (eq→== {a = p} refl) refl

  IsLedger-listed : IsLedger s n (lists_of listed) listed.arenas kind left
  IsLedger-listed =
      IsLedger-cast
        (flip-IsLedger (owned-IsPlaced v) v.ledger idx p x j w ys left (suc before)
          (Distinct-snoc (lists_of h idx) p (v.ledger.distinct idx class) not_listed) others now
          (without_given_other given p) (sym counted))
        (lists_of-with_list h idx ys)
        (ap (put h.arenas a) (ap (λ (r : Arena). record r { cnt = suc before }) header))

  at_listed : lists_of listed idx ≡ ys
  at_listed = ap (λ f. f idx) (lists_of-with_list h idx ys) ∙ put_at (lists_of h) idx ys

  to_arena : sys_free h p ≡ free_small h pf_kernel idx a p
  to_arena =
      let b = block-InArena (owned-IsPlaced v) x j idx w.within w.number in
      sys_free_kernel h p a v.kernel (omega (arith, w.address, b.address, v.above))
        (ap block2arena w.address ∙ b.home)
      ∙ free_in_small h a idx before p header

  IsOwned-listed : IsOwned s n listed frame kind left
  IsOwned-listed = record {
    heap = v.heap;
    kernel = v.kernel;
    start = v.start;
    pages = v.pages;
    above = v.above;
    classes = IsClasses-with_list h idx ys v.classes;
    used = v.used;
    ledger = IsLedger-listed;
  }

  -- Other blocks of the arena are still given.
  block_back :
      suc before ≢ per_arena idx
      → (h' : Heap) × (sys_free h p ≡ ok h') × IsReturned s n h given p h'
  block_back ne = (
    listed,
    to_arena ∙ free_some h idx a p before header few (λ e. ne (e ∙ count_of v idx class)),
    record {
      same = extents_kept v IsOwned-listed (λ y. inl refl);
      heap = record { frame = frame; kind = kind; owned = IsOwned-listed };
    },
  )

  module _ (last : suc before ≡ per_arena idx) where
    all_listed : (k : ℕ) → k < per_arena idx → has (block a k idx) ys ≡ true
    all_listed k lt = all_of_count (free_block ys a idx) (per_arena idx) (counted ∙ last) k lt

    idle : (k : ℕ) → k < per_arena idx → left (block a k idx) ≡ false
    idle k lt =
        let split = (IsLedger-listed.arena x idx w.within w.arena).split k lt in
        let on : has (block a k idx) (lists_of listed idx) ≡ true =
          ap (has (block a k idx)) at_listed ∙ all_listed k lt in
        ground (arith, split, on)

    module _ (zs : List ℕ) (r : Removed a (16 * 2 ^ idx) (per_arena idx) 0 ys zs) (m : Machine)
        (f : Freed h.machine frame 1 x m) where
      abbrev emptied : Heap
      emptied = with_list listed idx zs

      absent : (q : ℕ) → has q zs ≡ true → (k : ℕ) → k < per_arena idx → q ≢ block a k idx
      absent q on k lt e =
          let off = ap (λ z. has z zs) e ∙ r.gone k (omega arith) (omega arith) in cc (on, off)

      elsewhere :
          (y k l : ℕ)
          → y < n
          → k < per_arena l
          → y ≢ x
          → has (block (page_at s n y) k l) zs
            ≡ has (block (page_at s n y) k l) (lists_of listed idx)
      elsewhere y k l ly lk ne =
          r.others (block (page_at s n y) k l) (λ t lo hi e.
            ne (same_page (owned-IsPlaced v) y k l x t idx ly lk w.within (omega (arith, hi)) e))
          ∙ ap (has (block (page_at s n y) k l)) (sym at_listed)

      IsLedger-emptied : IsLedger s n (lists_of emptied) emptied.arenas (put kind x unowned) left
      IsLedger-emptied =
          IsLedger-cast
            (drop-IsLedger (owned-IsPlaced v) IsLedger-listed idx x class w.within zs r.distinct
              elsewhere w.arena absent (λ q on. ap (has q) at_listed ∙ r.less q on) idle)
            (lists_of-with_list listed idx zs) refl

      used_after : (y : ℕ) → y < n → in_use m y ≡ is_owned (put kind x unowned y)
      used_after y ly = elim (ℕ_discrete y x) [
        | yes e ↦ let here = f.used y in rw (eq→== e) (ground (arith, here, e))
        | no ne ↦
            let here = f.used y in
            let kept = v.used y ly in rw (ne→== ne) (ground (arith, here, kept, ne))
      ]

      page_back : IsOwned s n (with_machine emptied m) frame (put kind x unowned) left
      page_back = record {
        heap = f.heap;
        kernel = v.kernel;
        start = f.start ∙ v.start;
        pages = f.pages ∙ v.pages;
        above = v.above;
        classes = IsClasses-with_list listed idx zs (IsClasses-with_list h idx ys v.classes);
        used = used_after;
        ledger = IsLedger-emptied;
      }

    kinds_kept : KeepsKinds kind (put kind x unowned)
    kinds_kept y = elim (ℕ_discrete y x) [
      | yes e ↦ inr (inr (ap (put kind x unowned) e ∙ put_at kind x unowned))
      | no ne ↦ inl (put_ne kind x unowned y ne)
    ]

    arena_back : (h' : Heap) × (sys_free h p ≡ ok h') × IsReturned s n h given p h'
    arena_back =
        let (zs, removed, r) =
          remove_blocks-Removed a (16 * 2 ^ idx) (per_arena idx)
            (Differ-page (owned-IsPlaced v) x idx w.within) idx (per_arena idx) 0 listed ys
            (Holds-with_list h idx (16 * 2 ^ idx) (lists_of h idx) ys
              (v.classes.sizes idx class, refl))
            (omega arith)
            (Distinct-snoc (lists_of h idx) p (v.ledger.distinct idx class) not_listed)
            (λ k lo hi. all_listed k (omega (arith, hi))) in
        let on : in_use h.machine x ≡ true = v.used x w.within ∙ ap is_owned w.arena in
        let (m, e, f) =
          mfree_page-Freed h.machine frame v.heap 1 x (omega arith)
            (omega (arith, w.within, v.pages))
            (λ y here.
              let same : y ≡ x = ground (arith, here) in ap (in_use h.machine) same ∙ on) in
        (
          with_machine (with_list listed idx zs) m,
          to_arena
              ∙ free_all h (with_list listed idx zs) idx a p before m header few
                  (last ∙ sym (count_of v idx class))
                  (ap (λ c. remove_blocks listed pf_kernel idx a c 0) (count_of v idx class)
                    ∙ removed)
                  (ap (λ z. mfree_page h.machine pf_kernel z 1) (sym (page_of v x)) ∙ e),
          record {
            same = extents_kept v (page_back zs r m f) kinds_kept;
            heap = record { frame = frame; kind = put kind x unowned; owned = page_back zs r m f };
          },
        )

  pub sys_free-block : (h' : Heap) × (sys_free h p ≡ ok h') × IsReturned s n h given p h'
  sys_free-block = elim (ℕ_discrete (suc before) (per_arena idx)) [
    | yes e ↦ arena_back e
    | no ne ↦ block_back ne
  ]
