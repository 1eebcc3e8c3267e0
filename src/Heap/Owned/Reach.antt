-- ===== src/Heap/Owned/Reach.antt =====
-- Any sequence of calls of kernel/memory.c's `sys_malloc` and `sys_free` from a fresh heap on.
use mathlib.Core.Path.{subst, fun_ext}
use goos.Prelude.{
  ℕ, ◌+◌, ◌*◌, ◌≤◌, ◌<◌, ◌≡◌, ◌≢◌, ◌⊎◌, inl, inr, refl, sym, ap, ◌∙◌, arith, Bool, true, false,
  List, [], ◌∷◌, ok, eq→==, ne→==, ℕ_discrete,
}
use goos.LinkedList.Chain.{Distinct}
use goos.LinkedList.Distinct.{has, has_of_NotIn, NotIn-of_has}
use goos.Memory.{pg_size, k_heap_start}
use goos.PageTable.Count.{free_pages}
use goos.PageTable.Kernel.{IsHeap, heap_pages, in_use}
use goos.Heap.{Heap, arena_size, mem_block_desc_cnt, pages_for, remove, sys_malloc, sys_free}
use goos.Heap.Classes.{IsClasses}
use goos.Heap.Lists.{has_none}
use goos.Heap.Ledger.{unowned}
use goos.Heap.Ledger.Kinds.{unowned-ne-small, unowned-ne-large}
use goos.Heap.Ledger.Places.{block-InArena}
use goos.Heap.Ledger.Listed.{has-remove_other, has-remove_same, remove-Distinct}
use goos.Heap.Ledger.Runs.{with_given, without_given}
use goos.Heap.Owned.{IsHeapOf, lists_of, owned-IsPlaced}
use goos.Heap.Owned.Extent.{extent, given-apart}
use goos.Heap.Owned.Kept.{IsGiven, IsReturned}
use goos.Heap.Owned.Calls.{sys_malloc-IsGiven, sys_free-IsReturned}

abbrev pub nothing : ℕ → Bool
nothing = λ _. false

-- The heap before the first call, for a kernel thread.
pub record IsFresh (s n : ℕ) (h : Heap) : Type 0 where
  pub frame : ℕ → ℕ
  pub heap : IsHeap h.machine frame
  pub kernel : h.pgdir ≡ 0
  pub start : h.machine.memory.kernel_vaddr_pool.vaddr_start ≡ s
  pub pages : heap_pages h.machine ≡ n
  pub above : k_heap_start ≤ s
  pub classes : IsClasses h.k_block_descs
  pub unused : (x : ℕ) → x < n → in_use h.machine x ≡ false
  pub empty : (i : ℕ) → i < mem_block_desc_cnt → lists_of h i ≡ []

pub fresh-IsHeapOf : (s n : ℕ) (h : Heap) → IsFresh s n h → IsHeapOf s n h nothing
fresh-IsHeapOf s n h f = record {
  frame = f.frame;
  kind = λ _. unowned;
  owned = record {
    heap = f.heap;
    kernel = f.kernel;
    start = f.start;
    pages = f.pages;
    above = f.above;
    classes = f.classes;
    used = f.unused;
    ledger = record {
      arena = λ x i lt e. absurd (unowned-ne-small e);
      whole = λ x m lt e. absurd (unowned-ne-large e);
      distinct = λ i lt. subst Distinct (sym (f.empty i lt)) tt;
      member =
          λ i b lt on. let off = ap (has b) (f.empty i lt) ∙ has_none b in absurd (cc (on, off));
      owner = λ p on. absurd (cc on);
    };
  };
}

pub not_null :
    (s n : ℕ) (h : Heap) (given : ℕ → Bool)
    → IsHeapOf s n h given
    → (p : ℕ) → given p ≡ true
    → p ≢ 0
not_null s n h given v p on e = elim (v.owned.ledger.owner p on) [
  | inl (i, x, j, w) ↦
      let b = block-InArena (owned-IsPlaced v.owned) x j i w.within w.number in
      absurd (omega (arith, e, w.address, b.address))
  | inr (x, m, w) ↦ absurd (omega (arith, e, w.address))
]

-- The heaps that calls lead to, each with a list of the pointers that are given away, the last one
-- first. A request is one that `sys_malloc` can serve: it is not too large, and a page and enough frames
-- are free.
pub data Reach (s n : ℕ) (h₀ : Heap) : Heap → List ℕ → Type 0 where
  here : Reach s n h₀ h₀ []
  taken :
      {h h' : Heap} {given : List ℕ} (size k p : ℕ)
      → Reach s n h₀ h given
      → size + arena_size ≤ 3839 * pg_size
      → size ≤ h.machine.memory.kernel_mem_pool.pool_size
      → k < n
      → in_use h.machine k ≡ false
      → pages_for size ≤ free_pages h.machine.memory.kernel_mem_pool
      → sys_malloc h size ≡ ok (p, h')
      → p ≢ 0
      → Reach s n h₀ h' (p ∷ given)
  returned :
      {h h' : Heap} {given : List ℕ} (p : ℕ)
      → Reach s n h₀ h given
      → has p given ≡ true
      → sys_free h p ≡ ok h'
      → Reach s n h₀ h' (remove p given)

-- The pointers of a list, as a test.
abbrev pub among : List ℕ → ℕ → Bool
among given = λ q. has q given

among_none : nothing ≡ among []
unfolding has
among_none = refl

among_one_more : (p : ℕ) (given : List ℕ) → with_given (among given) p ≡ among (p ∷ given)
unfolding has
among_one_more p given = fun_ext (λ q. elim (ℕ_discrete q p) [
  | yes e ↦ rw (eq→== e, eq→== (sym e)) refl
  | no ne ↦ rw (ne→== ne, ne→== (λ e. ne (sym e))) refl
])

among-remove :
    (p : ℕ) (given : List ℕ)
    → Distinct given
    → without_given (among given) p ≡ among (remove p given)
among-remove p given d = fun_ext (λ q. elim (ℕ_discrete q p) [
  | yes e ↦ rw (eq→== e) (sym (ap (λ z. has z (remove p given)) e ∙ has-remove_same p given d))
  | no ne ↦ rw (ne→== ne) (sym (has-remove_other p q given ne))
])

-- The heap is sound, and no pointer is given away twice.
record IsGivenOut (s n : ℕ) (h : Heap) (given : List ℕ) : Type 0 where
  heap : IsHeapOf s n h (among given)
  distinct : Distinct given

-- Each pointer of the list differs from the later ones, and its bytes do not overlap theirs.
abbrev pub NoOverlap : Heap → List ℕ → Type 0
NoOverlap h [] = Unit {0}
NoOverlap h (p ∷ given) =
    ((q : ℕ) → has q given ≡ true → (p ≢ q) × ((p + extent h p ≤ q) ⊎ (q + extent h q ≤ p)))
    × NoOverlap h given

apart-given :
    (s n : ℕ) (h : Heap) (all given : List ℕ)
    → IsHeapOf s n h (among all)
    → Distinct given
    → ((q : ℕ) → has q given ≡ true → has q all ≡ true)
    → NoOverlap h given
unfolding has
apart-given s n h all [] v d part = tt
apart-given s n h all (p ∷ given) v d part = (
  λ q on.
      let ne : p ≢ q =
        λ e. let off = ap (λ z. has z given) (sym e) ∙ has_of_NotIn p given d.0 in cc (on, off) in
      (
        ne,
        given-apart s n h (among all) v p q (part p (rw (eq→== {a = p} refl) refl))
            (part q (ground (arith, on))) ne,
      ),
  apart-given s n h all given v d.1 (λ q on. part q (ground (arith, on))),
)

-- A list of pointers stands for the same test before and after a call.
same_heap_taken :
    (s n : ℕ) (h t : Heap) (given : List ℕ) (p q : ℕ)
    → t ≡ h
    → q ≡ p
    → IsHeapOf s n t (with_given (among given) q)
    → IsHeapOf s n h (among (p ∷ given))
same_heap_taken s n h t given p q et eq v =
    subst (λ g. IsHeapOf s n h g) (among_one_more p given)
      (subst (λ z. IsHeapOf s n h (with_given (among given) z)) eq
        (subst (λ z. IsHeapOf s n z (with_given (among given) q)) et v))

same_heap_returned :
    (s n : ℕ) (h t : Heap) (given : List ℕ) (p : ℕ)
    → Distinct given
    → t ≡ h
    → IsHeapOf s n t (without_given (among given) p)
    → IsHeapOf s n h (among (remove p given))
same_heap_returned s n h t given p d et v =
    subst (λ g. IsHeapOf s n h g) (among-remove p given d)
      (subst (λ z. IsHeapOf s n z (without_given (among given) p)) et v)

still-Distinct :
    (given : List ℕ) (p q : ℕ) → q ≡ p → has q given ≡ false → Distinct given → Distinct (p ∷ given)
still-Distinct given p q e off d = (NotIn-of_has p given (ap (among given) (sym e) ∙ off), d)

taken-IsGivenOut :
    (s n : ℕ) (h h' : Heap) (given : List ℕ) (size p : ℕ)
    → Distinct given
    → sys_malloc h size ≡ ok (p, h')
    → p ≢ 0
    → ((1024 < size) × (sys_malloc h size ≡ ok (0, h)))
      ⊎ ((q : ℕ) × (t : Heap) × (sys_malloc h size ≡ ok (q, t))
          × IsGiven s n h (among given) size q t)
    → IsGivenOut s n h' (p ∷ given)
taken-IsGivenOut s n h h' given size p d e ne (inl (big, e')) =
    let zero : 0 ≡ p = cc (e, e') in absurd (ne (sym zero))
taken-IsGivenOut s n h h' given size p d e ne (inr (q, t, e', done)) =
    let same_heap : t ≡ h' = cc (e, e') in
    let same : q ≡ p = cc (e, e') in
    record {
      heap = same_heap_taken s n h' t given p q same_heap same done.heap;
      distinct = still-Distinct given p q same done.fresh d;
    }

returned-IsGivenOut :
    (s n : ℕ) (h h' : Heap) (given : List ℕ) (p : ℕ)
    → Distinct given
    → sys_free h p ≡ ok h'
    → ((t : Heap) × (sys_free h p ≡ ok t) × IsReturned s n h (among given) p t)
    → IsGivenOut s n h' (remove p given)
returned-IsGivenOut s n h h' given p d e (t, e', done) =
    let same : t ≡ h' = cc (e, e') in
    record {
      heap = same_heap_returned s n h' t given p d same done.heap;
      distinct = remove-Distinct p given d;
    }

fresh-IsGivenOut : (s n : ℕ) (h : Heap) → IsFresh s n h → IsGivenOut s n h []
fresh-IsGivenOut s n h f = record {
  heap = subst (IsHeapOf s n h) among_none (fresh-IsHeapOf s n h f);
  distinct = tt;
}

module _ (s n : ℕ) (h₀ : Heap) (f : IsFresh s n h₀) where
  reach-IsGivenOut : (h : Heap) (given : List ℕ) → Reach s n h₀ h given → IsGivenOut s n h given
  reach-IsGivenOut h given here = fresh-IsGivenOut s n h₀ f
  reach-IsGivenOut h' given'
        (taken {h} {given = given} size k p r fits capacity within free enough e ne) =
      let v = reach-IsGivenOut h given r in
      taken-IsGivenOut s n h h' given size p v.distinct e ne
        (sys_malloc-IsGiven s n h (among given) v.heap size k fits capacity within free enough)
  reach-IsGivenOut h' given' (returned {h} {given = given} p r on e) =
      let v = reach-IsGivenOut h given r in
      returned-IsGivenOut s n h h' given p v.distinct e
        (sys_free-IsReturned s n h (among given) v.heap p on)

-- From a fresh heap on.
pub reach-apart :
    (s n : ℕ) (h₀ : Heap)
    → IsFresh s n h₀
    → (h : Heap) (given : List ℕ) → Reach s n h₀ h given
    → NoOverlap h given
      × ((p : ℕ) → has p given ≡ true → (p ≢ 0) × ((h' : Heap) × (sys_free h p ≡ ok h')))
reach-apart s n h₀ f h given r =
    let v = reach-IsGivenOut s n h₀ f h given r in
    (
      apart-given s n h given given v.heap v.distinct (λ q on. on),
      λ p on.
          let (h', e, _) = sys_free-IsReturned s n h (among given) v.heap p on in
          (not_null s n h (among given) v.heap p on, (h', e)),
    )
