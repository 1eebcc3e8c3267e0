-- ===== src/Heap/Owned/Kept.antt =====
-- The pointers that a call of kernel/memory.c's `sys_malloc` or `sys_free` does not touch keep their
-- bytes.
use goos.Prelude.{ℕ, ◌≡◌, ◌≢◌, ◌≤◌, ◌⊎◌, inl, inr, sym, ap, ◌∙◌, Bool, true, false, ℕ_discrete}
use goos.Heap.{Heap}
use goos.Heap.Ledger.{Kind, unowned, IsBlockOf, IsLargeOf}
use goos.Heap.Ledger.Kinds.{unowned-ne-small, unowned-ne-large}
use goos.Heap.Ledger.Places.{same_page, large_differs, large_injective}
use goos.Heap.Ledger.Runs.{with_given, without_given}
use goos.Heap.Owned.{IsOwned, IsHeapOf, owned-IsPlaced}
use goos.Heap.Owned.Extent.{extent, extent_block, extent_large}

-- The pointers that are given away before and after a change have as many bytes as before.
abbrev pub SameExtents : (h h' : Heap) → (given given' : ℕ → Bool) → Type 0
SameExtents h h' given given' =
    (q : ℕ) → given q ≡ true → given' q ≡ true → extent h' q ≡ extent h q

-- What a call that gives `p` away for `size` bytes has done.
pub record IsGiven (s n : ℕ) (h : Heap) (given : ℕ → Bool) (size p : ℕ) (h' : Heap) : Type 0 where
  pub fresh : given p ≡ false
  pub fits : size ≤ extent h' p
  pub same : SameExtents h h' given (with_given given p)
  pub heap : IsHeapOf s n h' (with_given given p)

-- What a call that takes `p` back has done.
pub record IsReturned (s n : ℕ) (h : Heap) (given : ℕ → Bool) (p : ℕ) (h' : Heap) : Type 0 where
  pub same : SameExtents h h' given (without_given given p)
  pub heap : IsHeapOf s n h' (without_given given p)

-- A change of the kinds takes free pages, or gives pages back.
abbrev pub KeepsKinds : (kind kind' : ℕ → Kind) → Type 0
KeepsKinds kind kind' = (x : ℕ) → (kind' x ≡ kind x) ⊎ ((kind x ≡ unowned) ⊎ (kind' x ≡ unowned))

module _ {s n : ℕ} {h h' : Heap} {frame frame' : ℕ → ℕ} {kind kind' : ℕ → Kind}
    {given given' : ℕ → Bool} (v : IsOwned s n h frame kind given)
    (v' : IsOwned s n h' frame' kind' given') (keeps : KeepsKinds kind kind') where
  -- The page of a pointer that is still given is still owned.
  block_page : (i q x j : ℕ) → IsBlockOf s n kind i q x j → given' q ≡ true → unowned ≢ kind' x
  block_page i q x j w on = elim (v'.ledger.owner q on) [
    | inl (l, y, k, w') ↦
        let same =
          same_page (owned-IsPlaced v) x j i y k l w.within w.number w'.within w'.number
            (sym w.address ∙ w'.address) in
        λ e. unowned-ne-small (e ∙ ap kind' same ∙ w'.arena)
    | inr (y, m, w') ↦ elim (ℕ_discrete y x) [
      | yes same ↦ λ e. unowned-ne-large (e ∙ ap kind' (sym same) ∙ w'.first)
      | no ne ↦ absurd (
          large_differs (owned-IsPlaced v) y x j i w'.within w.within w.number ne
            (sym w'.address ∙ w.address))
    ]
  ]

  large_page : (q x m : ℕ) → IsLargeOf s n kind q x m → given' q ≡ true → unowned ≢ kind' x
  large_page q x m w on = elim (v'.ledger.owner q on) [
    | inl (l, y, k, w') ↦ elim (ℕ_discrete x y) [
      | yes same ↦ λ e. unowned-ne-small (e ∙ ap kind' same ∙ w'.arena)
      | no ne ↦ absurd (
          large_differs (owned-IsPlaced v) x y k l w.within w'.within w'.number ne
            (sym w.address ∙ w'.address))
    ]
    | inr (y, c, w') ↦
        let same = large_injective (owned-IsPlaced v) x y (sym w.address ∙ w'.address) in
        λ e. unowned-ne-large (e ∙ ap kind' same ∙ w'.first)
  ]

  kind_kept : (x : ℕ) → unowned ≢ kind x → unowned ≢ kind' x → kind' x ≡ kind x
  kind_kept x before after = elim (keeps x) [
    | inl e ↦ e
    | inr (inl e) ↦ absurd (before (sym e))
    | inr (inr e) ↦ absurd (after (sym e))
  ]

  pub extents_kept : SameExtents h h' given given'
  extents_kept q on on' = elim (v.ledger.owner q on) [
    | inl (i, x, j, w) ↦
        let e = kind_kept x (λ z. unowned-ne-small (z ∙ w.arena)) (block_page i q x j w on') in
        let w' : IsBlockOf s n kind' i q x j = record {
          within = w.within;
          arena = e ∙ w.arena;
          number = w.number;
          address = w.address;
        } in
        extent_block v' i q x j w' ∙ sym (extent_block v i q x j w)
    | inr (x, m, w) ↦
        let e = kind_kept x (λ z. unowned-ne-large (z ∙ w.first)) (large_page q x m w on') in
        let w' : IsLargeOf s n kind' q x m = record {
          within = w.within;
          first = e ∙ w.first;
          address = w.address;
        } in
        extent_large v' q x m w' ∙ sym (extent_large v q x m w)
  ]
