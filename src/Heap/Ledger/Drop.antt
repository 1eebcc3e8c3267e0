-- ===== src/Heap/Ledger/Drop.antt =====
-- An arena of the kernel's heap whose blocks are all free becomes a free page again.
use goos.Prelude.{
  ℕ, ◌<◌, ◌≡◌, ◌≢◌, inl, inr, refl, sym, ap, ◌∙◌, Bool, true, false, List, eq→==, ne→==, ℕ_discrete,
}
use goos.LinkedList.Chain.{Distinct}
use goos.LinkedList.Distinct.{has}
use goos.Heap.{Arena, put, mem_block_desc_cnt}
use goos.Heap.Lists.{put_at}
use goos.Heap.Ledger.{Kind, unowned, small, large, block, per_arena, page_at, IsBlockOf, IsLedger}
use goos.Heap.Ledger.Kinds.{
  small-injective, small-ne-large, unowned-ne-small, unowned-ne-large, small-ne-inner,
}
use goos.Heap.Ledger.Places.{IsPlaced}
use goos.Heap.Ledger.Flip.{put_ne, arena_kept, IsLarge-kept}
use goos.Heap.Ledger.Pages.{KeptElsewhere, in_class, list_kept}

module _ {s n : ℕ} (placed : IsPlaced s n) {free : ℕ → List ℕ} {arenas : ℕ → Arena}
    {kind : ℕ → Kind} {given : ℕ → Bool} (v : IsLedger s n free arenas kind given) (i x : ℕ)
    (class : i < mem_block_desc_cnt) (within : x < n) (ys : List ℕ) (apart : Distinct ys) where
  abbrev a : ℕ
  a = page_at s n x

  abbrev free' : ℕ → List ℕ
  free' = put free i ys

  module _ (kept : KeptElsewhere s n x i free ys) where
    module _ (arena : kind x ≡ small i)
        (none : (b : ℕ) → has b ys ≡ true → (j : ℕ) → j < per_arena i → b ≢ block a j i)
        (less : (b : ℕ) → has b ys ≡ true → has b (free i) ≡ true)
        (idle : (j : ℕ) → j < per_arena i → given (block a j i) ≡ false) where
      abbrev dropped_kind : ℕ → Kind
      dropped_kind = put kind x unowned

      dropped_others : (y : ℕ) → y ≢ x → dropped_kind y ≡ kind y
      dropped_others y ne = put_ne kind x unowned y ne

      not_here : (y : ℕ) (k : Kind) → dropped_kind y ≡ k → unowned ≢ k → y ≢ x
      not_here y k e ne same = ne (sym (put_at kind x unowned) ∙ ap dropped_kind (sym same) ∙ e)

      given_here : (l k q y : ℕ) → IsBlockOf s n kind l q y k → y ≡ x → given q ≡ true → ⊥
      given_here l k q y w same on =
          let l_same : l ≡ i = small-injective (sym w.arena ∙ ap kind same ∙ arena) in
          let at : q ≡ block a k i =
            w.address ∙ ap (λ z. block (page_at s n z) k l) same ∙ ap (block a k) l_same in
          let off = ap given at ∙ idle k (in_class (sym l_same) w.number) in cc (on, off)

      -- An arena without its blocks is a free page.
      pub drop-IsLedger : IsLedger s n free' arenas dropped_kind given
      drop-IsLedger = record {
        arena = λ y l ly e.
            let ne = not_here y (small l) e unowned-ne-small in
            arena_kept free free' arenas arenas given given (page_at s n y) l
              (v.arena y l ly (sym (dropped_others y ne) ∙ e)) refl
              (λ k h. list_kept s n x i free ys kept y k l ly h ne) (λ k h. refl);
        whole = λ y m ly e.
            let ne = not_here y (large m) e unowned-ne-large in
            let big = v.whole y m ly (sym (dropped_others y ne) ∙ e) in
            IsLarge-kept placed arenas arenas kind dropped_kind given given y m big refl
              (λ z lo hi.
                dropped_others z
                  (λ same. small-ne-inner (sym arena ∙ ap kind (sym same) ∙ big.inside z lo hi)))
              refl;
        distinct = λ l h. elim (ℕ_discrete l i) [
          | yes e ↦ rw (eq→== e) apart
          | no ne ↦ rw (ne→== ne) (v.distinct l h)
        ];
        member = λ l q h on. elim (ℕ_discrete l i) [
          | yes e ↦
              let on' : has q ys ≡ true =
                ap (has q) (sym (put_at free i ys)) ∙ ap (λ z. has q (free' z)) (sym e) ∙ on in
              let (y, k, w) = v.member i q class (less q on') in
              let ne : y ≢ x = λ same.
                none q on' k w.number (w.address ∙ ap (λ z. block (page_at s n z) k i) same) in
              (
                y,
                k,
                record {
                  within = w.within;
                  arena = dropped_others y ne ∙ w.arena ∙ ap small (sym e);
                  number = in_class e w.number;
                  address = w.address ∙ ap (block (page_at s n y) k) (sym e);
                },
              )
          | no other ↦
              let (y, k, w) = v.member l q h (ap (has q) (sym (put_ne free i ys l other)) ∙ on) in
              let ne : y ≢ x =
                λ same. other (small-injective (sym w.arena ∙ ap kind same ∙ arena)) in
              (
                y,
                k,
                record {
                  within = w.within;
                  arena = dropped_others y ne ∙ w.arena;
                  number = w.number;
                  address = w.address;
                },
              )
        ];
        owner = λ q on. elim (v.owner q on) [
          | inl (l, y, k, w) ↦
              let ne : y ≢ x = λ same. given_here l k q y w same on in
              inl (
                l,
                y,
                k,
                record {
                  within = w.within;
                  arena = dropped_others y ne ∙ w.arena;
                  number = w.number;
                  address = w.address;
                },
              )
          | inr (y, m, w) ↦
              let ne : y ≢ x = λ e. small-ne-large (sym arena ∙ ap kind (sym e) ∙ w.first) in
              inr (
                y,
                m,
                record {
                  within = w.within;
                  first = dropped_others y ne ∙ w.first;
                  address = w.address;
                },
              )
        ];
      }
