-- ===== src/Heap/Ledger/Freed.antt =====
-- A large block of the kernel's heap becomes free pages again.
use goos.Prelude.{
  ℕ, ◌+◌, ◌≤◌, ◌<◌, ◌≡◌, ◌≢◌, inl, inr, refl, sym, ap, ◌∙◌, arith, Bool, true, false, List,
  Bool-cases,
}
use goos.Memory.Ranges.{inside}
use goos.Heap.{Arena, arena_size}
use goos.Heap.Ledger.{Kind, unowned, small, large, inner, block, page_at, IsBlockOf, IsLedger}
use goos.Heap.Ledger.Kinds.{
  small-ne-large, unowned-ne-small, unowned-ne-large, small-ne-inner, large-ne-inner,
  inner-injective,
}
use goos.Heap.Ledger.Places.{IsPlaced, large_differs, large_injective}
use goos.Heap.Ledger.Flip.{arena_kept, IsLarge-kept}
use goos.Heap.Ledger.Runs.{freed_kind, without_given, without_given_other}

module _ {s n : ℕ} (placed : IsPlaced s n) {free : ℕ → List ℕ} {arenas : ℕ → Arena}
    {kind : ℕ → Kind} {given : ℕ → Bool} (v : IsLedger s n free arenas kind given) (x m : ℕ)
    (some_page : 0 < m) (room : x + m ≤ n) where
  abbrev p : ℕ
  p = page_at s n x + arena_size

  within : x < n
  within = omega (arith, some_page, room)

  module _ (first : kind x ≡ large m) where
    abbrev less_kind : ℕ → Kind
    less_kind = freed_kind kind x m

    abbrev less_given : ℕ → Bool
    less_given = without_given given p

    inside_inner : (y : ℕ) → inside x m y ≡ true → y ≢ x → kind y ≡ inner x
    inside_inner y on ne =
        (v.whole x m within first).inside y (ground (arith, on, ne)) (ground (arith, on, ne))

    -- A page that is neither the first nor one behind it is outside.
    apart : (y : ℕ) (k : Kind) → kind y ≡ k → y ≢ x → inner x ≢ k → inside x m y ≡ false
    apart y k e ne other = elim (Bool-cases (inside x m y)) [
      | inl on ↦ absurd (other (sym (inside_inner y on ne) ∙ e))
      | inr off ↦ off
    ]

    less_kept : (y : ℕ) (k : Kind) → kind y ≡ k → y ≢ x → inner x ≢ k → less_kind y ≡ k
    less_kept y k e ne other = rw (apart y k e ne other) e

    less_before :
        (y : ℕ) (k : Kind) → less_kind y ≡ k → unowned ≢ k → (inside x m y ≡ false) × (kind y ≡ k)
    less_before y k e ne = elim (Bool-cases (inside x m y)) [
      | inl on ↦ absurd (ne (sym (rw on refl) ∙ e))
      | inr off ↦ (off, sym (rw off refl) ∙ e)
    ]

    not_first : (y : ℕ) → inside x m y ≡ false → y ≢ x
    not_first y off e = ground (arith, off, e, some_page)

    small_not_first : (y l : ℕ) → kind y ≡ small l → y ≢ x
    small_not_first y l e same = small-ne-large (sym e ∙ ap kind same ∙ first)

    less_member : (l q y k : ℕ) → IsBlockOf s n kind l q y k → IsBlockOf s n less_kind l q y k
    less_member l q y k w = record {
      within = w.within;
      arena =
          less_kept y (small l) w.arena (small_not_first y l w.arena) (λ e. small-ne-inner (sym e));
      number = w.number;
      address = w.address;
    }

    pub freed-IsLedger : IsLedger s n free arenas less_kind less_given
    freed-IsLedger = record {
      arena = λ y l ly e.
          let (off, before) = less_before y (small l) e unowned-ne-small in
          let ne = not_first y off in
          arena_kept free free arenas arenas given less_given (page_at s n y) l
            (v.arena y l ly before) refl (λ k h. refl)
            (λ k h.
              without_given_other given p (block (page_at s n y) k l)
                (λ q. large_differs placed x y k l within ly h (λ z. ne (sym z)) (sym q)));
      whole = λ y l ly e.
          let (off, before) = less_before y (large l) e unowned-ne-large in
          let ne = not_first y off in
          let big = v.whole y l ly before in
          IsLarge-kept placed arenas arenas kind less_kind given less_given y l big refl
            (λ z lo hi.
              let at = big.inside z lo hi in
              let far : z ≢ x = λ same. large-ne-inner (sym first ∙ ap kind (sym same) ∙ at) in
              less_kept z (inner y) at far (λ q. ne (sym (inner-injective q))) ∙ sym at)
            (without_given_other given p (page_at s n y + arena_size)
              (λ q. ne (large_injective placed y x q)));
      distinct = v.distinct;
      member = λ l q h on. let (y, k, w) = v.member l q h on in (y, k, less_member l q y k w);
      owner = λ q on.
          let ne : q ≢ p = λ e. ground (arith, on, e) in
          elim (v.owner q (sym (without_given_other given p q ne) ∙ on)) [
            | inl (l, y, k, w) ↦ inl (l, y, k, less_member l q y k w)
            | inr (y, l, w) ↦
                let far : y ≢ x =
                  λ same. ne (w.address ∙ ap (λ z. page_at s n z + arena_size) same) in
                inr (
                  y,
                  l,
                  record {
                    within = w.within;
                    first = less_kept y (large l) w.first far (λ e. large-ne-inner (sym e));
                    address = w.address;
                  },
                )
          ];
    }
