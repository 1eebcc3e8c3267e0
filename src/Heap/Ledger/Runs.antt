-- ===== src/Heap/Ledger/Runs.antt =====
-- A run of free pages of the kernel's heap becomes a large block, and back.
use goos.Prelude.{
  ℕ, ◌+◌, ◌≤◌, ◌<◌, ◌≡◌, ◌≢◌, inl, inr, refl, sym, ap, ◌∙◌, arith, Bool, true, false, not, List,
  ◌==◌, eq→==, ne→==, if◌then◌else◌, ℕ_discrete, ◌&&◌, ◌||◌, Bool-cases,
}
use goos.Memory.Ranges.{inside}
use goos.Heap.{Arena, put, arena_size}
use goos.Heap.Lists.{put_at}
use goos.Heap.Ledger.{
  Kind, unowned, small, large, inner, block, page_at, large_header, IsLarge, IsBlockOf, IsLedger,
}
use goos.Heap.Ledger.Kinds.{
  small-ne-large, unowned-ne-small, unowned-ne-large, unowned-ne-inner, small-ne-inner,
  large-ne-inner, large-injective,
}
use goos.Heap.Ledger.Places.{IsPlaced, large_differs, large_injective}
use goos.Heap.Ledger.Flip.{put_ne, arena_kept, IsLarge-kept, page_ne}

-- The kinds with the `m` pages from `x` on as one block, and as free pages.
abbrev pub run_kind : (ℕ → Kind) → (x m : ℕ) → ℕ → Kind
run_kind kind x m = λ y. if y == x then large m else if inside x m y then inner x else kind y

abbrev pub freed_kind : (ℕ → Kind) → (x m : ℕ) → ℕ → Kind
freed_kind kind x m = λ y. if inside x m y then unowned else kind y

-- The pointers given away with one more, and with one less.
abbrev pub with_given : (ℕ → Bool) → ℕ → ℕ → Bool
with_given given p = λ q. (q == p) || given q

abbrev pub without_given : (ℕ → Bool) → ℕ → ℕ → Bool
without_given given p = λ q. not (q == p) && given q

pub with_given_other : (given : ℕ → Bool) (p q : ℕ) → q ≢ p → with_given given p q ≡ given q
with_given_other given p q ne = rw (ne→== ne) refl

pub without_given_other : (given : ℕ → Bool) (p q : ℕ) → q ≢ p → without_given given p q ≡ given q
without_given_other given p q ne = rw (ne→== ne) refl

module _ {s n : ℕ} (placed : IsPlaced s n) {free : ℕ → List ℕ} {arenas : ℕ → Arena}
    {kind : ℕ → Kind} {given : ℕ → Bool} (v : IsLedger s n free arenas kind given) (x m : ℕ)
    (some_page : 0 < m) (room : x + m ≤ n) where
  abbrev p : ℕ
  p = page_at s n x + arena_size

  within : x < n
  within = omega (arith, some_page, room)

  module _ (fresh : (y : ℕ) → inside x m y ≡ true → kind y ≡ unowned) where
    abbrev kind' : ℕ → Kind
    kind' = run_kind kind x m

    abbrev arenas' : ℕ → Arena
    arenas' = put arenas (page_at s n x) (large_header m)

    abbrev given' : ℕ → Bool
    given' = with_given given p

    -- A page that was owned is outside the run.
    outside : (y : ℕ) (k : Kind) → kind y ≡ k → unowned ≢ k → inside x m y ≡ false
    outside y k e ne = elim (Bool-cases (inside x m y)) [
      | inl on ↦ absurd (ne (sym (fresh y on) ∙ e))
      | inr off ↦ off
    ]

    out_of_run : (y : ℕ) → inside x m y ≡ false → y ≢ x
    out_of_run y off e = ground (arith, off, e, some_page)

    kind_kept : (y : ℕ) → inside x m y ≡ false → kind' y ≡ kind y
    kind_kept y off = rw (ne→== (out_of_run y off), off) refl

    kept_kind : (y : ℕ) (k : Kind) → kind y ≡ k → unowned ≢ k → kind' y ≡ k
    kept_kind y k e ne = kind_kept y (outside y k e ne) ∙ e

    kind_at : kind' x ≡ large m
    kind_at = rw (eq→== {a = x} refl) refl

    kind_on : (y : ℕ) → inside x m y ≡ true → y ≢ x → kind' y ≡ inner x
    kind_on y on ne = rw (ne→== ne, on) refl

    kind_inside : (y : ℕ) → x < y → y < x + m → kind' y ≡ inner x
    kind_inside y lo hi = let ne : y ≢ x = omega arith in kind_on y (ground arith) ne

    -- What a page of a kind that is not made here was before.
    kind_before :
        (y : ℕ) (k : Kind)
        → kind' y ≡ k
        → large m ≢ k
        → inner x ≢ k
        → (inside x m y ≡ false) × (kind y ≡ k)
    kind_before y k e not_large not_inner = elim (Bool-cases (inside x m y)) [
      | inl on ↦ elim (ℕ_discrete y x) [
        | yes same ↦ absurd (not_large (sym kind_at ∙ ap kind' (sym same) ∙ e))
        | no ne ↦ absurd (not_inner (sym (kind_on y on ne) ∙ e))
      ]
      | inr off ↦ (off, sym (kind_kept y off) ∙ e)
    ]

    member_of : (l q y k : ℕ) → IsBlockOf s n kind l q y k → IsBlockOf s n kind' l q y k
    member_of l q y k w = record {
      within = w.within;
      arena = kept_kind y (small l) w.arena unowned-ne-small;
      number = w.number;
      address = w.address;
    }

    new-IsLarge : IsLarge s n arenas' kind' given' x m
    new-IsLarge = record {
      some_page = some_page;
      room = room;
      header = put_at arenas (page_at s n x) (large_header m);
      inside = kind_inside;
      held = rw (eq→== {a = p} refl) refl;
    }

    old_large : (y l : ℕ) → y < n → kind y ≡ large l → IsLarge s n arenas' kind' given' y l
    old_large y l ly e =
        let off = outside y (large l) e unowned-ne-large in
        let ne = out_of_run y off in
        let big = v.whole y l ly e in
        IsLarge-kept placed arenas arenas' kind kind' given given' y l big
          (put_ne arenas (page_at s n x) (large_header m) (page_at s n y) (page_ne placed y x ne))
          (λ z lo hi. kind_kept z (outside z (inner y) (big.inside z lo hi) unowned-ne-inner))
          (with_given_other given p (page_at s n y + arena_size)
            (λ q. ne (large_injective placed y x q)))

    pub run-IsLedger : IsLedger s n free arenas' kind' given'
    run-IsLedger = record {
      arena = λ y l ly e.
          let (off, before) =
            kind_before y (small l) e (λ q. small-ne-large (sym q)) (λ q. small-ne-inner (sym q)) in
          let ne = out_of_run y off in
          arena_kept free free arenas arenas' given given' (page_at s n y) l (v.arena y l ly before)
            (put_ne arenas (page_at s n x) (large_header m) (page_at s n y) (page_ne placed y x ne))
            (λ k h. refl)
            (λ k h.
              with_given_other given p (block (page_at s n y) k l)
                (λ q. large_differs placed x y k l within ly h (λ z. ne (sym z)) (sym q)));
      whole = λ y l ly e. elim (ℕ_discrete y x) [
        | yes same ↦
            let l_same : l ≡ m = large-injective (sym e ∙ ap kind' same ∙ kind_at) in
            rw (same, l_same) new-IsLarge
        | no ne ↦ elim (Bool-cases (inside x m y)) [
          | inl on ↦ absurd (large-ne-inner (sym e ∙ kind_on y on ne))
          | inr off ↦ old_large y l ly (sym (kind_kept y off) ∙ e)
        ]
      ];
      distinct = v.distinct;
      member = λ l q h on. let (y, k, w) = v.member l q h on in (y, k, member_of l q y k w);
      owner = λ q on. elim (ℕ_discrete q p) [
        | yes e ↦ inr (x, m, record { within = within; first = kind_at; address = e })
        | no ne ↦ elim (v.owner q (sym (with_given_other given p q ne) ∙ on)) [
          | inl (l, y, k, w) ↦ inl (l, y, k, member_of l q y k w)
          | inr (y, l, w) ↦ inr (
            y,
            l,
            record {
              within = w.within;
              first = kept_kind y (large l) w.first unowned-ne-large;
              address = w.address;
            },
          )
        ]
      ];
    }
