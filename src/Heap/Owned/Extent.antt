-- ===== src/Heap/Owned/Extent.antt =====
-- How many bytes the pointers given away by kernel/memory.c's `sys_malloc` have, and that they do not
-- overlap.
use mathlib.Core.Path.{subst}
use native.Mathlib.Nat.{mul-le-mul_right}
use goos.Prelude.{
  ℕ, suc, ◌+◌, ◌-◌, ◌*◌, ◌^◌, ◌≤◌, ◌<◌, ◌≡◌, ◌≢◌, ◌⊎◌, inl, inr, sym, ap, ◌∙◌, arith, Bool, true,
  some, none, dec_lt, ℕ_discrete,
}
use goos.Memory.{pg_size}
use goos.Heap.{Heap, Arena, arena_size, block2arena}
use goos.Heap.Large.{behind_header}
use goos.Heap.Ledger.{Kind, inner, block, page_at, IsBlockOf, IsLargeOf}
use goos.Heap.Ledger.Kinds.{small-injective, small-ne-large, small-ne-inner, large-ne-inner}
use goos.Heap.Ledger.Places.{block-InArena}
use goos.Heap.Owned.{IsOwned, IsHeapOf, owned-IsPlaced}

-- The bytes of a pointer into an arena, and from a pointer on, as the header of its arena says.
abbrev bytes_in : Heap → Arena → ℕ
bytes_in h arena = elim arena.desc [
  | some idx ↦ (h.k_block_descs idx).block_size
  | none ↦ arena.cnt * pg_size - arena_size
]

abbrev pub extent : Heap → (ptr : ℕ) → ℕ
extent h ptr = bytes_in h (h.arenas (block2arena ptr))

module _ {s n : ℕ} {h : Heap} {frame : ℕ → ℕ} {kind : ℕ → Kind} {given : ℕ → Bool}
    (v : IsOwned s n h frame kind given) where
  pub extent_block : (i p x j : ℕ) → IsBlockOf s n kind i p x j → extent h p ≡ 16 * 2 ^ i
  extent_block i p x j w =
      let arena = v.ledger.arena x i w.within w.arena in
      let home : block2arena p ≡ page_at s n x =
        ap block2arena w.address
        ∙ (block-InArena (owned-IsPlaced v) x j i w.within w.number).home in
      ap (bytes_in h) (ap h.arenas home ∙ arena.header) ∙ v.classes.sizes i arena.class

  pub extent_large : (p x m : ℕ) → IsLargeOf s n kind p x m → extent h p ≡ m * pg_size - arena_size
  extent_large p x m w =
      let (_, home) =
        behind_header (page_at s n x) (omega (arith, (owned-IsPlaced v).whole))
          (omega (arith, w.within, (owned-IsPlaced v).below)) in
      let at : block2arena p ≡ page_at s n x = ap block2arena w.address ∙ home in
      ap (bytes_in h) (ap h.arenas at ∙ (v.ledger.whole x m w.within w.first).header)

  -- The bytes of `p` lie on the `c` pages from page `x` on, which belong together.
  record IsAt (p x c : ℕ) : Type 0 where
    pub from : page_at s n x ≤ p
    pub to : p + extent h p ≤ page_at s n x + c * pg_size
    pub together : (y : ℕ) → x < y → y < x + c → kind y ≡ inner x
    pub first : (y : ℕ) → kind x ≢ inner y

  block-IsAt : (i p x j : ℕ) → IsBlockOf s n kind i p x j → IsAt p x 1
  block-IsAt i p x j w =
      let b = block-InArena (owned-IsPlaced v) x j i w.within w.number in
      record {
        from = omega (arith, w.address, b.address);
        to = omega (arith, w.address, b.address, b.ends, extent_block i p x j w);
        together = λ y lo hi. absurd (omega arith);
        first = λ y e. small-ne-inner (sym w.arena ∙ e);
      }

  large-IsAt : (p x m : ℕ) → IsLargeOf s n kind p x m → IsAt p x m
  large-IsAt p x m w =
      let whole = v.ledger.whole x m w.within w.first in
      record {
        from = omega (arith, w.address);
        to = omega (arith, w.address, extent_large p x m w, whole.some_page);
        together = whole.inside;
        first = λ y e. large-ne-inner (sym w.first ∙ e);
      }

  in_order : (p q x y c d : ℕ) → IsAt p x c → IsAt q y d → x < y → p + extent h p ≤ q
  in_order p q x y c d wp wq lt = elim (dec_lt y (x + c)) [
    | yes inside ↦ absurd (wq.first x (wp.together y lt inside))
    | no past ↦
        let up : (x + c) * pg_size ≤ y * pg_size = mul-le-mul_right pg_size (omega (arith, past)) in
        omega (arith, wp.to, wq.from, up)
  ]

  by_page :
      (p q x y c d : ℕ)
      → IsAt p x c
      → IsAt q y d
      → x ≢ y
      → (p + extent h p ≤ q) ⊎ (q + extent h q ≤ p)
  by_page p q x y c d wp wq ne = elim (dec_lt x y) [
    | yes lt ↦ inl (in_order p q x y c d wp wq lt)
    | no ge ↦ inr (in_order q p y x d c wq wp (omega (arith, ge, ne)))
  ]

  -- Two blocks of one arena.
  in_arena :
      (i p q x j k : ℕ)
      → IsBlockOf s n kind i p x j
      → IsBlockOf s n kind i q x k
      → j < k
      → p + extent h p ≤ q
  in_arena i p q x j k wp wq lt =
      let b = block-InArena (owned-IsPlaced v) x j i wp.within wp.number in
      let c = block-InArena (owned-IsPlaced v) x k i wq.within wq.number in
      let up : suc j * (16 * 2 ^ i) ≤ k * (16 * 2 ^ i) = mul-le-mul_right (16 * 2 ^ i) lt in
      omega (arith, wp.address, b.address, wq.address, c.address, extent_block i p x j wp, up)

  same_arena :
      (i l p q x j k : ℕ)
      → IsBlockOf s n kind i p x j
      → IsBlockOf s n kind l q x k
      → p ≢ q
      → (p + extent h p ≤ q) ⊎ (q + extent h q ≤ p)
  same_arena i l p q x j k wp wq ne =
      let same : l ≡ i = small-injective (sym wq.arena ∙ wp.arena) in
      let wq' : IsBlockOf s n kind i q x k = rw (← same) wq in
      elim (dec_lt j k) [
        | yes lt ↦ inl (in_arena i p q x j k wp wq' lt)
        | no ge ↦
            let other : k ≢ j = λ e.
              ne (wp.address ∙ ap (λ z. block (page_at s n x) z i) (sym e) ∙ sym wq'.address) in
            inr (in_arena i q p x k j wq' wp (omega (arith, ge, other)))
      ]

  owned_apart :
      (p q : ℕ)
      → given p ≡ true
      → given q ≡ true
      → p ≢ q
      → (p + extent h p ≤ q) ⊎ (q + extent h q ≤ p)
  owned_apart p q onp onq ne = elim (v.ledger.owner p onp) [
    | inl (i, x, j, wp) ↦ elim (v.ledger.owner q onq) [
      | inl (l, y, k, wq) ↦ elim (ℕ_discrete x y) [
        | yes e ↦ same_arena i l p q y j k (subst (λ z. IsBlockOf s n kind i p z j) e wp) wq ne
        | no other ↦ by_page p q x y 1 1 (block-IsAt i p x j wp) (block-IsAt l q y k wq) other
      ]
      | inr (y, m, wq) ↦
          by_page p q x y 1 m (block-IsAt i p x j wp) (large-IsAt q y m wq)
            (λ e. small-ne-large (sym wp.arena ∙ ap kind e ∙ wq.first))
    ]
    | inr (x, m, wp) ↦ elim (v.ledger.owner q onq) [
      | inl (l, y, k, wq) ↦
          by_page p q x y m 1 (large-IsAt p x m wp) (block-IsAt l q y k wq)
            (λ e. small-ne-large (sym wq.arena ∙ ap kind (sym e) ∙ wp.first))
      | inr (y, c, wq) ↦
          by_page p q x y m c (large-IsAt p x m wp) (large-IsAt q y c wq)
            (λ e. ne (wp.address ∙ ap (λ z. page_at s n z + arena_size) e ∙ sym wq.address))
    ]
  ]

-- In a sound heap two different pointers that are given away have bytes that do not overlap, as many as
-- the headers of their arenas say.
pub given-apart :
    (s n : ℕ) (h : Heap) (given : ℕ → Bool)
    → IsHeapOf s n h given
    → (p q : ℕ) → given p ≡ true
    → given q ≡ true
    → p ≢ q
    → (p + extent h p ≤ q) ⊎ (q + extent h q ≤ p)
given-apart s n h given v p q onp onq ne = owned_apart v.owned p q onp onq ne
