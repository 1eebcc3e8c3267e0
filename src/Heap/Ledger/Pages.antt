-- ===== src/Heap/Ledger/Pages.antt =====
-- A page of the kernel's heap becomes an arena.
use goos.Prelude.{
  ℕ, ◌<◌, ◌≡◌, ◌≢◌, inl, inr, refl, sym, ap, ◌∙◌, Bool, true, false, not, List, [], eq→==, ne→==,
  ℕ_discrete, Bool-cases,
}
use goos.LinkedList.Chain.{Distinct}
use goos.LinkedList.Distinct.{has}
use goos.Heap.{Arena, put, mem_block_desc_cnt}
use goos.Heap.Arenas.{arena_of}
use goos.Heap.Lists.{put_at}
use goos.Heap.Ledger.{
  Kind, unowned, small, block, per_arena, free_block, page_at, IsArena, IsBlockOf, IsLedger,
}
use goos.Heap.Ledger.Kinds.{
  small-injective, small-ne-large, unowned-ne-small, unowned-ne-large, unowned-ne-inner,
}
use goos.Heap.Ledger.Counting.{count_all}
use goos.Heap.Ledger.Places.{IsPlaced, same_page, large_differs}
use goos.Heap.Ledger.Flip.{put_ne, arena_kept, IsLarge-kept, page_ne}

pub in_class : {l i j : ℕ} → l ≡ i → j < per_arena i → j < per_arena l
in_class e h = rw e h

-- The lists agree on the blocks of other pages.
abbrev pub KeptElsewhere : (s n x i : ℕ) → (free : ℕ → List ℕ) → (ys : List ℕ) → Type 0
KeptElsewhere s n x i free ys =
    (y k l : ℕ)
    → y < n
    → k < per_arena l
    → y ≢ x
    → has (block (page_at s n y) k l) ys ≡ has (block (page_at s n y) k l) (free i)

pub list_kept :
    (s n x i : ℕ) (free : ℕ → List ℕ) (ys : List ℕ)
    → KeptElsewhere s n x i free ys
    → (y k l : ℕ) → y < n
    → k < per_arena l
    → y ≢ x
    → has (block (page_at s n y) k l) (put free i ys l) ≡ has (block (page_at s n y) k l) (free l)
list_kept s n x i free ys kept y k l ly lk ne = elim (ℕ_discrete l i) [
  | yes e ↦
      ap (λ z. has (block (page_at s n y) k l) (put free i ys z)) e
      ∙ ap (has (block (page_at s n y) k l)) (put_at free i ys)
      ∙ kept y k l ly lk ne
      ∙ ap (λ z. has (block (page_at s n y) k l) (free z)) (sym e)
  | no other ↦ ap (has (block (page_at s n y) k l)) (put_ne free i ys l other)
]

module _ {s n : ℕ} (placed : IsPlaced s n) {free : ℕ → List ℕ} {arenas : ℕ → Arena}
    {kind : ℕ → Kind} {given : ℕ → Bool} (v : IsLedger s n free arenas kind given) (i x : ℕ)
    (class : i < mem_block_desc_cnt) (within : x < n) (ys : List ℕ) (apart : Distinct ys) where
  abbrev a : ℕ
  a = page_at s n x

  abbrev free' : ℕ → List ℕ
  free' = put free i ys

  module _ (kept : KeptElsewhere s n x i free ys) where
    module _ (fresh : kind x ≡ unowned) (empty : free i ≡ [])
        (blocks : (b : ℕ) → has b ys ≡ true → (j : ℕ) × (j < per_arena i) × (b ≡ block a j i))
        (all : (j : ℕ) → j < per_arena i → has (block a j i) ys ≡ true) where
      abbrev filled_kind : ℕ → Kind
      filled_kind = put kind x (small i)

      abbrev filled_arenas : ℕ → Arena
      filled_arenas = put arenas a (arena_of i (per_arena i))

      others_kind : (y : ℕ) → y ≢ x → filled_kind y ≡ kind y
      others_kind y ne = put_ne kind x (small i) y ne

      -- Nothing on a free page is given.
      none_given : (j : ℕ) → j < per_arena i → given (block a j i) ≡ false
      none_given j h = elim (Bool-cases (given (block a j i))) [
        | inr off ↦ off
        | inl on ↦ elim (v.owner (block a j i) on) [
          | inl (l, y, k, w) ↦
              let same = same_page placed x j i y k l within h w.within w.number w.address in
              absurd (unowned-ne-small (sym fresh ∙ ap kind same ∙ w.arena))
          | inr (y, m, w) ↦ elim (ℕ_discrete y x) [
            | yes same ↦ absurd (unowned-ne-large (sym fresh ∙ ap kind (sym same) ∙ w.first))
            | no ne ↦ absurd (large_differs placed y x j i w.within within h ne (sym w.address))
          ]
        ]
      ]

      filled-IsArena : IsArena free' filled_arenas given a i
      filled-IsArena =
          let list = put_at free i ys in
          let full =
            count_all (free_block (free' i) a i) (per_arena i)
              (λ j h. ap (has (block a j i)) list ∙ all j h) in
          record {
            class = class;
            header = put_at arenas a (arena_of i (per_arena i)) ∙ ap (arena_of i) (sym full);
            split = λ j h. ap (has (block a j i)) list ∙ all j h ∙ ap not (sym (none_given j h));
          }

      member_of : (l q y k : ℕ) → IsBlockOf s n kind l q y k → IsBlockOf s n filled_kind l q y k
      member_of l q y k w =
          let ne : y ≢ x = λ e. unowned-ne-small (sym fresh ∙ ap kind (sym e) ∙ w.arena) in
          record {
            within = w.within;
            arena = others_kind y ne ∙ w.arena;
            number = w.number;
            address = w.address;
          }

      -- A new arena, all of whose blocks are free.
      pub fill-IsLedger : IsLedger s n free' filled_arenas filled_kind given
      fill-IsLedger = record {
        arena = λ y l ly e. elim (ℕ_discrete y x) [
          | yes same ↦
              let l_same : l ≡ i =
                small-injective (sym e ∙ ap filled_kind same ∙ put_at kind x (small i)) in
              rw (same, l_same) filled-IsArena
          | no ne ↦
              arena_kept free free' arenas filled_arenas given given (page_at s n y) l
                (v.arena y l ly (sym (others_kind y ne) ∙ e))
                (put_ne arenas a (arena_of i (per_arena i)) (page_at s n y) (page_ne placed y x ne))
                (λ k h. list_kept s n x i free ys kept y k l ly h ne) (λ k h. refl)
        ];
        whole = λ y m ly e.
            let ne : y ≢ x = λ same.
              small-ne-large (sym (put_at kind x (small i)) ∙ ap filled_kind (sym same) ∙ e) in
            let big = v.whole y m ly (sym (others_kind y ne) ∙ e) in
            IsLarge-kept placed arenas filled_arenas kind filled_kind given given y m big
              (put_ne arenas a (arena_of i (per_arena i)) (page_at s n y) (page_ne placed y x ne))
              (λ z lo hi.
                others_kind z
                  (λ same. unowned-ne-inner (sym fresh ∙ ap kind (sym same) ∙ big.inside z lo hi)))
              refl;
        distinct = λ l h. elim (ℕ_discrete l i) [
          | yes e ↦ rw (eq→== e) apart
          | no ne ↦ rw (ne→== ne) (v.distinct l h)
        ];
        member = λ l q h on. elim (ℕ_discrete l i) [
          | yes e ↦
              let (j, lt, at) =
                blocks q
                  (ap (has q) (sym (put_at free i ys)) ∙ ap (λ z. has q (free' z)) (sym e) ∙ on) in
              (
                x,
                j,
                record {
                  within = within;
                  arena = put_at kind x (small i) ∙ ap small (sym e);
                  number = in_class e lt;
                  address = at ∙ ap (block a j) (sym e);
                },
              )
          | no ne ↦
              let (y, k, w) = v.member l q h (ap (has q) (sym (put_ne free i ys l ne)) ∙ on) in
              (y, k, member_of l q y k w)
        ];
        owner = λ q on. elim (v.owner q on) [
          | inl (l, y, k, w) ↦ inl (l, y, k, member_of l q y k w)
          | inr (y, m, w) ↦
              let ne : y ≢ x = λ e. unowned-ne-large (sym fresh ∙ ap kind (sym e) ∙ w.first) in
              inr (
                y,
                m,
                record {
                  within = w.within;
                  first = others_kind y ne ∙ w.first;
                  address = w.address;
                },
              )
        ];
      }
