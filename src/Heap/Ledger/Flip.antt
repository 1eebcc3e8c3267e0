-- ===== src/Heap/Ledger/Flip.antt =====
-- One block of the kernel's heap changes hands: from the free list of its class to a caller, or back.
use goos.Prelude.{
  ℕ, ◌+◌, ◌<◌, ◌≡◌, ◌≢◌, inl, refl, sym, ap, ◌∙◌, arith, Bool, not, List, eq→==, ne→==, ℕ_discrete,
}
use goos.LinkedList.Chain.{Distinct}
use goos.LinkedList.Distinct.{has}
use goos.Heap.{Arena, put, arena_size}
use goos.Heap.Arenas.{arena_of}
use goos.Heap.Lists.{put_at}
use goos.Heap.Ledger.{
  Kind, small, large, block, per_arena, free_block, page_at, IsArena, IsLarge, IsBlockOf, IsLedger,
}
use goos.Heap.Ledger.Kinds.{small-injective, small-ne-large}
use goos.Heap.Ledger.Counting.{count, count_same}
use goos.Heap.Ledger.Places.{IsPlaced, same_page, block_differs, large_differs}

pub put_ne {ℓ} : {A : Type ℓ} (f : ℕ → A) (i : ℕ) (a : A) (j : ℕ) → j ≢ i → put f i a j ≡ f j
put_ne f i a j ne = rw (ne→== ne) refl

-- An arena that a change does not touch.
pub arena_kept :
    (free free' : ℕ → List ℕ) (arenas arenas' : ℕ → Arena) (given given' : ℕ → Bool) (a i : ℕ)
    → IsArena free arenas given a i
    → arenas' a ≡ arenas a
    → ((j : ℕ) → j < per_arena i → has (block a j i) (free' i) ≡ has (block a j i) (free i))
    → ((j : ℕ) → j < per_arena i → given' (block a j i) ≡ given (block a j i))
    → IsArena free' arenas' given' a i
arena_kept free free' arenas arenas' given given' a i v header lists held = record {
  class = v.class;
  header =
      header
      ∙ v.header
      ∙ ap (arena_of i) (
          sym
            (count_same (free_block (free' i) a i) (free_block (free i) a i) (per_arena i) lists));
  split = λ j h. lists j h ∙ v.split j h ∙ ap not (sym (held j h));
}

module _ {s n : ℕ} (placed : IsPlaced s n) where
  pub IsLarge-kept :
      (arenas arenas' : ℕ → Arena) (kind kind' : ℕ → Kind) (given given' : ℕ → Bool) (x m : ℕ)
      → IsLarge s n arenas kind given x m
      → arenas' (page_at s n x) ≡ arenas (page_at s n x)
      → ((y : ℕ) → x < y → y < x + m → kind' y ≡ kind y)
      → given' (page_at s n x + arena_size) ≡ given (page_at s n x + arena_size)
      → IsLarge s n arenas' kind' given' x m
  IsLarge-kept arenas arenas' kind kind' given given' x m v header pages held = record {
    some_page = v.some_page;
    room = v.room;
    header = header ∙ v.header;
    inside = λ y lo hi. pages y lo hi ∙ v.inside y lo hi;
    held = held ∙ v.held;
  }

  pub page_ne : (x y : ℕ) → x ≢ y → page_at s n x ≢ page_at s n y
  page_ne x y ne e = ne (omega (arith, e))

  module _ {free : ℕ → List ℕ} {arenas : ℕ → Arena} {kind : ℕ → Kind} {given : ℕ → Bool}
      (v : IsLedger s n free arenas kind given) (i b x j : ℕ) (w : IsBlockOf s n kind i b x j)
      (ys : List ℕ) (given' : ℕ → Bool) (c : ℕ) (apart : Distinct ys)
      (kept : (q : ℕ) → q ≢ b → has q ys ≡ has q (free i)) (now : has b ys ≡ not (given' b))
      (others : (q : ℕ) → q ≢ b → given' q ≡ given q)
      (counted : c ≡ count (free_block ys (page_at s n x) i) (per_arena i)) where
    abbrev free' : ℕ → List ℕ
    free' = put free i ys

    abbrev arenas' : ℕ → Arena
    arenas' = put arenas (page_at s n x) (arena_of i c)

    list_kept : (l q : ℕ) → q ≢ b → has q (free' l) ≡ has q (free l)
    list_kept l q ne = elim (ℕ_discrete l i) [
      | yes e ↦
          ap (λ z. has q (free' z)) e
          ∙ ap (has q) (put_at free i ys)
          ∙ kept q ne
          ∙ ap (λ z. has q (free z)) (sym e)
      | no other ↦ ap (has q) (put_ne free i ys l other)
    ]

    changed-IsArena : IsArena free' arenas' given' (page_at s n x) i
    changed-IsArena = record {
      class = (v.arena x i w.within w.arena).class;
      header =
          put_at arenas (page_at s n x) (arena_of i c)
          ∙ ap (arena_of i) (
              counted
              ∙ ap (λ zs. count (free_block zs (page_at s n x) i) (per_arena i))
                  (sym (put_at free i ys)));
      split = λ k h. elim (ℕ_discrete k j) [
        | yes e ↦
            let here : block (page_at s n x) k i ≡ b =
              ap (λ z. block (page_at s n x) z i) e ∙ sym w.address in
            ap (λ q. has q (free' i)) here
            ∙ ap (has b) (put_at free i ys)
            ∙ now
            ∙ ap (λ q. not (given' q)) (sym here)
        | no ne ↦
            let far : block (page_at s n x) k i ≢ b =
              λ q. block_differs placed x i k j w.within h w.number ne (q ∙ w.address) in
            list_kept i (block (page_at s n x) k i) far
            ∙ (v.arena x i w.within w.arena).split k h
            ∙ ap not (sym (others (block (page_at s n x) k i) far))
      ];
    }

    elsewhere : (y k l : ℕ) → y < n → k < per_arena l → y ≢ x → block (page_at s n y) k l ≢ b
    elsewhere y k l ly lk ne e =
        ne (same_page placed y k l x j i ly lk w.within w.number (e ∙ w.address))

    IsArena-after :
        (y l : ℕ) → y < n → kind y ≡ small l → IsArena free' arenas' given' (page_at s n y) l
    IsArena-after y l ly e = elim (ℕ_discrete y x) [
      | yes same ↦
          let class_same : l ≡ i = small-injective (sym e ∙ ap kind same ∙ w.arena) in
          rw (same, class_same) changed-IsArena
      | no ne ↦
          arena_kept free free' arenas arenas' given given' (page_at s n y) l (v.arena y l ly e)
            (put_ne arenas (page_at s n x) (arena_of i c) (page_at s n y) (page_ne y x ne))
            (λ k h. list_kept l (block (page_at s n y) k l) (elsewhere y k l ly h ne))
            (λ k h. others (block (page_at s n y) k l) (elsewhere y k l ly h ne))
    ]

    whole_after : (y m : ℕ) → y < n → kind y ≡ large m → IsLarge s n arenas' kind given' y m
    whole_after y m ly e =
        let ne : y ≢ x = λ same. small-ne-large (sym w.arena ∙ ap kind (sym same) ∙ e) in
        let far : page_at s n y + arena_size ≢ b =
          λ q. large_differs placed y x j i ly w.within w.number ne (q ∙ w.address) in
        IsLarge-kept arenas arenas' kind kind given given' y m (v.whole y m ly e)
          (put_ne arenas (page_at s n x) (arena_of i c) (page_at s n y) (page_ne y x ne))
          (λ z lo hi. refl) (others (page_at s n y + arena_size) far)

    -- The block changes hands: its list and its header follow, and all else stays.
    pub flip-IsLedger : IsLedger s n free' arenas' kind given'
    flip-IsLedger = record {
      arena = IsArena-after;
      whole = whole_after;
      distinct = λ l h. elim (ℕ_discrete l i) [
        | yes e ↦ rw (eq→== e) apart
        | no ne ↦ rw (ne→== ne) (v.distinct l h)
      ];
      member = λ l q h on. elim (ℕ_discrete q b) [
        | yes e ↦ elim (ℕ_discrete l i) [
          | yes same ↦ rw (e, same) (x, j, w)
          | no ne ↦ v.member l q h (ap (has q) (sym (put_ne free i ys l ne)) ∙ on)
        ]
        | no ne ↦ v.member l q h (sym (list_kept l q ne) ∙ on)
      ];
      owner = λ q on. elim (ℕ_discrete q b) [
        | yes e ↦ rw e (inl (i, x, j, w))
        | no ne ↦ v.owner q (sym (others q ne) ∙ on)
      ];
    }
