-- ===== src/Heap/Ledger/Listed.antt =====
-- What the loops of kernel/memory.c over the blocks of an arena leave in the free list of the class.
use mathlib.Core.Path.{subst}
use goos.Prelude.{
  ℕ, zero, suc, ◌+◌, ◌≤◌, ◌<◌, ◌≡◌, ◌≢◌, refl, sym, ap, ◌∙◌, arith, true, false, List, [], ◌∷◌,
  ◌++◌, eq→==, ne→==, ok, ℕ_discrete,
}
use goos.LinkedList.Chain.{NotIn, Distinct}
use goos.LinkedList.Distinct.{has, has_of_NotIn, NotIn-of_has}
use goos.Memory.{pf_kernel}
use goos.Heap.{Heap, arena2block, remove, remove_blocks}
use goos.Heap.Lists.{
  with_list, has_append, with_list_same, with_list_twice, blocks_from, Differ, Holds,
  Holds-with_list, not_in_blocks, remove_one,
}

-- The blocks of an arena, in a list of them.
pub block_of :
    (a size n i b : ℕ)
    → has b (blocks_from a size n i) ≡ true
    → (j : ℕ) × (i ≤ j) × (j < i + n) × (b ≡ arena2block a j size)
unfolding has
block_of a size zero i b on = cc
block_of a size (suc n) i b on = elim (ℕ_discrete (arena2block a i size) b) [
  | yes e ↦ (i, omega arith, omega arith, sym e)
  | no ne ↦
      let (j, lo, hi, at) = block_of a size n (i + 1) b (ground (arith, on, ne)) in
      (j, omega arith, omega arith, at)
]

pub has_block :
    (a size n i j : ℕ)
    → i ≤ j
    → j < i + n
    → has (arena2block a j size) (blocks_from a size n i) ≡ true
unfolding has
has_block a size zero i j lo hi = absurd (omega arith)
has_block a size (suc n) i j lo hi = elim (ℕ_discrete i j) [
  | yes e ↦ rw (eq→== (ap (λ x. arena2block a x size) e)) refl
  | no ne ↦
      let rest = has_block a size n (i + 1) j (omega (arith, ne)) (omega arith) in
      ground (arith, rest)
]

pub blocks-Distinct :
    (a size count : ℕ)
    → Differ a size count
    → (n i : ℕ) → i + n ≤ count
    → Distinct (blocks_from a size n i)
blocks-Distinct a size count d zero i h = tt
blocks-Distinct a size count d (suc n) i h = (
  NotIn-of_has (arena2block a i size) (blocks_from a size n (i + 1))
      (not_in_blocks a size count d n (i + 1) i (omega arith) (omega arith)),
  blocks-Distinct a size count d n (i + 1) (omega arith),
)

pub Distinct-snoc :
    (xs : List ℕ) (b : ℕ) → Distinct xs → has b xs ≡ false → Distinct (xs ++ (b ∷ []))
unfolding has
Distinct-snoc [] b d off = (tt, tt)
Distinct-snoc (x ∷ xs) b d off =
    let ne : x ≢ b = ground (arith, off) in
    (
      NotIn-of_has x (xs ++ (b ∷ []))
          (has_append x xs (b ∷ []) ∙ rw (has_of_NotIn x xs d.0, ne→== (λ e. ne (sym e))) refl),
      Distinct-snoc xs b d.1 (ground (arith, off)),
    )

-- A list without one of its elements.
pub has-remove_other : (b q : ℕ) (xs : List ℕ) → q ≢ b → has q (remove b xs) ≡ has q xs
unfolding has
has-remove_other b q [] ne = refl
has-remove_other b q (x ∷ xs) ne = elim (ℕ_discrete x b) [
  | yes e ↦ rw (eq→== e, ne→== (λ z. ne (sym z ∙ e))) refl
  | no other ↦ rw (ne→== other, has-remove_other b q xs ne) refl
]

pub has-remove_same : (b : ℕ) (xs : List ℕ) → Distinct xs → has b (remove b xs) ≡ false
unfolding has
has-remove_same b [] d = refl
has-remove_same b (x ∷ xs) d = elim (ℕ_discrete x b) [
  | yes e ↦ rw (eq→== e) (has_of_NotIn b xs (subst (λ y. NotIn y xs) e d.0))
  | no ne ↦ rw (ne→== ne) (rw (ne→== ne) (has-remove_same b xs d.1))
]

pub remove-Distinct : (b : ℕ) (xs : List ℕ) → Distinct xs → Distinct (remove b xs)
remove-Distinct b [] d = tt
remove-Distinct b (x ∷ xs) d = elim (ℕ_discrete x b) [
  | yes e ↦ rw (eq→== e) d.1
  | no ne ↦ rw (ne→== ne) (
    NotIn-of_has x (remove b xs) (has-remove_other b x xs ne ∙ has_of_NotIn x xs d.0),
    remove-Distinct b xs d.1,
  )
]

-- The blocks from number `i` on have left the list, and nothing else has.
pub record Removed (a size n i : ℕ) (xs ys : List ℕ) : Type 0 where
  pub distinct : Distinct ys
  pub others :
      (q : ℕ) → ((j : ℕ) → i ≤ j → j < i + n → q ≢ arena2block a j size) → has q ys ≡ has q xs
  pub gone : (j : ℕ) → i ≤ j → j < i + n → has (arena2block a j size) ys ≡ false
  pub less : (q : ℕ) → has q ys ≡ true → has q xs ≡ true

module _ (a size count : ℕ) (d : Differ a size count) where
  Removed-first :
      (n i : ℕ) (xs ys : List ℕ)
      → i + suc n ≤ count
      → Distinct xs
      → Removed a size n (i + 1) (remove (arena2block a i size) xs) ys
      → Removed a size (suc n) i xs ys
  Removed-first n i xs ys room apart w =
      let b = arena2block a i size in
      let absent = has-remove_same b xs apart in
      let away : has b ys ≡ false =
        w.others b (λ j lo hi. d i j (omega arith) (omega arith)) ∙ absent in
      record {
        distinct = w.distinct;
        others = λ q far.
            w.others q (λ j lo hi. far j (omega arith) (omega arith))
            ∙ has-remove_other b q xs (far i (omega arith) (omega arith));
        gone = λ j lo hi. elim (ℕ_discrete j i) [
          | yes e ↦ ap (λ z. has (arena2block a z size) ys) e ∙ away
          | no ne ↦ w.gone j (omega (arith, ne)) (omega arith)
        ];
        less = λ q on. elim (ℕ_discrete q b) [
          | yes e ↦ let off = ap (λ z. has z ys) e ∙ away in absurd (cc (on, off))
          | no ne ↦ sym (has-remove_other b q xs ne) ∙ w.less q on
        ];
      }

  -- The blocks of the arena leave a list that has them all.
  pub remove_blocks-Removed :
      (idx n i : ℕ) (h : Heap) (xs : List ℕ)
      → Holds h idx size xs
      → i + n ≤ count
      → Distinct xs
      → ((j : ℕ) → i ≤ j → j < i + n → has (arena2block a j size) xs ≡ true)
      → (ys : List ℕ) × (remove_blocks h pf_kernel idx a n i ≡ ok (with_list h idx ys))
        × Removed a size n i xs ys
  unfolding remove_blocks
  remove_blocks-Removed idx zero i h xs w room apart all = (
    xs,
    ap ok (sym (with_list_same h idx) ∙ ap (with_list h idx) w.1),
    record {
      distinct = apart;
      others = λ q far. refl;
      gone = λ j lo hi. absurd (omega arith);
      less = λ q on. on;
    },
  )
  remove_blocks-Removed idx (suc n) i h xs w room apart all =
      let b = arena2block a i size in
      let h₁ = with_list h idx (remove b xs) in
      let (ys, e, r) =
        remove_blocks-Removed idx n (i + 1) h₁ (remove b xs)
          (Holds-with_list h idx size xs (remove b xs) w) (omega arith) (remove-Distinct b xs apart)
          (λ j lo hi.
            let ne : arena2block a j size ≢ b = λ z. d i j (omega arith) (omega arith) (sym z) in
            has-remove_other b (arena2block a j size) xs ne ∙ all j (omega arith) (omega arith)) in
      (
        ys,
        remove_one idx a size count d h n i xs w (all i (omega arith) (omega arith))
            ∙ e
            ∙ ap ok (with_list_twice h idx (remove b xs) ys),
        Removed-first n i xs ys room apart r,
      )
