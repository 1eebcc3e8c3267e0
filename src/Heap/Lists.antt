-- ===== src/Heap/Lists.antt =====
-- The free list of one class of kernel/memory.c: the blocks of an arena are put in, and taken out.
use mathlib.Core.Path.{fun_ext}
use mathlib.Core.List.{append_assoc, append-nil}
use goos.Prelude.{
  ℕ, zero, suc, ◌+◌, ◌≤◌, ◌<◌, ◌≡◌, refl, sym, ap, ◌∙◌, ◌≢◌, true, false, arith, ok, ◌==◌, ne→==,
  eq→==, ◌||◌, List, [], ◌∷◌, ◌++◌, ℕ_discrete,
}
use goos.LinkedList.Distinct.{has}
use goos.Memory.{pf_kernel}
use goos.Heap.Classes.{IsClasses}
use goos.Heap.{Heap, with_free_list, add_blocks, remove_blocks, remove, arena2block, put}

abbrev pub with_list : Heap → (idx : ℕ) → List ℕ → Heap
with_list h idx xs = with_free_list h pf_kernel idx xs

pub put-put {ℓ} : {A : Type ℓ} (f : ℕ → A) (i : ℕ) (a b : A) → put (put f i a) i b ≡ put f i b
put-put f i a b =
    fun_ext (λ j. elim (ℕ_discrete j i) [ yes e ↦ rw (eq→== e) refl | no ne ↦ rw (ne→== ne) refl ])

pub put_same {ℓ} : {A : Type ℓ} (f : ℕ → A) (i : ℕ) → put f i (f i) ≡ f
put_same f i = fun_ext (λ j. elim (ℕ_discrete j i) [
  | yes e ↦ rw (eq→== e) (ap f (sym e))
  | no ne ↦ rw (ne→== ne) refl
])

pub put_at {ℓ} : {A : Type ℓ} (f : ℕ → A) (i : ℕ) (a : A) → put f i a i ≡ a
put_at f i a = rw (eq→== {a = i} refl) refl

pub with_list_at :
    (h : Heap) (idx : ℕ) (xs : List ℕ)
    → (with_list h idx xs).k_block_descs idx ≡ record (h.k_block_descs idx) { free_list = xs }
with_list_at h idx xs = put_at h.k_block_descs idx _

pub with_list_twice :
    (h : Heap) (idx : ℕ) (xs ys : List ℕ)
    → with_list (with_list h idx xs) idx ys ≡ with_list h idx ys
with_list_twice h idx xs ys =
    ap (λ f. record h { k_block_descs = f })
      (ap
          (λ d.
            put (put h.k_block_descs idx (record (h.k_block_descs idx) { free_list = xs })) idx
              (record d { free_list = ys }))
          (with_list_at h idx xs)
        ∙ put-put h.k_block_descs idx _ _)

pub with_list_same : (h : Heap) (idx : ℕ) → with_list h idx (h.k_block_descs idx).free_list ≡ h
with_list_same h idx = ap (λ f. record h { k_block_descs = f }) (put_same h.k_block_descs idx)

-- The blocks of an arena from number `i` on.
abbrev pub blocks_from : (a block_size n i : ℕ) → List ℕ
blocks_from a block_size zero i = []
blocks_from a block_size (suc n) i = arena2block a i block_size ∷ blocks_from a block_size n (i + 1)

pub has_append : (b : ℕ) (xs ys : List ℕ) → has b (xs ++ ys) ≡ (has b xs || has b ys)
unfolding has
has_append b [] ys = refl
has_append b (x ∷ xs) ys = ground (arith, has_append b xs ys)

-- The blocks of an arena differ.
abbrev pub Differ : (a block_size count : ℕ) → Type 0
Differ a block_size count =
    (i j : ℕ) → i < j → j < count → arena2block a i block_size ≢ arena2block a j block_size

pub not_in_blocks :
    (a block_size count : ℕ)
    → Differ a block_size count
    → (n i j : ℕ) → j < i
    → i + n ≤ count
    → has (arena2block a j block_size) (blocks_from a block_size n i) ≡ false
unfolding has
not_in_blocks a block_size count d zero i j p q = refl
not_in_blocks a block_size count d (suc n) i j p q =
    rw (ne→== (λ e. d j i p (omega arith) (sym e)))
      (not_in_blocks a block_size count d n (i + 1) j (omega arith) (omega arith))

pub remove_last : (b : ℕ) (xs : List ℕ) → has b xs ≡ false → remove b (xs ++ (b ∷ [])) ≡ xs
unfolding has
remove_last b [] h = rw (eq→== {a = b} refl) refl
remove_last b (x ∷ xs) h =
    let off : (x == b) ≡ false = ground (arith, h) in
    rw off (ap (λ r. x ∷ r) (remove_last b xs (ground (arith, h))))

-- The class has this size and this free list.
abbrev pub Holds : Heap → (idx size : ℕ) → List ℕ → Type 0
Holds h idx size xs =
    ((h.k_block_descs idx).block_size ≡ size) × ((h.k_block_descs idx).free_list ≡ xs)

pub Holds-with_list :
    (h : Heap) (idx size : ℕ) (xs ys : List ℕ)
    → Holds h idx size xs
    → Holds (with_list h idx ys) idx size ys
Holds-with_list h idx size xs ys (e, _) = (
  ap (λ d. d.block_size) (with_list_at h idx ys) ∙ e,
  ap (λ d. d.free_list) (with_list_at h idx ys),
)

module _ (idx a size count : ℕ) (d : Differ a size count) where
  -- One round of each loop.
  add_one :
      (h : Heap) (n i : ℕ) (xs : List ℕ)
      → Holds h idx size xs
      → has (arena2block a i size) xs ≡ false
      → add_blocks h pf_kernel idx a (suc n) i
        ≡ add_blocks (with_list h idx (xs ++ (arena2block a i size ∷ []))) pf_kernel idx a n (i + 1)
  unfolding add_blocks
  add_one h n i xs (es, ex) off = rw (es, ex, off) refl

  pub remove_one :
      (h : Heap) (n i : ℕ) (xs : List ℕ)
      → Holds h idx size xs
      → has (arena2block a i size) xs ≡ true
      → remove_blocks h pf_kernel idx a (suc n) i
        ≡ remove_blocks
            (with_list h idx (remove (arena2block a i size) xs))
            pf_kernel
            idx
            a
            n
            (i + 1)
  unfolding remove_blocks
  remove_one h n i xs (es, ex) on = rw (es, ex, on) refl

  -- Blocks that are not in the list are put at its end.
  pub add_all :
      (n i : ℕ) (h : Heap) (xs : List ℕ)
      → Holds h idx size xs
      → i + n ≤ count
      → ((j : ℕ) → i ≤ j → j < i + n → has (arena2block a j size) xs ≡ false)
      → add_blocks h pf_kernel idx a n i ≡ ok (with_list h idx (xs ++ blocks_from a size n i))
  unfolding add_blocks has
  add_all zero i h xs (es, ex) room out =
      ap ok (sym (with_list_same h idx) ∙ ap (with_list h idx) (ex ∙ sym (append-nil xs)))
  add_all (suc n) i h xs w room out =
      let b = arena2block a i size in
      let h₁ = with_list h idx (xs ++ (b ∷ [])) in
      let rest =
        add_all n (i + 1) h₁ (xs ++ (b ∷ [])) (Holds-with_list h idx size xs (xs ++ (b ∷ [])) w)
          (omega arith)
          (λ j lo hi.
            let other : b ≢ arena2block a j size = d i j (omega arith) (omega arith) in
            has_append (arena2block a j size) xs (b ∷ [])
            ∙ rw (out j (omega arith) (omega arith), ne→== other) refl) in
      add_one h n i xs w (out i (omega arith) (omega arith))
      ∙ rest
      ∙ ap ok (
          with_list_twice h idx (xs ++ (b ∷ [])) ((xs ++ (b ∷ [])) ++ blocks_from a size n (i + 1))
          ∙ ap (with_list h idx) (append_assoc xs (b ∷ []) (blocks_from a size n (i + 1))))

  -- The blocks of the arena are taken from a list that holds just them.
  remove_rest :
      (n i : ℕ) (h : Heap)
      → Holds h idx size (blocks_from a size n i)
      → remove_blocks h pf_kernel idx a n i ≡ ok (with_list h idx [])
  unfolding remove_blocks has
  remove_rest zero i h (es, ex) = ap ok (sym (with_list_same h idx) ∙ ap (with_list h idx) ex)
  remove_rest (suc n) i h w =
      let b = arena2block a i size in
      let tail = blocks_from a size n (i + 1) in
      let on : has b (b ∷ tail) ≡ true = rw (eq→== {a = b} refl) refl in
      let gone : remove b (b ∷ tail) ≡ tail = rw (eq→== {a = b} refl) refl in
      remove_one h n i (b ∷ tail) w on
      ∙ ap (λ ys. remove_blocks (with_list h idx ys) pf_kernel idx a n (i + 1)) gone
      ∙ remove_rest n (i + 1) (with_list h idx tail) (Holds-with_list h idx size (b ∷ tail) tail w)
      ∙ ap ok (with_list_twice h idx tail [])

  -- The first block of the arena may stand at the end.
  pub remove_all :
      (n : ℕ) (h : Heap)
      → suc n ≤ count
      → Holds h idx size (blocks_from a size n 1 ++ (arena2block a 0 size ∷ []))
      → remove_blocks h pf_kernel idx a (suc n) 0 ≡ ok (with_list h idx [])
  unfolding has
  remove_all n h room w =
      let b = arena2block a 0 size in
      let tail = blocks_from a size n 1 in
      let off : has b tail ≡ false =
        not_in_blocks a size count d n 1 0 (omega arith) (omega arith) in
      let on : has b (tail ++ (b ∷ [])) ≡ true =
        has_append b tail (b ∷ []) ∙ rw (off, eq→== {a = b} refl) refl in
      remove_one h n 0 (tail ++ (b ∷ [])) w on
      ∙ ap (λ ys. remove_blocks (with_list h idx ys) pf_kernel idx a n 1) (remove_last b tail off)
      ∙ remove_rest n 1 (with_list h idx tail)
          (Holds-with_list h idx size (tail ++ (b ∷ [])) tail w)
      ∙ ap ok (with_list_twice h idx tail [])

pub has_none : (b : ℕ) → has b [] ≡ false
unfolding has
has_none b = refl

-- The classes keep their sizes and counts when a list changes.
pub IsClasses-with_list :
    (h : Heap) (idx : ℕ) (xs : List ℕ)
    → IsClasses h.k_block_descs
    → IsClasses (with_list h idx xs).k_block_descs
IsClasses-with_list h idx xs c = record {
  sizes = λ i p. elim (ℕ_discrete i idx) [
    | yes e ↦ rw (eq→== e) (ap (λ x. (h.k_block_descs x).block_size) (sym e) ∙ c.sizes i p)
    | no ne ↦ rw (ne→== ne) (c.sizes i p)
  ];
  counts = λ i p. elim (ℕ_discrete i idx) [
    | yes e ↦ rw (eq→== e) (ap (λ x. (h.k_block_descs x).blocks_per_arena) (sym e) ∙ c.counts i p)
    | no ne ↦ rw (ne→== ne) (c.counts i p)
  ];
}
