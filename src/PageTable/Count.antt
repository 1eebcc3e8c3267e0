-- ===== src/PageTable/Count.antt =====
-- How many pages of a pool are free.
use goos.Prelude.{
  ℕ, zero, suc, ◌+◌, ◌≤◌, ◌<◌, ◌≡◌, refl, ap, ◌∙◌, arith, ◌==◌, eq→==, ne→==, if◌then◌else◌,
  ℕ_discrete,
}
use goos.Memory.{MemPool}
use goos.Memory.Pages.{PageTaken, PageFreed, pages, used}

-- The free pages among the first `n`.
abbrev pub free_below : MemPool → (n : ℕ) → ℕ
free_below p zero = 0
free_below p (suc n) = (if used p n == 0 then 1 else 0) + free_below p n

abbrev pub free_pages : MemPool → ℕ
free_pages p = free_below p (pages p)

pub free_page_below :
    (p : MemPool) (n : ℕ) → 0 < free_below p n → (k : ℕ) × (k < n) × (used p k ≡ 0)
free_page_below p zero h = elim h [ ]
free_page_below p (suc n) h = elim (ℕ_discrete (used p n) 0) [
  | yes e ↦ (n, omega arith, e)
  | no ne ↦ let (k, lt, e) = free_page_below p n (ground (arith, ne, h)) in (k, omega arith, e)
]

module _ (p p' : MemPool) (i : ℕ)
    (bits : (j : ℕ) → used p' j ≡ (if i == j then 1 else used p j)) where
  free_below_same : (n : ℕ) → n ≤ i → free_below p' n ≡ free_below p n
  free_below_same zero h = refl
  free_below_same (suc n) h = ground (arith, bits n, free_below_same n (omega arith))

  free_below_taken : (n : ℕ) → i < n → used p i ≡ 0 → free_below p n ≡ free_below p' n + 1
  free_below_taken zero h free = elim h [ ]
  free_below_taken (suc n) h free = elim (ℕ_discrete i n) [
    | yes e ↦
        let one : used p' n ≡ 1 = bits n ∙ rw (eq→== e) refl in
        let none : used p n ≡ 0 = rw (← e) free in
        rw (one, none) (omega (arith, free_below_same n (omega arith)))
    | no ne ↦
        let same : used p' n ≡ used p n = bits n ∙ rw (ne→== ne) refl in
        rw same (omega (arith, free_below_taken n (omega arith) free))
  ]

-- Taking a page leaves one less.
pub free_pages_taken :
    (p p' : MemPool) (i a : ℕ) → PageTaken p i a p' → free_pages p ≡ free_pages p' + 1
free_pages_taken p p' i a w = rw w.len (free_below_taken p p' i w.bits (pages p) w.inside w.free)

-- Giving a used page back leaves one more.
pub free_pages_freed :
    (p p' : MemPool) (i : ℕ)
    → PageFreed p i p'
    → i < pages p
    → used p i ≡ 1
    → free_pages p' ≡ free_pages p + 1
free_pages_freed p p' i w inside busy =
    let back : (j : ℕ) → used p j ≡ (if i == j then 1 else used p' j) =
      λ j. ground (arith, w.bits j, busy, ap (used p)) in
    let gone : used p' i ≡ 0 = w.bits i ∙ rw (eq→== {a = i} refl) refl in
    rw w.len (free_below_taken p' p i back (pages p) inside gone)

-- In a pool without used pages all are free.
pub free_below_all : (p : MemPool) (n : ℕ) → ((j : ℕ) → used p j ≡ 0) → free_below p n ≡ n
free_below_all p zero none = refl
free_below_all p (suc n) none = rw (none n, free_below_all p n none) (omega arith)
