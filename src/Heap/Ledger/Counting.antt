-- ===== src/Heap/Ledger/Counting.antt =====
-- How many numbers below a bound pass a test.
use goos.Prelude.{
  ℕ, zero, suc, ◌+◌, ◌≤◌, ◌<◌, ◌≡◌, ◌≢◌, refl, ap, ◌∙◌, Bool, true, false, if◌then◌else◌, arith,
  ℕ_discrete,
}

unfoldable pub count : (ℕ → Bool) → ℕ → ℕ
count f zero = 0
count f (suc n) = count f n + (if f n then 1 else 0)

pub count_same : (f g : ℕ → Bool) (n : ℕ) → ((j : ℕ) → j < n → f j ≡ g j) → count f n ≡ count g n
unfolding count
count_same f g zero same = refl
count_same f g (suc n) same =
    rw (same n (omega arith))
      (ap (λ c. c + (if g n then 1 else 0)) (count_same f g n (λ j h. same j (omega arith))))

-- One more passes the first test.
pub count_one_more :
    (f g : ℕ → Bool) (n k : ℕ)
    → k < n
    → f k ≡ true
    → g k ≡ false
    → ((j : ℕ) → j < n → j ≢ k → f j ≡ g j)
    → count f n ≡ suc (count g n)
unfolding count
count_one_more f g zero k h on off same = absurd (omega arith)
count_one_more f g (suc n) k h on off same = elim (ℕ_discrete n k) [
  | yes e ↦
      let before = count_same f g n (λ j lt. same j (omega arith) (omega (arith, e))) in
      let on' : f n ≡ true = ap f e ∙ on in
      let off' : g n ≡ false = ap g e ∙ off in rw (on', off') (omega (arith, before))
  | no ne ↦
      let before =
        count_one_more f g n k (omega (arith, ne)) on off (λ j lt. same j (omega arith)) in
      rw (same n (omega arith) ne) (omega (arith, before))
]

pub count_bound : (f : ℕ → Bool) (n : ℕ) → count f n ≤ n
unfolding count
count_bound f zero = omega arith
count_bound f (suc n) = ground (arith, count_bound f n)

pub count_all : (f : ℕ → Bool) (n : ℕ) → ((j : ℕ) → j < n → f j ≡ true) → count f n ≡ n
unfolding count
count_all f zero all = refl
count_all f (suc n) all =
    rw (all n (omega arith)) (omega (arith, count_all f n (λ j h. all j (omega arith))))

-- If as many pass as there are, all do.
pub all_of_count : (f : ℕ → Bool) (n : ℕ) → count f n ≡ n → (j : ℕ) → j < n → f j ≡ true
unfolding count
all_of_count f zero e j h = absurd (omega arith)
all_of_count f (suc n) e j h =
    let last : f n ≡ true = ground (arith, count_bound f n, e) in
    let before : count f n ≡ n = ground (arith, last, e) in
    elim (ℕ_discrete j n) [
      | yes same ↦ ap f same ∙ last
      | no ne ↦ all_of_count f n before j (omega (arith, ne))
    ]
