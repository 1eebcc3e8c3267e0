-- ===== src/Thread/Queue.antt =====
-- Membership in a queue of tasks, as the queue grows and shrinks.
use goos.Prelude.{ℕ, ◌≡◌, refl, List, [], ◌∷◌, ◌++◌, false, ◌||◌, arith, ◌==◌}
use goos.LinkedList.Chain.{Distinct, NotIn-append}
use goos.LinkedList.Distinct.{has, NotIn-of_has, has_of_NotIn}

pub has-append : (a : ℕ) (xs ys : List ℕ) → has a (xs ++ ys) ≡ (has a xs || has a ys)
unfolding has
has-append a [] ys = refl
has-append a (x ∷ xs) ys = ground (arith, has-append a xs ys)

pub has-cons : (a x : ℕ) (xs : List ℕ) → has a (x ∷ xs) ≡ ((x == a) || has a xs)
unfolding has
has-cons a x xs = refl

pub has-snoc : (a x : ℕ) (xs : List ℕ) → has a (xs ++ (x ∷ [])) ≡ (has a xs || (x == a))
unfolding has
has-snoc a x [] = ground arith
has-snoc a x (y ∷ ys) = ground (arith, has-snoc a x ys)

pub Distinct-snoc :
    (x : ℕ) (xs : List ℕ) → has x xs ≡ false → Distinct xs → Distinct (xs ++ (x ∷ []))
unfolding has
Distinct-snoc x [] h d = (tt, tt)
Distinct-snoc x (y ∷ ys) h d =
    (NotIn-append y ys (x ∷ []) d.0 (ground arith, tt), Distinct-snoc x ys (ground arith) d.1)

pub Distinct-cons : (x : ℕ) (xs : List ℕ) → has x xs ≡ false → Distinct xs → Distinct (x ∷ xs)
Distinct-cons x xs h d = (NotIn-of_has x xs h, d)

pub head_not_in_rest : (x : ℕ) (xs : List ℕ) → Distinct (x ∷ xs) → has x xs ≡ false
head_not_in_rest x xs d = has_of_NotIn x xs d.0
