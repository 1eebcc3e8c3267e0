-- ===== src/LinkedList/Distinct.antt =====
-- Addresses that differ, along lists that are put together and taken apart.
use goos.Prelude.{◌≡◌, refl, ◌≢◌, sym, List, [], ◌∷◌, ◌++◌, Bool, false, ◌||◌, arith, ◌==◌}
use goos.LinkedList.{Ptr}
use goos.LinkedList.Chain.{NotIn, NotIn-left, Distinct, last}

pub NotIn-insert :
    (a n : Ptr) (xs ys : List Ptr) → a ≢ n → NotIn a (xs ++ ys) → NotIn a (xs ++ (n ∷ ys))
NotIn-insert a n [] ys ne h = (ne, h)
NotIn-insert a n (x ∷ xs) ys ne h = (h.0, NotIn-insert a n xs ys ne h.1)

pub NotIn-drop : (a n : Ptr) (xs ys : List Ptr) → NotIn a (xs ++ (n ∷ ys)) → NotIn a (xs ++ ys)
NotIn-drop a n [] ys h = h.1
NotIn-drop a n (x ∷ xs) ys h = (h.0, NotIn-drop a n xs ys h.1)

pub ne_middle : (a n : Ptr) (xs ys : List Ptr) → NotIn a (xs ++ (n ∷ ys)) → a ≢ n
ne_middle a n [] ys h = h.0
ne_middle a n (x ∷ xs) ys h = ne_middle a n xs ys h.1

pub Distinct-insert :
    (n : Ptr) (xs ys : List Ptr)
    → NotIn n (xs ++ ys)
    → Distinct (xs ++ ys)
    → Distinct (xs ++ (n ∷ ys))
Distinct-insert n [] ys h d = (h, d)
Distinct-insert n (x ∷ xs) ys h d =
    (NotIn-insert x n xs ys (λ e. h.0 (sym e)) d.0, Distinct-insert n xs ys h.1 d.1)

pub Distinct-drop : (n : Ptr) (xs ys : List Ptr) → Distinct (xs ++ (n ∷ ys)) → Distinct (xs ++ ys)
Distinct-drop n [] ys d = d.1
Distinct-drop n (x ∷ xs) ys d = (NotIn-drop x n xs ys d.0, Distinct-drop n xs ys d.1)

pub Distinct-left : (xs ys : List Ptr) → Distinct (xs ++ ys) → Distinct xs
Distinct-left [] ys d = tt
Distinct-left (x ∷ xs) ys d = (NotIn-left x xs ys d.0, Distinct-left xs ys d.1)

pub Distinct-right : (xs ys : List Ptr) → Distinct (xs ++ ys) → Distinct ys
Distinct-right [] ys d = d
Distinct-right (x ∷ xs) ys d = Distinct-right xs ys d.1

-- The last node of the first part is not in the second.
pub last-NotIn : (p : Ptr) (xs ys : List Ptr) → Distinct (p ∷ (xs ++ ys)) → NotIn (last p xs) ys
last-NotIn p [] ys d = d.0
last-NotIn p (x ∷ xs) ys d = last-NotIn x xs ys d.1

-- A middle node is in neither part.
pub middle-NotIn : (n : Ptr) (xs ys : List Ptr) → Distinct (xs ++ (n ∷ ys)) → NotIn n xs
middle-NotIn n [] ys d = tt
middle-NotIn n (x ∷ xs) ys d = (λ e. ne_middle x n xs ys d.0 (sym e), middle-NotIn n xs ys d.1)

-- Membership as `node_find` decides it.
unfoldable pub has : (a : Ptr) → List Ptr → Bool
has a [] = false
has a (x ∷ xs) = (x == a) || has a xs

pub NotIn-of_has : (a : Ptr) (xs : List Ptr) → has a xs ≡ false → NotIn a xs
unfolding has
NotIn-of_has a [] h = tt
NotIn-of_has a (x ∷ xs) h = (ground arith, NotIn-of_has a xs (ground arith))

pub has_of_NotIn : (a : Ptr) (xs : List Ptr) → NotIn a xs → has a xs ≡ false
unfolding has
has_of_NotIn a [] h = refl
has_of_NotIn a (x ∷ xs) h = ground (arith, has_of_NotIn a xs h.1, λ (e : x ≡ a). h.0 (sym e))
