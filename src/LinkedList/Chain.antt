-- ===== src/LinkedList/Chain.antt =====
-- Chains of nodes linked both ways, and how they change under the writes of list.c.
use goos.Prelude.{◌≡◌, refl, sym, ◌≢◌, List, [], ◌∷◌, ◌++◌, ne→==, eq→==}
use goos.LinkedList.{Ptr, update}

-- `a` is none of `xs`.
abbrev pub NotIn : Ptr → List Ptr → Type 0
NotIn a [] = Unit {0}
NotIn a (x ∷ xs) = (a ≢ x) × NotIn a xs

abbrev pub Distinct : List Ptr → Type 0
Distinct [] = Unit {0}
Distinct (x ∷ xs) = NotIn x xs × Distinct xs

-- From `p` the nodes `xs` follow one another up to `q`, linked both ways.
abbrev pub Linked : (next prev : Ptr → Ptr) → (p : Ptr) → List Ptr → (q : Ptr) → Type 0
Linked next prev p [] q = (next p ≡ q) × (prev q ≡ p)
Linked next prev p (x ∷ xs) q = (next p ≡ x) × (prev x ≡ p) × Linked next prev x xs q

-- The last node of the chain `p`, `xs`.
abbrev pub last : Ptr → List Ptr → Ptr
last p [] = p
last p (x ∷ xs) = last x xs

pub NotIn-append : (a : Ptr) (xs ys : List Ptr) → NotIn a xs → NotIn a ys → NotIn a (xs ++ ys)
NotIn-append a [] ys h k = k
NotIn-append a (x ∷ xs) ys h k = (h.0, NotIn-append a xs ys h.1 k)

pub NotIn-left : (a : Ptr) (xs ys : List Ptr) → NotIn a (xs ++ ys) → NotIn a xs
NotIn-left a [] ys h = tt
NotIn-left a (x ∷ xs) ys h = (h.0, NotIn-left a xs ys h.1)

pub NotIn-right : (a : Ptr) (xs ys : List Ptr) → NotIn a (xs ++ ys) → NotIn a ys
NotIn-right a [] ys h = h
NotIn-right a (x ∷ xs) ys h = NotIn-right a xs ys h.1

pub NotIn-last : (a p : Ptr) (xs : List Ptr) → a ≢ p → NotIn a xs → a ≢ last p xs
NotIn-last a p [] ne h = ne
NotIn-last a p (x ∷ xs) ne h = NotIn-last a x xs h.0 h.1

module _ (next prev : Ptr → Ptr) where
  pub next-last :
      (p : Ptr) (xs : List Ptr) (q : Ptr) → Linked next prev p xs q → next (last p xs) ≡ q
  next-last p [] q c = c.0
  next-last p (x ∷ xs) q c = next-last x xs q c.2

  pub prev_of_end :
      (p : Ptr) (xs : List Ptr) (q : Ptr) → Linked next prev p xs q → prev q ≡ last p xs
  prev_of_end p [] q c = c.1
  prev_of_end p (x ∷ xs) q c = prev_of_end x xs q c.2

  pub Linked-append :
      (p : Ptr) (xs : List Ptr) (m : Ptr) (ys : List Ptr) (q : Ptr)
      → Linked next prev p xs m
      → Linked next prev m ys q
      → Linked next prev p (xs ++ (m ∷ ys)) q
  Linked-append p [] m ys q c d = (c.0, c.1, d)
  Linked-append p (x ∷ xs) m ys q c d = (c.0, c.1, Linked-append x xs m ys q c.2 d)

  pub Linked-split :
      (p : Ptr) (xs : List Ptr) (m : Ptr) (ys : List Ptr) (q : Ptr)
      → Linked next prev p (xs ++ (m ∷ ys)) q
      → Linked next prev p xs m × Linked next prev m ys q
  Linked-split p [] m ys q c = ((c.0, c.1), c.2)
  Linked-split p (x ∷ xs) m ys q c = let (d, e) = Linked-split x xs m ys q c.2 in ((c.0, c.1, d), e)

-- A write to the `next` of a node outside the chain, or to the `prev` of one.
pub frame_next :
    (next prev : Ptr → Ptr) (a v p : Ptr) (xs : List Ptr) (q : Ptr)
    → a ≢ p
    → NotIn a xs
    → Linked next prev p xs q
    → Linked (update next a v) prev p xs q
frame_next next prev a v p [] q ne h c = (rw (ne→== ne) c.0, c.1)
frame_next next prev a v p (x ∷ xs) q ne h c =
    (rw (ne→== ne) c.0, c.1, frame_next next prev a v x xs q h.0 h.1 c.2)

pub frame_prev :
    (next prev : Ptr → Ptr) (a v p : Ptr) (xs : List Ptr) (q : Ptr)
    → a ≢ q
    → NotIn a xs
    → Linked next prev p xs q
    → Linked next (update prev a v) p xs q
frame_prev next prev a v p [] q ne h c = (c.0, rw (ne→== ne) c.1)
frame_prev next prev a v p (x ∷ xs) q ne h c =
    (c.0, rw (ne→== h.0) c.1, frame_prev next prev a v x xs q ne h.1 c.2)

-- Writes to the ends of a chain: its last node's `next` and the `prev` of the node after it lead
-- the chain to another end.
pub relink :
    (next prev : Ptr → Ptr) (p : Ptr) (xs : List Ptr) (q r : Ptr)
    → Distinct (p ∷ xs)
    → NotIn r xs
    → Linked next prev p xs q
    → Linked (update next (last p xs) r) (update prev r (last p xs)) p xs r
relink next prev p [] q r d n c = (rw (eq→== {a = p} refl) refl, rw (eq→== {a = r} refl) refl)
relink next prev p (x ∷ xs) q r d n c = (
  rw (ne→== (λ e. NotIn-last p x xs d.0.0 d.0.1 (sym e))) c.0,
  rw (ne→== n.0) c.1,
  relink next prev x xs q r d.1 n.1 c.2,
)
