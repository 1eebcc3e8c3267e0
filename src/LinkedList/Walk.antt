-- ===== src/LinkedList/Walk.antt =====
-- The walks of lib/kernel/list.c: `node_find`, `list_traversal` and `list_len`. With a round of fuel
-- for each node and one for the end, each ends.
use goos.Prelude.{
  ◌∙◌, ℕ, zero, suc, ◌+◌, ◌%◌, ◌^◌, ◌<◌, ◌≡◌, sym, ap, ◌≢◌, List, [], ◌∷◌, arith, ok, ◌==◌,
  if◌then◌else◌, ne→==, eq→==, length, ℕ_discrete,
}
use goos.LinkedList.{
  Ptr, null, Store, tail, get_next, node_find, find_from, traverse_from, list_traversal, len_from,
  list_len,
}
use goos.LinkedList.Chain.{NotIn, Linked}
use goos.LinkedList.Distinct.{has}
use goos.LinkedList.Insert.{IsList, next_of_head}

-- From `curr` on a walk meets the nodes `xs`, none of them NULL or the list's end, and then the end.
abbrev Meets : Store → (l curr : Ptr) → List Ptr → Type 0
Meets s l curr [] = curr ≡ tail l
Meets s l curr (x ∷ xs) = (curr ≡ x) × (x ≢ tail l) × (x ≢ null) × Meets s l (s.next x) xs

Meets-of_Linked :
    (s : Store) (l p : Ptr) (xs : List Ptr)
    → Linked s.next s.prev p xs (tail l)
    → NotIn (tail l) xs
    → NotIn null xs
    → Meets s l (s.next p) xs
Meets-of_Linked s l p [] c e n = c.0
Meets-of_Linked s l p (x ∷ xs) c e n =
    (c.0, (λ q. e.0 (sym q)), (λ q. n.0 (sym q)), Meets-of_Linked s l x xs c.2 e.1 n.1)

-- The first node that the callback accepts, or NULL.
pub first_accepted : (func : Ptr → ℕ → ℕ) → (args : ℕ) → List Ptr → Ptr
first_accepted func args [] = null
first_accepted func args (x ∷ xs) = if func x args == 0 then first_accepted func args xs else x

module _ (s : Store) (l : Ptr) where
  IsList-Meets : (xs : List Ptr) → IsList s l xs → Meets s l (s.next l) xs
  IsList-Meets xs v = Meets-of_Linked s l l xs v.chain v.apart.end_apart.1 v.apart.no_null.1

  step_ok : (x : Ptr) → x ≢ null → get_next s x ≡ ok (s.next x)
  unfolding get_next
  step_ok x h = rw (ne→== h)

  find_from_lem :
      (fuel : ℕ) (node curr : Ptr) (xs : List Ptr)
      → length xs < fuel
      → Meets s l curr xs
      → find_from fuel s l node curr ≡ ok (if has node xs then 1 else 0)
  unfolding find_from has
  find_from_lem zero node curr xs h m = absurd (omega arith)
  find_from_lem (suc fuel) node curr [] h m = rw (eq→== m)
  find_from_lem (suc fuel) node curr (x ∷ xs) h m = elim (ℕ_discrete x node) [
    | yes e ↦ rw (m.0, ne→== m.1, eq→== e)
    | no ne ↦
        rw (m.0, ne→== m.1, ne→== ne, step_ok x m.2)
          (find_from_lem fuel node (s.next x) xs (omega arith) m.3)
  ]

  -- `node_find` returns 1 just when the node is in the list, else 0.
  pub node_find-has :
      (fuel : ℕ) (node : Ptr) (xs : List Ptr)
      → length xs < fuel
      → IsList s l xs
      → node_find fuel s l node ≡ ok (if has node xs then 1 else 0)
  unfolding node_find
  node_find-has fuel node xs h v =
      rw (next_of_head xs v) (find_from_lem fuel node (s.next l) xs h (IsList-Meets xs v))

  len_from_lem :
      (fuel curr len : ℕ) (xs : List Ptr)
      → length xs < fuel
      → len + length xs < 2 ^ 32
      → Meets s l curr xs
      → len_from fuel s l curr len ≡ ok (len + length xs)
  unfolding len_from
  len_from_lem zero curr len xs h small m = absurd (omega arith)
  len_from_lem (suc fuel) curr len [] h small m = rw (eq→== m) (ap ok (omega arith))
  len_from_lem (suc fuel) curr len (x ∷ xs) h small m =
      rw (m.0, ne→== m.1, step_ok x m.2)
        (len_from_lem fuel (s.next x) ((len + 1) % 2 ^ 32) xs (omega arith) (omega arith) m.3
          ∙ ap ok (omega arith))

  -- `list_len` counts the nodes.
  pub list_len-length :
      (fuel : ℕ) (xs : List Ptr)
      → length xs < fuel
      → length xs < 2 ^ 32
      → IsList s l xs
      → list_len fuel s l ≡ ok (length xs)
  unfolding list_len
  list_len-length fuel xs h small v =
      rw (next_of_head xs v) (
        len_from_lem fuel (s.next l) 0 xs h (omega arith) (IsList-Meets xs v) ∙ ap ok (omega arith))

  module _ (func : Ptr → ℕ → ℕ) (args : ℕ) where
    traverse_from_lem :
        (fuel : ℕ) (curr : Ptr) (xs : List Ptr)
        → length xs < fuel
        → Meets s l curr xs
        → traverse_from fuel s l func args curr ≡ ok (first_accepted func args xs)
    unfolding traverse_from first_accepted
    traverse_from_lem zero curr xs h m = absurd (omega arith)
    traverse_from_lem (suc fuel) curr [] h m = rw (eq→== m)
    traverse_from_lem (suc fuel) curr (x ∷ xs) h m = elim (ℕ_discrete (func x args) 0) [
      | yes e ↦
          rw (m.0, ne→== m.1, eq→== e, step_ok x m.2)
            (traverse_from_lem fuel (s.next x) xs (omega arith) m.3)
      | no ne ↦ rw (m.0, ne→== m.1, ne→== ne)
    ]

    -- `list_traversal` returns the first node that the callback accepts, and NULL if there is none.
    pub list_traversal_lem :
        (fuel : ℕ) (xs : List Ptr)
        → length xs < fuel
        → IsList s l xs
        → list_traversal fuel s l func args ≡ ok (first_accepted func args xs)
    unfolding list_traversal
    list_traversal_lem fuel xs h v =
        rw (next_of_head xs v) (traverse_from_lem fuel (s.next l) xs h (IsList-Meets xs v))
