-- ===== src/LinkedList/Remove.antt =====
-- `list_remove`, `list_pop` and `list_empty` of lib/kernel/list.c.
use mathlib.Core.List.{append-nil}
use goos.Prelude.{
  ◌≡◌, refl, sym, ◌≢◌, List, [], ◌∷◌, ◌++◌, arith, ok, fault, ne→==, eq→==, true, false,
}
use goos.LinkedList.{
  Ptr, null, Store, update, tail, get_prev, get_next, set_prev, set_next, list_remove, list_pop,
  list_empty,
}
use goos.LinkedList.Chain.{
  NotIn, NotIn-left, NotIn-right, NotIn-last, Linked, last, prev_of_end, Linked-append,
  Linked-split, frame_next, frame_prev, relink,
}
use goos.LinkedList.Distinct.{
  NotIn-drop, Distinct-drop, Distinct-left, Distinct-right, last-NotIn, middle-NotIn, ne_middle,
}
use goos.LinkedList.Insert.{Apart, IsList, SameOutside, Done, restored, last-ne-null, next_of_head}

Apart-drop : {l : Ptr} (n : Ptr) (xs ys : List Ptr) → Apart l (xs ++ (n ∷ ys)) → Apart l (xs ++ ys)
Apart-drop {l} n xs ys v = record {
  distinct = Distinct-drop n (l ∷ xs) ys v.distinct;
  end_apart = NotIn-drop (tail l) n (l ∷ xs) ys v.end_apart;
  no_null = NotIn-drop null n (l ∷ xs) ys v.no_null;
}

abbrev removed : Store → (z w : Ptr) → Store
removed s z w = record s { prev = update s.prev w z; next = update s.next z w }

remove_run :
    (s : Store) (z n w : Ptr)
    → n ≢ null
    → z ≢ null
    → w ≢ null
    → z ≢ n
    → s.prev n ≡ z
    → s.next n ≡ w
    → list_remove s n ≡ ok (removed s z w)
unfolding list_remove get_prev get_next set_next set_prev
remove_run s z n w hn hz hw far e f =
    rw (ne→== hn, e, ne→== hz, ne→== far, f, ne→== hw, restored s.intr, e)

removed-same :
    (s : Store) (z w : Ptr) (ws : List Ptr)
    → ((a : Ptr) → NotIn a ws → (a ≢ z) × (a ≢ w))
    → SameOutside ws s (removed s z w)
removed-same s z w ws far = record {
  next = λ a h. let (hz, hw) = far a h in rw (ne→== (λ e. hz (sym e)));
  prev = λ a h. let (hz, hw) = far a h in rw (ne→== (λ e. hw (sym e)));
  intr = refl;
}

-- The node after `n`, or the list's end.
abbrev first : List Ptr → Ptr → Ptr
first [] q = q
first (y ∷ ys) q = y

next-first :
    (next prev : Ptr → Ptr) (n : Ptr) (ys : List Ptr) (q : Ptr)
    → Linked next prev n ys q
    → next n ≡ first ys q
next-first next prev n [] q c = c.0
next-first next prev n (y ∷ ys) q c = c.0

first-ne : (a : Ptr) (ys : List Ptr) (q : Ptr) → a ≢ q → NotIn a ys → a ≢ first ys q
first-ne a [] q ne h = ne
first-ne a (y ∷ ys) q ne h = h.0

module _ {l : Ptr} where
  removed_chain :
      (s : Store) (xs : List Ptr) (n : Ptr) (ys : List Ptr)
      → Apart l (xs ++ (n ∷ ys))
      → Linked s.next s.prev l xs n
      → Linked s.next s.prev n ys (tail l)
      → let s' = removed s (last l xs) (first ys (tail l)) in
        Linked s'.next s'.prev l (xs ++ ys) (tail l)
  removed_chain s xs n [] v before after = rw append-nil (
      relink s.next s.prev l xs n (tail l) (Distinct-left (l ∷ xs) (n ∷ []) v.distinct)
        (NotIn-left (tail l) xs (n ∷ []) v.end_apart.1) before)
  removed_chain s xs n (y ∷ ys) v before after =
      let d = Distinct-drop n (l ∷ xs) (y ∷ ys) v.distinct in
      let out = last-NotIn l xs (y ∷ ys) d in
      let y_before : NotIn y (l ∷ xs) = middle-NotIn y (l ∷ xs) ys d in
      let y_after : NotIn y ys = (Distinct-right (l ∷ xs) (y ∷ ys) d).0 in
      let e = NotIn-drop (tail l) n (l ∷ xs) (y ∷ ys) v.end_apart in
      Linked-append _ _ l xs y ys (tail l)
        (relink s.next s.prev l xs n y (Distinct-left (l ∷ xs) (y ∷ ys) d) y_before.1 before)
        (frame_next _ _ (last l xs) y y ys (tail l) out.0 out.1 (
          frame_prev _ _ y (last l xs) y ys (tail l)
            (λ q. ne_middle (tail l) y (l ∷ xs) ys e (sym q)) y_after after.2))

module _ {s : Store} {l : Ptr} where
  -- `list_remove` takes a node out of the list that holds it: the nodes before and after it stay,
  -- in order. Only the list's own nodes are written to, and the interrupt flag is as it was.
  pub list_remove_lem :
      (xs : List Ptr) (n : Ptr) (ys : List Ptr)
      → IsList s l (xs ++ (n ∷ ys))
      → (s' : Store) × (list_remove s n ≡ ok s')
        × Done s l (l ∷ tail l ∷ (xs ++ (n ∷ ys))) (xs ++ ys) s'
  list_remove_lem xs n ys v =
      let (before, after) = Linked-split _ _ l xs n ys (tail l) v.chain in
      let n_out : NotIn n (l ∷ xs) = middle-NotIn n (l ∷ xs) ys v.apart.distinct in
      let no_null = v.apart.no_null in
      (
        removed s (last l xs) (first ys (tail l)),
        remove_run s (last l xs) n (first ys (tail l))
            (λ e. ne_middle null n (l ∷ xs) ys no_null (sym e))
            (last-ne-null l xs (NotIn-left null (l ∷ xs) (n ∷ ys) no_null))
            (λ e.
              first-ne null ys (tail l) (omega arith) (NotIn-right null (l ∷ xs) (n ∷ ys) no_null).1
                (sym e))
            (λ e. NotIn-last n l xs n_out.0 n_out.1 (sym e)) (prev_of_end _ _ l xs n before)
            (next-first _ _ n ys (tail l) after),
        record {
          list = record {
            chain = removed_chain s xs n ys v.apart before after;
            apart = Apart-drop n xs ys v.apart;
          };
          same = removed-same s _ _ _ λ a h. (
            NotIn-last a l xs h.0 (NotIn-left a xs (n ∷ ys) h.1.1),
            first-ne a ys (tail l) h.1.0 (NotIn-right a xs (n ∷ ys) h.1.1).1,
          );
        },
      )

  -- `list_pop` returns the first node of a list that has one, and leaves the others.
  pub list_pop_lem :
      (x : Ptr) (xs : List Ptr)
      → IsList s l (x ∷ xs)
      → (s' : Store) × (list_pop s l ≡ ok (x, s')) × Done s l (l ∷ tail l ∷ x ∷ xs) xs s'
  unfolding list_pop
  list_pop_lem x xs v =
      let (s', e, d) = list_remove_lem [] x xs v in
      (s', rw (next_of_head (x ∷ xs) v, v.chain.0, e), d)

  -- On an empty list, whose tail has no next node, `list_pop` writes through NULL.
  pub list_pop_empty : IsList s l [] → s.next (tail l) ≡ null → list_pop s l ≡ fault
  unfolding list_pop list_remove get_prev get_next set_next set_prev
  list_pop_empty v e =
      rw (next_of_head [] v, v.chain.0, ne→== {a = tail l} {b = null} (omega arith), e)
        (rw (v.chain.1, ne→== (λ q. v.apart.no_null.0 (sym q)))
          (rw (ne→== {a = l} {b = tail l} (omega arith), e)))

  -- `list_empty` tells whether the list has a node.
  pub list_empty_lem :
      (xs : List Ptr) → IsList s l xs → list_empty s l ≡ ok (elim xs [ [] ↦ true | _ ↦ false ])
  unfolding list_empty
  list_empty_lem [] v = rw (next_of_head [] v, v.chain.0, eq→== {a = tail l} refl)
  list_empty_lem (x ∷ xs) v =
      rw (next_of_head (x ∷ xs) v, v.chain.0, ne→== (λ e. v.apart.end_apart.1.0 (sym e)))
