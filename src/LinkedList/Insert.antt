-- ===== src/LinkedList/Insert.antt =====
-- `list_init`, `list_insert_before`, `list_push` and `list_append` of lib/kernel/list.c against the
-- sequence of nodes that a list holds.
use mathlib.Core.List.{append-nil}
use goos.Prelude.{◌≡◌, refl, sym, ◌≢◌, List, [], ◌∷◌, ◌++◌, arith, ok, ne→==, eq→==}
use goos.Interrupt.{IntrStatus, intr_off, intr_on, intr_disable, set_intr_status}
use goos.LinkedList.{
  Ptr, null, Store, update, tail, get_prev, get_next, set_prev, set_next, list_init,
  list_insert_before, list_push, list_append,
}
use goos.LinkedList.Chain.{
  NotIn, NotIn-left, NotIn-right, NotIn-last, Distinct, Linked, last, prev_of_end, Linked-append,
  Linked-split, frame_next, frame_prev, relink,
}
use goos.LinkedList.Distinct.{
  NotIn-insert, Distinct-insert, Distinct-left, Distinct-right, last-NotIn, middle-NotIn, ne_middle,
}

-- The nodes of a list, its two ends and NULL are different addresses.
pub record Apart (l : Ptr) (xs : List Ptr) : Type 0 where
  pub distinct : Distinct (l ∷ xs)
  pub end_apart : NotIn (tail l) (l ∷ xs)
  pub no_null : NotIn null (l ∷ xs)

-- The list at `l` holds the nodes `xs`, in order: they are linked both ways between its two ends,
-- all at different addresses, none of them NULL.
pub record IsList (s : Store) (l : Ptr) (xs : List Ptr) : Type 0 where
  pub chain : Linked s.next s.prev l xs (tail l)
  pub apart : Apart l xs

-- Outside the addresses `ws` nothing has changed, and interrupts are as they were.
pub record SameOutside (ws : List Ptr) (s s' : Store) : Type 0 where
  pub next : (a : Ptr) → NotIn a ws → s'.next a ≡ s.next a
  pub prev : (a : Ptr) → NotIn a ws → s'.prev a ≡ s.prev a
  pub intr : s'.intr ≡ s.intr

pub restored : (i : IntrStatus) → (set_intr_status (intr_disable i).0 (intr_disable i).1).1 ≡ i
restored intr_off = refl
restored intr_on = refl

abbrev inserted : Store → (z b n : Ptr) → Store
inserted s z b n = record s {
  prev = update (update s.prev n z) b n;
  next = update (update s.next z n) n b;
}

insert_run :
    (s : Store) (z b n : Ptr)
    → b ≢ null
    → n ≢ null
    → z ≢ null
    → s.prev b ≡ z
    → list_insert_before s b n ≡ ok (inserted s z b n)
unfolding list_insert_before get_prev set_next set_prev
insert_run s z b n hb hn hz e = rw (ne→== hb, e, ne→== hz, ne→== hn, restored s.intr, e)

-- Linking `n` in behind the chain `p`, `xs` and in front of `b`.
splice_before :
    (next prev : Ptr → Ptr) (p : Ptr) (xs : List Ptr) (b n : Ptr)
    → Distinct (p ∷ xs)
    → NotIn n (p ∷ xs)
    → NotIn b (p ∷ xs)
    → n ≢ b
    → Linked next prev p xs b
    → Linked
        (update (update next (last p xs) n) n b)
        (update (update prev n (last p xs)) b n)
        p
        xs
        n
splice_before next prev p xs b n d hn hb nb c =
    frame_next _ _ n b p xs n hn.0 hn.1
      (frame_prev _ _ b n p xs n (λ e. nb (sym e)) hb.1 (relink next prev p xs b n d hn.1 c))

splice_after :
    (next prev : Ptr → Ptr) (z b n : Ptr)
    → Linked (update (update next z n) n b) (update (update prev n z) b n) n [] b
splice_after next prev z b n = (rw (eq→== {a = n} refl), rw (eq→== {a = b} refl))

-- A node that may be put into the list: not NULL, not one of its nodes or ends.
abbrev pub IsFresh : (n l : Ptr) → List Ptr → Type 0
IsFresh n l xs = (n ≢ null) × (n ≢ tail l) × NotIn n (l ∷ xs)

pub Apart-insert :
    {l : Ptr} (n : Ptr) (xs ys : List Ptr)
    → IsFresh n l (xs ++ ys)
    → Apart l (xs ++ ys)
    → Apart l (xs ++ (n ∷ ys))
Apart-insert {l} n xs ys h v = record {
  distinct = Distinct-insert n (l ∷ xs) ys h.2 v.distinct;
  end_apart = NotIn-insert (tail l) n (l ∷ xs) ys (λ e. h.1 (sym e)) v.end_apart;
  no_null = NotIn-insert null n (l ∷ xs) ys (λ e. h.0 (sym e)) v.no_null;
}

-- What an operation on the list at `l` that returns has done.
pub record Done (s : Store) (l : Ptr) (ws xs : List Ptr) (s' : Store) : Type 0 where
  pub list : IsList s' l xs
  pub same : SameOutside ws s s'

inserted-same :
    (s : Store) (z b n : Ptr) (ws : List Ptr)
    → ((a : Ptr) → NotIn a ws → (a ≢ z) × (a ≢ b) × (a ≢ n))
    → SameOutside ws s (inserted s z b n)
inserted-same s z b n ws far = record {
  next = λ a h. let (hz, hb, hn) = far a h in rw (ne→== (λ e. hn (sym e)), ne→== (λ e. hz (sym e)));
  prev = λ a h. let (hz, hb, hn) = far a h in rw (ne→== (λ e. hb (sym e)), ne→== (λ e. hn (sym e)));
  intr = refl;
}

pub last-ne-null : (l : Ptr) (xs : List Ptr) → NotIn null (l ∷ xs) → last l xs ≢ null
last-ne-null l xs h e = NotIn-last null l xs h.0 h.1 (sym e)

module _ {s : Store} {l : Ptr} where
  -- `list_append` puts a fresh node at the end of the list, writes only to that node and to the
  -- list's own, and leaves the interrupt flag as it was.
  pub list_append_lem :
      {xs : List Ptr} (n : Ptr)
      → IsList s l xs
      → IsFresh n l xs
      → (s' : Store) × (list_append s l n ≡ ok s')
        × Done s l (n ∷ tail l ∷ l ∷ xs) (xs ++ (n ∷ [])) s'
  unfolding list_append
  list_append_lem {xs} n v h = (
    inserted s (last l xs) (tail l) n,
    insert_run s (last l xs) (tail l) n (omega arith) h.0 (last-ne-null l xs v.apart.no_null)
        (prev_of_end _ _ l xs (tail l) v.chain),
    record {
      list = record {
        chain =
            Linked-append _ _ l xs n [] (tail l)
              (splice_before _ _ l xs (tail l) n v.apart.distinct h.2 v.apart.end_apart h.1 v.chain)
              (splice_after s.next s.prev (last l xs) (tail l) n);
        apart = Apart-insert n xs [] (rw append-nil h) (rw append-nil v.apart);
      };
      same = inserted-same s _ _ n _ λ a h. (NotIn-last a l xs h.1.1.0 h.1.1.1, h.1.0, h.0);
    },
  )

  -- `list_insert_before` puts a fresh node in front of a node of the list.
  pub list_insert_before_lem :
      (xs : List Ptr) (b : Ptr) (ys : List Ptr) (n : Ptr)
      → IsList s l (xs ++ (b ∷ ys))
      → IsFresh n l (xs ++ (b ∷ ys))
      → (s' : Store) × (list_insert_before s b n ≡ ok s')
        × Done s l (n ∷ l ∷ (xs ++ (b ∷ ys))) (xs ++ (n ∷ b ∷ ys)) s'
  list_insert_before_lem xs b ys n v h =
      let (before, after) = Linked-split _ _ l xs b ys (tail l) v.chain in
      let d : Distinct (l ∷ xs) = Distinct-left (l ∷ xs) (b ∷ ys) v.apart.distinct in
      let z_out = last-NotIn l xs (b ∷ ys) v.apart.distinct in
      let b_out : NotIn b (l ∷ xs) = middle-NotIn b (l ∷ xs) ys v.apart.distinct in
      let b_after : NotIn b ys = (Distinct-right (l ∷ xs) (b ∷ ys) v.apart.distinct).0 in
      let n_before : NotIn n (l ∷ xs) = NotIn-left n (l ∷ xs) (b ∷ ys) h.2 in
      let n_after : NotIn n (b ∷ ys) = NotIn-right n (l ∷ xs) (b ∷ ys) h.2 in
      (
        inserted s (last l xs) b n,
        insert_run s (last l xs) b n (λ e. ne_middle null b (l ∷ xs) ys v.apart.no_null (sym e)) h.0
            (last-ne-null l xs (NotIn-left null (l ∷ xs) (b ∷ ys) v.apart.no_null))
            (prev_of_end _ _ l xs b before),
        record {
          list = record {
            chain =
                Linked-append _ _ l xs n (b ∷ ys) (tail l)
                  (splice_before _ _ l xs b n d n_before b_out n_after.0 before)
                  (
                    (splice_after s.next s.prev (last l xs) b n).0,
                    (splice_after s.next s.prev (last l xs) b n).1,
                    frame_next _ _ n b b ys (tail l) n_after.0 n_after.1 (
                        frame_next _ _ (last l xs) n b ys (tail l) z_out.0 z_out.1 (
                          frame_prev _ _ b n b ys (tail l)
                            (λ e. ne_middle (tail l) b (l ∷ xs) ys v.apart.end_apart (sym e))
                            b_after
                            (frame_prev _ _ n (last l xs) b ys (tail l) h.1 n_after.1 after))),
                  );
            apart = Apart-insert n xs (b ∷ ys) h v.apart;
          };
          same = inserted-same s _ _ n _ λ a h. (
            NotIn-last a l xs h.1.0 (NotIn-left a xs (b ∷ ys) h.1.1),
            ne_middle a b xs ys h.1.1,
            h.0,
          );
        },
      )

  pub next_of_head : (xs : List Ptr) → IsList s l xs → get_next s l ≡ ok (s.next l)
  unfolding get_next
  next_of_head xs v = rw (ne→== (λ e. v.apart.no_null.0 (sym e)))

  -- `list_push` puts a fresh node at the front.
  pub list_push_lem :
      (xs : List Ptr) (n : Ptr)
      → IsList s l xs
      → IsFresh n l xs
      → (s' : Store) × (list_push s l n ≡ ok s') × Done s l (n ∷ tail l ∷ l ∷ xs) (n ∷ xs) s'
  unfolding list_push
  list_push_lem [] n v h =
      rw (next_of_head [] v, v.chain.0) (unfold list_append in list_append_lem n v h)
  list_push_lem (x ∷ xs) n v h =
      let (s', e, d) = list_insert_before_lem [] x xs n v h in
      rw (next_of_head (x ∷ xs) v, v.chain.0)
        (
          s',
          e,
          record {
            list = d.list;
            same = record {
              next = λ a o. d.same.next a (o.0, o.1.1);
              prev = λ a o. d.same.prev a (o.0, o.1.1);
              intr = d.same.intr;
            };
          },
        )

-- `list_init` makes an empty list at any address that is not NULL, and leaves the rest as it was.
pub list_init_lem :
    (s : Store) (l : Ptr)
    → l ≢ null
    → (s' : Store) × (list_init s l ≡ ok s') × Done s l (l ∷ tail l ∷ []) [] s'
unfolding list_init set_next set_prev
list_init_lem s l h =
    rw (ne→== h, ne→== {a = tail l} {b = null} (omega arith))
      (
        record s {
          prev = update (update s.prev l null) (tail l) l;
          next = update (update s.next l (tail l)) (tail l) null;
        },
        refl,
        record {
          list = record {
            chain = (ground arith, ground arith);
            apart = record {
              distinct = (tt, tt);
              end_apart = ((omega arith), tt);
              no_null = ((λ e. h (sym e)), tt);
            };
          };
          same = record { next = λ a o. ground arith; prev = λ a o. ground arith; intr = refl };
        },
      )
