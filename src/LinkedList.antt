-- ===== src/LinkedList.antt =====
-- lib/kernel/list.c and list.h: the doubly linked list of all the kernel's queues.
-- Memory is two maps from addresses, the `prev` and the `next` fields of the nodes; a node is known
-- by its address. `struct list` at address `l` is its `head` node at `l` and its `tail` node eight
-- bytes on. An access through NULL is a `fault`. A walk takes fuel, one round for each node.
pub mod Chain
pub mod Distinct
pub mod Insert
pub mod Remove
pub mod Walk
use goos.Prelude.{
  ℕ, zero, suc, ◌+◌, ◌%◌, ◌^◌, Bool, true, false, Outcome, ok, fault, hang, ◌>>=◌, ◌==◌,
  if◌then◌else◌, sub32,
}
use goos.Interrupt.{IntrStatus, intr_disable, set_intr_status}

abbrev pub Ptr : Type 0
Ptr = ℕ

abbrev pub null : Ptr
null = 0

pub record Store : Type 0 where
  pub prev : Ptr → Ptr
  pub next : Ptr → Ptr
  pub intr : IntrStatus

abbrev pub update : (Ptr → Ptr) → Ptr → Ptr → Ptr → Ptr
update f p v q = if p == q then v else f q

-- `p->prev`, `p->next`, `p->prev = q` and `p->next = q`
unfoldable pub get_prev : Store → Ptr → Outcome Ptr
get_prev s p = if p == null then fault else ok (s.prev p)

unfoldable pub get_next : Store → Ptr → Outcome Ptr
get_next s p = if p == null then fault else ok (s.next p)

unfoldable pub set_prev : Store → Ptr → Ptr → Outcome Store
set_prev s p q = if p == null then fault else ok (record s { prev = update s.prev p q })

unfoldable pub set_next : Store → Ptr → Ptr → Outcome Store
set_next s p q = if p == null then fault else ok (record s { next = update s.next p q })

-- `&list->head` and `&list->tail`
abbrev pub head : Ptr → Ptr
head l = l

abbrev pub tail : Ptr → Ptr
tail l = l + 8

-- `elem2entry`: from the address of a member to the address of its struct.
unfoldable pub elem2entry : (offset elem_ptr : ℕ) → ℕ
elem2entry offset elem_ptr = sub32 elem_ptr offset

unfoldable pub list_init : Store → (l : Ptr) → Outcome Store
list_init s l = do
  s₁ ← set_prev s (head l) null
  s₂ ← set_next s₁ (head l) (tail l)
  s₃ ← set_prev s₂ (tail l) (head l)
  set_next s₃ (tail l) null

unfoldable pub list_insert_before : Store → (before node : Ptr) → Outcome Store
list_insert_before s₀ before node = do
  let (old_status, now) = intr_disable s₀.intr
  let s = record s₀ { intr = now }
  p ← get_prev s before
  s₁ ← set_next s p node
  p' ← get_prev s₁ before
  s₂ ← set_prev s₁ node p'
  s₃ ← set_next s₂ node before
  s₄ ← set_prev s₃ before node
  ok (record s₄ { intr = (set_intr_status old_status s₄.intr).1 })

unfoldable pub list_push : Store → (l node : Ptr) → Outcome Store
list_push s l node = do first ← get_next s (head l); list_insert_before s first node

unfoldable pub list_append : Store → (l node : Ptr) → Outcome Store
list_append s l node = list_insert_before s (tail l) node

unfoldable pub list_remove : Store → (node : Ptr) → Outcome Store
list_remove s₀ node = do
  let (old_status, now) = intr_disable s₀.intr
  let s = record s₀ { intr = now }
  p ← get_prev s node
  n ← get_next s node
  s₁ ← set_next s p n
  n' ← get_next s₁ node
  p' ← get_prev s₁ node
  s₂ ← set_prev s₁ n' p'
  ok (record s₂ { intr = (set_intr_status old_status s₂.intr).1 })

unfoldable pub list_pop : Store → (l : Ptr) → Outcome (Ptr × Store)
list_pop s l = do top ← get_next s (head l); s' ← list_remove s top; ok (top, s')

-- The loop of `node_find`, from `curr`.
unfoldable pub find_from : (fuel : ℕ) → Store → (l node curr : Ptr) → Outcome ℕ
find_from zero s l node curr = hang
find_from (suc fuel) s l node curr =
    if curr == tail l
    then ok 0
    else if curr == node
    then ok 1
    else do next ← get_next s curr; find_from fuel s l node next

unfoldable pub node_find : (fuel : ℕ) → Store → (l node : Ptr) → Outcome ℕ
node_find fuel s l node = do curr ← get_next s (head l); find_from fuel s l node curr

-- The loop of `list_traversal`; the callback reads nodes and leaves the list as it is.
unfoldable pub traverse_from :
    (fuel : ℕ) → Store → (l : Ptr) → (Ptr → ℕ → ℕ) → (args curr : ℕ) → Outcome Ptr
traverse_from zero s l func args curr = hang
traverse_from (suc fuel) s l func args curr =
    if curr == tail l
    then ok null
    else if func curr args == 0
    then (do next ← get_next s curr; traverse_from fuel s l func args next)
    else ok curr

unfoldable pub list_traversal :
    (fuel : ℕ) → Store → (l : Ptr) → (Ptr → ℕ → ℕ) → (args : ℕ) → Outcome Ptr
list_traversal fuel s l func args = do
  curr ← get_next s (head l)
  traverse_from fuel s l func args curr

-- The loop of `list_len`.
unfoldable pub len_from : (fuel : ℕ) → Store → (l curr len : ℕ) → Outcome ℕ
len_from zero s l curr len = hang
len_from (suc fuel) s l curr len =
    if curr == tail l
    then ok len
    else do next ← get_next s curr; len_from fuel s l next ((len + 1) % 2 ^ 32)

unfoldable pub list_len : (fuel : ℕ) → Store → (l : Ptr) → Outcome ℕ
list_len fuel s l = do curr ← get_next s (head l); len_from fuel s l curr 0

unfoldable pub list_empty : Store → (l : Ptr) → Outcome Bool
list_empty s l = do first ← get_next s (head l); ok (if first == tail l then true else false)
