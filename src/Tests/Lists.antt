-- ===== src/Tests/Lists.antt =====
-- lib/kernel/list.c on a list at address 100 that holds the nodes at 200 and 300.
use goos.Prelude.{ℕ, ◌≡◌, refl, [], ◌∷◌, false, arith, ok, if◌then◌else◌, ◌==◌}
use goos.Interrupt.{intr_on}
use goos.LinkedList.{
  Ptr, Store, list_insert_before, list_append, list_remove, node_find, find_from, list_len,
  len_from, list_empty, get_next,
}
use goos.LinkedList.Insert.{IsList, Done, list_append_lem, list_insert_before_lem}
use goos.LinkedList.Remove.{list_remove_lem, list_empty_lem}

abbrev two_nodes : Store
two_nodes = record {
  next = λ p. if p == 100 then 200 else if p == 200 then 300 else if p == 300 then 108 else 0;
  prev = λ p. if p == 108 then 300 else if p == 300 then 200 else if p == 200 then 100 else 0;
  intr = intr_on;
}

abbrev no_nodes : Store
no_nodes = record {
  next = λ p. if p == 100 then 108 else 0;
  prev = λ p. if p == 108 then 100 else 0;
  intr = intr_on;
}

two_nodes-IsList : IsList two_nodes 100 (200 ∷ 300 ∷ [])
two_nodes-IsList = omega arith

no_nodes-IsList : IsList no_nodes 100 []
no_nodes-IsList = omega arith

walks :
    (list_len 3 two_nodes 100 ≡ ok 2)
    × (node_find 3 two_nodes 100 300 ≡ ok 1)
    × (node_find 3 two_nodes 100 400 ≡ ok 0)
unfolding list_len len_from node_find find_from get_next
walks = (refl, refl, refl)

list_append_lem_example :
    (s' : Store) × (list_append two_nodes 100 400 ≡ ok s')
    × Done two_nodes 100 (400 ∷ 108 ∷ 100 ∷ 200 ∷ 300 ∷ []) (200 ∷ 300 ∷ 400 ∷ []) s'
list_append_lem_example = list_append_lem 400 two_nodes-IsList (omega arith)

list_insert_before_lem_example :
    (s' : Store) × (list_insert_before two_nodes 300 400 ≡ ok s')
    × Done two_nodes 100 (400 ∷ 100 ∷ 200 ∷ 300 ∷ []) (200 ∷ 400 ∷ 300 ∷ []) s'
list_insert_before_lem_example =
    list_insert_before_lem (200 ∷ []) 300 [] 400 two_nodes-IsList (omega arith)

list_remove_lem_example :
    (s' : Store) × (list_remove two_nodes 200 ≡ ok s')
    × Done two_nodes 100 (100 ∷ 108 ∷ 200 ∷ 300 ∷ []) (300 ∷ []) s'
list_remove_lem_example = list_remove_lem [] 200 (300 ∷ []) two_nodes-IsList

list_empty_lem_example : list_empty two_nodes 100 ≡ ok false
list_empty_lem_example = list_empty_lem (200 ∷ 300 ∷ []) two_nodes-IsList

abbrev above : Ptr → ℕ → ℕ
above p bound = if bound == p then 1 else 0
