-- ===== src/Examples/Links.antt =====
-- The linked list at a concrete store.
use cutis.Common.{
  ◌≡◌, ◌+◌, Option, map, Run, ok, ℕ, refl, none, some, List, [], ◌∷◌, ◌==◌, if◌then◌else◌, Returns,
}
use cutis.Links.{
  Node, Memory, ListHeader, load, list_create, add_node_tail, list_get_iterator, list_next_element,
  set_next,
}
use cutis.Links.Duplicate.{dup_nodes, list_dup}
use cutis.Links.Refinement.{Represents}
use cutis.Links.Calls.{remove, run, on_values, Holds, run-Holds}

-- Three nodes, at the addresses 5, 9 and 7.
abbrev nodes : Memory ℕ
nodes a =
    if a == 5
    then some (record { prev = none; next = some 9; value = 10 })
    else if a == 9
    then some (record { prev = some 5; next = some 7; value = 20 })
    else if a == 7
    then some (record { prev = some 9; next = none; value = 30 })
    else none

abbrev three : ListHeader ℕ
three = record { nodes = nodes; head = some 5; tail = some 7; len = 3 }

abbrev chain : List (ℕ × ℕ)
chain = (5, 10) ∷ (9, 20) ∷ (7, 30) ∷ []

three-Represents : Represents three chain
three-Represents = record {
  linked = (refl, (refl, (refl, tt)));
  apart = (refl, (refl, (refl, tt)));
  head = refl;
  tail = refl;
  len = refl;
}

-- The middle node goes.
run-Holds_example :
    Returns (run (remove 9 1) three) (Holds (on_values (remove 9 1) (10 ∷ 20 ∷ 30 ∷ [])))
run-Holds_example =
    run-Holds (remove 9 1) three chain three-Represents ((5, 10) ∷ [], (7, 30) ∷ [], 20, refl, refl)

abbrev value_at : Option (Node ℕ) → ℕ
value_at none = 0
value_at (some n) = n.value

-- The copy of the three nodes, at the addresses 20, 21 and 22, has their values.
abbrev copied_values : Run (Option (ListHeader ℕ) × Memory ℕ) → List ℕ
copied_values (ok (some copy, m)) = map (λ a. value_at (m a)) (20 ∷ 21 ∷ 22 ∷ [])
copied_values _ = []

dup_three : copied_values (list_dup (λ v. some v) (λ i. 20 + i) 4 three) ≡ 10 ∷ 20 ∷ 30 ∷ []
unfolding list_dup dup_nodes list_next_element load add_node_tail list_create list_get_iterator
    set_next
dup_three = refl
