-- ===== src/Links/Duplicate.antt =====
-- listDup of src/data_struct/adlist.c. The copy stands in the same store as the list.
use cutis.Common.{ℕ, zero, suc, true, Option, none, some, Run, ok, fault, out_of_fuel, ◌>>=◌}
use cutis.Links.{
  Memory, ListHeader, ListIter, load, list_create, add_node_tail, list_release, list_get_iterator,
  list_next_element,
}

module _ {A : Type 0} where
  -- The loop of listDup. `dup` is the list's function, which gives no value if it fails, or `some`
  -- if the list has none; the copy's node number `i` is allocated at `address i`.
  unfoldable pub dup_nodes :
      (dup : A → Option A)
      → (address : ℕ → ℕ) → (fuel : ℕ) → ListIter
      → ListHeader A
      → Run (Option (ListHeader A) × Memory A)
  unfolding list_next_element load add_node_tail list_release
  dup_nodes dup address zero iter copy = fault out_of_fuel
  dup_nodes dup address (suc fuel) iter copy = do
    (node, iter') ← list_next_element copy.nodes iter
    elim node [
      | none ↦ ok (some copy, copy.nodes)
      | some a ↦ do
        n ← load copy.nodes a
        elim (dup n.value) [
          | none ↦ do (values, nodes) ← list_release copy; ok (none, nodes)
          | some v ↦ do
            copy' ← add_node_tail (address copy.len) v copy
            dup_nodes dup address fuel iter' copy'
        ]
    ]

  unfoldable pub list_dup :
      (dup : A → Option A)
      → (address : ℕ → ℕ) → (fuel : ℕ) → ListHeader A
      → Run (Option (ListHeader A) × Memory A)
  unfolding dup_nodes list_create list_get_iterator
  list_dup dup address fuel orig =
      dup_nodes dup address fuel (list_get_iterator orig true) (list_create orig.nodes)
