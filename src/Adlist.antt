-- ===== src/Adlist.antt =====
-- src/data_struct/adlist.c at the level of what a list holds: a node is its position.
pub mod Laws
use cutis.Common.{
  ℕ, zero, suc, ◌+◌, ◌-◌, Option, none, some, List, [], ◌∷◌, ◌++◌, ltb, ◌==◌, if◌then◌else◌, length,
  get_elem?, Run, ok, fault, null_pointer,
}
use cutis.Common.Int.{ℤ, pos, negsuc}

pub data End : Type 0 where
  head tail : End

unfoldable pub list_prev_node : ℕ → Option ℕ
list_prev_node zero = none
list_prev_node (suc node) = some node

-- `while (index-- && node)`
unfoldable pub walk_prev : ℕ → Option ℕ → Option ℕ
unfolding list_prev_node
walk_prev index none = none
walk_prev zero (some node) = some node
walk_prev (suc index) (some node) = walk_prev index (list_prev_node node)

module _ {ℓ} {A : Type ℓ} where
  unfoldable pub list_add_node_head : List A → A → List A
  list_add_node_head l value = value ∷ l

  unfoldable pub list_add_node_tail : List A → A → List A
  list_add_node_tail l value = l ++ value ∷ []

  unfoldable pub list_first : List A → Option ℕ
  list_first [] = none
  list_first (x ∷ l) = some 0

  unfoldable pub list_last : List A → Option ℕ
  list_last [] = none
  list_last (x ∷ l) = some (length l)

  unfoldable pub list_next_node : List A → ℕ → Option ℕ
  list_next_node l node = if ltb (node + 1) (length l) then some (node + 1) else none

  -- `listNodeValue(node)`, through a null pointer a fault.
  unfoldable pub list_node_value : List A → Option ℕ → Run A
  list_node_value l none = fault null_pointer
  list_node_value l (some node) = elim (get_elem? l node) [
    | none ↦ fault null_pointer
    | some value ↦ ok value
  ]

  unfoldable pub del_at : List A → ℕ → List A
  del_at [] node = []
  del_at (x ∷ l) zero = l
  del_at (x ∷ l) (suc node) = x ∷ del_at l node

  unfoldable pub list_del_node : List A → Option ℕ → Run (List A)
  unfolding del_at
  list_del_node l none = fault null_pointer
  list_del_node l (some node) = ok (del_at l node)

  unfoldable pub walk_next : List A → ℕ → Option ℕ → Option ℕ
  unfolding list_next_node
  walk_next l index none = none
  walk_next l zero (some node) = some node
  walk_next l (suc index) (some node) = walk_next l index (list_next_node l node)

  unfoldable pub list_index : List A → ℤ → Option ℕ
  unfolding list_first list_last walk_next walk_prev
  list_index l (pos index) = walk_next l index (list_first l)
  list_index l (negsuc index) = walk_prev index (list_last l)
