-- ===== src/Links.antt =====
-- src/data_struct/adlist.c with its pointers: the nodes stand in a store, and head, tail, prev and
-- next are addresses in it. The address of a new node is an argument.
pub mod Chains
pub mod Refinement
pub mod Removal
pub mod Calls
pub mod Walks
pub mod Duplicate
use cutis.Common.{
  Bool, true, false, out_of_fuel, ℕ, zero, suc, ◌+◌, ◌-◌, Option, none, some, List, [], ◌∷◌, ◌==◌,
  if◌then◌else◌, Run, ok, fault, null_pointer, use_after_free, ◌>>=◌,
}

pub record Node (A : Type 0) : Type 0 where
  pub prev : Option ℕ
  pub next : Option ℕ
  pub value : A

-- What stands at an address, or none if nothing is allocated there.
abbrev pub Memory : Type 0 → Type 0
Memory A = ℕ → Option (Node A)

pub record ListHeader (A : Type 0) : Type 0 where
  pub nodes : Memory A
  pub head : Option ℕ
  pub tail : Option ℕ
  pub len : ℕ

module _ {A : Type 0} where
  unfoldable pub list_create : Memory A → ListHeader A
  list_create nodes = record { nodes = nodes; head = none; tail = none; len = 0 }

  abbrev pub put : Memory A → ℕ → Option (Node A) → Memory A
  put nodes a n x = if x == a then n else nodes x

  -- A read through a pointer.
  unfoldable pub load : Memory A → ℕ → Run (Node A)
  load nodes a = elim (nodes a) [ none ↦ fault use_after_free | some n ↦ ok n ]

  unfoldable pub set_prev : ℕ → Option ℕ → Memory A → Run (Memory A)
  unfolding load
  set_prev a p nodes = do n ← load nodes a; ok (put nodes a (some (record n { prev = p })))

  unfoldable pub set_next : ℕ → Option ℕ → Memory A → Run (Memory A)
  unfolding load
  set_next a p nodes = do n ← load nodes a; ok (put nodes a (some (record n { next = p })))

  unfoldable pub add_node_head : ℕ → A → ListHeader A → Run (ListHeader A)
  unfolding set_prev
  add_node_head new v l =
      if l.len == 0
      then ok (record {
        nodes = put l.nodes new (some (record { prev = none; next = none; value = v }));
        head = some new;
        tail = some new;
        len = l.len + 1;
      })
      else elim l.head [
        | none ↦ fault null_pointer
        | some head ↦ do
          nodes ←
              set_prev head (some new)
                (put l.nodes new (some (record { prev = none; next = some head; value = v })))
          ok (record l { nodes = nodes; head = some new; len = l.len + 1 })
      ]

  unfoldable pub add_node_tail : ℕ → A → ListHeader A → Run (ListHeader A)
  unfolding set_next
  add_node_tail new v l =
      if l.len == 0
      then ok (record {
        nodes = put l.nodes new (some (record { prev = none; next = none; value = v }));
        head = some new;
        tail = some new;
        len = l.len + 1;
      })
      else elim l.tail [
        | none ↦ fault null_pointer
        | some tail ↦ do
          nodes ←
              set_next tail (some new)
                (put l.nodes new (some (record { prev = some tail; next = none; value = v })))
          ok (record l { nodes = nodes; tail = some new; len = l.len + 1 })
      ]

  -- `node->prev->next = node->next`, or the new head of the list.
  unfoldable pub unlink_prev : Node A → ListHeader A → Run (ListHeader A)
  unfolding set_next
  unlink_prev n l = elim n.prev [
    | none ↦ ok (record l { head = n.next })
    | some p ↦ do nodes ← set_next p n.next l.nodes; ok (record l { nodes = nodes })
  ]

  unfoldable pub unlink_next : Node A → ListHeader A → Run (ListHeader A)
  unfolding set_prev
  unlink_next n l = elim n.next [
    | none ↦ ok (record l { tail = n.prev })
    | some q ↦ do nodes ← set_prev q n.prev l.nodes; ok (record l { nodes = nodes })
  ]

  unfoldable pub del_node : ℕ → ListHeader A → Run (ListHeader A)
  unfolding load unlink_prev unlink_next
  del_node a l = do
    n ← load l.nodes a
    l1 ← unlink_prev n l
    l2 ← unlink_next n l1
    ok (record l2 { nodes = put l2.nodes a none; len = l2.len - 1 })

  -- The loop of listRelease: the values in the order in which they are freed, and the store.
  unfoldable pub release_nodes : ℕ → Option ℕ → Memory A → Run (List A × Memory A)
  unfolding load
  release_nodes zero current nodes = ok ([], nodes)
  release_nodes (suc len) none nodes = fault null_pointer
  release_nodes (suc len) (some a) nodes = do
    n ← load nodes a
    (values, nodes') ← release_nodes len n.next (put nodes a none)
    ok (n.value ∷ values, nodes')

  unfoldable pub list_release : ListHeader A → Run (List A × Memory A)
  unfolding release_nodes
  list_release l = release_nodes l.len l.head l.nodes

-- `forward` is the direction AL_START_HEAD.
pub record ListIter : Type 0 where
  pub next_node : Option ℕ
  pub forward : Bool

module _ {A : Type 0} where
  unfoldable pub list_get_iterator : ListHeader A → Bool → ListIter
  list_get_iterator l forward = record {
    next_node = if forward then l.head else l.tail;
    forward = forward;
  }

  -- The current node, and the iterator behind it.
  unfoldable pub list_next_element : Memory A → ListIter → Run (Option ℕ × ListIter)
  unfolding load
  list_next_element nodes iter = elim iter.next_node [
    | none ↦ ok (none, iter)
    | some current ↦ load nodes current >>= (λ n.
        ok (some current, record iter { next_node = if iter.forward then n.next else n.prev }))
  ]

  -- The loop of listSearchKey, where `match` is the list's function with the key, or the test of
  -- the pointers.
  unfoldable pub search_from :
      (match : A → Bool) → (fuel : ℕ) → Memory A → ListIter → Run (Option ℕ)
  unfolding list_next_element load
  search_from match zero nodes iter = fault out_of_fuel
  search_from match (suc fuel) nodes iter = do
    (node, iter') ← list_next_element nodes iter
    elim node [
      | none ↦ ok none
      | some a ↦ do
        n ← load nodes a
        let rest = search_from match fuel nodes iter'
        if match n.value then ok (some a) else rest
    ]

  unfoldable pub list_search_key : (match : A → Bool) → (fuel : ℕ) → ListHeader A → Run (Option ℕ)
  unfolding search_from list_get_iterator
  list_search_key match fuel l = search_from match fuel l.nodes (list_get_iterator l true)

  -- The values that a loop with listNextElement meets.
  unfoldable pub iterate_list : (fuel : ℕ) → Memory A → ListIter → Run (List A)
  unfolding list_next_element load
  iterate_list zero nodes iter = fault out_of_fuel
  iterate_list (suc fuel) nodes iter = do
    (node, iter') ← list_next_element nodes iter
    let rest = iterate_list fuel nodes iter'
    elim node [ none ↦ ok [] | some a ↦ do n ← load nodes a; values ← rest; ok (n.value ∷ values) ]
