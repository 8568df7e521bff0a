-- ===== src/Adlist/Laws.antt =====
-- What the positions of src/data_struct/adlist.c lead to.
use cutis.Common.{
  ℕ, zero, suc, ◌+◌, ◌-◌, ◌<◌, ◌≡◌, refl, ap, ◌∙◌, inl, inr, Option, none, some, List, [], ◌∷◌,
  arith, Bool-cases, ltb, if◌then◌else◌, length, take, drop, ok,
}
use cutis.Common.Int.{pos, negsuc}
use cutis.Adlist.{
  list_prev_node, walk_prev, list_first, list_last, list_next_node, list_node_value, del_at,
  walk_next, list_index,
}

-- The node at a position, if the list has one there.
abbrev pub node_at : ℕ → ℕ → Option ℕ
node_at len node = if ltb node len then some node else none

walk_prev-node_at :
    (index node len : ℕ)
    → node < len
    → walk_prev index (some node) ≡ (if ltb node index then none else some (node - index))
unfolding walk_prev list_prev_node
walk_prev-node_at zero node len h = ground arith
walk_prev-node_at (suc index) zero len h = ground arith
walk_prev-node_at (suc index) (suc node) len h =
    walk_prev-node_at index node len (omega arith) ∙ ground arith

module _ {ℓ} {A : Type ℓ} where
  walk_next-node_at :
      (l : List A) (index node : ℕ)
      → walk_next l index (node_at (length l) node) ≡ node_at (length l) (node + index)
  unfolding walk_next list_next_node
  walk_next-node_at l zero node = elim (Bool-cases (ltb node (length l))) [
    | inl in_list ↦ rw in_list (ground arith)
    | inr past ↦ rw past (ground arith)
  ]
  walk_next-node_at l (suc index) node = elim (Bool-cases (ltb node (length l))) [
    | inl in_list ↦
        rw in_list (walk_next-node_at l index (node + 1) ∙ ap (node_at (length l)) (omega arith))
    | inr past ↦ rw past (ground arith)
  ]

  -- listIndex with an index from 0 on gives the node at that position, or none past the end of
  -- the list.
  pub list_index-pos : (l : List A) (i : ℕ) → list_index l (pos i) ≡ node_at (length l) i
  unfolding list_index list_first walk_next
  list_index-pos [] i = ground arith
  list_index-pos (x ∷ l) i =
      let first : some 0 ≡ node_at (suc (length l)) 0 = ground arith in
      ap (walk_next (x ∷ l) i) first
      ∙ walk_next-node_at (x ∷ l) i 0
      ∙ ap (node_at (suc (length l))) (omega arith)

  -- listIndex with a negative index counts from the tail, -1 for the last node, and gives none
  -- before the head of the list.
  pub list_index-negsuc :
      (l : List A) (i : ℕ)
      → list_index l (negsuc i) ≡ (if ltb i (length l) then some (length l - suc i) else none)
  unfolding list_index list_last walk_prev
  list_index-negsuc [] i = ground arith
  list_index-negsuc (x ∷ l) i =
      walk_prev-node_at i (length l) (suc (length l)) (omega arith) ∙ ground arith

  pub del_at-last : (x : A) (l : List A) → del_at (x ∷ l) (length l) ≡ take (length l) (x ∷ l)
  unfolding del_at
  del_at-last x [] = refl
  del_at-last x (y ∷ l) = ap (λ t. x ∷ t) (del_at-last y l)

  -- The node at a position of the list has the first value of what is left from there.
  pub list_node_value-drop :
      (l : List A) (node : ℕ)
      → node < length l
      → (x : A) × (list_node_value l (some node) ≡ ok x) × (drop node l ≡ x ∷ drop (suc node) l)
  unfolding list_node_value
  list_node_value-drop [] node h = ground arith
  list_node_value-drop (x ∷ l) zero h = (x, refl, refl)
  list_node_value-drop (x ∷ l) (suc node) h = list_node_value-drop l node (omega arith)
