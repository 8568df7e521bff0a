-- ===== src/Command/Lists/Range.antt =====
-- What the loops of LRANGE and LTRIM of src/commands/command.c do to a list.
use cutis.Common.{
  ℕ, zero, suc, ◌+◌, ◌-◌, ◌<◌, ◌≤◌, ◌≡◌, refl, sym, ap, subst, ◌∙◌, inl, inr, true, Option, none,
  some, List, [], ◌∷◌, ◌++◌, arith, Option-cases, ltb, Bytes, length, take, take-all,
  eq_nil_of_length, drop, length-take, length-drop, append_assoc, append-nil, ok, ◌>>=◌, Returns,
}
use cutis.Common.Int.{ℤ}
use cutis.Adlist.{list_first, list_last, list_del_node, list_next_node}
use cutis.Adlist.Laws.{node_at, del_at-last, list_node_value-drop}
use cutis.Store.{Obj, State, reply_bulk}
use cutis.Store.Effect.{Effect, bulk, reply_bulk-Effect}
use cutis.Command.Lists.{clip_range, reply_nodes, trim_head, trim_tail, trim_list}

-- The positions that are clipped are in order and in the list.
pub clip_range-bounds :
    (llen : ℕ) (start end : ℤ) (p : ℕ × ℕ)
    → clip_range llen start end ≡ some p
    → (p.0 ≤ p.1) × (p.1 < llen)
unfolding clip_range
clip_range-bounds llen start end p h = ground arith

trim_head-drop : (n : ℕ) (l : List Bytes) → n ≤ length l → trim_head n l ≡ ok (drop n l)
unfolding trim_head list_del_node list_first
trim_head-drop zero l h = refl
trim_head-drop (suc n) [] h = ground arith
trim_head-drop (suc n) (x ∷ l) h = trim_head-drop n l (omega arith)

take-take : (a b : ℕ) (l : List Bytes) → a ≤ b → take a (take b l) ≡ take a l
take-take zero b l h = refl
take-take (suc a) zero l h = ground arith
take-take (suc a) (suc b) [] h = refl
take-take (suc a) (suc b) (x ∷ l) h = ap (λ t. x ∷ t) (take-take a b l (omega arith))

trim_tail-take :
    (n : ℕ) (l : List Bytes) → n ≤ length l → trim_tail n l ≡ ok (take (length l - n) l)
unfolding trim_tail list_del_node list_last
trim_tail-take zero l h =
    ap ok (sym (ap (λ m. take m l) (omega arith) ∙ take-all (length l) l (omega arith)))
trim_tail-take (suc n) [] h = ground arith
trim_tail-take (suc n) (x ∷ l) h =
    let t = take (length l) (x ∷ l) in
    let width : length t ≡ length l = omega (arith, length-take (length l) (x ∷ l)) in
    rw (del_at-last x l) (
      trim_tail-take n t (omega (arith, width, h))
      ∙ ap ok (
          ap (λ m. take m t) (omega (arith, width))
          ∙ take-take (suc (length l) - suc n) (length l) (x ∷ l) (omega arith)))

-- The elements from one position to another.
abbrev pub slice : Option (ℕ × ℕ) → List Bytes → List Bytes
slice none l = []
slice (some p) l = take (p.1 - p.0 + 1) (drop p.0 l)

-- The two loops of LTRIM end without a fault for any list and any two indices, and leave the
-- elements from the first to the last position of the clipped range, or none if the range is
-- empty.
pub trim_list-slice :
    (l : List Bytes) (start end : ℤ)
    → trim_list l start end ≡ ok (slice (clip_range (length l) start end) l)
unfolding trim_list
trim_list-slice l start end = elim (Option-cases (clip_range (length l) start end)) [
  | inl empty ↦
      rw (empty, trim_head-drop (length l) l (omega arith), ◌>>=◌)
        (ap ok (eq_nil_of_length (drop (length l) l) (omega (arith, length-drop (length l) l))))
  | inr (p, range) ↦
      let (ordered, inside) = clip_range-bounds (length l) start end p range in
      rw (range, trim_head-drop p.0 l (omega (arith, ordered, inside)), ◌>>=◌)
        (trim_tail-take (length l - p.1 - 1) (drop p.0 l)
            (omega (arith, length-drop p.0 l, ordered, inside))
          ∙ ap (λ m. ok (take m (drop p.0 l))) (omega (arith, length-drop p.0 l, ordered, inside)))
]

abbrev pub bulks : List Bytes → List Bytes
bulks [] = []
bulks (x ∷ l) = bulk x ++ bulks l

-- The loop of LRANGE sends the elements from a position on, and reads none beyond the list.
pub reply_nodes-Effect :
    (rounds : ℕ) (l : List Bytes) (node : ℕ) (a b : State) (i : ℕ) (k : Bytes) (o : Option Obj)
    (rs : List Bytes) (n : ℕ)
    → node + rounds ≤ length l
    → Effect a b i k o rs n
    → Returns
        (reply_nodes rounds l (node_at (length l) node) b)
        λ r. Effect a r i k o (rs ++ bulks (take rounds (drop node l))) n
unfolding reply_nodes list_next_node
reply_nodes-Effect zero l node a b i k o rs n h e =
    (b, refl, subst (λ x. Effect a b i k o x n) (sym (append-nil rs)) e)
reply_nodes-Effect (suc rounds) l node a b i k o rs n h e =
    let (x, here, rest) = list_node_value-drop l node (omega arith) in
    let next : node + 1 ≡ suc node = omega arith in
    let in_list : ltb node (length l) ≡ true = ground arith in
    let (r, run, e') =
      reply_nodes-Effect rounds l (node + 1) a (reply_bulk x b) i k o (rs ++ bulk x) n (omega arith)
        (reply_bulk-Effect e x) in
    (
      r,
      rw (in_list, here, ◌>>=◌) run,
      rw rest (
          subst (λ y. Effect a r i k o y n)
            (ap (λ m. (rs ++ bulk x) ++ bulks (take rounds (drop m l))) next
              ∙ append_assoc rs (bulk x) (bulks (take rounds (drop (suc node) l))))
            e'),
    )
