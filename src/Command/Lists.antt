-- ===== src/Command/Lists.antt =====
-- The commands on lists of src/commands/command.c.
pub mod Range
pub mod Clipped
pub mod Ends
pub mod Indexed
use cutis.Common.{
  ℕ, zero, suc, ◌+◌, ◌-◌, Bool, true, false, ◌||◌, Option, none, some, List, [], ◌∷◌, ◌++◌, Bytes,
  codes, ltb, leb, if◌then◌else◌, length, set as set_elem, Run, ok, fault, null_pointer, ◌>>=◌,
}
use cutis.Common.Int.{ℤ, pos, negsuc}
use cutis.Decimal.{atoi}
use cutis.Shared
use cutis.Adlist.{
  End, head, tail, list_add_node_head, list_add_node_tail, list_first, list_last, list_next_node,
  list_node_value, list_del_node, list_index,
}
use cutis.Store.{
  Obj, string, list, set, State, add_reply, reply_bulk, arg, touch, find_key, add_key,
  change_object,
}

abbrev pub push : End → List Bytes → Bytes → List Bytes
push head l el = list_add_node_head l el
push tail l el = list_add_node_tail l el

unfoldable pub push_generic_command : End → State → Run State
unfolding find_key add_key change_object list_add_node_head list_add_node_tail arg touch add_reply
push_generic_command where_end s = do
  k ← arg 1 s
  el ← arg 2 s
  de ← find_key s.client.dict k s
  elim de [
    | none ↦ do
      (_, s') ← add_key s.client.dict k (list (push where_end [] el)) s
      ok (add_reply Shared.ok (touch s'))
    | some o ↦ elim o [
      | list l ↦ do
        s' ← change_object s.client.dict k (list (push where_end l el)) s
        ok (add_reply Shared.ok (touch s'))
      | _ ↦ ok (add_reply (codes "-ERR push against existing key not holding a list \r\n") s)
    ]
  ]

unfoldable pub rpush_command : State → Run State
unfolding push_generic_command
rpush_command s = push_generic_command tail s

unfoldable pub lpush_command : State → Run State
unfolding push_generic_command
lpush_command s = push_generic_command head s

abbrev pub end_node : End → List Bytes → Option ℕ
end_node head l = list_first l
end_node tail l = list_last l

unfoldable pub pop_generic_command : End → State → Run State
unfolding find_key change_object list_first list_last list_node_value list_del_node arg touch
    add_reply reply_bulk
pop_generic_command where_end s = do
  k ← arg 1 s
  de ← find_key s.client.dict k s
  elim de [
    | none ↦ ok (add_reply Shared.nil s)
    | some o ↦ elim o [
      | list l ↦ elim (end_node where_end l) [
        | none ↦ ok (add_reply Shared.nil s)
        | some ln ↦ do
          el ← list_node_value l (some ln)
          l' ← list_del_node l (some ln)
          s' ← change_object s.client.dict k (list l') (reply_bulk el s)
          ok (touch s')
      ]
      | _ ↦ ok (add_reply (Shared.error_bulk (codes "POP against key not holding a list value")) s)
    ]
  ]

unfoldable pub rpop_command : State → Run State
unfolding pop_generic_command
rpop_command s = pop_generic_command tail s

unfoldable pub lpop_command : State → Run State
unfolding pop_generic_command
lpop_command s = pop_generic_command head s

unfoldable pub llen_command : State → Run State
unfolding find_key arg add_reply
llen_command s = do
  k ← arg 1 s
  de ← find_key s.client.dict k s
  elim de [
    | none ↦ ok (add_reply Shared.zero s)
    | some o ↦ elim o [
      | list l ↦ ok (add_reply (Shared.number_line (length l)) s)
      | _ ↦ ok (add_reply (codes "-1\r\n") s)
    ]
  ]

unfoldable pub lindex_command : State → Run State
unfolding find_key list_index list_node_value atoi arg add_reply reply_bulk
lindex_command s = do
  k ← arg 1 s
  de ← find_key s.client.dict k s
  index ← arg 2 s
  elim de [
    | none ↦ ok (add_reply Shared.nil s)
    | some o ↦ elim o [
      | list l ↦ elim (list_index l (atoi index)) [
        | none ↦ ok (add_reply Shared.nil s)
        | some ln ↦ do el ← list_node_value l (some ln); ok (reply_bulk el s)
      ]
      | _ ↦
          ok (add_reply (Shared.error_bulk (codes "LINDEX against key not holding a list value")) s)
    ]
  ]

-- An index counted from the end if it is negative, and then 0 if it is still negative.
unfoldable pub convert_index : ℕ → ℤ → ℕ
convert_index llen (pos i) = i
convert_index llen (negsuc i) = llen - suc i

-- The sanity checks of LRANGE and LTRIM: the first and the last position, if there is one.
unfoldable pub clip_range : ℕ → ℤ → ℤ → Option (ℕ × ℕ)
unfolding convert_index
clip_range llen start end =
    let from = convert_index llen start in
    let to = convert_index llen end in
    if ltb to from || leb llen from then none else some (from, if leb llen to then llen - 1 else to)

-- The loop of LRANGE; `ln = ln->next` reads through the last node only after the last round.
unfoldable pub reply_nodes : ℕ → List Bytes → Option ℕ → State → Run State
unfolding list_node_value list_next_node reply_bulk
reply_nodes zero l ln s = ok s
reply_nodes (suc rounds) l none s = fault null_pointer
reply_nodes (suc rounds) l (some ln) s = do
  el ← list_node_value l (some ln)
  reply_nodes rounds l (list_next_node l ln) (reply_bulk el s)

unfoldable pub lrange_command : State → Run State
unfolding find_key clip_range reply_nodes list_index atoi arg add_reply
lrange_command s = do
  k ← arg 1 s
  de ← find_key s.client.dict k s
  start ← arg 2 s
  end ← arg 3 s
  elim de [
    | none ↦ ok (add_reply Shared.nil s)
    | some o ↦ elim o [
      | list l ↦ elim (clip_range (length l) (atoi start) (atoi end)) [
        | none ↦ ok (add_reply Shared.zero s)
        | some (from, to) ↦
            let range_len = to - from + 1 in
            reply_nodes range_len l (list_index l (pos from))
              (add_reply (Shared.number_line range_len) s)
      ]
      | _ ↦
          ok (add_reply (Shared.error_bulk (codes "LRANGE against key not holding a list value")) s)
    ]
  ]

-- The two loops of LTRIM.
unfoldable pub trim_head : ℕ → List Bytes → Run (List Bytes)
unfolding list_del_node list_first
trim_head zero l = ok l
trim_head (suc rounds) l = list_del_node l (list_first l) >>= trim_head rounds

unfoldable pub trim_tail : ℕ → List Bytes → Run (List Bytes)
unfolding list_del_node list_last
trim_tail zero l = ok l
trim_tail (suc rounds) l = list_del_node l (list_last l) >>= trim_tail rounds

-- How many elements go at each end.
abbrev pub trims : ℕ → Option (ℕ × ℕ) → ℕ × ℕ
trims llen none = (llen, 0)
trims llen (some (from, to)) = (from, llen - to - 1)

unfoldable pub trim_list : List Bytes → ℤ → ℤ → Run (List Bytes)
unfolding clip_range trim_head trim_tail
trim_list l start end =
    let llen = length l in
    let (ltrim, rtrim) = trims llen (clip_range llen start end) in
    trim_head ltrim l >>= trim_tail rtrim

unfoldable pub ltrim_command : State → Run State
unfolding find_key trim_list change_object atoi arg touch add_reply
ltrim_command s = do
  k ← arg 1 s
  de ← find_key s.client.dict k s
  start ← arg 2 s
  end ← arg 3 s
  elim de [
    | none ↦ ok (add_reply (codes "-ERR no such key\r\n") s)
    | some o ↦ elim o [
      | list l ↦ do
        l' ← trim_list l (atoi start) (atoi end)
        s' ← change_object s.client.dict k (list l') s
        ok (touch (add_reply Shared.ok s'))
      | _ ↦ ok (add_reply (codes "-ERR LTRIM against key not holding a list value\r\n") s)
    ]
  ]

unfoldable pub lset_command : State → Run State
unfolding find_key list_index change_object atoi arg touch add_reply
lset_command s = do
  index ← arg 2 s
  k ← arg 1 s
  de ← find_key s.client.dict k s
  elim de [
    | none ↦ ok (add_reply (codes "-ERR no such key\r\n") s)
    | some o ↦ elim o [
      | list l ↦ elim (list_index l (atoi index)) [
        | none ↦ ok (add_reply (codes "-ERR index out of range\r\n") s)
        | some ln ↦ do
          v ← arg 3 s
          s' ← change_object s.client.dict k (list (set_elem l ln v)) s
          ok (touch (add_reply Shared.ok s'))
      ]
      | _ ↦ ok (add_reply (codes "-ERR LSET against key not holding a list value\r\n") s)
    ]
  ]
