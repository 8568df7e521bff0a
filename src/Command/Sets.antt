-- ===== src/Command/Sets.antt =====
-- The commands on sets of src/commands/command.c.
pub mod Members
use cutis.Common.{
  ℕ, ◌+◌, Bool, true, false, Option, none, some, List, [], ◌∷◌, Bytes, codes, leb, if◌then◌else◌,
  length, set as set_elem, Run, ok, fault, null_pointer, use_after_free, ◌>>=◌,
}
use cutis.Dict
use cutis.Dict.{Dict, Status, dict_ok, dict_err}
use cutis.Dict.Iterator.{iterate}
use cutis.Key.{sds_dict_type}
use cutis.Shared
use cutis.Store.{set, State, add_reply, reply_bulk, arg, touch, find_key, add_key, change_object}

abbrev pub Set : Type 0
Set = Dict Bytes (Unit {0})

-- The second half of SADD: the element goes into the set `d` that the key leads to.
unfoldable pub add_element : Bytes → Bytes → Set → State → Run State
unfolding change_object touch add_reply
add_element k el d s = do
  (ret, d') ← Dict.add d el tt
  s' ← change_object s.client.dict k (set d') s
  ok (add_reply Shared.ok (elim ret [ dict_ok ↦ touch s' | dict_err ↦ s' ]))

unfoldable pub sadd_command : State → Run State
unfolding find_key add_key add_element Dict.create arg add_reply
sadd_command s = do
  k ← arg 1 s
  el ← arg 2 s
  de ← find_key s.client.dict k s
  elim de [
    | none ↦ do
      (_, s') ← add_key s.client.dict k (set Dict.create) s
      add_element k el Dict.create s'
    | some o ↦ elim o [
      | set d ↦ add_element k el d s
      | _ ↦ ok (add_reply (codes "-ERR SADD against key not holding a set value\r\n") s)
    ]
  ]

unfoldable pub srem_command : State → Run State
unfolding find_key change_object arg touch add_reply
srem_command s = do
  k ← arg 1 s
  de ← find_key s.client.dict k s
  elim de [
    | none ↦ ok (add_reply (codes "-ERR no such key\r\n") s)
    | some o ↦ elim o [
      | set d ↦ do
        el ← arg 2 s
        (ret, d') ← Dict.delete d el
        s' ← change_object s.client.dict k (set d') s
        ok (add_reply Shared.ok (elim ret [ dict_ok ↦ touch s' | dict_err ↦ s' ]))
      | _ ↦ ok (add_reply (codes "-ERR SREM against key not holding a set value\r\n") s)
    ]
  ]

unfoldable pub sismember_command : State → Run State
unfolding find_key arg add_reply
sismember_command s = do
  k ← arg 1 s
  de ← find_key s.client.dict k s
  elim de [
    | none ↦ ok (add_reply (codes "-1\r\n") s)
    | some o ↦ elim o [
      | set d ↦ do
        el ← arg 2 s
        found ← Dict.find d el
        ok (elim found [ none ↦ add_reply Shared.zero s | some _ ↦ add_reply Shared.one s ])
      | _ ↦ ok (add_reply (codes "-1\r\n") s)
    ]
  ]

unfoldable pub scard_command : State → Run State
unfolding find_key Dict.get_hash_table_used arg add_reply
scard_command s = do
  k ← arg 1 s
  de ← find_key s.client.dict k s
  elim de [
    | none ↦ ok (add_reply Shared.zero s)
    | some o ↦ elim o [
      | set d ↦ ok (add_reply (Shared.number_line (Dict.get_hash_table_used d)) s)
      | _ ↦ ok (add_reply (codes "-1\r\n") s)
    ]
  ]

-- `qsort` by cardinality, the smallest set first.
unfoldable pub insert_set : Set → List Set → List Set
insert_set d [] = d ∷ []
insert_set d (e ∷ dv) = if leb d.used e.used then d ∷ e ∷ dv else e ∷ insert_set d dv

unfoldable pub sort_sets : List Set → List Set
unfolding insert_set
sort_sets [] = []
sort_sets (d ∷ dv) = insert_set d (sort_sets dv)

-- The first loop of SINTER; `none` is a key that is not there. At a key of another type the code
-- frees `dv` and goes on to write into it.
unfoldable pub gather_sets : List Bytes → State → Run (Option (List Set))
unfolding find_key
gather_sets [] s = ok (some [])
gather_sets (k ∷ ks) s = do
  de ← find_key s.client.dict k s
  elim de [
    | none ↦ ok none
    | some o ↦ elim o [
      | set d ↦ do rest ← gather_sets ks s; ok (elim rest [ none ↦ none | some dv ↦ some (d ∷ dv) ])
      | _ ↦ fault use_after_free
    ]
  ]

-- Is the element in each of the other sets? The loop ends at the first that lacks it.
unfoldable pub in_all : List Set → Bytes → Run Bool
in_all [] el = ok true
in_all (d ∷ dv) el = do
  found ← Dict.find d el
  elim found [ none ↦ ok false | some _ ↦ in_all dv el ]

-- The loop over the first set, with the number of elements found so far.
unfoldable pub reply_common : List (Bytes × Unit {0}) → List Set → ℕ → State → Run (ℕ × State)
unfolding in_all reply_bulk
reply_common [] dv cardinality s = ok (cardinality, s)
reply_common (e ∷ es) dv cardinality s = do
  everywhere ← in_all dv e.0
  if everywhere
      then reply_common es dv (cardinality + 1) (reply_bulk e.0 s)
      else reply_common es dv cardinality s

-- `lenobj->ptr = …`, at the place that was kept for it in the reply.
unfoldable pub fill_reply : ℕ → Bytes → State → State
fill_reply i text s = record s {
  client = record s.client { reply = set_elem s.client.reply i text };
}

-- `c->argv` from its second element on.
abbrev pub arguments : List Bytes → List Bytes
arguments [] = []
arguments (_ ∷ args) = args

unfoldable pub sinter_command : State → Run State
unfolding gather_sets sort_sets iterate reply_common fill_reply add_reply
sinter_command s = do
  dv ← gather_sets (arguments s.client.argv) s
  elim dv [
    | none ↦ ok (add_reply (Shared.error_bulk (codes "No such key")) s)
    | some sets ↦ elim (sort_sets sets) [
      | [] ↦ fault null_pointer
      | d ∷ rest ↦ do
        es ← iterate d
        (cardinality, s') ← reply_common es rest 0 (add_reply [] s)
        ok (fill_reply (length s.client.reply) (Shared.number_line cardinality) s')
    ]
  ]
