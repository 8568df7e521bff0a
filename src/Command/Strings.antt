-- ===== src/Command/Strings.antt =====
-- The commands on string values of src/commands/command.c.
pub mod Writes
pub mod Reads
use cutis.Common.{
  ℕ, zero, suc, ◌+◌, ◌≤◌, Bool, true, false, ◌||◌, Option, none, some, ◌++◌, Bytes, codes, ltb,
  ◌==◌, if◌then◌else◌, length, Run, ok, fault, overflow, ◌>>=◌,
}
use cutis.Common.Int.{ℤ, pos, negsuc, ◌+ℤ◌, pos_part, neg_part}
use cutis.Decimal.{print_int, strtoll, llong_max}
use cutis.Dict.{dict_ok, dict_err}
use cutis.Shared
use cutis.Store.{
  Obj, string, list, set, State, add_reply, reply_bulk, arg, touch, find_key, add_key, replace_key,
  delete_key,
}

-- `nx` is true for SETNX.
unfoldable pub set_generic_command : Bool → State → Run State
unfolding add_key replace_key arg touch add_reply
set_generic_command nx s = do
  k ← arg 1 s
  v ← arg 2 s
  (ret, s') ← add_key s.client.dict k (string v) s
  s'' ← elim ret [
    | dict_err ↦ if nx then ok s' else replace_key s.client.dict k (string v) s'
    | dict_ok ↦ ok s'
  ]
  ok (add_reply Shared.ok (touch s''))

unfoldable pub set_command : State → Run State
unfolding set_generic_command
set_command s = set_generic_command false s

unfoldable pub setnx_command : State → Run State
unfolding set_generic_command
setnx_command s = set_generic_command true s

unfoldable pub get_command : State → Run State
unfolding find_key arg add_reply reply_bulk
get_command s = do
  k ← arg 1 s
  de ← find_key s.client.dict k s
  elim de [
    | none ↦ ok (add_reply Shared.nil s)
    | some o ↦ elim o [
      | string v ↦ ok (reply_bulk v s)
      | _ ↦
          ok (add_reply (Shared.error_bulk (codes "GET against key not holding a string value")) s)
    ]
  ]

unfoldable pub exists_command : State → Run State
unfolding find_key arg add_reply
exists_command s = do
  k ← arg 1 s
  de ← find_key s.client.dict k s
  ok (elim de [ none ↦ add_reply Shared.zero s | some _ ↦ add_reply Shared.one s ])

unfoldable pub del_command : State → Run State
unfolding delete_key arg touch add_reply
del_command s = do
  k ← arg 1 s
  (ret, s') ← delete_key s.client.dict k s
  ok (add_reply Shared.ok (elim ret [ dict_ok ↦ touch s' | dict_err ↦ s' ]))

-- `value += incr` on a long long, a fault where it overflows.
unfoldable pub add_llong : ℤ → ℤ → Run ℤ
add_llong a b =
    let sum = a +ℤ b in
    if ltb llong_max (pos_part sum) || ltb (llong_max + 1) (neg_part sum)
    then fault overflow
    else ok sum

-- What INCR and DECR start from: 0 for no string.
unfoldable pub number_of : Option Obj → ℤ
unfolding strtoll
number_of none = pos 0
number_of (some (string v)) = strtoll v
number_of (some _) = pos 0

unfoldable pub incr_decr_command : ℤ → State → Run State
unfolding find_key add_key replace_key number_of add_llong print_int arg touch add_reply
incr_decr_command incr s = do
  k ← arg 1 s
  de ← find_key s.client.dict k s
  value ← add_llong (number_of de) incr
  let newval = print_int value
  (ret, s') ← add_key s.client.dict k (string newval) s
  s'' ← elim ret [ dict_err ↦ replace_key s.client.dict k (string newval) s' | dict_ok ↦ ok s' ]
  ok (add_reply Shared.crlf (add_reply newval (touch s'')))

unfoldable pub incr_command : State → Run State
unfolding incr_decr_command
incr_command s = incr_decr_command (pos 1) s

unfoldable pub decr_command : State → Run State
unfolding incr_decr_command
decr_command s = incr_decr_command (negsuc 0) s
