-- ===== src/Examples/Strings.antt =====
-- The commands on strings, and SISMEMBER, at concrete requests.
use cutis.Common.{
  ◌≡◌, refl, ap, arith, none, some, [], ◌∷◌, codes, if◌then◌else◌, ok, ◌>>=◌, Returns,
}
use cutis.Common.Int.{pos, ◌+ℤ◌}
use cutis.Dict
use cutis.Dict.{at}
use cutis.Dict.Resize.{reset-IsValid, lookup-empty}
use cutis.Key.{sds_dict_type}
use cutis.Decimal.{print_int}
use cutis.Shared
use cutis.Store.{string, State, arg}
use cutis.Store.Laws.{value, object_of, Valid, HasRoom}
use cutis.Store.Effect.{Effect}
use cutis.Command.Strings.{set_command, setnx_command, get_command, incr_decr_command}
use cutis.Command.Strings.Writes.{first_of, set_command-Effect, setnx_command-Effect}
use cutis.Command.Strings.Reads.{
  get_reply, request, request-Valid, get_command-set_command, incr_decr_command-counted, count_of,
}
use cutis.Examples.Data.{empty_state, empty_state-Valid}

abbrev set_request : State
set_request = request (codes "set" ∷ codes "k" ∷ codes "12" ∷ []) empty_state

set_request-Valid : Valid set_request
set_request-Valid = request-Valid _ empty_state empty_state-Valid

set_key : arg 1 set_request ≡ ok (codes "k")
unfolding arg at
set_key = refl

set_argument : arg 2 set_request ≡ ok (codes "12")
unfolding arg at
set_argument = refl

pub empty_room : HasRoom set_request 0
unfolding Dict.reset
empty_room = omega arith

-- Nothing is under a key yet.
set_value : value set_request 0 (codes "k") ≡ none
unfolding Dict.reset
set_value = ap object_of (lookup-empty Dict.reset reset-IsValid refl (codes "k"))

set_command-Effect_example :
    Returns
      (set_command set_request)
      λ r. Effect set_request r 0 (codes "k") (some (string (codes "12"))) (Shared.ok ∷ []) 1
set_command-Effect_example =
    set_command-Effect set_request set_request-Valid (codes "k") set_key (codes "12") set_argument
      empty_room

setnx_command-Effect_example : Returns (setnx_command set_request) λ r.
    Effect set_request r 0
      (codes "k")
      (first_of (value set_request 0 (codes "k")) (string (codes "12")))
      (Shared.ok ∷ [])
      1
setnx_command-Effect_example =
    setnx_command-Effect set_request set_request-Valid (codes "k") set_key (codes "12") set_argument
      empty_room

get_command-set_command_example :
    Returns
      (set_command set_request >>= λ r. get_command (request (codes "get" ∷ codes "k" ∷ []) r))
      λ g.
        g.client.reply
        ≡ get_reply (
            if sds_dict_type.key_compare (codes "k") (codes "k")
            then some (string (codes "12"))
            else value set_request 0 (codes "k"))
get_command-set_command_example =
    get_command-set_command set_request set_request-Valid (codes "k") (codes "k") (codes "get")
      set_key (codes "12") set_argument empty_room

incr_decr_command-counted_example : Returns (incr_decr_command (pos 1) set_request) λ r.
    Effect set_request r 0
      (codes "k")
      (some (string (print_int (count_of (value set_request 0 (codes "k")) +ℤ pos 1))))
      (print_int (count_of (value set_request 0 (codes "k")) +ℤ pos 1) ∷ Shared.crlf ∷ [])
      1
    × (count_of (value r 0 (codes "k")) ≡ count_of (value set_request 0 (codes "k")) +ℤ pos 1)
unfolding ◌+ℤ◌
incr_decr_command-counted_example =
    incr_decr_command-counted set_request set_request-Valid (codes "k") set_key (pos 1) empty_room
      (rw set_value (omega arith)) (rw set_value (omega arith))
