-- ===== src/Examples/Lists.antt =====
-- The commands on lists at concrete requests.
use cutis.Common.{◌≡◌, refl, sym, ap, subst, arith, [], ◌∷◌, codes, Run, ok, fault, Returns}
use cutis.Adlist.{head, tail}
use cutis.Decimal.{atoi}
use cutis.Dict
use cutis.Dict.{at}
use cutis.Store.{State, arg}
use cutis.Store.Laws.{value, Valid, HasRoom}
use cutis.Command.Strings.Reads.{request, request-Valid}
use cutis.Command.Lists.{push_generic_command, pop_generic_command, lrange_command}
use cutis.Command.Lists.Ends.{
  HasOutcome, push_outcome, pop_outcome, push_generic_command-Effect, pop_generic_command-Effect,
}
use cutis.Command.Lists.Indexed.{lrange_outcome, lrange_command-Effect}
use cutis.Examples.Data.{empty_state, empty_state-Valid}

abbrev list_request : State
list_request = request (codes "lrange" ∷ codes "l" ∷ codes "0" ∷ codes "-1" ∷ []) empty_state

list_request-Valid : Valid list_request
list_request-Valid = request-Valid _ empty_state empty_state-Valid

list_key : arg 1 list_request ≡ ok (codes "l")
unfolding arg at
list_key = refl

list_first_argument : arg 2 list_request ≡ ok (codes "0")
unfolding arg at
list_first_argument = refl

list_second_argument : arg 3 list_request ≡ ok (codes "-1")
unfolding arg at
list_second_argument = refl

list_room : HasRoom list_request 0
unfolding Dict.reset
list_room = omega arith

push_generic_command-Effect_example : Returns (push_generic_command tail list_request) λ r.
    HasOutcome list_request
      (codes "l")
      r
      (push_outcome tail (codes "0") (value list_request 0 (codes "l")))
push_generic_command-Effect_example =
    push_generic_command-Effect list_request list_request-Valid (codes "l") list_key tail
      (codes "0") list_first_argument list_room

-- The list with one element, and the next request about it.
abbrev state_after : Run State → State
state_after (ok s) = s
state_after (fault e) = empty_state

abbrev one_request : State
one_request =
    request (codes "lrange" ∷ codes "l" ∷ codes "0" ∷ codes "-1" ∷ [])
      (state_after (push_generic_command tail list_request))

one_request-Valid : Valid one_request
one_request-Valid =
    let (r, run, e) =
      push_generic_command-Effect list_request list_request-Valid (codes "l") list_key tail
        (codes "0") list_first_argument list_room in
    request-Valid _ _ (subst Valid (sym (ap state_after run)) e.valid)

one_key : arg 1 one_request ≡ ok (codes "l")
unfolding arg at
one_key = refl

one_first_argument : arg 2 one_request ≡ ok (codes "0")
unfolding arg at
one_first_argument = refl

one_second_argument : arg 3 one_request ≡ ok (codes "-1")
unfolding arg at
one_second_argument = refl

pop_generic_command-Effect_example : Returns (pop_generic_command head one_request) λ r.
    HasOutcome one_request
      (codes "l")
      r
      (pop_outcome head (value one_request one_request.client.dict (codes "l")))
pop_generic_command-Effect_example =
    pop_generic_command-Effect one_request one_request-Valid (codes "l") one_key head

lrange_command-Effect_example : Returns (lrange_command one_request) λ r.
    HasOutcome one_request (codes "l") r (
      lrange_outcome
        (atoi (codes "0"))
        (atoi (codes "-1"))
        (value one_request one_request.client.dict (codes "l")))
lrange_command-Effect_example =
    lrange_command-Effect one_request one_request-Valid (codes "l") one_key (codes "0") (codes "-1")
      one_first_argument one_second_argument
