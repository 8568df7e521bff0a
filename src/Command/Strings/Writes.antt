-- ===== src/Command/Strings/Writes.antt =====
-- What SET, SETNX, DEL, INCR and DECR of src/commands/command.c do to the databases.
use cutis.Common.{
  ℕ, ◌<◌, ◌≡◌, refl, subst, inl, inr, Option, none, some, [], ◌∷◌, arith, Option-cases, Bytes,
  length, Run, ok, ◌>>=◌, Returns,
}
use cutis.Common.Int.{ℤ}
use cutis.Dict.{dict_ok, dict_err}
use cutis.Shared
use cutis.Store.{Obj, string, State, add_reply, arg, touch, add_key, replace_key}
use cutis.Store.Laws.{value, ValidObj, Valid, HasRoom, Valid-Updated, Updated-trans}
use cutis.Store.Calls.{
  find_key-value, add_key-new, add_key-old, replace_key-Updated, delete_key-new, delete_key-old,
}
use cutis.Store.Effect.{Effect, Updated-Effect, add_reply-Effect, touch-Effect}
use cutis.Command.Strings.{
  set_generic_command, set_command, setnx_command, del_command, add_llong, number_of,
  incr_decr_command,
}
use cutis.Decimal.{print_int}

-- The object that was there first.
abbrev pub first_of : Option Obj → Obj → Option Obj
first_of none o = some o
first_of (some x) o = some x

-- How many keys there are to delete.
abbrev pub found : Option Obj → ℕ
found none = 0
found (some x) = 1

module _ (s : State) (valid : Valid s) (k : Bytes) (key : arg 1 s ≡ ok k) where
  module _ (o : Obj) (ok_o : ValidObj (some o)) (room : HasRoom s s.client.dict) where
    -- DictAdd, and DictReplace where that fails, as SET and INCR do it before `f`.
    stored :
        (f : State → Run State)
        → (b : State) × (((do
          (ret, s') ← add_key s.client.dict k o s
          s'' ← elim ret [ dict_err ↦ replace_key s.client.dict k o s' | dict_ok ↦ ok s' ]
          f s''))
            ≡ f b)
          × Effect s b s.client.dict k (some o) [] 0
    stored f = elim (Option-cases (value s s.client.dict k)) [
      | inl new ↦
          let ((st, b), run, (status, u)) =
            add_key-new s valid s.client.dict valid.selected k o room new in
          (
            b,
            rw (run, ◌>>=◌, status, ◌>>=◌) refl,
            Updated-Effect s b s.client.dict k (some o) valid u ok_o,
          )
      | inr (x, old) ↦
          let ((st, a), run, (status, roomy, u)) =
            add_key-old s valid s.client.dict valid.selected k o x room old in
          let ok_x = subst ValidObj old (valid.objects s.client.dict k) in
          let ok_a = Valid-Updated s a s.client.dict k (some x) valid u ok_x in
          let inside : s.client.dict < length a.server.dicts =
            omega (arith, u.width, valid.selected) in
          let (b, run', w) = replace_key-Updated a ok_a s.client.dict inside k o roomy in
          let both = Updated-trans s a b s.client.dict k (some x) (some o) u w in
          (
            b,
            rw (run, ◌>>=◌, status, run', ◌>>=◌) refl,
            Updated-Effect s b s.client.dict k (some o) valid both ok_o,
          )
    ]

  module _ (v : Bytes) (argument : arg 2 s ≡ ok v) (room : HasRoom s s.client.dict) where
    -- SET in a valid state with room for a key in the selected database ends without a fault:
    -- the key has the string, every other key of every database is as before, one change is
    -- counted, the one reply is +OK, and the state is valid.
    pub set_command-Effect :
        Returns (set_command s) λ r. Effect s r s.client.dict k (some (string v)) (Shared.ok ∷ []) 1
    unfolding set_command set_generic_command
    set_command-Effect =
        let (b, run, e) = stored (string v) tt room (λ b. ok (add_reply Shared.ok (touch b))) in
        (
          add_reply Shared.ok (touch b),
          rw (key, ◌>>=◌, argument, ◌>>=◌) run,
          add_reply-Effect (touch-Effect e) Shared.ok,
        )

    -- SETNX in a valid state with room for a key ends without a fault: a missing key gets the
    -- string, a key that is there keeps its value, every other key is as before, and in both
    -- cases the reply is +OK and one change is counted.
    pub setnx_command-Effect : Returns (setnx_command s) λ r.
        Effect s r s.client.dict k
          (first_of (value s s.client.dict k) (string v))
          (Shared.ok ∷ [])
          1
    unfolding setnx_command set_generic_command
    setnx_command-Effect = elim (Option-cases (value s s.client.dict k)) [
      | inl new ↦
          let ((st, b), run, (status, u)) =
            add_key-new s valid s.client.dict valid.selected k (string v) room new in
          (
            add_reply Shared.ok (touch b),
            rw (key, ◌>>=◌, argument, ◌>>=◌, run, ◌>>=◌, status, ◌>>=◌) refl,
            rw new (
                add_reply-Effect
                  (touch-Effect (Updated-Effect s b s.client.dict k (some (string v)) valid u tt))
                  Shared.ok),
          )
      | inr (x, old) ↦
          let ((st, b), run, (status, _, u)) =
            add_key-old s valid s.client.dict valid.selected k (string v) x room old in
          let ok_x = subst ValidObj old (valid.objects s.client.dict k) in
          (
            add_reply Shared.ok (touch b),
            rw (key, ◌>>=◌, argument, ◌>>=◌, run, ◌>>=◌, status, ◌>>=◌) refl,
            rw old (
                add_reply-Effect
                  (touch-Effect (Updated-Effect s b s.client.dict k (some x) valid u ok_x))
                  Shared.ok),
          )
    ]

  -- DEL in a valid state ends without a fault: the key is gone, every other key is as before,
  -- the reply is +OK, and one change is counted if the key was there and none otherwise.
  pub del_command-Effect :
      Returns
        (del_command s)
        λ r. Effect s r s.client.dict k none (Shared.ok ∷ []) (found (value s s.client.dict k))
  unfolding del_command
  del_command-Effect = elim (Option-cases (value s s.client.dict k)) [
    | inl new ↦
        let ((st, b), run, (status, u)) =
          delete_key-new s valid s.client.dict valid.selected k new in
        (
          add_reply Shared.ok b,
          rw (key, ◌>>=◌, run, ◌>>=◌, status) refl,
          rw new (add_reply-Effect (Updated-Effect s b s.client.dict k none valid u tt) Shared.ok),
        )
    | inr (x, old) ↦
        let ((st, b), run, (status, u)) =
          delete_key-old s valid s.client.dict valid.selected k x old in
        (
          add_reply Shared.ok (touch b),
          rw (key, ◌>>=◌, run, ◌>>=◌, status) refl,
          rw old (
              add_reply-Effect (touch-Effect (Updated-Effect s b s.client.dict k none valid u tt))
                Shared.ok),
        )
  ]

  -- INCR and DECR.
  pub incr_decr_command-Effect :
      (incr n : ℤ)
      → HasRoom s s.client.dict
      → add_llong (number_of (value s s.client.dict k)) incr ≡ ok n
      → Returns (incr_decr_command incr s) λ r.
        Effect s r s.client.dict k (some (string (print_int n))) (print_int n ∷ Shared.crlf ∷ []) 1
  unfolding incr_decr_command
  incr_decr_command-Effect incr n room fits =
      let (b, run, e) =
        stored (string (print_int n)) tt room
          (λ b. ok (add_reply Shared.crlf (add_reply (print_int n) (touch b)))) in
      (
        add_reply Shared.crlf (add_reply (print_int n) (touch b)),
        rw (key, ◌>>=◌, find_key-value s valid s.client.dict valid.selected k, ◌>>=◌, fits, ◌>>=◌)
            run,
        add_reply-Effect (add_reply-Effect (touch-Effect e) (print_int n)) Shared.crlf,
      )
