-- ===== src/Command/Sets/Members.antt =====
-- What SISMEMBER of src/commands/command.c answers.
use cutis.Common.{
  ◌≡◌, refl, subst, inl, inr, Option, none, some, [], ◌∷◌, Option-cases, Bytes, codes, ok, ◌>>=◌,
  Returns,
}
use cutis.Shared
use cutis.Store.{Obj, string, list, set, State, add_reply, arg}
use cutis.Store.Laws.{value, ValidObj, Valid}
use cutis.Store.Calls.{find_key-value}
use cutis.Store.Effect.{Effect, reply-Effect}
use cutis.Key.{sds_dict_type}
use cutis.Dict.Resize.{IsValid, lookup}
use cutis.Dict.Methods.{find-lookup}
use cutis.Command.Sets.{Set, sismember_command}

-- The reply about an entry of a set, and about what is under a key.
abbrev pub member_reply : Option (Bytes × Unit {0}) → Bytes
member_reply none = Shared.zero
member_reply (some e) = Shared.one

abbrev pub sismember_reply : Bytes → Option Obj → Bytes
sismember_reply el (some (set d)) = member_reply (lookup d el)
sismember_reply el o = codes "-1\r\n"

module _ (s : State) (valid : Valid s) (k el : Bytes) (key : arg 1 s ≡ ok k)
    (argument : arg 2 s ≡ ok el) where
  sismember-set :
      (d : Set)
      → value s s.client.dict k ≡ some (set d)
      → Returns
          (sismember_command s)
          λ r. Effect s r s.client.dict k (some (set d)) (member_reply (lookup d el) ∷ []) 0
  unfolding sismember_command
  sismember-set d old =
      let found = find_key-value s valid s.client.dict valid.selected k in
      let ok_d : IsValid d = subst ValidObj old (valid.objects s.client.dict k) in
      let e = λ (x : Bytes). reply-Effect s s.client.dict k (some (set d)) x valid old in
      elim (Option-cases (lookup d el)) [
        | inl absent ↦ (
          add_reply Shared.zero s,
          rw (key, ◌>>=◌, found, ◌>>=◌, old, argument, ◌>>=◌, find-lookup d el ok_d, ◌>>=◌, absent)
              refl,
          rw (member_reply, absent) (e Shared.zero),
        )
        | inr (x, there) ↦ (
          add_reply Shared.one s,
          rw (key, ◌>>=◌, found, ◌>>=◌, old, argument, ◌>>=◌, find-lookup d el ok_d, ◌>>=◌, there)
              refl,
          rw (member_reply, there) (e Shared.one),
        )
      ]

  -- SISMEMBER in a valid state ends without a fault and changes no key: it replies 1 if the set
  -- under the key has the element and 0 if it lacks it, and -1 for a missing key or a value that
  -- is no set.
  pub sismember_command-Effect : Returns (sismember_command s) λ r.
      Effect s r s.client.dict k
        (value s s.client.dict k)
        (sismember_reply el (value s s.client.dict k) ∷ [])
        0
  unfolding sismember_command
  sismember_command-Effect =
      let found = find_key-value s valid s.client.dict valid.selected k in
      let e = λ (o : Option Obj) (old : value s s.client.dict k ≡ o).
        reply-Effect s s.client.dict k o (codes "-1\r\n") valid old in
      elim (Option-cases (value s s.client.dict k)) [
        | inl new ↦ (
          add_reply (codes "-1\r\n") s,
          rw (key, ◌>>=◌, found, ◌>>=◌, new) refl,
          rw new (e none new),
        )
        | inr (string v, old) ↦ (
          add_reply (codes "-1\r\n") s,
          rw (key, ◌>>=◌, found, ◌>>=◌, old) refl,
          rw old (e (some (string v)) old),
        )
        | inr (list l, old) ↦ (
          add_reply (codes "-1\r\n") s,
          rw (key, ◌>>=◌, found, ◌>>=◌, old) refl,
          rw old (e (some (list l)) old),
        )
        | inr (set d, old) ↦ rw old (sismember-set d old)
      ]
