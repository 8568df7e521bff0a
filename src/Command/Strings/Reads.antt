-- ===== src/Command/Strings/Reads.antt =====
-- What GET and EXISTS of src/commands/command.c answer, and what they answer after a write.
use cutis.Common.{
  ℕ, ◌+◌, ◌≤◌, ◌≡◌, refl, ap, ◌∙◌, inl, inr, Option, none, some, List, [], ◌∷◌, arith, ==_iff,
  Option-cases, if◌then◌else◌, Bytes, codes, ok, ◌>>=◌, Returns,
}
use cutis.Common.Int.{ℤ, pos, ◌+ℤ◌, pos_part, neg_part}
use cutis.Shared
use cutis.Store.{Obj, string, list, set, State, add_reply, reply_bulk, arg}
use cutis.Store.Laws.{value, Valid, HasRoom}
use cutis.Store.Calls.{find_key-value}
use cutis.Store.Effect.{
  Effect, bulk, reply_bulk-Effect, same-Effect, add_reply-Effect, Effect-value,
}
use cutis.Command.Strings.{
  set_command, get_command, exists_command, del_command, add_llong, number_of, incr_decr_command,
}
use cutis.Command.Strings.Writes.{set_command-Effect, del_command-Effect, incr_decr_command-Effect}
use cutis.Decimal.{llong_max, strtoll, print_int}
use cutis.Key.{sds_dict_type}
use cutis.Dict.{at}
use cutis.Decimal.RoundTrip.{strtoll-print_int}

-- The replies of GET.
abbrev pub get_reply : Option Obj → List Bytes
get_reply none = Shared.nil ∷ []
get_reply (some (string v)) = bulk v
get_reply (some _) = Shared.error_bulk (codes "GET against key not holding a string value") ∷ []

abbrev pub exists_reply : Option Obj → Bytes
exists_reply none = Shared.zero
exists_reply (some x) = Shared.one

-- The client's next request, with the replies to the last one sent.
abbrev pub request : List Bytes → State → State
request argv s = record s { client = record s.client { argv = argv; reply = [] } }

abbrev no_string : Bytes
no_string = Shared.error_bulk (codes "GET against key not holding a string value")

module _ (s : State) (valid : Valid s) (k : Bytes) (key : arg 1 s ≡ ok k) where
  -- GET in a valid state ends without a fault and changes no key: it replies the length and the
  -- string, nil for a missing key, and the error for a value that is no string.
  pub get_command-Effect : Returns (get_command s) λ r.
      Effect s r s.client.dict k (value s s.client.dict k) (get_reply (value s s.client.dict k)) 0
  unfolding get_command reply_bulk
  get_command-Effect =
      let there = find_key-value s valid s.client.dict valid.selected k in
      let e = λ (o : Option Obj) (h : value s s.client.dict k ≡ o).
        same-Effect s s.client.dict k o valid h in
      elim (Option-cases (value s s.client.dict k)) [
        | inl new ↦ (
          add_reply Shared.nil s,
          rw (key, ◌>>=◌, there, ◌>>=◌, new) refl,
          rw new (add_reply-Effect (e none new) Shared.nil),
        )
        | inr (string v, old) ↦ (
          reply_bulk v s,
          rw (key, ◌>>=◌, there, ◌>>=◌, old) refl,
          rw old (reply_bulk-Effect (e (some (string v)) old) v),
        )
        | inr (list l, old) ↦ (
          add_reply no_string s,
          rw (key, ◌>>=◌, there, ◌>>=◌, old) refl,
          rw old (add_reply-Effect (e (some (list l)) old) no_string),
        )
        | inr (set d, old) ↦ (
          add_reply no_string s,
          rw (key, ◌>>=◌, there, ◌>>=◌, old) refl,
          rw old (add_reply-Effect (e (some (set d)) old) no_string),
        )
      ]

  -- EXISTS in a valid state ends without a fault, changes no key, and replies 1 if the key is
  -- there and 0 otherwise.
  pub exists_command-Effect : Returns (exists_command s) λ r.
      Effect s r s.client.dict k
        (value s s.client.dict k)
        (exists_reply (value s s.client.dict k) ∷ [])
        0
  unfolding exists_command
  exists_command-Effect =
      let there = find_key-value s valid s.client.dict valid.selected k in
      let e = λ (o : Option Obj) (h : value s s.client.dict k ≡ o).
        same-Effect s s.client.dict k o valid h in
      elim (Option-cases (value s s.client.dict k)) [
        | inl new ↦ (
          add_reply Shared.zero s,
          rw (key, ◌>>=◌, there, ◌>>=◌, new) refl,
          rw new (add_reply-Effect (e none new) Shared.zero),
        )
        | inr (x, old) ↦ (
          add_reply Shared.one s,
          rw (key, ◌>>=◌, there, ◌>>=◌, old) refl,
          rw old (add_reply-Effect (e (some x) old) Shared.one),
        )
      ]

pub add_llong-ok :
    (a b : ℤ)
    → pos_part (a +ℤ b) ≤ llong_max
    → neg_part (a +ℤ b) ≤ llong_max + 1
    → add_llong a b ≡ ok (a +ℤ b)
unfolding add_llong
add_llong-ok a b low high = ground arith

pub request-Valid : (argv : List Bytes) (s : State) → Valid s → Valid (request argv s)
request-Valid argv s valid = record {
  tables = valid.tables;
  objects = valid.objects;
  selected = valid.selected;
  counted = valid.counted;
}

request-arg : (c k : Bytes) (s : State) → arg 1 (request (c ∷ k ∷ []) s) ≡ ok k
unfolding arg at
request-arg c k s = refl

module _ (s : State) (valid : Valid s) (k q c : Bytes) (key : arg 1 s ≡ ok k) where
  -- What GET answers about `q` in the request after a command of effect `o` on `k`.
  get_after :
      (r : State) (o : Option Obj) (rs : List Bytes) (n : ℕ)
      → Effect s r s.client.dict k o rs n
      → Returns (get_command (request (c ∷ q ∷ []) r)) λ g.
        g.client.reply
        ≡ get_reply (if sds_dict_type.key_compare q k then o else value s s.client.dict q)
  get_after r o rs n e =
      let valid' = request-Valid (c ∷ q ∷ []) r e.valid in
      let (g, run, h) = get_command-Effect (request (c ∷ q ∷ []) r) valid' q (request-arg c q r) in
      (
        g,
        run,
        h.reply
            ∙ ap get_reply (
                ap (λ j. value r j q) e.dict
                ∙ e.values s.client.dict q
                ∙ rw ((==_iff s.client.dict s.client.dict).1 refl) refl),
      )

  -- After a SET in a valid state with room for a key, GET of any key ends without a fault and
  -- replies the string that was set if it is the key of the SET, and what was there before the
  -- SET otherwise.
  pub get_command-set_command :
      (v : Bytes)
      → arg 2 s ≡ ok v
      → HasRoom s s.client.dict
      → Returns (set_command s >>= λ r. get_command (request (c ∷ q ∷ []) r)) λ g.
        g.client.reply
        ≡ get_reply
            (if sds_dict_type.key_compare q k then some (string v) else value s s.client.dict q)
  get_command-set_command v argument room =
      let (r, run, e) = set_command-Effect s valid k key v argument room in
      let (g, run', h) = get_after r _ _ _ e in (g, rw (run, ◌>>=◌) run', h)

  -- After a DEL in a valid state, GET of any key ends without a fault and replies nil if it is
  -- the deleted key, and what was there before the DEL otherwise.
  pub get_command-del_command :
      Returns (del_command s >>= λ r. get_command (request (c ∷ q ∷ []) r)) λ g.
        g.client.reply
        ≡ get_reply (if sds_dict_type.key_compare q k then none else value s s.client.dict q)
  get_command-del_command =
      let (r, run, e) = del_command-Effect s valid k key in
      let (g, run', h) = get_after r _ _ _ e in (g, rw (run, ◌>>=◌) run', h)

-- The number that a value counts as: the text of a string read by strtoll, 0 otherwise.
abbrev pub count_of : Option Obj → ℤ
count_of none = pos 0
count_of (some (string v)) = strtoll v
count_of (some (list l)) = pos 0
count_of (some (set d)) = pos 0

number_of-count_of : (o : Option Obj) → number_of o ≡ count_of o
unfolding number_of
number_of-count_of none = refl
number_of-count_of (some (string v)) = refl
number_of-count_of (some (list l)) = refl
number_of-count_of (some (set d)) = refl

module _ (s : State) (valid : Valid s) (k : Bytes) (key : arg 1 s ≡ ok k) (incr : ℤ) where
  -- What INCR and DECR make of a key.
  abbrev pub counted : ℤ
  counted = count_of (value s s.client.dict k) +ℤ incr

  -- INCR and DECR in a valid state with room for a key, where the number before (0 for a missing
  -- key, a list or a set) plus the increment is a long long, end without a fault: the key holds
  -- the text of the sum, which reads as the sum, every other key is as before, the reply is that
  -- text and a line end, and one change is counted.
  pub incr_decr_command-counted :
      HasRoom s s.client.dict
      → pos_part counted ≤ llong_max
      → neg_part counted ≤ llong_max + 1
      → Returns (incr_decr_command incr s) λ r.
        Effect s r s.client.dict k
          (some (string (print_int counted)))
          (print_int counted ∷ Shared.crlf ∷ [])
          1
        × (count_of (value r s.client.dict k) ≡ counted)
  incr_decr_command-counted room low high =
      let start = number_of-count_of (value s s.client.dict k) in
      let (r, run, e) = incr_decr_command-Effect s valid k key incr counted room (
        ap (λ n. add_llong n incr) start
        ∙ add_llong-ok (count_of (value s s.client.dict k)) incr low high) in
      (r, run, (e, ap count_of (Effect-value e) ∙ strtoll-print_int counted low high))
