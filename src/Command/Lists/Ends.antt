-- ===== src/Command/Lists/Ends.antt =====
-- What RPUSH, LPUSH, RPOP and LPOP of src/commands/command.c do to the databases, on every branch.
use cutis.Common.{
  ℕ, ◌≡◌, ◌⊎◌, refl, subst, inl, inr, Option, none, some, List, [], ◌∷◌, ◌++◌, Option-cases, Bytes,
  codes, length, ok, ◌>>=◌, Returns,
}
use cutis.Shared
use cutis.Store.{
  Obj, string, list, set, State, add_reply, reply_bulk, arg, touch, find_key, change_object,
}
use cutis.Store.Laws.{value, ValidObj, Valid, HasRoom}
use cutis.Store.Calls.{find_key-value, add_key-new}
use cutis.Store.Effect.{
  Effect, bulk, reply_bulk-Effect, reply-Effect, change_object-Effect, Updated-Effect, same-Effect,
  add_reply-Effect, touch-Effect,
}
use cutis.Adlist.{
  End, head, tail, list_first, list_last, list_node_value, del_at, list_del_node,
  list_add_node_head, list_add_node_tail,
}
use cutis.Command.Lists.{push, push_generic_command, end_node, pop_generic_command}

-- What a command leaves under its key, what it replies and how many changes it counts.
abbrev pub Outcome : Type 0
Outcome = Option Obj × List Bytes × ℕ

abbrev push_error : Bytes
push_error = codes "-ERR push against existing key not holding a list \r\n"

abbrev pub pushed : End → List Bytes → Bytes → List Bytes
pushed head l el = el ∷ l
pushed tail l el = l ++ el ∷ []

push-pushed : (e : End) (l : List Bytes) (el : Bytes) → push e l el ≡ pushed e l el
unfolding list_add_node_head list_add_node_tail
push-pushed head l el = refl
push-pushed tail l el = refl

abbrev pub push_outcome : End → Bytes → Option Obj → Outcome
push_outcome e el none = (some (list (pushed e [] el)), Shared.ok ∷ [], 1)
push_outcome e el (some (list l)) = (some (list (pushed e l el)), Shared.ok ∷ [], 1)
push_outcome e el (some o) = (some o, push_error ∷ [], 0)

abbrev pub HasOutcome : State → Bytes → State → Outcome → Type 0
HasOutcome s k r out = Effect s r s.client.dict k out.0 out.1 out.2

module _ (s : State) (valid : Valid s) (k : Bytes) (key : arg 1 s ≡ ok k) where
  pub there : find_key s.client.dict k s ≡ ok (value s s.client.dict k)
  there = find_key-value s valid s.client.dict valid.selected k

  pub change :
      (l : List Bytes) (o : Obj)
      → value s s.client.dict k ≡ some (list l)
      → ValidObj (some o)
      → Returns (change_object s.client.dict k o s) λ c. Effect s c s.client.dict k (some o) [] 0
  change l o old ok_o =
      change_object-Effect s s s.client.dict k (list l) o [] 0
        (same-Effect s s.client.dict k (some (list l)) valid old) valid.selected ok_o

  -- RPUSH and LPUSH in a valid state with room for a key end without a fault: the element stands
  -- at the tail or at the head of the list, which is new if the key was missing, with +OK and
  -- one change; a value that is no list is kept, with the error and no change; every other key
  -- is as before.
  pub push_generic_command-Effect :
      (e : End) (el : Bytes)
      → arg 2 s ≡ ok el
      → HasRoom s s.client.dict
      → Returns
          (push_generic_command e s)
          λ r. HasOutcome s k r (push_outcome e el (value s s.client.dict k))
  unfolding push_generic_command
  push_generic_command-Effect e el argument room =
      let same = λ (o : Obj) (old : value s s.client.dict k ≡ some o).
        reply-Effect s s.client.dict k (some o) push_error valid old in
      elim (Option-cases (value s s.client.dict k)) [
        | inl new ↦
            let o = list (push e [] el) in
            let ((st, b), run, (status, u)) =
              add_key-new s valid s.client.dict valid.selected k o room new in
            (
              add_reply Shared.ok (touch b),
              rw (key, ◌>>=◌, argument, ◌>>=◌, there, ◌>>=◌, new, run, ◌>>=◌) refl,
              rw new (
                  subst
                    (λ l.
                      HasOutcome s k (add_reply Shared.ok (touch b))
                        (some (list l), Shared.ok ∷ [], 1))
                    (push-pushed e [] el)
                    (add_reply-Effect
                      (touch-Effect (Updated-Effect s b s.client.dict k (some o) valid u tt))
                      Shared.ok)),
            )
        | inr (string v, old) ↦ (
          add_reply push_error s,
          rw (key, ◌>>=◌, argument, ◌>>=◌, there, ◌>>=◌, old) refl,
          rw old (same (string v) old),
        )
        | inr (set d, old) ↦ (
          add_reply push_error s,
          rw (key, ◌>>=◌, argument, ◌>>=◌, there, ◌>>=◌, old) refl,
          rw old (same (set d) old),
        )
        | inr (list l, old) ↦
            let (b, run, e') = change l (list (push e l el)) old tt in
            (
              add_reply Shared.ok (touch b),
              rw (key, ◌>>=◌, argument, ◌>>=◌, there, ◌>>=◌, old, run, ◌>>=◌) refl,
              rw old (
                  subst
                    (λ l'.
                      HasOutcome s k (add_reply Shared.ok (touch b))
                        (some (list l'), Shared.ok ∷ [], 1))
                    (push-pushed e l el) (add_reply-Effect (touch-Effect e') Shared.ok)),
            )
      ]

-- The element at an end, and the list without it.
abbrev pub last_of : List Bytes → Option (Bytes × List Bytes)
last_of [] = none
last_of (x ∷ l) = elim (last_of l) [ none ↦ some (x, []) | some p ↦ some (p.0, x ∷ p.1) ]

abbrev pub popped : End → List Bytes → Option (Bytes × List Bytes)
popped head [] = none
popped head (x ∷ l) = some (x, l)
popped tail l = last_of l

-- What the list calls of a pop read and leave.
last_calls :
    (y : Bytes) (l : List Bytes)
    → (x : Bytes) × (list_node_value (y ∷ l) (some (length l)) ≡ ok x)
      × (last_of (y ∷ l) ≡ some (x, del_at (y ∷ l) (length l)))
unfolding list_node_value del_at
last_calls y [] = (y, refl, refl)
last_calls y (z ∷ l) = let (x, read, last) = last_calls z l in (x, read, rw last refl)

pop_calls :
    (e : End) (l : List Bytes)
    → ((end_node e l ≡ none) × (popped e l ≡ none))
      ⊎ ((ln : ℕ) × (x : Bytes) × (end_node e l ≡ some ln)
          × (list_node_value l (some ln) ≡ ok x)
          × (popped e l ≡ some (x, del_at l ln)))
unfolding list_first list_last list_node_value del_at
pop_calls head [] = inl (refl, refl)
pop_calls head (x ∷ l) = inr (0, x, refl, refl, refl)
pop_calls tail [] = inl (refl, refl)
pop_calls tail (y ∷ l) = let (x, read, last) = last_calls y l in inr (length l, x, refl, read, last)

abbrev pub pop_error : Bytes
pop_error = Shared.error_bulk (codes "POP against key not holding a list value")

abbrev pub pop_outcome : End → Option Obj → Outcome
pop_outcome e none = (none, Shared.nil ∷ [], 0)
pop_outcome e (some (list l)) = elim (popped e l) [
  | none ↦ (some (list l), Shared.nil ∷ [], 0)
  | some p ↦ (some (list p.1), bulk p.0, 1)
]
pop_outcome e (some o) = (some o, pop_error ∷ [], 0)

module _ (s : State) (valid : Valid s) (k : Bytes) (key : arg 1 s ≡ ok k) where
  popped-Effect :
      (e : End) (l : List Bytes)
      → value s s.client.dict k ≡ some (list l)
      → Returns (pop_generic_command e s) λ r. HasOutcome s k r (pop_outcome e (some (list l)))
  unfolding pop_generic_command list_del_node add_reply reply_bulk
  popped-Effect e l old =
      let found = there s valid k key in
      let i = s.client.dict in
      elim (pop_calls e l) [
        | inl (nothing, p) ↦ (
          add_reply Shared.nil s,
          rw (key, ◌>>=◌, found, ◌>>=◌, old, nothing) refl,
          rw (pop_outcome, p) (reply-Effect s i k (some (list l)) Shared.nil valid old),
        )
        | inr (ln, x, node, read, p) ↦
            let (b, run, e') =
              change_object-Effect s (reply_bulk x s) i k (list l) (list (del_at l ln)) (bulk x) 0
                (reply_bulk-Effect (same-Effect s i k (some (list l)) valid old) x) valid.selected
                tt in
            (
              touch b,
              rw (key, ◌>>=◌, found, ◌>>=◌, old, node, read, ◌>>=◌, run, ◌>>=◌) refl,
              rw (pop_outcome, p) (touch-Effect e'),
            )
      ]

  -- RPOP and LPOP in a valid state end without a fault: they reply the last or the first element
  -- and leave the list without it, with one change; they reply nil for a missing key or an empty
  -- list and the error for a value that is no list, and then change nothing; every other key is
  -- as before.
  pub pop_generic_command-Effect :
      (e : End)
      → Returns
          (pop_generic_command e s)
          λ r. HasOutcome s k r (pop_outcome e (value s s.client.dict k))
  unfolding pop_generic_command
  pop_generic_command-Effect e =
      let found = there s valid k key in
      let same = λ (o : Obj) (old : value s s.client.dict k ≡ some o).
        reply-Effect s s.client.dict k (some o) pop_error valid old in
      elim (Option-cases (value s s.client.dict k)) [
        | inl new ↦ (
          add_reply Shared.nil s,
          rw (key, ◌>>=◌, found, ◌>>=◌, new) refl,
          rw new (reply-Effect s s.client.dict k none Shared.nil valid new),
        )
        | inr (string v, old) ↦ (
          add_reply pop_error s,
          rw (key, ◌>>=◌, found, ◌>>=◌, old) refl,
          rw old (same (string v) old),
        )
        | inr (set d, old) ↦ (
          add_reply pop_error s,
          rw (key, ◌>>=◌, found, ◌>>=◌, old) refl,
          rw old (same (set d) old),
        )
        | inr (list l, old) ↦ rw old (popped-Effect e l old)
      ]
