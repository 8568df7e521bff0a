-- ===== src/Command/Lists/Indexed.antt =====
-- What LINDEX, LRANGE, LTRIM and LSET of src/commands/command.c do, on every branch.
use cutis.Common.{
  ◌+◌, ◌-◌, ◌≡◌, refl, sym, ap, subst, ◌∙◌, inl, inr, Option, none, some, List, [], ◌∷◌, arith,
  Option-cases, Bytes, codes, length, ok, ◌>>=◌, Returns,
}
use cutis.Common.Int.{ℤ}
use cutis.Shared
use cutis.Store.{Obj, string, list, set, State, add_reply, arg, touch}
use cutis.Store.Laws.{value, Valid}
use cutis.Store.Effect.{reply-Effect, add_reply-Effect, touch-Effect}
use cutis.Adlist.Laws.{list_index-pos}
use cutis.Command.Lists.{clip_range, lrange_command, ltrim_command}
use cutis.Command.Lists.Range.{slice, clip_range-bounds, trim_list-slice, reply_nodes-Effect}
use cutis.Command.Lists.Clipped.{between, kept_replies, slice-between, replies-between}
use cutis.Command.Lists.Ends.{Outcome, HasOutcome, there, change}
use cutis.Decimal.{atoi}

abbrev pub range_error : Bytes
range_error = Shared.error_bulk (codes "LRANGE against key not holding a list value")

abbrev pub missing_error : Bytes
missing_error = codes "-ERR no such key\r\n"

abbrev pub trim_error : Bytes
trim_error = codes "-ERR LTRIM against key not holding a list value\r\n"

abbrev pub lrange_outcome : ℤ → ℤ → Option Obj → Outcome
lrange_outcome start end none = (none, Shared.nil ∷ [], 0)
lrange_outcome start end (some (list l)) = (some (list l), kept_replies (between start end l), 0)
lrange_outcome start end (some o) = (some o, range_error ∷ [], 0)

abbrev pub ltrim_outcome : ℤ → ℤ → Option Obj → Outcome
ltrim_outcome start end none = (none, missing_error ∷ [], 0)
ltrim_outcome start end (some (list l)) = (some (list (between start end l)), Shared.ok ∷ [], 1)
ltrim_outcome start end (some o) = (some o, trim_error ∷ [], 0)

module _ (s : State) (valid : Valid s) (k : Bytes) (key : arg 1 s ≡ ok k) where
  replied :
      (o : Option Obj) (x : Bytes)
      → value s s.client.dict k ≡ o
      → HasOutcome s k (add_reply x s) (o, x ∷ [], 0)
  replied o x old = reply-Effect s s.client.dict k o x valid old

  module _ (a b : Bytes) (first : arg 2 s ≡ ok a) (second : arg 3 s ≡ ok b) where
    lrange-list :
        (l : List Bytes)
        → value s s.client.dict k ≡ some (list l)
        → Returns
            (lrange_command s)
            λ r. HasOutcome s k r (lrange_outcome (atoi a) (atoi b) (some (list l)))
    unfolding lrange_command
    lrange-list l old =
        let found = there s valid k key in
        elim (Option-cases (clip_range (length l) (atoi a) (atoi b))) [
          | inl empty ↦ (
            add_reply Shared.zero s,
            rw (key, ◌>>=◌, found, ◌>>=◌, first, ◌>>=◌, second, ◌>>=◌, old, empty) refl,
            subst (λ x. HasOutcome s k (add_reply Shared.zero s) (some (list l), x, 0))
                (sym (ap (λ c. kept_replies (slice c l)) empty)
                  ∙ ap kept_replies (slice-between l (atoi a) (atoi b)))
                (replied (some (list l)) Shared.zero old),
          )
          | inr (p, range) ↦
              let (ordered, inside) = clip_range-bounds (length l) (atoi a) (atoi b) p range in
              let count = Shared.number_line (p.1 - p.0 + 1) in
              let (r, run, e) =
                reply_nodes-Effect (p.1 - p.0 + 1) l p.0 s (add_reply count s) s.client.dict k
                  (some (list l)) (count ∷ []) 0 (omega (arith, ordered, inside))
                  (replied (some (list l)) count old) in
              (
                r,
                rw
                    (
                      key,
                      ◌>>=◌,
                      found,
                      ◌>>=◌,
                      first,
                      ◌>>=◌,
                      second,
                      ◌>>=◌,
                      old,
                      range,
                      list_index-pos l p.0,
                    )
                    run,
                subst (λ x. HasOutcome s k r (some (list l), x, 0))
                    (replies-between l (atoi a) (atoi b) p range) e,
              )
        ]

    -- LRANGE in a valid state ends without a fault and changes no key: it replies nil for a
    -- missing key, the error for a value that is no list, 0 if no element lies in the range, and
    -- otherwise the number of the elements from the first index to the last and each of them in
    -- order, where a negative index counts from the end and one before the start is the start.
    pub lrange_command-Effect :
        Returns
          (lrange_command s)
          λ r. HasOutcome s k r (lrange_outcome (atoi a) (atoi b) (value s s.client.dict k))
    unfolding lrange_command
    lrange_command-Effect =
        let found = there s valid k key in
        elim (Option-cases (value s s.client.dict k)) [
          | inl new ↦ (
            add_reply Shared.nil s,
            rw (key, ◌>>=◌, found, ◌>>=◌, first, ◌>>=◌, second, ◌>>=◌, new) refl,
            rw new (replied none Shared.nil new),
          )
          | inr (string v, old) ↦ (
            add_reply range_error s,
            rw (key, ◌>>=◌, found, ◌>>=◌, first, ◌>>=◌, second, ◌>>=◌, old) refl,
            rw old (replied (some (string v)) range_error old),
          )
          | inr (set d, old) ↦ (
            add_reply range_error s,
            rw (key, ◌>>=◌, found, ◌>>=◌, first, ◌>>=◌, second, ◌>>=◌, old) refl,
            rw old (replied (some (set d)) range_error old),
          )
          | inr (list l, old) ↦ rw old (lrange-list l old)
        ]

    -- LTRIM in a valid state ends without a fault: it leaves exactly the clipped range of a
    -- list, replies +OK and counts one change, and for a missing key or a value that is no list
    -- it replies the error and changes no key.
    pub ltrim_command-Effect :
        Returns
          (ltrim_command s)
          λ r. HasOutcome s k r (ltrim_outcome (atoi a) (atoi b) (value s s.client.dict k))
    unfolding ltrim_command
    ltrim_command-Effect =
        let found = there s valid k key in
        elim (Option-cases (value s s.client.dict k)) [
          | inl new ↦ (
            add_reply missing_error s,
            rw (key, ◌>>=◌, found, ◌>>=◌, first, ◌>>=◌, second, ◌>>=◌, new) refl,
            rw new (replied none missing_error new),
          )
          | inr (string v, old) ↦ (
            add_reply trim_error s,
            rw (key, ◌>>=◌, found, ◌>>=◌, first, ◌>>=◌, second, ◌>>=◌, old) refl,
            rw old (replied (some (string v)) trim_error old),
          )
          | inr (set d, old) ↦ (
            add_reply trim_error s,
            rw (key, ◌>>=◌, found, ◌>>=◌, first, ◌>>=◌, second, ◌>>=◌, old) refl,
            rw old (replied (some (set d)) trim_error old),
          )
          | inr (list l, old) ↦
              let kept = between (atoi a) (atoi b) l in
              let (r, run, e) = change s valid k key l (list kept) old tt in
              (
                touch (add_reply Shared.ok r),
                rw
                    (
                      key,
                      ◌>>=◌,
                      found,
                      ◌>>=◌,
                      first,
                      ◌>>=◌,
                      second,
                      ◌>>=◌,
                      old,
                      trim_list-slice l (atoi a) (atoi b)
                          ∙ ap ok (slice-between l (atoi a) (atoi b)),
                      ◌>>=◌,
                      run,
                      ◌>>=◌,
                    )
                    refl,
                rw old (touch-Effect (add_reply-Effect e Shared.ok)),
              )
        ]
