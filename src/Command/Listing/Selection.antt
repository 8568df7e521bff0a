-- ===== src/Command/Listing/Selection.antt =====
-- Which keys KEYS of src/commands/command.c replies.
use mathlib.Core.List.{flatten}
use cutis.Common.{
  ◌<◌, ◌≡◌, refl, sym, ap, ◌∙◌, ◌⊎◌, inl, inr, true, false, Bool-cases, List, [], ◌∷◌, ◌++◌, ◌==◌,
  ◌&&◌, arith, Bytes, codes, length, append-nil, append_assoc, ok, ◌>>=◌, Returns, ◌↔◌,
}
use cutis.Dict.Power.{max_size}
use cutis.Dict.Iterator.Order.{iterate-flatten}
use cutis.Glob.Plain.{any_bytes, IsPlain, Matches, string_match-Matches}
use cutis.Decimal.{print_nat}
use cutis.Sds.{sdstrim}
use cutis.Store.{Obj, State, arg, add_reply}
use cutis.Store.Laws.{dict_of, Valid, db-dict_of}
use cutis.Command.Listing.Trimmed.{IsTrimmed, sdstrim-IsTrimmed}
use cutis.Command.Listing.{is_star, selects, append_keys, keys_text, keys_command}

-- `keys` are, in their order, the keys of the entries that match, each with a space behind it.
abbrev pub Selected : Bytes → List (Bytes × Obj) → Bytes → Type 0
Selected pattern [] keys = keys ≡ []
Selected pattern (e ∷ es) keys =
    (Matches pattern e.0
      × ((rest : Bytes) × (keys ≡ e.0 ++ b' ' ∷ rest) × Selected pattern es rest))
    ⊎ (¬ (Matches pattern e.0) × Selected pattern es keys)

selects-Matches :
    (pattern key : Bytes)
    → IsPlain pattern
    → Returns (selects pattern key) (λ found. (found ≡ true) ↔ Matches pattern key)
unfolding selects is_star
selects-Matches [] key plain = string_match-Matches [] key plain
selects-Matches (x ∷ []) key plain = elim (Bool-cases (x == b'*')) [
  | inl star ↦ (true, rw star refl, (λ e. rw star (any_bytes key), λ m. refl))
  | inr apart ↦
      let (found, run, is) = string_match-Matches (x ∷ []) key plain in (found, rw apart run, is)
]
selects-Matches (x ∷ y ∷ p) key plain =
    let no_end : (x == b'*' && y == 0) ≡ false = ground (arith, plain.3.2) in
    let (found, run, is) = string_match-Matches (x ∷ y ∷ p) key plain in (found, rw no_end run, is)

append_keys-Selected :
    (pattern keys : Bytes) (es : List (Bytes × Obj))
    → IsPlain pattern
    → (more : Bytes) × (append_keys pattern keys es ≡ ok (keys ++ more)) × Selected pattern es more
unfolding append_keys
append_keys-Selected pattern keys [] plain = ([], ap ok (sym (append-nil keys)), refl)
append_keys-Selected pattern keys (e ∷ es) plain =
    let (found, run, is) = selects-Matches pattern e.0 plain in
    elim (Bool-cases found) [
      | inl yes_found ↦
          let (rest, run', selected) =
            append_keys-Selected pattern ((keys ++ e.0) ++ b' ' ∷ []) es plain in
          (
            e.0 ++ b' ' ∷ rest,
            rw (run, ◌>>=◌, yes_found)
                (run'
                  ∙ ap ok (
                      append_assoc (keys ++ e.0) (b' ' ∷ []) rest
                      ∙ append_assoc keys e.0 (b' ' ∷ rest))),
            inl (is.0 yes_found, (rest, refl, selected)),
          )
      | inr none_found ↦
          let (rest, run', selected) = append_keys-Selected pattern keys es plain in
          (
            rest,
            rw (run, ◌>>=◌, none_found) run',
            inr (λ m. ground (arith, is.1 m, none_found), selected),
          )
    ]

-- The length of some text and the text, each with a line end.
abbrev pub keys_reply : Bytes → Bytes
keys_reply text = print_nat (length text) ++ (codes "\r\n" ++ (text ++ codes "\r\n"))

-- KEYS of a pattern with no bracket, backslash or zero, in a valid state whose selected table
-- has fewer than 2 ^ 31 slots, ends without a fault and changes nothing. It replies the length
-- of a text and the text, which is, without the spaces and zeros at both its ends, exactly the
-- keys of the table that match the pattern, in the order of the slots with a space behind each.
pub keys_command-Selected :
    (s : State) (pattern : Bytes)
    → Valid s
    → (dict_of s s.client.dict).size < max_size
    → arg 1 s ≡ ok pattern
    → IsPlain pattern
    → Returns (keys_command s) λ t.
      (keys text : Bytes) × Selected pattern (flatten (dict_of s s.client.dict).table) keys
      × IsTrimmed keys text
      × (t ≡ add_reply (keys_reply text) s)
unfolding keys_command keys_text
keys_command-Selected s pattern valid small arg1 plain =
    let d = dict_of s s.client.dict in
    let (keys, run, selected) = append_keys-Selected pattern [] (flatten d.table) plain in
    (
      add_reply (keys_text keys) s,
      rw
          (
            arg1,
            ◌>>=◌,
            db-dict_of s valid s.client.dict valid.selected,
            ◌>>=◌,
            iterate-flatten d (valid.tables s.client.dict) small,
            ◌>>=◌,
            run,
            ◌>>=◌,
          )
          refl,
      (keys, sdstrim (codes " ") keys, selected, sdstrim-IsTrimmed keys, refl),
    )
