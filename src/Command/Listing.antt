-- ===== src/Command/Listing.antt =====
-- KEYS of src/commands/command.c.
pub mod Selection
pub mod Trimmed
use cutis.Common.{
  ℕ, Bool, true, false, List, [], ◌∷◌, ◌++◌, ◌==◌, ◌&&◌, if◌then◌else◌, length, Bytes, codes, Run,
  ok, ◌>>=◌,
}
use cutis.Decimal.{print_nat}
use cutis.Dict.Iterator.{iterate}
use cutis.Glob.{string_match}
use cutis.Sds.{sdstrim}
use cutis.Store.{Obj, State, db, arg, add_reply}

-- `pattern[0] == '*' && pattern[1] == '\0'`
unfoldable pub is_star : Bytes → Bool
is_star [] = false
is_star (x ∷ []) = x == b'*'
is_star (x ∷ y ∷ _) = x == b'*' && y == 0

unfoldable pub selects : Bytes → Bytes → Run Bool
unfolding is_star
selects pattern key = if is_star pattern then ok true else string_match pattern key false

-- The loop over the entries; `keys` is what was appended before.
unfoldable pub append_keys : Bytes → Bytes → List (Bytes × Obj) → Run Bytes
unfolding selects
append_keys pattern keys [] = ok keys
append_keys pattern keys (e ∷ es) = do
  found ← selects pattern e.0
  append_keys pattern (if found then (keys ++ e.0) ++ b' ' ∷ [] else keys) es

-- The length of the keys, the keys, and their line ends.
unfoldable pub keys_text : Bytes → Bytes
unfolding sdstrim
keys_text keys =
    let trimmed = sdstrim (codes " ") keys in
    print_nat (length trimmed) ++ (codes "\r\n" ++ (trimmed ++ codes "\r\n"))

unfoldable pub keys_command : State → Run State
unfolding arg db append_keys keys_text add_reply
keys_command s = do
  pattern ← arg 1 s
  d ← db s.client.dict s
  es ← iterate d
  keys ← append_keys pattern [] es
  ok (add_reply (keys_text keys) s)
