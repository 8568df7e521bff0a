-- ===== src/Examples/Globs.antt =====
-- StringMatch and KEYS at concrete inputs.
use mathlib.Core.List.{flatten}
use cutis.Common.{
  ℕ, zero, suc, ◌≡◌, refl, sym, subst, ◌∙◌, inl, inr, arith, true, false, Bool-cases, [], ◌∷◌,
  Bytes, codes, ok, fault, out_of_bounds, Returns, ◌↔◌,
}
use cutis.Common.Int.{negsuc}
use cutis.Dict
use cutis.Dict.Resize.{IsValid, reset-IsValid, lookup, lookup-empty}
use cutis.Dump.Values.{reset-used}
use cutis.Glob.{string_match}
use cutis.Glob.Plain.{Matches, string_match-Matches}
use cutis.Key.{sds_dict_type}
use cutis.Store.{Obj, State, arg, add_reply}
use cutis.Store.Laws.{dict_of, Valid, ValidObj, object_of}
use cutis.Command.Listing.{keys_command}
use cutis.Command.Listing.Trimmed.{IsTrimmed}
use cutis.Command.Listing.Selection.{Selected, keys_reply, keys_command-Selected}
use cutis.Examples.Dumps.{one_key, one_key-IsValid, one_key_size, one_key_reads, two_dbs}

string_match-Matches_example :
    Returns
      (string_match (codes "h*l?o") (codes "hello") false)
      (λ found. (found ≡ true) ↔ Matches (codes "h*l?o") (codes "hello"))
string_match-Matches_example = string_match-Matches (codes "h*l?o") (codes "hello") (
  refl,
  refl,
  refl,
  (refl, refl, refl, (refl, refl, refl, (refl, refl, refl, (refl, refl, refl, tt)))),
)

class_hit : string_match (codes "h[a-f]llo") (codes "hello") false ≡ ok true
unfolding string_match
class_hit = refl

class_miss : string_match (codes "h[^a-f]llo") (codes "hello") false ≡ ok false
unfolding string_match
class_miss = refl

star_hit : string_match (codes "h**o") (codes "hello") false ≡ ok true
unfolding string_match
star_hit = refl

-- A class that ends in a backslash is read past its end.
class_past_end : string_match (codes "[\\") (codes "x") false ≡ fault out_of_bounds
unfolding string_match
class_past_end = refl

abbrev state : State
state = record {
  server = two_dbs;
  client = record {
    query_buf = [];
    reply = [];
    writable = false;
    argv = codes "keys" ∷ codes "a*" ∷ [];
    bulk_len = negsuc 0;
    dict = 0;
  };
}

table_lem : (i : ℕ) → IsValid (dict_of state i)
table_lem zero = one_key-IsValid
table_lem (suc zero) = reset-IsValid
table_lem (suc (suc i)) = reset-IsValid

nothing : (k : Bytes) → ValidObj (object_of (lookup (Dict.reset {K = Bytes} {V = Obj}) k))
nothing k = rw (lookup-empty (Dict.reset {K = Bytes} {V = Obj}) reset-IsValid (reset-used Obj) k) tt

object_lem : (i : ℕ) (k : Bytes) → ValidObj (object_of (lookup (dict_of state i) k))
object_lem zero k = elim (Bool-cases (sds_dict_type.key_compare k (codes "a"))) [
  | inl here ↦ rw (one_key_reads k, here) tt
  | inr apart ↦
      subst (λ o. ValidObj (object_of o)) (sym (one_key_reads k ∙ rw apart refl)) (nothing k)
]
object_lem (suc zero) k = nothing k
object_lem (suc (suc i)) k = nothing k

state-Valid : Valid state
state-Valid = record {
  tables = table_lem;
  objects = object_lem;
  selected = omega arith;
  counted = refl;
}

pattern_arg : arg 1 state ≡ ok (codes "a*")
unfolding arg
pattern_arg = refl

keys_command-Selected_example : Returns (keys_command state) λ t.
    (keys text : Bytes) × Selected (codes "a*") (flatten one_key.table) keys
    × IsTrimmed keys text
    × (t ≡ add_reply (keys_reply text) state)
keys_command-Selected_example =
    keys_command-Selected state (codes "a*") state-Valid one_key_size pattern_arg
      (refl, refl, refl, (refl, refl, refl, tt))
