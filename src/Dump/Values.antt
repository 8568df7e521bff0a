-- ===== src/Dump/Values.antt =====
-- What LoadDB reads back of a value that SaveDB wrote.
use mathlib.Core.List.{flatten}
use cutis.Common.{
  suc, ◌+◌, ◌^◌, ◌≤◌, ◌<◌, ◌≡◌, refl, ap, subst, ◌∙◌, inl, inr, Option, none, some, [], ◌∷◌, arith,
  Bool-cases, Bytes, length, ok, ◌>>=◌, Returns,
}
use cutis.Dict
use cutis.Dict.{Dict, Entries, Status, dict_ok, search}
use cutis.Dict.Chain.{first}
use cutis.Dict.Buckets.{flatten-view}
use cutis.Dict.Power.{max_slots, max_size}
use cutis.Dict.Resize.{IsValid, lookup, reset-IsValid, lookup-empty}
use cutis.Dict.Iterator.Order.{iterate-flatten}
use cutis.Key.{sds_dict_type}
use cutis.Store.{Obj, string, list, set}
use cutis.Store.Content.{content, content-set}
use cutis.Store.Laws.{ValidObj}
use cutis.Dump.{
  htonl, bytes_chunks, list_chunks, keys_of, type_code, value_chunks, load_set, load_value,
}
use cutis.Dump.Bytes32.{
  then_bytes, then_bytes-append, read_long-htonl, load_bytes-bytes_chunks, AllShort,
  load_list-list_chunks,
}
use cutis.Dump.Fresh.{Fresh, add-Fresh, first-search}

abbrev pub Set : Type 0
Set = Dict Bytes (Unit {0})

-- Every length fits 32 bits, and a set is a valid table of fewer than 2 ^ 31 slots.
abbrev pub SavableObj : Obj → Type 0
SavableObj (string v) = length v < 2 ^ 32
SavableObj (list l) = (length l < 2 ^ 32) × AllShort l
SavableObj (set d) = IsValid d × (d.size < max_size) × AllShort (keys_of (flatten d.table))

abbrev LoadedSet : Entries Bytes (Unit {0}) → Set → Bytes → Set × Bytes → Type 0
LoadedSet es d rest r =
    (r.1 ≡ rest)
    × IsValid r.0
    × (r.0.used ≡ d.used + length es)
    × ((q : Bytes) → lookup r.0 q ≡ first (search q es) (lookup d q))

load_set-list_chunks :
    (es : Entries Bytes (Unit {0})) (d : Set) (rest : Bytes)
    → IsValid d
    → d.used + length es ≤ max_slots
    → AllShort (keys_of es)
    → Fresh es d
    → Returns
        (load_set (length es) d (then_bytes (list_chunks (keys_of es)) rest))
        (LoadedSet es d rest)
unfolding load_set list_chunks search
load_set-list_chunks [] d rest valid room shorts fresh =
    ((d, rest), refl, (refl, valid, omega arith, λ q. refl))
load_set-list_chunks (e ∷ es) d rest valid room (short, shorts) fresh =
    let ((st, d'), run, (status, used, writes, fresh')) =
      add-Fresh d e.0 tt es fresh tt valid (omega (arith, room)) in
    let (r, run', (left, ok_r, used', reads)) =
      load_set-list_chunks es d' rest writes.valid (omega (arith, used, room)) shorts fresh' in
    let here = load_bytes-bytes_chunks e.0 (then_bytes (list_chunks (keys_of es)) rest) short in
    (
      r,
      rw
          (
            then_bytes-append (bytes_chunks e.0) (list_chunks (keys_of es)) rest,
            here,
            ◌>>=◌,
            run,
            ◌>>=◌,
            status,
          )
          run',
      (
        left,
        ok_r,
        omega (arith, used, used'),
        λ q.
            reads q
            ∙ first-search d e.0 tt es fresh tt d' q writes
            ∙ elim (Bool-cases (sds_dict_type.key_compare q e.0)) [
              | inl this ↦ rw this refl
              | inr other ↦ rw other refl
            ],
      ),
    )

first-none : (o : Option (Bytes × Unit {0})) → first o none ≡ o
first-none none = refl
first-none (some e) = refl

length-keys_of : (es : Entries Bytes (Unit {0})) → length (keys_of es) ≡ length es
length-keys_of [] = refl
length-keys_of (e ∷ es) = ap suc (length-keys_of es)

-- No key stands twice in a valid table.
pub flatten-Fresh :
    {V : Type 0} (d e : Dict Bytes V)
    → IsValid d
    → ((q : Bytes) → lookup e q ≡ none)
    → Fresh (flatten d.table) e
flatten-Fresh d e valid empty q =
    ((flatten-view d.size_mask d.table q valid.placed).1, λ m. empty q)

pub reset-used : (V : Type 0) → (Dict.reset {K = Bytes} {V = V}).used ≡ 0
unfolding Dict.reset
reset-used V = refl

abbrev pub LoadedValue : Obj → Bytes → Obj × Bytes → Type 0
LoadedValue o rest r = (r.1 ≡ rest) × (content (some r.0) ≡ content (some o)) × ValidObj (some r.0)

set-load_value :
    (d : Set) (rest : Bytes)
    → SavableObj (set d)
    → Returns
        (load_value 2 (then_bytes (htonl d.used ∷ list_chunks (keys_of (flatten d.table))) rest))
        (LoadedValue (set d) rest)
unfolding load_value Dict.create
set-load_value d rest (valid, small, shorts) =
    let es = flatten d.table in
    let body = then_bytes (list_chunks (keys_of es)) rest in
    let empty =
      lookup-empty (Dict.reset {K = Bytes} {V = Unit {0}}) reset-IsValid (reset-used (Unit {0})) in
    let (r, run, (left, ok_r, used, reads)) =
      load_set-list_chunks es Dict.reset rest reset-IsValid
        (omega (arith, reset-used (Unit {0}), valid.counted, valid.load, small)) shorts
        (flatten-Fresh d Dict.reset valid empty) in
    let run' : load_set d.used Dict.reset body ≡ ok r =
      subst (λ n. load_set n Dict.reset body ≡ ok r) valid.counted run in
    (
      (set r.0, r.1),
      rw (read_long-htonl d.used body (omega (arith, valid.load, small)), ◌>>=◌, run', ◌>>=◌) refl,
      (
        left,
        content-set r.0 d (omega (arith, used, reset-used (Unit {0}), valid.counted)) (λ q.
            reads q
            ∙ ap (first (search q es)) (empty q)
            ∙ first-none (search q es)
            ∙ (flatten-view d.size_mask d.table q valid.placed).0),
        ok_r,
      ),
    )

-- The value that was written is read back, and what follows it is left.
pub value-LoadedValue :
    (o : Obj)
    → SavableObj o
    → Returns (value_chunks o) λ cs.
      (rest : Bytes) → Returns (load_value (type_code o) (then_bytes cs rest)) (LoadedValue o rest)
unfolding value_chunks load_value
value-LoadedValue (string v) short = (
  bytes_chunks v,
  refl,
  λ rest.
      ((string v, rest), rw (load_bytes-bytes_chunks v rest short, ◌>>=◌) refl, (refl, refl, tt)),
)
value-LoadedValue (list l) (short, shorts) = (
  htonl (length l) ∷ list_chunks l,
  refl,
  λ rest. (
    (list l, rest),
    rw
        (
          read_long-htonl (length l) (then_bytes (list_chunks l) rest) short,
          ◌>>=◌,
          load_list-list_chunks l [] rest shorts,
          ◌>>=◌,
        )
        refl,
    (refl, refl, tt),
  ),
)
value-LoadedValue (set d) (valid, small, shorts) = (
  htonl d.used ∷ list_chunks (keys_of (flatten d.table)),
  rw (iterate-flatten d valid small, ◌>>=◌) refl,
  λ rest. set-load_value d rest (valid, small, shorts),
)
