-- ===== src/Dump/Entries.antt =====
-- LoadDB's rounds over the entries of one database that SaveDB wrote.
use cutis.Common.{
  ℕ, zero, suc, ◌+◌, ◌^◌, ◌≤◌, ◌<◌, ◌≡◌, refl, sym, ap, subst, ◌∙◌, inl, inr, false, some, List, [],
  ◌∷◌, ◌++◌, arith, Bool-cases, ◌==◌, ==_iff, Bytes, length, length-append, length-set, get_or,
  get_or-set, set as set_elem, ◌>>=◌, Returns,
}
use cutis.Dict
use cutis.Dict.{Dict, Entries, Status, dict_ok, search, at}
use cutis.Dict.Chain.{first}
use cutis.Dict.Buckets.{at-get_or}
use cutis.Dict.Power.{max_slots}
use cutis.Dict.Resize.{IsValid, lookup}
use cutis.Dict.Methods.{Writes}
use cutis.Key.{sds_dict_type}
use cutis.Store.{Obj, string, list, set}
use cutis.Store.Content.{content}
use cutis.Store.Laws.{Db, object_of}
use cutis.Dump.{
  htonl, type_code, entries_chunks, load_value, load_entry, load_loop, eof_code, select_db_code,
}
use cutis.Dump.Bytes32.{then_bytes, then_bytes-append, read_long-htonl, read_bytes-append}
use cutis.Dump.Fresh.{Fresh, add-Fresh, first-search}
use cutis.Dump.Values.{SavableObj, LoadedValue, value-LoadedValue}

-- A key of some bytes whose length fits 32 bits, and such a value.
abbrev pub SavableEntry : Bytes × Obj → Type 0
SavableEntry e = (0 < length e.0) × (length e.0 < 2 ^ 32) × SavableObj e.1

abbrev pub AllSavable : List (Bytes × Obj) → Type 0
AllSavable [] = Unit
AllSavable (e ∷ es) = SavableEntry e × AllSavable es

pub length-then_bytes : (cs : List Bytes) (rest : Bytes) → length rest ≤ length (then_bytes cs rest)
length-then_bytes [] rest = omega arith
length-then_bytes (c ∷ cs) rest =
    omega (arith, length-append c (then_bytes cs rest), length-then_bytes cs rest)

abbrev pub table_at : List Db → ℕ → Db
table_at dicts i = get_or dicts i Dict.reset

-- Database `id` of `after` has `es` besides what it had, and the others are as before.
pub record Entered (before after : List Db) (id : ℕ) (es : List (Bytes × Obj)) : Type 0 where
  pub width : length after ≡ length before
  pub others : (j : ℕ) → (id == j) ≡ false → table_at after j ≡ table_at before j
  pub valid : IsValid (table_at after id)
  pub reads :
      (q : Bytes)
      → content (object_of (lookup (table_at after id) q))
        ≡ content (object_of (first (search q es) (lookup (table_at before id) q)))

module _ (id : ℕ) (dicts : List Db) (inside : id < length dicts) where
  put_table : (d : Db) → table_at (set_elem dicts id d) id ≡ d
  put_table d = get_or-set dicts id id d Dict.reset inside ∙ rw ((==_iff id id).1 refl) refl

  module _ (e : Bytes × Obj) (es : List (Bytes × Obj)) (savable : SavableEntry e)
      (valid : IsValid (table_at dicts id)) (room : (table_at dicts id).used < max_slots)
      (fresh : Fresh (e ∷ es) (table_at dicts id)) where
    abbrev LoadedEntry : List Bytes → Bytes → List Db × Bytes → Type 0
    LoadedEntry cs rest r =
        (r.1 ≡ rest)
        × (o : Obj) × (d : Db) × (r.0 ≡ set_elem dicts id d)
        × (content (some o) ≡ content (some e.1))
        × (d.used ≡ (table_at dicts id).used + 1)
        × Writes (table_at dicts id) e.0 (some (e.0, o)) d
        × Fresh es d

    load_entry-LoadedEntry :
        (cs : List Bytes)
        → ((rest : Bytes)
            → Returns (load_value (type_code e.1) (then_bytes cs rest)) (LoadedValue e.1 rest))
        → (rest : Bytes)
        → Returns
            (load_entry
              (type_code e.1)
              id
              dicts
              (htonl (length e.0) ++ (e.0 ++ then_bytes cs rest)))
            (LoadedEntry cs rest)
    unfolding load_entry
    load_entry-LoadedEntry cs value rest =
        let (some_bytes, short, _) = savable in
        let ((o, left), run, (same_rest, same, _)) = value rest in
        let ((st, d), added, (status, used, writes, fresh')) =
          add-Fresh (table_at dicts id) e.0 e.1 es fresh o valid room in
        let b = e.0 ++ then_bytes cs rest in
        (
          (set_elem dicts id d, left),
          rw
              (
                read_long-htonl (length e.0) b short,
                ◌>>=◌,
                read_bytes-append e.0 (then_bytes cs rest) some_bytes,
                ◌>>=◌,
                run,
                ◌>>=◌,
                at-get_or dicts id Dict.reset inside,
                ◌>>=◌,
                added,
                ◌>>=◌,
                status,
              )
              refl,
          (same_rest, o, d, refl, same, used, writes, fresh'),
        )

    -- The map after the entry and the rest of them, up to content.
    entry_content :
        (o : Obj) (d after : Db) (q : Bytes)
        → content (some o) ≡ content (some e.1)
        → Writes (table_at dicts id) e.0 (some (e.0, o)) d
        → content (object_of (lookup after q))
          ≡ content (object_of (first (search q es) (lookup d q)))
        → content (object_of (lookup after q))
          ≡ content (object_of (first (search q (e ∷ es)) (lookup (table_at dicts id) q)))
    unfolding search
    entry_content o d after q same writes rest =
        rest
        ∙ ap (λ x. content (object_of x))
            (first-search (table_at dicts id) e.0 e.1 es fresh o d q writes)
        ∙ elim (Bool-cases (sds_dict_type.key_compare q e.0)) [
          | inl this ↦ rw this same
          | inr other ↦ rw other refl
        ]

    Entered-cons :
        (o : Obj) (d : Db) (after : List Db)
        → content (some o) ≡ content (some e.1)
        → Writes (table_at dicts id) e.0 (some (e.0, o)) d
        → Entered (set_elem dicts id d) after id es
        → Entered dicts after id (e ∷ es)
    Entered-cons o d after same writes u = record {
      width = u.width ∙ length-set dicts id d;
      others =
          λ j other. u.others j other ∙ get_or-set dicts id j d Dict.reset inside ∙ rw other refl;
      valid = u.valid;
      reads = λ q. entry_content o d (table_at after id) q same writes (
          u.reads q
          ∙ ap (λ (t : Db). content (object_of (first (search q es) (lookup t q)))) (put_table d));
    }

-- From these writes LoadDB enters the entries into any database that has none of the keys.
abbrev pub Replays : List (Bytes × Obj) → List Bytes → Type 0
Replays es cs =
    (id fuel : ℕ) (dicts : List Db) (rest : Bytes)
    → id < length dicts
    → IsValid (table_at dicts id)
    → (table_at dicts id).used + length es ≤ max_slots
    → Fresh es (table_at dicts id)
    → length (then_bytes cs rest) ≤ fuel
    → (fuel' : ℕ) × (after : List Db) × (load_loop fuel id dicts (then_bytes cs rest)
        ≡ load_loop fuel' id after rest)
      × (length rest ≤ fuel')
      × Entered dicts after id es

type_code_small :
    (o : Obj) → ((type_code o == eof_code) ≡ false) × ((type_code o == select_db_code) ≡ false)
type_code_small (string v) = (refl, refl)
type_code_small (list l) = (refl, refl)
type_code_small (set d) = (refl, refl)

Replays-cons :
    (e : Bytes × Obj) (es : List (Bytes × Obj)) (v cs : List Bytes)
    → SavableEntry e
    → ((rest : Bytes)
        → Returns (load_value (type_code e.1) (then_bytes v rest)) (LoadedValue e.1 rest))
    → Replays es cs
    → Replays (e ∷ es) ((type_code e.1 ∷ []) ∷ htonl (length e.0) ∷ e.0 ∷ (v ++ cs))
unfolding load_loop
Replays-cons e es v cs savable value ih id zero dicts rest inside valid room fresh enough =
    absurd (omega arith)
Replays-cons e es v cs savable value ih id (suc fuel) dicts rest inside valid room fresh enough =
    let left = then_bytes cs rest in
    let body = e.0 ++ then_bytes v left in
    let split : then_bytes (v ++ cs) rest ≡ then_bytes v left = then_bytes-append v cs rest in
    let (r, run, (same_left, o, d, dicts', same, used, writes, fresh')) =
      load_entry-LoadedEntry id dicts inside e es savable valid (omega (arith, room)) fresh v value
        left in
    let here : table_at (set_elem dicts id d) id ≡ d = put_table id dicts inside d in
    let small = type_code_small e.1 in
    let whole = length-append (htonl (length e.0)) body in
    let shorter : length left ≤ fuel = omega (
      arith,
      whole,
      length-append e.0 (then_bytes v left),
      length-then_bytes v left,
      ap (λ x. length (htonl (length e.0) ++ (e.0 ++ x))) split,
      enough,
    ) in
    let (fuel', after, run', enough', u) =
      ih id fuel (set_elem dicts id d) rest (omega (arith, length-set dicts id d, inside))
        (subst (λ (t : Db). IsValid t) (sym here) writes.valid)
        (omega (arith, ap (λ (t : Db). t.used) here, used, room))
        (subst (λ (t : Db). Fresh es t) (sym here) fresh') shorter in
    (
      fuel',
      after,
      rw (small.0, small.1, split, run, ◌>>=◌, dicts', same_left) run',
      enough',
      Entered-cons id dicts inside e es savable valid (omega (arith, room)) fresh o d after same
          writes u,
    )

pub entries-Replays :
    (es : List (Bytes × Obj)) → AllSavable es → Returns (entries_chunks es) (Replays es)
unfolding entries_chunks search
entries-Replays [] savable = (
  [],
  refl,
  λ id fuel dicts rest inside valid room fresh enough. (
    fuel,
    dicts,
    refl,
    enough,
    record { width = refl; others = λ j other. refl; valid = valid; reads = λ q. refl },
  ),
)
entries-Replays (e ∷ es) (savable, savables) =
    let (v, run, value) = value-LoadedValue e.1 savable.2 in
    let (cs, run', ih) = entries-Replays es savables in
    (
      (type_code e.1 ∷ []) ∷ htonl (length e.0) ∷ e.0 ∷ (v ++ cs),
      rw (run, ◌>>=◌, run', ◌>>=◌) refl,
      Replays-cons e es v cs savable value ih,
    )
