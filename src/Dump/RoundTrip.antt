-- ===== src/Dump/RoundTrip.antt =====
-- LoadDB after SaveDB of src/server/server.c.
use mathlib.Core.List.{flatten}
use cutis.Common.{
  ℕ, zero, suc, ◌+◌, ◌^◌, ◌≤◌, ◌<◌, ◌≡◌, refl, sym, ap, subst, ◌∙◌, inl, inr, true, false, Option,
  none, some, List, [], ◌∷◌, ◌++◌, arith, Bool-cases, ltb, ◌==◌, Bytes, length, length-append, ok,
  ◌>>=◌, Returns,
}
use cutis.Dict
use cutis.Dict.{Dict, Entries, search}
use cutis.Dict.Chain.{first}
use cutis.Dict.Buckets.{flatten-view}
use cutis.Dict.Power.{max_size}
use cutis.Dict.Resize.{IsValid, lookup, reset-IsValid, lookup-empty}
use cutis.Dict.Iterator.Order.{iterate-flatten}
use cutis.Key.{sds_dict_type, memcmp}
use cutis.Store.{Obj, Server}
use cutis.Store.Content.{Content, content}
use cutis.Store.Laws.{Db, object_of}
use cutis.Dump.{
  htonl, dbs_chunks, save_chunks, load_loop, load_db, signature, eof_code, select_db_code, cutis_ok,
  CutisStatus,
}
use cutis.Dump.Bytes32.{then_bytes, then_bytes-append, read_long-htonl}
use cutis.Dump.Values.{flatten-Fresh, reset-used}
use cutis.Dump.Entries.{AllSavable, table_at, Entered, Replays, entries-Replays}

-- What a database has under a key.
abbrev pub content_at : Db → Bytes → Content
content_at d q = content (object_of (lookup d q))

-- A valid table of fewer than 2 ^ 31 slots whose entries fit the format of a dump.
abbrev pub SavableDb : Db → Type 0
SavableDb d = IsValid d × (d.size < max_size) × AllSavable (flatten d.table)

abbrev pub AllSavableDbs : List Db → Type 0
AllSavableDbs [] = Unit
AllSavableDbs (d ∷ ds) = SavableDb d × AllSavableDbs ds

-- A valid table with the content of another.
abbrev pub SameContent : Db → Db → Type 0
SameContent t d = IsValid t × ((q : Bytes) → content_at t q ≡ content_at d q)

-- `after` has from index `j` on what the databases `ds` have, and below it what `before` has.
record Restored (before after : List Db) (j : ℕ) (ds : List Db) : Type 0 where
  width : length after ≡ length before
  below : (i : ℕ) → i < j → table_at after i ≡ table_at before i
  same : (i : ℕ) → i < length ds → SameContent (table_at after (j + i)) (table_at ds i)

abbrev ReplaysDbs : ℕ → List Db → List Bytes → Type 0
ReplaysDbs j ds cs =
    (id fuel : ℕ) (dicts : List Db) (rest : Bytes)
    → j + length ds ≤ length dicts
    → length dicts < 2 ^ 32
    → ((i : ℕ) → j ≤ i → table_at dicts i ≡ Dict.reset)
    → length (then_bytes cs rest) ≤ fuel
    → (fuel' id' : ℕ) × (after : List Db) × (load_loop fuel id dicts (then_bytes cs rest)
        ≡ load_loop fuel' id' after rest)
      × (length rest ≤ fuel')
      × Restored dicts after j ds

empty_content : (q : Bytes) → lookup (Dict.reset {K = Bytes} {V = Obj}) q ≡ none
empty_content q = lookup-empty Dict.reset reset-IsValid (reset-used Obj) q

-- One more database below, which is restored too.
Restored-cons :
    (before middle after : List Db) (j : ℕ) (d : Db) (ds : List Db)
    → length middle ≡ length before
    → ((i : ℕ) → i < j → table_at middle i ≡ table_at before i)
    → SameContent (table_at middle j) d
    → Restored middle after (j + 1) ds
    → Restored before after j (d ∷ ds)
Restored-cons before middle after j d ds width below here r = record {
  width = r.width ∙ width;
  below = λ i h. r.below i (omega (arith, h)) ∙ below i h;
  same = same_from;
}
  where
    same_from :
        (i : ℕ) → i < length (d ∷ ds) → SameContent (table_at after (j + i)) (table_at (d ∷ ds) i)
    same_from zero h =
        subst (λ t. SameContent t d)
          (sym (ap (table_at after) (omega arith) ∙ r.below j (omega arith))) here
    same_from (suc i) h =
        subst (λ n. SameContent (table_at after n) (table_at ds i)) (omega arith)
          (r.same i (omega (arith, h)))

first_missing : {A : Type 0} (o : Option A) → first o none ≡ o
first_missing none = refl
first_missing (some e) = refl

-- A database with no entry is left out, and stays empty.
skip_db :
    (j : ℕ) (d : Db) (ds : List Db) (cs : List Bytes)
    → IsValid d
    → d.used ≡ 0
    → ReplaysDbs (j + 1) ds cs
    → ReplaysDbs j (d ∷ ds) cs
skip_db j d ds cs valid none_used ih id fuel dicts rest fits width empty enough =
    let (fuel', id', after, run, enough', r) =
      ih id fuel dicts rest (omega (arith, fits)) width (λ i h. empty i (omega (arith, h)))
        enough in
    let same : SameContent Dict.reset d = (
      reset-IsValid,
      λ q.
          ap (λ x. content (object_of x))
            (empty_content q ∙ sym (lookup-empty d valid none_used q)),
    ) in
    let here = subst (λ t. SameContent t d) (sym (empty j (omega arith))) same in
    (
      fuel',
      id',
      after,
      run,
      enough',
      Restored-cons dicts dicts after j d ds refl (λ i h. refl) here r,
    )

select-load_loop :
    (fuel id j : ℕ) (dicts : List Db) (left : Bytes)
    → j < length dicts
    → length dicts < 2 ^ 32
    → load_loop (suc fuel) id dicts (select_db_code ∷ (htonl j ++ left))
      ≡ load_loop fuel j dicts left
unfolding load_loop
select-load_loop fuel id j dicts left inside width =
    let selected : ltb j (length dicts) ≡ true = ground arith in
    rw (read_long-htonl j left (omega (arith, inside, width)), ◌>>=◌, selected) refl

load_loop-eof :
    (fuel id : ℕ) (dicts : List Db) → 0 < fuel → load_loop fuel id dicts (eof_code ∷ []) ≡ ok dicts
unfolding load_loop
load_loop-eof zero id dicts h = absurd (omega arith)
load_loop-eof (suc fuel) id dicts h = refl

module _ (j : ℕ) (d : Db) (ds : List Db) (es_cs cs : List Bytes) (valid : IsValid d)
    (small : d.size < max_size) where
  -- The entries of one database, entered into an empty one.
  replayed_db :
      (fuel : ℕ) (dicts : List Db) (left : Bytes)
      → j < length dicts
      → table_at dicts j ≡ Dict.reset
      → Replays (flatten d.table) es_cs
      → length (then_bytes es_cs left) ≤ fuel
      → (fuel' : ℕ) × (after : List Db) × (load_loop fuel j dicts (then_bytes es_cs left)
          ≡ load_loop fuel' j after left)
        × (length left ≤ fuel')
        × Entered dicts after j (flatten d.table)
        × SameContent (table_at after j) d
  replayed_db fuel dicts left inside empty replays enough =
      let es = flatten d.table in
      let nothing : (q : Bytes) → lookup (table_at dicts j) q ≡ none =
        λ q. ap (λ (t : Db). lookup t q) empty ∙ empty_content q in
      let (fuel', after, run, enough', u) =
        replays j fuel dicts left inside (subst (λ (t : Db). IsValid t) (sym empty) reset-IsValid)
          (omega (
            arith,
            ap (λ (t : Db). t.used) empty,
            reset-used Obj,
            valid.counted,
            valid.load,
            small,
          ))
          (flatten-Fresh d (table_at dicts j) valid nothing) enough in
      let reads = λ (q : Bytes).
        u.reads q
        ∙ ap (λ x. content (object_of (first (search q es) x))) (nothing q)
        ∙ ap (λ x. content (object_of x))
            (first_missing (search q es) ∙ (flatten-view d.size_mask d.table q valid.placed).0) in
      (fuel', after, run, enough', u, (u.valid, reads))

  write_db :
      Replays (flatten d.table) es_cs
      → ReplaysDbs (j + 1) ds cs
      → ReplaysDbs j (d ∷ ds) ((select_db_code ∷ []) ∷ htonl j ∷ (es_cs ++ cs))
  write_db replays ih id zero dicts rest fits width empty enough = absurd (omega arith)
  write_db replays ih id (suc fuel) dicts rest fits width empty enough =
      let left = then_bytes cs rest in
      let split = then_bytes-append es_cs cs rest in
      let inside : j < length dicts = omega (arith, fits) in
      let here = empty j (omega arith) in
      let shorter : length (then_bytes es_cs left) ≤ fuel = omega (
        arith,
        length-append (htonl j) (then_bytes (es_cs ++ cs) rest),
        ap (λ x. length x) split,
        enough,
      ) in
      let (fuel1, middle, run1, enough1, u, same) =
        replayed_db fuel dicts left inside here replays shorter in
      let (fuel2, id2, after, run2, enough2, r) =
        ih j fuel1 middle rest (omega (arith, u.width, fits)) (omega (arith, u.width, width))
          (λ i h. u.others i (ground (arith, h)) ∙ empty i (omega (arith, h))) enough1 in
      (
        fuel2,
        id2,
        after,
        select-load_loop fuel id j dicts (then_bytes (es_cs ++ cs) rest) inside width
            ∙ ap (load_loop fuel j dicts) split
            ∙ run1
            ∙ run2,
        enough2,
        Restored-cons dicts middle after j d ds u.width (λ i h. u.others i (ground (arith, h))) same
            r,
      )

dbs-Restored :
    (j : ℕ) (ds : List Db) → AllSavableDbs ds → Returns (dbs_chunks j ds) (ReplaysDbs j ds)
unfolding dbs_chunks
dbs-Restored j [] savable = (
  [],
  refl,
  λ id fuel dicts rest fits width empty enough. (
    fuel,
    id,
    dicts,
    refl,
    enough,
    record { width = refl; below = λ i h. refl; same = λ i h. elim h [ ] },
  ),
)
dbs-Restored j (d ∷ ds) ((valid, small, savable), savables) =
    let (cs, run, ih) = dbs-Restored (j + 1) ds savables in
    elim (Bool-cases (d.used == 0)) [
      | inl none_used ↦
          (cs, rw (run, ◌>>=◌, none_used) refl, skip_db j d ds cs valid (ground arith) ih)
      | inr some_used ↦
          let es = flatten d.table in
          let (es_cs, run', replays) = entries-Replays es savable in
          (
            (select_db_code ∷ []) ∷ htonl j ∷ (es_cs ++ cs),
            rw (run, ◌>>=◌, some_used, iterate-flatten d valid small, ◌>>=◌, run', ◌>>=◌) refl,
            write_db j d ds es_cs cs valid small replays ih,
          )
    ]

-- LoadDB succeeds, and every database is valid again and has the content that it had.
abbrev pub Reloaded : Server → CutisStatus × Server → Type 0
Reloaded s r =
    (r.0 ≡ cutis_ok)
    × (length r.1.dicts ≡ length s.dicts)
    × ((i : ℕ) → i < length s.dicts → SameContent (table_at r.1.dicts i) (table_at s.dicts i))

-- LoadDB of what SaveDB wrote.
pub load_db-save_chunks :
    (s fresh : Server)
    → AllSavableDbs s.dicts
    → length s.dicts < 2 ^ 32
    → length fresh.dicts ≡ length s.dicts
    → ((i : ℕ) → table_at fresh.dicts i ≡ Dict.reset)
    → Returns (save_chunks s) λ cs. Returns (load_db (some (then_bytes cs [])) fresh) (Reloaded s)
unfolding save_chunks load_db memcmp
load_db-save_chunks s fresh savable few width empty =
    let (cs, run, replays) = dbs-Restored 0 s.dicts savable in
    let file = signature ++ then_bytes (cs ++ (eof_code ∷ []) ∷ []) [] in
    let split : then_bytes (cs ++ (eof_code ∷ []) ∷ []) [] ≡ then_bytes cs (eof_code ∷ []) =
      then_bytes-append cs ((eof_code ∷ []) ∷ []) [] in
    let (fuel, id, after, loop, enough, r) =
      replays 0 (length file) fresh.dicts (eof_code ∷ []) (omega (arith, width))
        (omega (arith, width, few)) (λ i h. empty i)
        (omega (arith, ap (λ (x : Bytes). length x) split)) in
    let some_bytes : (length file == 0) ≡ false = ground arith in
    let enough_bytes : ltb (length file) 9 ≡ false = ground arith in
    let loaded : load_loop (length file) 0 fresh.dicts (then_bytes (cs ++ (eof_code ∷ []) ∷ []) [])
        ≡ ok after =
      ap (load_loop (length file) 0 fresh.dicts) split
      ∙ loop
      ∙ load_loop-eof fuel id after enough in
    (
      signature ∷ (cs ++ (eof_code ∷ []) ∷ []),
      rw (run, ◌>>=◌) refl,
      (
        (cutis_ok, record fresh { dicts = after }),
        rw (some_bytes, enough_bytes, loaded, ◌>>=◌) refl,
        (
          refl,
          r.width ∙ width,
          λ i h.
              subst (λ n. SameContent (table_at after n) (table_at s.dicts i)) (omega arith)
                (r.same i h),
        ),
      ),
    )
