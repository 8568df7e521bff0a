-- ===== src/Dump.antt =====
-- SaveDB and LoadDB of src/server/server.c. A dump is the list of the writes that make it, in
-- order; what the disk does with each write is an argument.
pub mod Bytes32
pub mod Fresh
pub mod Values
pub mod Entries
pub mod RoundTrip
pub mod Chunks
pub mod Atomic
use cutis.Common.{
  ℕ, zero, suc, ◌+◌, ◌*◌, ◌/◌, ◌%◌, ◌^◌, Bool, true, false, Option, none, some, List, [], ◌∷◌, ◌++◌,
  map, Bytes, codes, ltb, ◌==◌, if◌then◌else◌, length, set as set_elem, take, drop, Run, ok, fault,
  exits, uninitialised, assertion, out_of_fuel, ◌>>=◌,
}
use cutis.Common.Int.{ℤ, pos}
use cutis.Adlist.{list_add_node_tail}
use cutis.Dict
use cutis.Dict.{Dict, Status, dict_ok, dict_err, at}
use cutis.Dict.Iterator.{iterate}
use cutis.Key.{sds_dict_type, memcmp, is_zero}
use cutis.Store.{Obj, string, list, set, Server}

pub data CutisStatus : Type 0 where
  cutis_ok cutis_err : CutisStatus

abbrev pub signature : Bytes
signature = codes "CUTIS0000"

abbrev pub select_db_code : ℕ
select_db_code = 254

abbrev pub eof_code : ℕ
eof_code = 255

-- The four bytes of `htonl` of an uint32_t.
unfoldable pub htonl : ℕ → Bytes
htonl n = (n / 2 ^ 24 % 256) ∷ (n / 2 ^ 16 % 256) ∷ (n / 2 ^ 8 % 256) ∷ (n % 256) ∷ []

-- The writes of a length and of the bytes, which are left out if there are none.
unfoldable pub bytes_chunks : Bytes → List Bytes
bytes_chunks v = htonl (length v) ∷ (if length v == 0 then [] else v ∷ [])

unfoldable pub list_chunks : List Bytes → List Bytes
list_chunks [] = []
list_chunks (v ∷ l) = bytes_chunks v ++ list_chunks l

abbrev pub type_code : Obj → ℕ
type_code (string _) = 0
type_code (list _) = 1
type_code (set _) = 2

abbrev pub keys_of {ℓ} : {V : Type ℓ} → List (Bytes × V) → List Bytes
keys_of [] = []
keys_of (e ∷ es) = e.0 ∷ keys_of es

unfoldable pub value_chunks : Obj → Run (List Bytes)
value_chunks (string v) = ok (bytes_chunks v)
value_chunks (list l) = ok (htonl (length l) ∷ list_chunks l)
value_chunks (set d) = do es ← iterate d; ok (htonl d.used ∷ list_chunks (keys_of es))

unfoldable pub entries_chunks : List (Bytes × Obj) → Run (List Bytes)
entries_chunks [] = ok []
entries_chunks (e ∷ es) = do
  v ← value_chunks e.1
  rest ← entries_chunks es
  ok ((type_code e.1 ∷ []) ∷ htonl (length e.0) ∷ e.0 ∷ (v ++ rest))

-- The loop over the databases from index `j` on; an empty one is left out.
unfoldable pub dbs_chunks : ℕ → List (Dict Bytes Obj) → Run (List Bytes)
dbs_chunks j [] = ok []
dbs_chunks j (d ∷ ds) = do
  rest ← dbs_chunks (j + 1) ds
  if d.used == 0 then ok rest else do
    es ← iterate d
    cs ← entries_chunks es
    ok ((select_db_code ∷ []) ∷ htonl j ∷ (cs ++ rest))

-- All the writes of SaveDB.
unfoldable pub save_chunks : Server → Run (List Bytes)
save_chunks s = do cs ← dbs_chunks 0 s.dicts; ok (signature ∷ (cs ++ (eof_code ∷ []) ∷ []))

-- Whether the temporary file opens; what fwrite returns, in bytes, for a write that starts after
-- so many bytes and has so many, which for one item of several bytes is none or all; how many of
-- the bytes are in the file after fclose, whose result the code does not read; whether the rename
-- succeeds; and the time.
pub record Disk : Type 0 where
  pub opens : Bool
  pub takes : (before size : ℕ) → ℕ
  pub flushed : ℕ → ℕ
  pub renames : Bool
  pub time : ℕ

-- The bytes that were written, or none at the first fwrite that returns 0, which one of no bytes
-- does too; one that takes only some of its bytes passes for a success.
unfoldable pub write_all : Disk → Bytes → List Bytes → Option Bytes
write_all disk file [] = some file
write_all disk file (c ∷ cs) = elim (take (disk.takes (length file) (length c)) c) [
  | [] ↦ none
  | b ∷ bs ↦ write_all disk (file ++ b ∷ bs) cs
]

-- SaveDB: the result, the dump file (`old` before) and the server.
unfoldable pub save_db : Disk → Option Bytes → Server → Run (CutisStatus × Option Bytes × Server)
save_db disk old s =
    if disk.opens
    then save_chunks s >>= (λ cs. ok (elim (write_all disk [] cs) [
      | none ↦ (cutis_err, old, s)
      | some file ↦
          if disk.renames
          then (
            cutis_ok,
            some (take (disk.flushed (length file)) file),
            record s { dirty = 0; last_save = disk.time },
          )
          else (cutis_err, old, s)
    ]))
    else ok (cutis_err, old, s)

-- `fread(&len, 4, 1, fp)` and `ntohl`; a short read ends the program.
unfoldable pub read_long : Bytes → Run (ℕ × Bytes)
read_long (a ∷ b ∷ c ∷ d ∷ buf) = ok (a * 2 ^ 24 + b * 2 ^ 16 + c * 2 ^ 8 + d, buf)
read_long _ = fault exits

-- `fread(p, 1, n, fp)`: if there is nothing to read the program ends, and where the file ends
-- before `n` bytes the rest of the buffer is not set.
unfoldable pub read_bytes : ℕ → Bytes → Run (Bytes × Bytes)
read_bytes n buf =
    if n == 0
    then fault exits
    else if length buf == 0
    then fault exits
    else if ltb (length buf) n
    then fault uninitialised
    else ok (take n buf, drop n buf)

unfoldable pub load_bytes : Bytes → Run (Bytes × Bytes)
load_bytes buf = do
  (vlen, rest) ← read_long buf
  if vlen == 0 then ok ([], rest) else read_bytes vlen rest

-- The loops over the elements of a list and of a set.
unfoldable pub load_list : ℕ → List Bytes → Bytes → Run (List Bytes × Bytes)
load_list zero l buf = ok (l, buf)
load_list (suc llen) l buf = do
  (el, rest) ← load_bytes buf
  load_list llen (list_add_node_tail l el) rest

unfoldable pub load_set : ℕ → Dict Bytes (Unit {0}) → Bytes → Run (Dict Bytes (Unit {0}) × Bytes)
load_set zero d buf = ok (d, buf)
load_set (suc llen) d buf = do
  (el, rest) ← load_bytes buf
  (ret, d') ← Dict.add d el tt
  elim ret [ dict_ok ↦ load_set llen d' rest | dict_err ↦ fault exits ]

unfoldable pub load_value : ℕ → Bytes → Run (Obj × Bytes)
load_value type buf =
    if type == 0
    then load_bytes buf >>= (λ r. ok (string r.0, r.1))
    else if type == 1
    then read_long buf >>= (λ r. load_list r.0 [] r.1 >>= (λ l. ok (list l.0, l.1)))
    else if type == 2
    then read_long buf >>= (λ r. load_set r.0 Dict.create r.1 >>= (λ d. ok (set d.0, d.1)))
    else fault assertion

-- One entry after its type: the key, the value, and DictAdd into database `id`.
unfoldable pub load_entry :
    ℕ → ℕ → List (Dict Bytes Obj) → Bytes → Run (List (Dict Bytes Obj) × Bytes)
load_entry type id dicts buf = do
  (klen, b1) ← read_long buf
  (key, b2) ← read_bytes klen b1
  (o, b3) ← load_value type b2
  d ← at dicts id
  (ret, d') ← Dict.add d key o
  elim ret [ dict_ok ↦ ok (set_elem dicts id d', b3) | dict_err ↦ fault exits ]

-- `while (1)`: each round reads a byte, so the length of the file is enough fuel.
unfoldable pub load_loop : ℕ → ℕ → List (Dict Bytes Obj) → Bytes → Run (List (Dict Bytes Obj))
load_loop zero id dicts buf = fault out_of_fuel
load_loop (suc fuel) id dicts [] = fault exits
load_loop (suc fuel) id dicts (type ∷ buf) =
    let select =
      read_long buf
      >>= (λ r. if ltb r.0 (length dicts) then load_loop fuel r.0 dicts r.1 else fault exits) in
    let entry = load_entry type id dicts buf >>= (λ r. load_loop fuel id r.0 r.1) in
    if type == eof_code then ok dicts else if type == select_db_code then select else entry

-- LoadDB of a file, none if it does not open.
unfoldable pub load_db : Option Bytes → Server → Run (CutisStatus × Server)
load_db none s = ok (cutis_err, s)
load_db (some file) s =
    if length file == 0
    then fault exits
    else if ltb (length file) 9
    then fault uninitialised
    else if is_zero (memcmp 9 file signature)
    then load_loop (length file) 0 s.dicts (drop 9 file)
      >>= (λ dicts. ok (cutis_ok, record s { dicts = dicts }))
    else ok (cutis_err, s)
