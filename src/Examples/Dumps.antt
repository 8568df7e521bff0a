-- ===== src/Examples/Dumps.antt =====
-- The dump of a server with one key, and its reload.
use mathlib.Core.List.{flatten}
use cutis.Common.{
  inr, ltb, if◌then◌else◌, ℕ, zero, suc, ◌<◌, ◌≡◌, refl, sym, ap, subst, arith, true, false, none,
  some, [], ◌∷◌, Bytes, codes, Run, ok, fault, Returns,
}
use cutis.Dict
use cutis.Dict.{Dict, Status}
use cutis.Dict.Power.{max_size}
use cutis.Dict.Resize.{IsValid, reset-IsValid, lookup, lookup-empty}
use cutis.Dict.Methods.{add-Inserted, Writes}
use cutis.Key.{sds_dict_type, sds_dict_hash_function}
use cutis.Store.{Obj, string, Server, State}
use cutis.Common.Int.{negsuc}
use cutis.Command.Saves.{shut_down_command}
use cutis.Command.Saves.Safety.{StopsSafely, shut_down_command-StopsSafely}
use cutis.Store.Laws.{Db}
use cutis.Dump.{Disk, save_db, save_chunks, load_db, cutis_ok}
use cutis.Dump.Bytes32.{then_bytes}
use cutis.Dump.Entries.{table_at, AllSavable}
use cutis.Dump.Values.{reset-used}
use cutis.Dump.RoundTrip.{SavableDb, AllSavableDbs, Reloaded, load_db-save_chunks}
use cutis.Dump.Atomic.{IsWhole, Atomic, save_db-Atomic, save_db_works}

-- The table that a call leaves.
abbrev after : Run (Status × Db) → Db
after (ok r) = r.1
after (fault e) = Dict.reset

-- "a" ↦ "hi"
abbrev pub one_key : Db
one_key = after (Dict.add Dict.reset (codes "a") (string (codes "hi")))

one_key-Writes : Writes Dict.reset (codes "a") (some (codes "a", string (codes "hi"))) one_key
one_key-Writes =
    let (r, run, (_, used, w)) =
      add-Inserted (Dict.reset {K = Bytes} {V = Obj}) (codes "a") (string (codes "hi"))
        reset-IsValid (omega (arith, reset-used Obj))
        (lookup-empty Dict.reset reset-IsValid (reset-used Obj) (codes "a")) in
    subst (λ (d : Db). Writes Dict.reset (codes "a") (some (codes "a", string (codes "hi"))) d)
      (sym (ap after run)) w

pub one_key-IsValid : IsValid one_key
one_key-IsValid = one_key-Writes.valid

pub one_key_reads :
    (q : Bytes)
    → lookup one_key q ≡ (
        if sds_dict_type.key_compare q (codes "a")
        then some (codes "a", string (codes "hi"))
        else lookup Dict.reset q)
one_key_reads q = one_key-Writes.reads q

pub one_key_size : one_key.size < max_size
unfolding Dict.add Dict.reset Dict.expand_if_needed Dict.expand Dict.next_power Dict.next_power_loop
    Dict.key_index Dict.chain_at Dict.slot Dict.at Dict.search Dict.move_all Dict.move_chain
    Dict.gen_hash_function Dict.gen_hash_from sds_dict_hash_function
one_key_size = omega arith

one_key-AllSavable : AllSavable (flatten one_key.table)
unfolding Dict.add Dict.reset Dict.expand_if_needed Dict.expand Dict.next_power Dict.next_power_loop
    Dict.key_index Dict.chain_at Dict.slot Dict.at Dict.search Dict.move_all Dict.move_chain
    Dict.gen_hash_function Dict.gen_hash_from sds_dict_hash_function flatten
one_key-AllSavable = ((omega arith, omega arith, omega arith), tt)

abbrev pub two_dbs : Server
two_dbs = record {
  dicts = one_key ∷ Dict.reset ∷ [];
  db_num = 2;
  dirty = 5;
  last_save = 0;
  bg_saving = false;
}

abbrev fresh : Server
fresh = record {
  dicts = Dict.reset ∷ Dict.reset ∷ [];
  db_num = 2;
  dirty = 0;
  last_save = 0;
  bg_saving = false;
}

reset-SavableDb : SavableDb Dict.reset
unfolding Dict.reset flatten
reset-SavableDb = (reset-IsValid, omega arith, tt)

pub two_dbs-AllSavable : AllSavableDbs two_dbs.dicts
two_dbs-AllSavable = ((one_key-IsValid, one_key_size, one_key-AllSavable), (reset-SavableDb, tt))

fresh_empty : (i : ℕ) → table_at fresh.dicts i ≡ Dict.reset
fresh_empty zero = refl
fresh_empty (suc zero) = refl
fresh_empty (suc (suc i)) = refl

-- A disk that takes every write.
abbrev pub large : Disk
large = record {
  opens = true;
  takes = λ n m. m;
  flushed = λ n. n;
  renames = true;
  time = 1700000000;
}

-- A disk that is full after 20 bytes.
abbrev full : Disk
full = record {
  opens = true;
  takes = λ n m. if ltb 20 n then 0 else m;
  flushed = λ n. n;
  renames = true;
  time = 1700000000;
}

full-IsWhole : IsWhole full
full-IsWhole = record { takes = λ n m. ground arith; flushed = λ n. refl }

pub large-IsWhole : IsWhole large
large-IsWhole = record { takes = λ n m. inr refl; flushed = λ n. refl }

load_db-save_chunks_example :
    Returns
      (save_chunks two_dbs)
      λ cs. Returns (load_db (some (then_bytes cs [])) fresh) (Reloaded two_dbs)
load_db-save_chunks_example =
    load_db-save_chunks two_dbs fresh two_dbs-AllSavable (omega arith) refl fresh_empty

save_db-Atomic_example :
    Returns
      (save_db full none two_dbs)
      (Atomic two_dbs fresh two_dbs-AllSavable (omega arith) refl fresh_empty full none)
save_db-Atomic_example =
    save_db-Atomic two_dbs fresh two_dbs-AllSavable (omega arith) refl fresh_empty full none
      full-IsWhole

save_db_works_example : Returns (save_db large none two_dbs) λ r.
    (r.0 ≡ cutis_ok)
    × (r.2 ≡ record two_dbs { dirty = 0; last_save = 1700000000 })
    × Returns (load_db r.1 fresh) (Reloaded two_dbs)
save_db_works_example =
    save_db_works two_dbs fresh two_dbs-AllSavable (omega arith) refl fresh_empty large none refl
      refl (λ n m. refl) (λ n. refl)

abbrev pub state : State
state = record {
  server = two_dbs;
  client = record {
    query_buf = [];
    reply = [];
    writable = false;
    argv = codes "shutdown" ∷ [];
    bulk_len = negsuc 0;
    dict = 0;
  };
}

shut_down_command-StopsSafely_example :
    Returns
      (shut_down_command full none state)
      (StopsSafely state fresh two_dbs-AllSavable (omega arith) refl fresh_empty none)
shut_down_command-StopsSafely_example =
    shut_down_command-StopsSafely state fresh two_dbs-AllSavable (omega arith) refl fresh_empty full
      none full-IsWhole
