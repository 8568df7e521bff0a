-- ===== src/Store.antt =====
-- The state that the commands work on: src/server/server.h, src/server/client.h and
-- src/commands/object.h. An object is its value, and a pointer to a database is its index;
-- reference counts and the list of free objects are not part of it.
pub mod Laws
pub mod Calls
pub mod Content
pub mod Effect
use mathlib.Core.Option
use cutis.Common.{
  ℕ, zero, suc, ◌+◌, Bool, true, false, Option, none, some, List, [], ◌∷◌, ◌++◌, if◌then◌else◌, ltb,
  length, set as set_elem, Bytes, Run, ok, fault, ◌>>=◌,
}
use cutis.Common.Int.{ℤ, pos, negsuc}
use cutis.Dict
use cutis.Dict.{Dict, Status, dict_ok, dict_err, at}
use cutis.Key.{sds_dict_type}
use cutis.Shared

-- `CUTIS_STRING`, `CUTIS_LIST` and `CUTIS_SET`, each with what `ptr` leads to.
pub data Obj : Type 0 where
  string : Bytes → Obj
  list : List Bytes → Obj
  set : Dict Bytes (Unit {0}) → Obj

pub record Server : Type 0 where
  pub dicts : List (Dict Bytes Obj)
  pub db_num : ℕ
  pub dirty : ℕ
  pub last_save : ℕ
  pub bg_saving : Bool

-- `writable` says that the event for writing is registered; `dict` is the index of `c->dict`.
pub record Client : Type 0 where
  pub query_buf : Bytes
  pub reply : List Bytes
  pub writable : Bool
  pub argv : List Bytes
  pub bulk_len : ℤ
  pub dict : ℕ

pub record State : Type 0 where
  pub server : Server
  pub client : Client

abbrev pub is_empty {ℓ} : {A : Type ℓ} → List A → Bool
is_empty [] = true
is_empty (_ ∷ _) = false

unfoldable pub add_reply : Bytes → State → State
add_reply o s = record s {
  client = record s.client {
    reply = s.client.reply ++ o ∷ [];
    writable = if is_empty s.client.reply then true else s.client.writable;
  };
}

-- `c->argv[i]`
unfoldable pub arg : ℕ → State → Run Bytes
unfolding at
arg i s = at s.client.argv i

-- `c->server->dirty++`
unfoldable pub touch : State → State
touch s = record s { server = record s.server { dirty = s.server.dirty + 1 } }

unfoldable pub db : ℕ → State → Run (Dict Bytes Obj)
unfolding at
db i s = at s.server.dicts i

unfoldable pub put_db : ℕ → Dict Bytes Obj → State → State
put_db i d s = record s { server = record s.server { dicts = set_elem s.server.dicts i d } }

-- The calls of the table's operations on database `i`.
unfoldable pub find_key : ℕ → Bytes → State → Run (Option Obj)
unfolding db
find_key i k s = do
  d ← db i s
  entry ← Dict.find d k
  ok (elim entry [ none ↦ none | some e ↦ some e.1 ])

unfoldable pub add_key : ℕ → Bytes → Obj → State → Run (Status × State)
unfolding db put_db
add_key i k o s = do d ← db i s; (ret, d') ← Dict.add d k o; ok (ret, put_db i d' s)

unfoldable pub replace_key : ℕ → Bytes → Obj → State → Run State
unfolding db put_db
replace_key i k o s = do d ← db i s; (_, d') ← Dict.replace d k o; ok (put_db i d' s)

unfoldable pub delete_key : ℕ → Bytes → State → Run (Status × State)
unfolding db put_db
delete_key i k s = do d ← db i s; (ret, d') ← Dict.delete d k; ok (ret, put_db i d' s)

-- A change of the object that an entry of database `i` leads to.
unfoldable pub change_object : ℕ → Bytes → Obj → State → Run State
unfolding db put_db
change_object i k o s = do d ← db i s; d' ← Dict.set_hash_val d k o; ok (put_db i d' s)

unfoldable pub select_db : ℤ → State → Option State
select_db (pos id) s =
    if ltb id s.server.db_num
    then some (record s { client = record s.client { dict = id } })
    else none
select_db (negsuc id) s = none

-- "%d\r\n" of the length, the string and CRLF.
unfoldable pub reply_bulk : Bytes → State → State
unfolding add_reply
reply_bulk v s = add_reply Shared.crlf (add_reply v (add_reply (Shared.number_line (length v)) s))
