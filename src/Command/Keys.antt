-- ===== src/Command/Keys.antt =====
-- The commands on keys and databases of src/commands/command.c, and the smallest ones.
use cutis.Common.{
  ℕ, Bool, true, false, Option, none, some, List, Bytes, codes, ◌==◌, if◌then◌else◌, Run, ok, ◌>>=◌,
}
use cutis.Decimal.{atoi}
use cutis.Dict
use cutis.Dict.{dict_ok, dict_err}
use cutis.Dict.Iterator.{get_random_key}
use cutis.Key.{sds_dict_type, sdscmp, is_zero}
use cutis.Shared
use cutis.Store.{
  Obj, string, list, set, State, add_reply, reply_bulk, arg, touch, db, find_key, add_key,
  replace_key, delete_key, select_db,
}

unfoldable pub type_name : Option Obj → Bytes
type_name none = codes "none"
type_name (some (string _)) = codes "string"
type_name (some (list _)) = codes "list"
type_name (some (set _)) = codes "set"

unfoldable pub type_command : State → Run State
unfolding find_key type_name arg add_reply
type_command s = do
  k ← arg 1 s
  de ← find_key s.client.dict k s
  ok (add_reply Shared.crlf (add_reply (type_name de) s))

unfoldable pub select_command : State → Run State
unfolding select_db atoi arg add_reply
select_command s = do
  id ← arg 1 s
  ok (elim (select_db (atoi id) s) [
    | none ↦ add_reply (codes "-ERR invalid DB index\r\n") s
    | some s' ↦ add_reply Shared.ok s'
  ])

-- The databases are told apart by their indices, as the code does by their addresses.
unfoldable pub move_command : State → Run State
unfolding find_key add_key delete_key select_db atoi arg touch add_reply
move_command s = do
  let src = s.client.dict
  id ← arg 2 s
  elim (select_db (atoi id) s) [
    | none ↦ ok (add_reply (codes "-ERR target DB out of range\r\n") s)
    | some selected ↦
        let dst = selected.client.dict in
        if src == dst
        then ok (add_reply (codes "-ERR source DB is the same as target DB\r\n") s)
        else do
          k ← arg 1 s
          de ← find_key src k s
          elim de [
            | none ↦ ok (add_reply (codes "-ERR no such key\r\n") s)
            | some o ↦ do
              (ret, s') ← add_key dst k o s
              elim ret [
                | dict_err ↦
                    ok (add_reply (codes "-ERR target DB already contains the moved key\r\n") s')
                | dict_ok ↦ do (_, s'') ← delete_key src k s'; ok (add_reply Shared.ok (touch s''))
              ]
          ]
  ]

-- The end of RENAME: the old key goes.
unfoldable pub drop_source : Bytes → State → Run State
unfolding delete_key touch add_reply
drop_source k s = do (_, s') ← delete_key s.client.dict k s; ok (add_reply Shared.ok (touch s'))

-- `nx` is true for RENAMENX.
unfoldable pub rename_generic_command : Bool → State → Run State
unfolding find_key add_key replace_key drop_source sdscmp arg add_reply
rename_generic_command nx s = do
  src ← arg 1 s
  dst ← arg 2 s
  if is_zero (sdscmp src dst)
      then ok (add_reply (codes "-ERR src and dest key are the same\r\n") s)
      else do
        de ← find_key s.client.dict src s
        elim de [
          | none ↦ ok (add_reply (codes "-ERR no such key\r\n") s)
          | some o ↦ do
            (ret, s') ← add_key s.client.dict dst o s
            elim ret [
              | dict_ok ↦ drop_source src s'
              | dict_err ↦
                  if nx
                  then ok (add_reply (codes "-ERR destination key exists\r\n") s')
                  else do s'' ← replace_key s.client.dict dst o s'; drop_source src s''
            ]
        ]

unfoldable pub rename_command : State → Run State
unfolding rename_generic_command
rename_command s = rename_generic_command false s

unfoldable pub renamenx_command : State → Run State
unfolding rename_generic_command
renamenx_command s = rename_generic_command true s

unfoldable pub dbsize_command : State → Run State
unfolding db Dict.get_hash_table_used add_reply
dbsize_command s = do
  d ← db s.client.dict s
  ok (add_reply (Shared.long_line (Dict.get_hash_table_used d)) s)

-- The random numbers that the table draws are the first argument.
unfoldable pub random_key_command : List ℕ → State → Run State
unfolding db get_random_key add_reply
random_key_command randoms s = do
  d ← db s.client.dict s
  de ← get_random_key d randoms
  ok (elim de [ none ↦ add_reply Shared.crlf s | some e ↦ add_reply Shared.crlf (add_reply e.0 s) ])

unfoldable pub ping_command : State → Run State
unfolding add_reply
ping_command s = ok (add_reply Shared.pong s)

unfoldable pub echo_command : State → Run State
unfolding arg reply_bulk
echo_command s = do text ← arg 1 s; ok (reply_bulk text s)

unfoldable pub last_save_command : State → Run State
unfolding add_reply
last_save_command s = ok (add_reply (Shared.long_line s.server.last_save) s)
