-- ===== src/Startup.antt =====
-- The start of the program: InitServer of src/server/server.c, and main of src/cutis.c up to the
-- event loop. The sockets and the timer that InitServer sets up are not part of the server here.
pub mod Restart
use cutis.Common.{ℕ, Option, none, some, List, [], ◌∷◌, false, replicate, Bytes, Run, ok, ◌>>=◌}
use cutis.Common.Int.{pos_part}
use cutis.Config.{Config, Files, configure}
use cutis.Cron.{CutisServer}
use cutis.Dict
use cutis.Dump.{load_db}
use cutis.Store.{Server}

-- `now` is what time returns.
unfoldable pub init_server : ℕ → Config → CutisServer
unfolding Dict.create
init_server now config =
    let store : Server = record {
      dicts = replicate (pos_part config.db_num) Dict.create;
      db_num = pos_part config.db_num;
      dirty = 0;
      last_save = now;
      bg_saving = false;
    } in
    record { store = store; config = config; cron_loops = 0; clients = [] }

-- main with a configuration file or without, and the dump file, if it opens: none where it exits
-- before the event loop. What LoadDB returns is not looked at but for the log.
unfoldable pub main :
    Files → List (Option (List Bytes)) → ℕ → Option Bytes → Run (Option CutisServer)
unfolding configure init_server load_db
main files args now dump = do
  configured ← configure files args
  elim configured [
    | none ↦ ok none
    | some config ↦ do
      let server = init_server now config
      (_, store) ← load_db dump server.store
      ok (some (record server { store = store }))
  ]
