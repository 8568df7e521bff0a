-- ===== src/Cron.antt =====
-- ServerCron of src/server/server.c, which a timer calls every second, with what it calls there:
-- CloseTimeoutClients and SaveDBBackground. The clock and wait4 are arguments.
pub mod Rules
pub mod Laws
use cutis.Common.{
  ℕ, ◌+◌, ◌-◌, ◌*◌, ◌/◌, ◌%◌, Bool, true, false, not, ◌&&◌, List, [], ◌∷◌, ◌++◌, ltb, leb, ◌==◌,
  if◌then◌else◌, u32_mod, Run, ok, fault, uninitialised, ◌>>=◌, Bytes,
}
use cutis.Common.Int.{ℤ, pos, ltb_ℤ, sub_ℕ}
use cutis.Config.{Config, SaveParam}
use cutis.Dict
use cutis.Dict.{Dict}
use cutis.Key.{sds_dict_type}
use cutis.Store.{Obj, Server}
use cutis.Dump.{CutisStatus, cutis_ok, cutis_err}

pub record Connection : Type 0 where
  pub fd : ℕ
  pub last_interaction : ℕ

-- CutisServer: the fields that the commands use, those of the configuration, and the rest.
pub record CutisServer : Type 0 where
  pub store : Server
  pub config : Config
  pub cron_loops : ℕ
  pub clients : List Connection

-- What `wait4(-1, &status, WNOHANG, NULL)` finds: it returns 0, the process that exited with a
-- code, the process that a signal ended, or -1, which leaves `status` as it is.
pub data Wait : Type 0 where
  running : Wait
  exited : ℕ → Wait
  killed : Wait
  failed : Wait

-- `size >= CUTIS_HT_MINSLOTS && (used * 100 / size < CUTIS_HT_MINFILL)`
unfoldable pub too_sparse : Dict Bytes Obj → Bool
too_sparse d = leb 16384 d.size && ltb (d.used * 100 % u32_mod / d.size) 10

unfoldable pub resize_tables : List (Dict Bytes Obj) → Run (List (Dict Bytes Obj))
resize_tables [] = ok []
resize_tables (d ∷ ds) = do
  rest ← resize_tables ds
  if too_sparse d then Dict.resize d >>= (λ r. ok (r.1 ∷ rest)) else ok (d ∷ rest)

unfoldable pub close_timeout_clients : ℕ → ℤ → List Connection → List Connection
close_timeout_clients now max_idle_time [] = []
close_timeout_clients now max_idle_time (c ∷ cs) =
    let rest = close_timeout_clients now max_idle_time cs in
    if ltb_ℤ max_idle_time (sub_ℕ now c.last_interaction) then rest else c ∷ rest

-- The parent's side of SaveDBBackground. A fork that fails is taken for the parent too.
unfoldable pub save_db_background : Server → CutisStatus × Server
save_db_background s =
    if s.bg_saving then (cutis_err, s) else (cutis_ok, record s { bg_saving = true })

-- `server->dirty >= sp->changes && now - server->last_save > sp->seconds`
unfoldable pub is_due : ℕ → Server → SaveParam → Bool
is_due now s sp = not (ltb_ℤ (pos s.dirty) sp.changes) && ltb_ℤ sp.seconds (sub_ℕ now s.last_save)

-- The first rule that is due starts a save.
unfoldable pub check_save_params : ℕ → List SaveParam → Server → Server
check_save_params now [] s = s
check_save_params now (sp ∷ sps) s =
    let rest = check_save_params now sps s in
    if is_due now s sp then (save_db_background s).1 else rest

-- The end of a background save, with the code of `WEXITSTATUS`.
unfoldable pub finish_save : ℕ → ℕ → Server → Server
finish_save exit_code now s =
    if exit_code == 0
    then record s { dirty = 0; last_save = now; bg_saving = false }
    else record s { bg_saving = false }

-- `WEXITSTATUS` is 0 of a status that a signal left: the number of the signal is in its low byte.
unfoldable pub reap : Wait → ℕ → Server → Run Server
unfolding finish_save
reap running now s = ok s
reap (exited code) now s = ok (finish_save code now s)
reap killed now s = ok (finish_save 0 now s)
reap failed now s = fault uninitialised

-- The time until the next call in milliseconds, and the server.
unfoldable pub server_cron : Wait → ℕ → CutisServer → Run (ℕ × CutisServer)
server_cron wait now s = do
  dicts ← resize_tables s.store.dicts
  let clients =
      if s.cron_loops % 10 == 0
      then close_timeout_clients now s.config.max_idle_time s.clients
      else s.clients
  let resized = record s.store { dicts = dicts }
  store ←
      if resized.bg_saving
      then reap wait now resized
      else ok (check_save_params now s.config.save_params resized)
  ok (1000, record s { store = store; cron_loops = s.cron_loops + 1; clients = clients })
