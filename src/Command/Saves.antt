-- ===== src/Command/Saves.antt =====
-- SAVE, BGSAVE and SHUTDOWN of src/commands/command.c. The dump file, `old` before the command, is
-- a result besides the state.
pub mod Safety
use cutis.Common.{Bool, true, false, Option, Bytes, codes, if◌then◌else◌, Run, ok, ◌>>=◌, ℕ}
use cutis.Cron.{save_db_background}
use cutis.Dump.{Disk, CutisStatus, cutis_ok, cutis_err, save_db}
use cutis.Shared
use cutis.Store.{Server, State, add_reply}

unfoldable pub with_server : State → Server → State
with_server s server = record s { server = server }

unfoldable pub save_command : Disk → Option Bytes → State → Run (Option Bytes × State)
unfolding add_reply
save_command disk old s = do
  (ret, file, server) ← save_db disk old s.server
  ok (
    file,
    elim ret [
      | cutis_ok ↦ add_reply Shared.ok (with_server s server)
      | cutis_err ↦ add_reply Shared.err (with_server s server)
    ],
  )

-- What the process that SaveDBBackground forks exits with, and the dump file that it leaves.
unfoldable pub background_save : Disk → Option Bytes → State → Run (ℕ × Option Bytes)
background_save disk old s = do
  (ret, file, _) ← save_db disk old s.server
  ok (elim ret [ cutis_ok ↦ (0, file) | cutis_err ↦ (1, file) ])

unfoldable pub bgsave_command : State → State
unfolding save_db_background add_reply
bgsave_command s =
    let (ret, server) = save_db_background s.server in
    if s.server.bg_saving
    then add_reply (codes "-ERR background save already in process\r\n") s
    else elim ret [
      | cutis_ok ↦ add_reply Shared.ok (with_server s server)
      | cutis_err ↦ add_reply Shared.err (with_server s server)
    ]

-- Whether the event loop is to stop, the dump file and the state.
unfoldable pub shut_down_command : Disk → Option Bytes → State → Run (Bool × Option Bytes × State)
unfolding add_reply
shut_down_command disk old s = do
  (ret, file, server) ← save_db disk old s.server
  ok (elim ret [
    | cutis_ok ↦ (true, file, with_server s server)
    | cutis_err ↦ (
      false,
      file,
      add_reply (codes "-ERR can't quit, problems saving the DB\r\n") (with_server s server),
    )
  ])
