-- ===== src/Config.antt =====
-- The configuration of src/server/server.c: InitServerConfig, LoadServerConfig and the list of the
-- save rules, and the part of main in src/cutis.c that calls them.
pub mod Bounds
use cutis.Common.{
  ℕ, ◌+◌, Bool, true, false, ◌&&◌, ◌||◌, Option, none, some, List, [], ◌∷◌, ◌++◌, ◌==◌,
  if◌then◌else◌, length, Bytes, codes, Run, ok, fault, out_of_bounds, ◌>>=◌,
}
use cutis.Common.Int.{ℤ, pos, negsuc, ltb_ℤ}
use cutis.Decimal.{atoi}
use cutis.Dump.{CutisStatus, cutis_ok, cutis_err}
use cutis.Request.{same_string}
use cutis.Sds.{sdstrim, sdssplitlen, sdstolower}

-- Save after `seconds` if there were `changes`.
pub record SaveParam : Type 0 where
  pub seconds : ℤ
  pub changes : ℤ

pub data Verbosity : Type 0 where
  debug notice warning : Verbosity

-- The fields of CutisServer that the configuration sets.
pub record Config : Type 0 where
  pub port : ℤ
  pub db_num : ℤ
  pub max_idle_time : ℤ
  pub verbosity : Verbosity
  pub log_file : Option Bytes
  pub save_params : List SaveParam

-- Whether chdir to a directory and fopen of a log file succeed.
pub record Files : Type 0 where
  pub enters : Bytes → Bool
  pub appends : Bytes → Bool

unfoldable pub append_server_save_params : Config → ℤ → ℤ → Config
append_server_save_params s seconds changes = record s {
  save_params = s.save_params ++ record { seconds = seconds; changes = changes } ∷ [];
}

unfoldable pub reset_server_save_params : Config → Config
reset_server_save_params s = record s { save_params = [] }

unfoldable pub init_server_config : Config
unfolding append_server_save_params
init_server_config =
    let s : Config = record {
      port = pos 6380;
      db_num = pos 16;
      max_idle_time = pos 300;
      verbosity = debug;
      log_file = none;
      save_params = [];
    } in
    let hour = append_server_save_params s (pos 3600) (pos 1) in
    let five_minutes = append_server_save_params hour (pos 300) (pos 100) in
    append_server_save_params five_minutes (pos 60) (pos 10000)

-- The directives, each with whether it is in order (`err` is NULL).
unfoldable pub set_port : Bytes → Config → Bool × Config
set_port v s =
    let port = atoi v in
    (if ltb_ℤ port (pos 1) || ltb_ℤ (pos 65535) port then false else true, record s { port = port })

unfoldable pub set_timeout : Bytes → Config → Bool × Config
set_timeout v s =
    let time = atoi v in
    (if ltb_ℤ time (pos 1) then false else true, record s { max_idle_time = time })

unfoldable pub set_save : Bytes → Bytes → Config → Bool × Config
unfolding append_server_save_params
set_save v w s =
    let seconds = atoi v in
    let changes = atoi w in
    if ltb_ℤ seconds (pos 1) || ltb_ℤ changes (pos 0)
    then (false, s)
    else (true, append_server_save_params s seconds changes)

unfoldable pub set_loglevel : Bytes → Config → Bool × Config
set_loglevel v s =
    if same_string v (codes "debug")
    then (true, record s { verbosity = debug })
    else if same_string v (codes "notice")
    then (true, record s { verbosity = notice })
    else if same_string v (codes "warning")
    then (true, record s { verbosity = warning })
    else (false, s)

unfoldable pub set_logfile : Files → Bytes → Config → Bool × Config
set_logfile files v s =
    if same_string v (codes "stdout")
    then (true, record s { log_file = none })
    else (files.appends v, record s { log_file = some v })

unfoldable pub set_databases : Bytes → Config → Bool × Config
set_databases v s =
    let n = atoi v in (if ltb_ℤ n (pos 1) then false else true, record s { db_num = n })

-- A directive with one argument.
unfoldable pub set_one : Files → Bytes → Bytes → Config → Bool × Config
unfolding set_port set_timeout set_loglevel set_logfile set_databases
set_one files name v s =
    if same_string name (codes "port")
    then set_port v s
    else if same_string name (codes "timeout")
    then set_timeout v s
    else if same_string name (codes "dir")
    then (files.enters v, s)
    else if same_string name (codes "loglevel")
    then set_loglevel v s
    else if same_string name (codes "logfile")
    then set_logfile files v s
    else if same_string name (codes "databases")
    then set_databases v s
    else (false, s)

unfoldable pub set_two : Bytes → Bytes → Bytes → Config → Bool × Config
unfolding set_save
set_two name v w s = if same_string name (codes "save") then set_save v w s else (false, s)

-- The chain of tests of `argv[0]` and `argc`.
unfoldable pub directive : Files → List Bytes → Config → Run (Bool × Config)
unfolding set_one set_two sdstolower
directive files [] s = fault out_of_bounds
directive files (name ∷ v ∷ []) s = ok (set_one files (sdstolower name) v s)
directive files (name ∷ v ∷ w ∷ []) s = ok (set_two (sdstolower name) v w s)
directive files _ s = ok (false, s)

-- A line that is blank or starts with `#` is skipped.
unfoldable pub config_line : Files → Bytes → Config → Run (Bool × Config)
unfolding directive sdstrim sdssplitlen
config_line files buf s = elim (sdstrim (codes " \t\r\n") buf) [
  | [] ↦ ok (true, s)
  | c ∷ line ↦ if c == b'#' then ok (true, s) else directive files (sdssplitlen b' ' (c ∷ line)) s
]

-- The lines are what fgets finds, each up to its first zero.
unfoldable pub config_lines : Files → List Bytes → Config → Run (CutisStatus × Config)
unfolding config_line
config_lines files [] s = ok (cutis_ok, s)
config_lines files (line ∷ lines) s = do
  (in_order, s') ← config_line files line s
  if in_order then config_lines files lines s' else ok (cutis_err, s')

-- LoadServerConfig of a file, none if it does not open.
unfoldable pub load_server_config :
    Files → Option (List Bytes) → Config → Run (CutisStatus × Config)
unfolding config_lines
load_server_config files none s = ok (cutis_err, s)
load_server_config files (some lines) s = config_lines files lines s

-- The start of main: the configuration with no argument or with a file, and none where it exits.
unfoldable pub configure : Files → List (Option (List Bytes)) → Run (Option Config)
unfolding load_server_config init_server_config reset_server_save_params
configure files [] = ok (some init_server_config)
configure files (file ∷ []) = do
  (ret, s) ← load_server_config files file (reset_server_save_params init_server_config)
  ok (elim ret [ cutis_ok ↦ some s | cutis_err ↦ none ])
configure files (_ ∷ _ ∷ _) = ok none
