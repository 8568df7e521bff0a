-- ===== src/Examples/Servers.antt =====
-- The configuration and ServerCron at concrete inputs.
use cutis.Common.{◌≢◌, arith, true, false, some, [], ◌∷◌, codes, Returns, List, Bytes}
use cutis.Config.{Files, configure}
use cutis.Config.Bounds.{UsableIfAny, configure-IsUsable}
use cutis.Config.{init_server_config}
use cutis.Cron.{CutisServer, exited, failed, server_cron}
use cutis.Cron.Laws.{Ticked, server_cron-Ticked}
use cutis.Key.{sds_dict_type}
use cutis.Dict.Resize.{reset-IsValid}
use cutis.Examples.Data.{empty_state}

abbrev pub files : Files
files = record { enters = λ dir. true; appends = λ name. false }

abbrev lines : List Bytes
lines = codes "# ports\n" ∷ codes "port 7000\n" ∷ codes "SAVE 60 5\n" ∷ []

configure-IsUsable_example : Returns (configure files (some lines ∷ [])) UsableIfAny
configure-IsUsable_example = configure-IsUsable files (some lines ∷ [])

abbrev server : CutisServer
server = record {
  store = record empty_state.server { dirty = 3; bg_saving = true };
  config = init_server_config;
  cron_loops = 20;
  clients =
      record { fd = 7; last_interaction = 100 } ∷ record { fd = 8; last_interaction = 900 } ∷ [];
}

not_failed : exited 0 ≢ failed
not_failed e = ground (arith, e)

server_cron-Ticked_example :
    Returns (server_cron (exited 0) 1000 server) (Ticked (exited 0) 1000 server)
server_cron-Ticked_example =
    server_cron-Ticked (exited 0) 1000 server (reset-IsValid, (reset-IsValid, tt)) not_failed
