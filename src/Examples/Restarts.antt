-- ===== src/Examples/Restarts.antt =====
-- A server that is shut down and started again.
use cutis.Common.{
  false, ◌⊎◌, ◌≡◌, refl, arith, none, some, List, [], ◌∷◌, Bytes, codes, ok, Returns,
}
use cutis.Common.Int.{pos}
use cutis.Config.{Config, configure, debug}
use cutis.Command.Saves.{shut_down_command}
use cutis.Decimal.{atoi}
use cutis.Request.{same_string}
use cutis.Startup.{main}
use cutis.Startup.Restart.{Restored, main-Restored}
use cutis.Examples.Dumps.{two_dbs, two_dbs-AllSavable, state, large, large-IsWhole}
use cutis.Examples.Servers.{files}

abbrev lines : List Bytes
lines = codes "databases 2\n" ∷ []

abbrev config : Config
config = record {
  port = pos 6380;
  db_num = pos 2;
  max_idle_time = pos 300;
  verbosity = debug;
  log_file = none;
  save_params = [];
}

configured : configure files (some lines ∷ []) ≡ ok (some config)
unfolding configure same_string atoi
configured = refl

main-Restored_example :
    Returns
      (shut_down_command large none state)
      λ r. (r.0 ≡ false) ⊎ Returns (main files (some lines ∷ []) 1700000060 r.1) (Restored two_dbs)
main-Restored_example =
    main-Restored state files (some lines ∷ []) 1700000060 config two_dbs-AllSavable (omega arith)
      configured refl large none large-IsWhole
