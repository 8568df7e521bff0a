-- ===== src/Cron/Laws.antt =====
-- What one call of ServerCron of src/server/server.c does to the databases, the clients and the
-- state of saving.
use cutis.Common.{
  ℕ, zero, suc, ◌+◌, ◌%◌, ◌≡◌, ◌≢◌, refl, ap, ◌∙◌, inl, inr, Bool, true, false, List, [], ◌∷◌,
  arith, Bool-cases, if◌then◌else◌, ◌==◌, Bytes, Run, ok, ◌>>=◌, Returns,
}
use cutis.Config.{SaveParam}
use cutis.Dict.Resize.{IsValid, lookup, resize-Resized}
use cutis.Key.{sds_dict_type}
use cutis.Store.{Server}
use cutis.Store.Laws.{Db}
use cutis.Cron.Rules.{
  wants_save, is_due-wants_save, any_due, any_due-dicts, OnlyActive,
  close_timeout_clients-OnlyActive,
}
use cutis.Cron.{
  Connection, CutisServer, Wait, running, exited, killed, failed, too_sparse, resize_tables,
  close_timeout_clients, save_db_background, check_save_params, reap, server_cron,
}

abbrev pub AllValid : List Db → Type 0
AllValid [] = Unit
AllValid (d ∷ ds) = IsValid d × AllValid ds

-- A valid table with the entries of another.
abbrev pub SameEntries : Db → Db → Type 0
SameEntries d e = IsValid e × (e.used ≡ d.used) × ((q : Bytes) → lookup e q ≡ lookup d q)

-- As many tables, each with the entries that the one before had.
abbrev pub SameTables : List Db → List Db → Type 0
SameTables [] [] = Unit
SameTables (d ∷ ds) (e ∷ es) = SameEntries d e × SameTables ds es
SameTables _ _ = ⊥

resize_tables-SameTables : (ds : List Db) → AllValid ds → Returns (resize_tables ds) (SameTables ds)
unfolding resize_tables
resize_tables-SameTables [] valid = ([], refl, tt)
resize_tables-SameTables (d ∷ ds) (valid, valids) =
    let (rest, run, same) = resize_tables-SameTables ds valids in
    elim (Bool-cases (too_sparse d)) [
      | inr dense ↦ (d ∷ rest, rw (run, ◌>>=◌, dense) refl, ((valid, refl, λ q. refl), same))
      | inl sparse ↦
          let (r, resized, u) = resize-Resized d valid in
          (
            r.1 ∷ rest,
            rw (run, ◌>>=◌, sparse, resized, ◌>>=◌) refl,
            ((u.valid, u.same_used, u.same), same),
          )
    ]

check_save_params_lem :
    (now : ℕ) (sps : List SaveParam) (s : Server)
    → s.bg_saving ≡ false
    → check_save_params now sps s ≡ record s { bg_saving = any_due now s sps }
unfolding check_save_params save_db_background
check_save_params_lem now [] s idle = ap (λ b. record s { bg_saving = b }) idle
check_save_params_lem now (sp ∷ sps) s idle = elim (Bool-cases (wants_save now s sp)) [
  | inl due ↦ rw (is_due-wants_save now s sp, due, idle) refl
  | inr early ↦ rw (is_due-wants_save now s sp, early) (check_save_params_lem now sps s idle)
]

-- Whether a save runs, the changes that are not saved and the time of the last save, after a
-- process that saves was looked for.
abbrev pub after_wait : Wait → ℕ → Server → Bool × ℕ × ℕ
after_wait (exited zero) now s = (false, 0, now)
after_wait (exited (suc _)) now s = (false, s.dirty, s.last_save)
after_wait killed now s = (false, 0, now)
after_wait _ now s = (true, s.dirty, s.last_save)

-- The same after the whole call.
abbrev pub saving_after : Wait → ℕ → List SaveParam → Server → Bool × ℕ × ℕ
saving_after wait now sps s =
    if s.bg_saving then after_wait wait now s else (any_due now s sps, s.dirty, s.last_save)

after_wait-dicts :
    (wait : Wait) (now : ℕ) (s : Server) (ds : List Db)
    → after_wait wait now (record s { dicts = ds }) ≡ after_wait wait now s
after_wait-dicts running now s ds = refl
after_wait-dicts (exited zero) now s ds = refl
after_wait-dicts (exited (suc _)) now s ds = refl
after_wait-dicts killed now s ds = refl
after_wait-dicts failed now s ds = refl

abbrev pub saving : Server → Bool × ℕ × ℕ
saving s = (s.bg_saving, s.dirty, s.last_save)

reap-after_wait :
    (wait : Wait) (now : ℕ) (s : Server)
    → wait ≢ failed
    → s.bg_saving ≡ true
    → Returns (reap wait now s) (λ t. (t.dicts ≡ s.dicts) × (saving t ≡ after_wait wait now s))
unfolding reap
reap-after_wait running now s there busy =
    (s, refl, (refl, ap (λ b. (b, s.dirty, s.last_save)) busy))
reap-after_wait (exited zero) now s there busy = (_, refl, (refl, refl))
reap-after_wait (exited (suc code)) now s there busy =
    let bad : (suc code == 0) ≡ false = ground arith in
    (record s { bg_saving = false }, rw bad refl, (refl, refl))
reap-after_wait killed now s there busy = (_, refl, (refl, refl))
reap-after_wait failed now s there busy = absurd (there refl)

-- One call of ServerCron: the entries of every database are kept, the idle clients and no others
-- go at a tenth call, and saving goes on as `saving_after` says.
pub record Ticked (wait : Wait) (now : ℕ) (s : CutisServer) (r : ℕ × CutisServer) : Type 0 where
  pub again : r.0 ≡ 1000
  pub config : r.1.config ≡ s.config
  pub loops : r.1.cron_loops ≡ s.cron_loops + 1
  pub tables : SameTables s.store.dicts r.1.store.dicts
  pub tenth :
      (s.cron_loops % 10 == 0) ≡ true → OnlyActive now s.config.max_idle_time s.clients r.1.clients
  pub others : (s.cron_loops % 10 == 0) ≡ false → r.1.clients ≡ s.clients
  pub saves : saving r.1.store ≡ saving_after wait now s.config.save_params s.store

-- ServerCron of a server whose databases are valid tables ends without a fault, unless wait4
-- fails: it asks for the next call in 1000 milliseconds, keeps the configuration and the entries
-- of every database in valid tables, whether or not it resizes them, takes away at each tenth
-- call exactly the clients that are idle for more than the limit and none at another, ends a
-- background save whose process has ended, with no changes left and the time noted if the exit
-- code is 0 or a signal ended the process, and starts one exactly if none runs and for some rule
-- at least its changes are not saved and more than its seconds have passed since the last save.
pub server_cron-Ticked :
    (wait : Wait) (now : ℕ) (s : CutisServer)
    → AllValid s.store.dicts
    → wait ≢ failed
    → Returns (server_cron wait now s) (Ticked wait now s)
unfolding server_cron
server_cron-Ticked wait now s valid there =
    let (dicts, run, same) = resize_tables-SameTables s.store.dicts valid in
    let left : List Connection =
      if s.cron_loops % 10 == 0
      then close_timeout_clients now s.config.max_idle_time s.clients
      else s.clients in
    let tenth : (s.cron_loops % 10 == 0) ≡ true
        → OnlyActive now s.config.max_idle_time s.clients left =
      λ e. rw e (close_timeout_clients-OnlyActive now s.config.max_idle_time s.clients) in
    let others : (s.cron_loops % 10 == 0) ≡ false → left ≡ s.clients = λ e. rw e refl in
    let t : Server = record s.store { dicts = dicts } in
    let ticked : Server → ℕ × CutisServer =
      λ store. (1000, record s { store = store; cron_loops = s.cron_loops + 1; clients = left }) in
    let saved : Bool → Run Server =
      λ b. if b then reap wait now t else ok (check_save_params now s.config.save_params t) in
    let finish : Run Server → Run (ℕ × CutisServer) = λ m. m >>= (λ store. ok (ticked store)) in
    let checked = check_save_params_lem now s.config.save_params t in
    elim (Bool-cases s.store.bg_saving) [
      | inl busy ↦
          let (store, reaped, (kept, saves)) = reap-after_wait wait now t there busy in
          (
            ticked store,
            rw (run, ◌>>=◌) (ap (λ b. finish (saved b)) busy ∙ ap finish reaped),
            record {
              again = refl;
              config = refl;
              loops = refl;
              tables = rw kept same;
              tenth = tenth;
              others = others;
              saves = saves ∙ after_wait-dicts wait now s.store dicts ∙ rw busy refl;
            },
          )
      | inr idle ↦ (
        ticked (check_save_params now s.config.save_params t),
        rw (run, ◌>>=◌) (ap (λ b. finish (saved b)) idle),
        record {
          again = refl;
          config = refl;
          loops = refl;
          tables = rw (checked idle) same;
          tenth = tenth;
          others = others;
          saves =
              ap saving (checked idle)
              ∙ ap (λ b. (b, s.store.dirty, s.store.last_save))
                  (any_due-dicts now s.store dicts s.config.save_params)
              ∙ rw idle refl;
        },
      )
    ]
