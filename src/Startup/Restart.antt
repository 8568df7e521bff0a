-- ===== src/Startup/Restart.antt =====
-- A server that stops and is started again, of src/commands/command.c and src/cutis.c.
use cutis.Common.{
  false, ◌⊎◌, ℕ, ◌^◌, ◌<◌, ◌≡◌, refl, ap, ◌∙◌, inl, inr, Option, none, some, List, Bytes, length,
  length-replicate, get_or-replicate, ok, ◌>>=◌, Returns,
}
use cutis.Common.Int.{pos, pos_part}
use cutis.Config.{Config, Files, configure}
use cutis.Cron.{CutisServer}
use cutis.Command.Saves.{shut_down_command}
use cutis.Command.Saves.Safety.{shut_down_command-StopsSafely}
use cutis.Dict
use cutis.Dump.{Disk}
use cutis.Dump.Atomic.{IsWhole}
use cutis.Dump.Entries.{table_at}
use cutis.Dump.RoundTrip.{AllSavableDbs, SameContent}
use cutis.Store.{Server, State}
use cutis.Startup.{init_server, main}

fresh_empty :
    (now : ℕ) (config : Config) (i : ℕ)
    → table_at (init_server now config).store.dicts i ≡ Dict.reset
unfolding init_server Dict.create
fresh_empty now config i = get_or-replicate _ i Dict.reset

init_width :
    (now : ℕ) (config : Config) (n : ℕ)
    → config.db_num ≡ pos n
    → length (init_server now config).store.dicts ≡ n
unfolding init_server
init_width now config n dbs = length-replicate (pos_part config.db_num) _ ∙ ap pos_part dbs

-- The server that main starts has in every database what `s` has.
abbrev pub Restored : Server → Option CutisServer → Type 0
Restored s none = ⊥
Restored s (some t) =
    (length t.store.dicts ≡ length s.dicts)
    × ((i : ℕ) → i < length s.dicts → SameContent (table_at t.store.dicts i) (table_at s.dicts i))

-- For a server whose databases are valid tables that fit the format of a dump, and arguments of
-- main with which it reads a configuration of as many databases: SHUTDOWN ends without a fault
-- on a disk where every fwrite takes all of its bytes or none and fclose loses none, and either
-- does not stop the server or leaves a dump file, or none, from which main, without a fault,
-- starts a server that has the entries of every database.
pub main-Restored :
    (s : State) (files : Files) (args : List (Option (List Bytes))) (now : ℕ) (config : Config)
    → AllSavableDbs s.server.dicts
    → length s.server.dicts < 2 ^ 32
    → configure files args ≡ ok (some config)
    → config.db_num ≡ pos (length s.server.dicts)
    → (disk : Disk) (old : Option Bytes) → IsWhole disk
    → Returns
        (shut_down_command disk old s)
        λ r. (r.0 ≡ false) ⊎ Returns (main files args now r.1) (Restored s.server)
unfolding main
main-Restored s files args now config savable few configured dbs disk old whole =
    let fresh = (init_server now config).store in
    let width : length fresh.dicts ≡ length s.server.dicts =
      init_width now config (length s.server.dicts) dbs in
    let (r, run, safe) =
      shut_down_command-StopsSafely s fresh savable few width (fresh_empty now config) disk old
        whole in
    (
      r,
      run,
      elim safe [
        | inr kept ↦ inl (ap (λ t. t.0) kept)
        | inl (_, (l, loaded, (good, lengths, same))) ↦ inr (
          some (record (init_server now config) { store = l.1 }),
          rw (configured, ◌>>=◌, loaded, ◌>>=◌) refl,
          (lengths, same),
        )
      ],
    )
