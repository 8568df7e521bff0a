-- ===== src/Command/Saves/Safety.antt =====
-- A command that saves, of src/commands/command.c, loses no data.
use cutis.Common.{
  ℕ, ◌^◌, ◌<◌, ◌≡◌, ◌⊎◌, refl, ap, ◌∙◌, inl, inr, Bool, true, false, Option, Bytes, codes, length,
  ok, ◌>>=◌, Returns,
}
use cutis.Dict
use cutis.Dump.{Disk, load_db}
use cutis.Dump.Atomic.{IsWhole, save_db-Atomic}
use cutis.Dump.Entries.{table_at}
use cutis.Dump.RoundTrip.{AllSavableDbs, Reloaded}
use cutis.Store.{State, Server, add_reply}
use cutis.Command.Saves.{with_server, background_save, shut_down_command}

module _ (s : State) (fresh : Server) (savable : AllSavableDbs s.server.dicts)
    (few : length s.server.dicts < 2 ^ 32) (width : length fresh.dicts ≡ length s.server.dicts)
    (empty : (i : ℕ) → table_at fresh.dicts i ≡ Dict.reset) where
  -- The server stops and the dump file restores its databases, or it goes on as it was with the
  -- error as its reply, and the dump file is the old one.
  abbrev pub StopsSafely : Option Bytes → Bool × Option Bytes × State → Type 0
  StopsSafely old r =
      ((r.0 ≡ true) × Returns (load_db r.1 fresh) (Reloaded s.server))
      ⊎ (r ≡ (false, old, add_reply (codes "-ERR can't quit, problems saving the DB\r\n") s))

  -- SHUTDOWN of a server whose databases are valid tables that fit the format of a dump ends
  -- without a fault, on a disk where every fwrite takes all of its bytes or none and fclose
  -- loses none: it stops the event loop only with a dump file that LoadDB restores every
  -- database from, and otherwise it keeps the dump file and the state and replies the error.
  pub shut_down_command-StopsSafely :
      (disk : Disk) (old : Option Bytes)
      → IsWhole disk
      → Returns (shut_down_command disk old s) (StopsSafely old)
  unfolding shut_down_command with_server
  shut_down_command-StopsSafely disk old whole =
      let (r, run, safe) = save_db-Atomic s.server fresh savable few width empty disk old whole in
      elim safe [
        | inl kept ↦ (
          (false, old, add_reply (codes "-ERR can't quit, problems saving the DB\r\n") s),
          rw (run ∙ ap ok kept, ◌>>=◌) refl,
          inr refl,
        )
        | inr (saved, server, restored) ↦
            ((true, r.1, with_server s r.2), rw (run, ◌>>=◌, saved) refl, inl (refl, restored))
      ]

  -- An exit with 0 leaves a dump file that restores the databases, and one with 1 the old file.
  abbrev pub SavesSafely : Option Bytes → ℕ × Option Bytes → Type 0
  SavesSafely old r = ((r.0 ≡ 0) × Returns (load_db r.1 fresh) (Reloaded s.server)) ⊎ (r ≡ (1, old))

  -- The process that BGSAVE forks, of a server whose databases are valid tables that fit the
  -- format of a dump, ends without a fault, on a disk where every fwrite takes all of its bytes or
  -- none and fclose loses none: it exits with 0 only with a dump file
  -- that LoadDB restores every database from, and with 1 otherwise, where the dump file is the
  -- old one.
  pub background_save-SavesSafely :
      (disk : Disk) (old : Option Bytes)
      → IsWhole disk
      → Returns (background_save disk old s) (SavesSafely old)
  unfolding background_save
  background_save-SavesSafely disk old whole =
      let (r, run, safe) = save_db-Atomic s.server fresh savable few width empty disk old whole in
      elim safe [
        | inl kept ↦ ((1, old), rw (run ∙ ap ok kept, ◌>>=◌) refl, inr refl)
        | inr (saved, server, restored) ↦
            ((0, r.1), rw (run, ◌>>=◌, saved) refl, inl (refl, restored))
      ]
