-- ===== src/Dump/Atomic.antt =====
-- SaveDB of src/server/server.c as a whole: what is on the disk afterwards.
use cutis.Common.{
  ℕ, ◌^◌, ◌<◌, ◌≡◌, ◌⊎◌, refl, ◌∙◌, inl, inr, true, Option, some, List, [], ◌∷◌, ◌++◌, arith,
  Bool-cases, Option-cases, append_assoc, append-nil, Bytes, length, take, take-all, ◌>>=◌, Returns,
}
use cutis.Dict
use cutis.Store.{Server}
use cutis.Dump.{Disk, CutisStatus, cutis_ok, cutis_err, write_all, save_db, load_db}
use cutis.Dump.Bytes32.{then_bytes}
use cutis.Dump.Entries.{table_at}
use cutis.Dump.Chunks.{write_all_works}
use cutis.Dump.RoundTrip.{AllSavableDbs, Reloaded, load_db-save_chunks}

-- Every fwrite takes all of its bytes or none, and the flush at fclose leaves no byte out.
pub record IsWhole (disk : Disk) : Type 0 where
  pub takes : (before size : ℕ) → disk.takes before size ≡ 0 ⊎ disk.takes before size ≡ size
  pub flushed : (size : ℕ) → disk.flushed size ≡ size

flushed_all :
    (disk : Disk) (file : Bytes)
    → ((size : ℕ) → disk.flushed size ≡ size)
    → take (disk.flushed (length file)) file ≡ file
flushed_all disk file h =
    take-all (disk.flushed (length file)) file (omega (arith, h (length file)))

write_all-then_bytes :
    (disk : Disk) (whole : IsWhole disk) (cs : List Bytes) (before file : Bytes)
    → write_all disk before cs ≡ some file
    → file ≡ before ++ then_bytes cs []
unfolding write_all
write_all-then_bytes disk whole [] before file h = ground (arith, h, append-nil before)
write_all-then_bytes disk whole ([] ∷ cs) before file h =
    let nothing : take {A = ℕ} (disk.takes (length before) 0) [] ≡ [] =
      take-all {A = ℕ} (disk.takes (length before) 0) [] (omega arith) in
    absurd (ground (arith, rw (nothing, write_all) at h))
write_all-then_bytes disk whole ((b ∷ c) ∷ cs) before file h =
    elim (whole.takes (length before) (length (b ∷ c))) [
      | inl failed ↦ absurd (ground (arith, rw (failed, write_all) at h))
      | inr written ↦
          write_all-then_bytes disk whole cs (before ++ b ∷ c) file
            (rw (written, take-all (length (b ∷ c)) (b ∷ c) (omega arith), write_all) at h)
          ∙ append_assoc before (b ∷ c) (then_bytes cs [])
    ]

module _ (s fresh : Server) (savable : AllSavableDbs s.dicts) (few : length s.dicts < 2 ^ 32)
    (width : length fresh.dicts ≡ length s.dicts)
    (empty : (i : ℕ) → table_at fresh.dicts i ≡ Dict.reset) where
  -- The old file and the server as they were, or a new file that restores the databases.
  abbrev pub Atomic : Disk → Option Bytes → CutisStatus × Option Bytes × Server → Type 0
  Atomic disk old r =
      (r ≡ (cutis_err, old, s))
      ⊎ ((r.0 ≡ cutis_ok)
          × (r.2 ≡ record s { dirty = 0; last_save = disk.time })
          × Returns (load_db r.1 fresh) (Reloaded s))

  -- SaveDB of databases that are valid tables whose keys, lengths and numbers of slots fit the
  -- format ends without a fault, on a disk where every fwrite takes all of its bytes or none and
  -- fclose loses none: either it returns CUTIS_ERR and leaves the dump file and the server as
  -- they were, or it returns CUTIS_OK, counts no changes any more, notes the time, and LoadDB of
  -- the new file into a server of as many empty databases returns CUTIS_OK with valid tables of
  -- the same content in every database.
  pub save_db-Atomic :
      (disk : Disk) (old : Option Bytes)
      → IsWhole disk
      → Returns (save_db disk old s) (Atomic disk old)
  unfolding save_db
  save_db-Atomic disk old whole =
      let (cs, run, restored) = load_db-save_chunks s fresh savable few width empty in
      elim (Bool-cases disk.opens) [
        | inr shut ↦ ((cutis_err, old, s), rw shut refl, inl refl)
        | inl open_file ↦ elim (Option-cases (write_all disk [] cs)) [
          | inl failed ↦ ((cutis_err, old, s), rw (run, ◌>>=◌, failed, open_file) refl, inl refl)
          | inr (file, written) ↦ elim (Bool-cases disk.renames) [
            | inr kept ↦
                ((cutis_err, old, s), rw (run, ◌>>=◌, written, open_file, kept) refl, inl refl)
            | inl moved ↦ (
              (
                cutis_ok,
                some (take (disk.flushed (length file)) file),
                record s { dirty = 0; last_save = disk.time },
              ),
              rw (run, ◌>>=◌, written, open_file, moved) refl,
              inr (
                refl,
                refl,
                rw
                    (
                      flushed_all disk file whole.flushed,
                      write_all-then_bytes disk whole cs [] file written,
                    )
                    restored,
              ),
            )
          ]
        ]
      ]

  -- On a disk that opens the file, takes every write whole, loses nothing at fclose and renames
  -- the file, SaveDB of databases that are valid tables whose keys, lengths and numbers of slots
  -- fit the format returns CUTIS_OK, and LoadDB of the file into a server of as many empty
  -- databases returns CUTIS_OK with valid tables of the same content in every database.
  pub save_db_works :
      (disk : Disk) (old : Option Bytes)
      → disk.opens ≡ true
      → disk.renames ≡ true
      → ((n m : ℕ) → disk.takes n m ≡ m)
      → ((n : ℕ) → disk.flushed n ≡ n)
      → Returns (save_db disk old s) λ r.
        (r.0 ≡ cutis_ok)
        × (r.2 ≡ record s { dirty = 0; last_save = disk.time })
        × Returns (load_db r.1 fresh) (Reloaded s)
  unfolding save_db
  save_db_works disk old opens renames works flushes =
      let (cs, run, restored) = load_db-save_chunks s fresh savable few width empty in
      let written = write_all_works disk s cs savable run works in
      (
        (cutis_ok, some (then_bytes cs []), record s { dirty = 0; last_save = disk.time }),
        rw (run, ◌>>=◌, written, opens, renames, flushed_all disk (then_bytes cs []) flushes) refl,
        (refl, refl, restored),
      )
