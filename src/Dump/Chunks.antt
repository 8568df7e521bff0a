-- ===== src/Dump/Chunks.antt =====
-- No write of SaveDB is empty, so none fails on a disk that takes every write.
use mathlib.Core.List.{flatten}
use cutis.Common.{
  ℕ, ◌+◌, ◌<◌, ◌≡◌, sym, ap, subst, ◌∙◌, inl, inr, some, List, [], ◌∷◌, ◌++◌, arith, Bool-cases,
  append_assoc, take-all, append-nil, ◌==◌, Bytes, length, Run, ok, fault, ◌>>=◌,
}
use cutis.Dict.Iterator.{iterate}
use cutis.Dict.Iterator.Order.{iterate-flatten}
use cutis.Store.{Obj, string, list, set, Server}
use cutis.Store.Laws.{Db}
use cutis.Dump.{
  Disk, htonl, bytes_chunks, list_chunks, keys_of, value_chunks, entries_chunks, dbs_chunks,
  save_chunks, write_all, eof_code,
}
use cutis.Dump.Bytes32.{then_bytes}
use cutis.Dump.Entries.{AllSavable}
use cutis.Dump.RoundTrip.{AllSavableDbs}

-- If the run ends in a value, it satisfies `P`.
abbrev Ensures {ℓ} : {A : Type ℓ} → (A → Type 0) → Run A → Type 0
Ensures P (ok a) = P a
Ensures P (fault e) = Unit

Ensures-bind {ℓ κ} :
    {A : Type ℓ} {B : Type κ} (P : A → Type 0) (Q : B → Type 0) (r : Run A) (f : A → Run B)
    → Ensures P r
    → ((a : A) → P a → Ensures Q (f a))
    → Ensures Q (r >>= f)
Ensures-bind P Q (ok a) f h k = k a h
Ensures-bind P Q (fault e) f h k = tt

Ensures-any {ℓ} : {A : Type ℓ} (r : Run A) → Ensures (λ _. Unit) r
Ensures-any (ok a) = tt
Ensures-any (fault e) = tt

abbrev AllSome : List Bytes → Type 0
AllSome [] = Unit
AllSome (c ∷ cs) = (0 < length c) × AllSome cs

AllSome-append : (a b : List Bytes) → AllSome a → AllSome b → AllSome (a ++ b)
AllSome-append [] b h k = k
AllSome-append (c ∷ a) b (h, hs) k = (h, AllSome-append a b hs k)

htonl_some : (n : ℕ) → 0 < length (htonl n)
unfolding htonl
htonl_some n = omega arith

bytes_chunks-AllSome : (v : Bytes) → AllSome (bytes_chunks v)
unfolding bytes_chunks
bytes_chunks-AllSome v = elim (Bool-cases (length v == 0)) [
  | inl none_there ↦ rw none_there (htonl_some (length v), tt)
  | inr some_there ↦ rw some_there (htonl_some (length v), (ground arith, tt))
]

list_chunks-AllSome : (l : List Bytes) → AllSome (list_chunks l)
unfolding list_chunks
list_chunks-AllSome [] = tt
list_chunks-AllSome (v ∷ l) =
    AllSome-append (bytes_chunks v) (list_chunks l) (bytes_chunks-AllSome v) (list_chunks-AllSome l)

value_chunks-AllSome : (o : Obj) → Ensures AllSome (value_chunks o)
unfolding value_chunks
value_chunks-AllSome (string v) = bytes_chunks-AllSome v
value_chunks-AllSome (list l) = (htonl_some (length l), list_chunks-AllSome l)
value_chunks-AllSome (set d) =
    Ensures-bind (λ _. Unit) AllSome (iterate d) _ (Ensures-any (iterate d))
      λ es h. (htonl_some d.used, list_chunks-AllSome (keys_of es))

entries_chunks-AllSome :
    (es : List (Bytes × Obj)) → AllSavable es → Ensures AllSome (entries_chunks es)
unfolding entries_chunks
entries_chunks-AllSome [] savable = tt
entries_chunks-AllSome (e ∷ es) ((some_key, _, _), savables) =
    Ensures-bind AllSome AllSome (value_chunks e.1) _ (value_chunks-AllSome e.1) λ v hv.
      Ensures-bind AllSome AllSome (entries_chunks es) _ (entries_chunks-AllSome es savables)
        λ rest hr. (omega arith, (htonl_some (length e.0), (some_key, AllSome-append v rest hv hr)))

dbs_chunks-AllSome : (j : ℕ) (ds : List Db) → AllSavableDbs ds → Ensures AllSome (dbs_chunks j ds)
unfolding dbs_chunks
dbs_chunks-AllSome j [] savable = tt
dbs_chunks-AllSome j (d ∷ ds) ((valid, small, savable), savables) =
    Ensures-bind AllSome AllSome (dbs_chunks (j + 1) ds) _ (dbs_chunks-AllSome (j + 1) ds savables)
      λ rest hr. elim (Bool-cases (d.used == 0)) [
        | inl none_used ↦ rw none_used hr
        | inr some_used ↦
            rw (some_used, iterate-flatten d valid small, ◌>>=◌)
              (Ensures-bind AllSome AllSome (entries_chunks (flatten d.table)) _
                (entries_chunks-AllSome (flatten d.table) savable)
                λ cs hc. (omega arith, (htonl_some j, AllSome-append cs rest hc hr)))
      ]

save_chunks-AllSome : (s : Server) → AllSavableDbs s.dicts → Ensures AllSome (save_chunks s)
unfolding save_chunks
save_chunks-AllSome s savable =
    Ensures-bind AllSome AllSome (dbs_chunks 0 s.dicts) _ (dbs_chunks-AllSome 0 s.dicts savable)
      λ cs h. (omega arith, AllSome-append cs ((eof_code ∷ []) ∷ []) h (omega arith, tt))

write_all-AllSome :
    (disk : Disk) (cs : List Bytes) (before : Bytes)
    → ((n m : ℕ) → disk.takes n m ≡ m)
    → AllSome cs
    → write_all disk before cs ≡ some (before ++ then_bytes cs [])
unfolding write_all
write_all-AllSome disk [] before works h = ap some (sym (append-nil before))
write_all-AllSome disk ([] ∷ cs) before works (h, hs) = absurd (omega arith)
write_all-AllSome disk ((b ∷ c) ∷ cs) before works (h, hs) =
    rw
      (
        works (length before) (length (b ∷ c)),
        take-all (length (b ∷ c)) (b ∷ c) (omega arith),
        write_all,
      )
      (write_all-AllSome disk cs (before ++ b ∷ c) works hs
        ∙ ap some (append_assoc before (b ∷ c) (then_bytes cs [])))

-- All the writes of SaveDB go through.
pub write_all_works :
    (disk : Disk) (s : Server) (cs : List Bytes)
    → AllSavableDbs s.dicts
    → save_chunks s ≡ ok cs
    → ((n m : ℕ) → disk.takes n m ≡ m)
    → write_all disk [] cs ≡ some (then_bytes cs [])
write_all_works disk s cs savable run works =
    write_all-AllSome disk cs [] works
      (subst (λ r. Ensures AllSome r) run (save_chunks-AllSome s savable))
