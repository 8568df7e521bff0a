-- ===== src/Store/Calls.antt =====
-- What the calls of a table's operations do to the databases.
use cutis.Common.{
  ℕ, ◌<◌, ◌≡◌, refl, sym, ap, subst, inl, inr, none, some, arith, Bool-cases, ◌==◌, length, Bytes,
  ok, ◌>>=◌, Returns,
}
use cutis.Dict.{Status, dict_ok, dict_err}
use cutis.Dict.Resize.{IsValid, lookup, lookup-empty}
use cutis.Dict.Methods.{
  Writes, find-lookup, add-Inserted, add-Refused, removed, absent, delete-Deletes,
  set_hash_val-Writes, replace-Writes,
}
use cutis.Key.{sds_dict_type}
use cutis.Store.Laws.{
  Db, dict_of, object_of-none, object_of-some, value, Valid, HasRoom, Updated, same-Writes,
  db-dict_of, put_db-Updated, put_db-HasRoom,
}
use cutis.Store.{Obj, State, put_db, find_key, add_key, replace_key, delete_key, change_object}

lookup-size : (d : Db) (k : Bytes) (e : Bytes × Obj) → IsValid d → lookup d k ≡ some e → 0 < d.size
lookup-size d k e valid there = elim (Bool-cases (d.used == 0)) [
  | inl empty ↦ ground (arith, lookup-empty d valid (ground arith) k, there)
  | inr more ↦ ground (arith, valid.load)
]

module _ (s : State) (valid : Valid s) (i : ℕ) (inside : i < length s.server.dicts) where
  module _ (k : Bytes) where
    pub find_key-value : find_key i k s ≡ ok (value s i k)
    unfolding find_key
    find_key-value =
        rw (db-dict_of s valid i inside, ◌>>=◌, find-lookup (dict_of s i) k (valid.tables i)) refl

    module _ (o : Obj) where
      pub add_key-new :
          HasRoom s i
          → value s i k ≡ none
          → Returns (add_key i k o s) λ r. (r.0 ≡ dict_ok) × Updated s r.1 i k (some o)
      unfolding add_key
      add_key-new room new =
          let ((st, d), run, (status, _, w)) =
            add-Inserted (dict_of s i) k o (valid.tables i) room
              (object_of-none (lookup (dict_of s i) k) new) in
          (
            (st, put_db i d s),
            rw (db-dict_of s valid i inside, ◌>>=◌, run, ◌>>=◌) refl,
            (status, put_db-Updated s valid i inside k (some (k, o)) d w),
          )

      pub add_key-old :
          (x : Obj)
          → HasRoom s i
          → value s i k ≡ some x
          → Returns
              (add_key i k o s)
              λ r. (r.0 ≡ dict_err) × HasRoom r.1 i × Updated s r.1 i k (some x)
      unfolding add_key
      add_key-old x room old =
          let (e, there) = object_of-some (lookup (dict_of s i) k) x old in
          let ((st, d), run, (status, same_used, ok_d, same, pos)) =
            add-Refused (dict_of s i) k o (valid.tables i) room e there in
          let w = same-Writes (dict_of s i) d k ok_d same in
          (
            (st, put_db i d s),
            rw (db-dict_of s valid i inside, ◌>>=◌, run, ◌>>=◌) refl,
            (
              status,
              put_db-HasRoom s valid i inside d same_used room,
              subst (Updated s (put_db i d s) i k) old
                  (put_db-Updated s valid i inside k (lookup (dict_of s i) k) d w),
            ),
          )

      pub replace_key-Updated :
          HasRoom s i → Returns (replace_key i k o s) λ b. Updated s b i k (some o)
      unfolding replace_key
      replace_key-Updated room =
          let ((st, d), run, (_, w)) = replace-Writes (dict_of s i) k o (valid.tables i) room in
          (
            put_db i d s,
            rw (db-dict_of s valid i inside, ◌>>=◌, run, ◌>>=◌) refl,
            put_db-Updated s valid i inside k (some (k, o)) d w,
          )

      pub change_object-Updated :
          (x : Obj)
          → value s i k ≡ some x
          → Returns (change_object i k o s) λ b. Updated s b i k (some o)
      unfolding change_object
      change_object-Updated x old =
          let (e, there) = object_of-some (lookup (dict_of s i) k) x old in
          let (d, run, (_, w)) =
            set_hash_val-Writes (dict_of s i) k o (valid.tables i) e there
              (lookup-size (dict_of s i) k e (valid.tables i) there) in
          (
            put_db i d s,
            rw (db-dict_of s valid i inside, ◌>>=◌, run, ◌>>=◌) refl,
            put_db-Updated s valid i inside k (some (k, o)) d w,
          )

    pub delete_key-old :
        (x : Obj)
        → value s i k ≡ some x
        → Returns (delete_key i k s) λ r. (r.0 ≡ dict_ok) × Updated s r.1 i k none
    unfolding delete_key
    delete_key-old x old =
        let ((st, d), run, h) = delete-Deletes (dict_of s i) k (valid.tables i) in
        let (e, there) = object_of-some (lookup (dict_of s i) k) x old in
        (
          (st, put_db i d s),
          rw (db-dict_of s valid i inside, ◌>>=◌, run, ◌>>=◌) refl,
          elim h [
            | removed _ status _ w ↦ (status, put_db-Updated s valid i inside k none d w)
            | absent gone _ ↦ ground (arith, gone, there)
          ],
        )

    pub delete_key-new :
        value s i k ≡ none
        → Returns (delete_key i k s) λ r. (r.0 ≡ dict_err) × Updated s r.1 i k none
    unfolding delete_key
    delete_key-new new =
        let gone_k = object_of-none (lookup (dict_of s i) k) new in
        let ((st, d), run, h) = delete-Deletes (dict_of s i) k (valid.tables i) in
        (
          (st, put_db i d s),
          rw (db-dict_of s valid i inside, ◌>>=◌, run, ◌>>=◌) refl,
          elim h [
            | removed there _ _ _ ↦ elim (there gone_k) [ ]
            | absent gone e ↦
                let same = same-Writes (dict_of s i) (dict_of s i) k (valid.tables i) (λ q. refl) in
                let none_k = subst (λ x. Writes (dict_of s i) k x (dict_of s i)) gone same in
                (
                  ap (λ (r : Status × Db). r.0) e,
                  put_db-Updated s valid i inside k none d
                      (subst (λ (r : Status × Db). Writes (dict_of s i) k none r.1) (sym e) none_k),
                )
          ],
        )
