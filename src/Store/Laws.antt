-- ===== src/Store/Laws.antt =====
-- The databases as a map from index and key to object, and what the operations of a table do to it.
use cutis.Common.{
  ℕ, ◌<◌, ◌≡◌, refl, sym, ap, subst, ◌∙◌, inl, inr, ◌&&◌, Option, none, some, arith, Bool-cases,
  ◌==◌, ==_iff, if◌then◌else◌, length, length-set, get_or, get_or-set, Bytes, ok,
}
use cutis.Dict
use cutis.Dict.{Dict, DictType, Status, dict_ok, dict_err}
use cutis.Dict.Power.{max_slots}
use cutis.Dict.Buckets.{at-get_or}
use cutis.Dict.Resize.{IsValid, lookup}
use cutis.Dict.Methods.{Writes}
use cutis.Key.{sds_dict_type}
use cutis.Store.{Obj, set, State, db, put_db}

abbrev pub Db : Type 0
Db = Dict Bytes Obj

abbrev pub dict_of : State → ℕ → Db
dict_of s i = get_or s.server.dicts i Dict.reset

abbrev pub object_of : Option (Bytes × Obj) → Option Obj
object_of none = none
object_of (some e) = some e.1

pub object_of-none : (e : Option (Bytes × Obj)) → object_of e ≡ none → e ≡ none
object_of-none none h = refl
object_of-none (some e) h = ground (arith, h)

pub object_of-some :
    (e : Option (Bytes × Obj)) (o : Obj) → object_of e ≡ some o → (x : Bytes × Obj) × (e ≡ some x)
object_of-some none o h = ground (arith, h)
object_of-some (some e) o h = (e, refl)

-- What database `i` has under `k`.
abbrev pub value : State → ℕ → Bytes → Option Obj
value s i k = object_of (lookup (dict_of s i) k)

abbrev pub ValidObj : Option Obj → Type 0
ValidObj (some (set d)) = IsValid d
ValidObj _ = Unit

-- Every table is well formed, those of the sets too, and the client has a database.
pub record Valid (s : State) : Type 0 where
  pub tables : (i : ℕ) → IsValid (dict_of s i)
  pub objects : (i : ℕ) (k : Bytes) → ValidObj (value s i k)
  pub selected : s.client.dict < length s.server.dicts
  pub counted : s.server.db_num ≡ length s.server.dicts

-- Is there room for one more key in database `i`?
abbrev pub HasRoom : State → ℕ → Type 0
HasRoom s i = (dict_of s i).used < max_slots

-- `b` is `a` with `o` under `k` in database `i`.
pub record Updated (a b : State) (i : ℕ) (k : Bytes) (o : Option Obj) : Type 0 where
  pub client : b.client ≡ a.client
  pub dirty : b.server.dirty ≡ a.server.dirty
  pub db_num : b.server.db_num ≡ a.server.db_num
  pub width : length b.server.dicts ≡ length a.server.dicts
  pub tables : (j : ℕ) → IsValid (dict_of b j)
  pub values :
      (j : ℕ) (q : Bytes)
      → value b j q ≡ (if i == j && sds_dict_type.key_compare q k then o else value a j q)

-- A table that answers as `ht` does, as a write of what `ht` has.
pub same-Writes :
    (ht r : Db) (k : Bytes)
    → IsValid r
    → ((q : Bytes) → lookup r q ≡ lookup ht q)
    → Writes ht k (lookup ht k) r
same-Writes ht r k ok_r same = record {
  valid = ok_r;
  reads = λ q. elim (Bool-cases (sds_dict_type.key_compare q k)) [
    | inl this ↦
        rw this (same q ∙ ap (λ x. lookup ht x) ((sds_dict_type.key_compare_iff q k).0 this))
    | inr other ↦ rw other (same q)
  ];
}

pub Valid-Updated :
    (a b : State) (i : ℕ) (k : Bytes) (o : Option Obj)
    → Valid a
    → Updated a b i k o
    → ValidObj o
    → Valid b
Valid-Updated a b i k o valid u ok_o = record {
  tables = u.tables;
  objects = λ j q.
      subst ValidObj (sym (u.values j q))
        (elim (Bool-cases (i == j && sds_dict_type.key_compare q k)) [
          | inl this ↦ rw this ok_o
          | inr other ↦ rw other (valid.objects j q)
        ]);
  selected = ground (arith, u.client, u.width, valid.selected);
  counted = u.db_num ∙ valid.counted ∙ sym u.width;
}

-- The same key is written again.
pub Updated-trans :
    (a b c : State) (i : ℕ) (k : Bytes) (x o : Option Obj)
    → Updated a b i k x
    → Updated b c i k o
    → Updated a c i k o
Updated-trans a b c i k x o u w = record {
  client = w.client ∙ u.client;
  dirty = w.dirty ∙ u.dirty;
  db_num = w.db_num ∙ u.db_num;
  width = w.width ∙ u.width;
  tables = w.tables;
  values = λ j q. w.values j q ∙ elim (Bool-cases (i == j && sds_dict_type.key_compare q k)) [
    | inl this ↦ rw this refl
    | inr other ↦ rw other (u.values j q ∙ rw other refl)
  ];
}

module _ (s : State) (valid : Valid s) (i : ℕ) (inside : i < length s.server.dicts) where
  pub db-dict_of : db i s ≡ ok (dict_of s i)
  unfolding db
  db-dict_of = at-get_or s.server.dicts i Dict.reset inside

  dict_of-put_db : (d : Db) (j : ℕ) → dict_of (put_db i d s) j ≡ (if i == j then d else dict_of s j)
  unfolding put_db
  dict_of-put_db d j = get_or-set s.server.dicts i j d Dict.reset inside

  pub put_db-HasRoom :
      (d : Db) → d.used ≡ (dict_of s i).used → HasRoom s i → HasRoom (put_db i d s) i
  put_db-HasRoom d e room =
      let here : dict_of (put_db i d s) i ≡ d =
        dict_of-put_db d i ∙ rw ((==_iff i i).1 refl) refl in
      subst (λ (x : Db). x.used < max_slots) (sym here) (omega (arith, e, room))

  module _ (k : Bytes) where
    put_db-value :
        (e : Option (Bytes × Obj)) (d : Db)
        → Writes (dict_of s i) k e d
        → (j : ℕ) (q : Bytes)
        → object_of (lookup (if i == j then d else dict_of s j) q)
          ≡ (if i == j && sds_dict_type.key_compare q k then object_of e else value s j q)
    put_db-value e d w j q = elim (Bool-cases (i == j)) [
      | inl same ↦
          let at_i = ap (λ n. value s n q) ((==_iff i j).0 same) in
          elim (Bool-cases (sds_dict_type.key_compare q k)) [
            | inl this ↦ rw (same, w.reads q, this) refl
            | inr other ↦ rw (same, w.reads q, other) at_i
          ]
      | inr apart ↦ rw apart refl
    ]

    pub put_db-Updated :
        (e : Option (Bytes × Obj)) (d : Db)
        → Writes (dict_of s i) k e d
        → Updated s (put_db i d s) i k (object_of e)
    unfolding put_db
    put_db-Updated e d w = record {
      client = refl;
      dirty = refl;
      db_num = refl;
      width = length-set s.server.dicts i d;
      tables = λ j. rw (dict_of-put_db d j) (elim (Bool-cases (i == j)) [
        | inl same ↦ rw same w.valid
        | inr apart ↦ rw apart (valid.tables j)
      ]);
      values = λ j q. rw (dict_of-put_db d j) (put_db-value e d w j q);
    }
