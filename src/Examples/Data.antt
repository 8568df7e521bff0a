-- ===== src/Examples/Data.antt =====
-- A server of two databases and one client, and tables with an entry.
use cutis.Common.{
  ℕ, zero, suc, ◌≡◌, refl, sym, subst, arith, false, none, some, [], ◌∷◌, Bytes, codes, ◌<◌, ap,
  ◌∙◌, Run, ok, fault,
}
use cutis.Common.Int.{negsuc}
use cutis.Dict
use cutis.Dict.{Dict, Status}
use cutis.Dict.Power.{max_slots}
use cutis.Dict.Resize.{IsValid, lookup, reset-IsValid, lookup-empty}
use cutis.Dict.Methods.{add-Inserted, Writes}
use cutis.Key.{sds_dict_type}
use cutis.Store.{Obj, State}
use cutis.Store.Laws.{Db, dict_of, ValidObj, Valid, HasRoom, object_of}

abbrev pub empty_table : Dict Bytes ℕ
empty_table = Dict.reset

pub empty_room : empty_table.used < max_slots
unfolding Dict.reset
empty_room = omega arith

pub empty_lookup : (k : Bytes) → lookup empty_table k ≡ none
unfolding Dict.reset
empty_lookup k = lookup-empty empty_table reset-IsValid refl k

-- The table that a call leaves.
abbrev pub after : Run (Status × Dict Bytes ℕ) → Dict Bytes ℕ
after (ok r) = r.1
after (fault e) = empty_table

abbrev pub one_table : Dict Bytes ℕ
one_table = after (Dict.add empty_table (codes "a") 7)

pub one_table_lem :
    (one_table.used ≡ 1) × Writes empty_table (codes "a") (some (codes "a", 7)) one_table
unfolding Dict.reset
one_table_lem =
    let (r, run, (_, used, w)) =
      add-Inserted empty_table (codes "a") 7 reset-IsValid empty_room (empty_lookup (codes "a")) in
    subst
      (λ (d : Dict Bytes ℕ). (d.used ≡ 1) × Writes empty_table (codes "a") (some (codes "a", 7)) d)
      (sym (ap after run)) (used, w)

pub one_lookup : lookup one_table (codes "a") ≡ some (codes "a", 7)
one_lookup =
    one_table_lem.1.reads (codes "a")
    ∙ rw ((sds_dict_type.key_compare_iff (codes "a") (codes "a")).1 refl) refl

abbrev pub empty_state : State
empty_state = record {
  server = record {
    dicts = Dict.reset ∷ Dict.reset ∷ [];
    db_num = 2;
    dirty = 0;
    last_save = 0;
    bg_saving = false;
  };
  client = record {
    query_buf = [];
    reply = [];
    writable = false;
    argv = [];
    bulk_len = negsuc 0;
    dict = 0;
  };
}

empty_at : (i : ℕ) → dict_of empty_state i ≡ Dict.reset
unfolding Dict.reset
empty_at zero = refl
empty_at (suc zero) = refl
empty_at (suc (suc i)) = refl

pub empty_state-Valid : Valid empty_state
unfolding Dict.reset
empty_state-Valid =
    let tables : (i : ℕ) → IsValid (dict_of empty_state i) =
      λ i. subst (λ (d : Db). IsValid d) (sym (empty_at i)) reset-IsValid in
    record {
      tables = tables;
      objects = λ i k.
          subst (λ (d : Db). ValidObj (object_of (lookup d k))) (sym (empty_at i))
            (rw (lookup-empty (Dict.reset {K = Bytes} {V = Obj}) reset-IsValid refl k) tt);
      selected = omega arith;
      counted = refl;
    }

pub empty_state-HasRoom : HasRoom empty_state 0
unfolding Dict.reset
empty_state-HasRoom = omega arith
