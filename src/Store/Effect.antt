-- ===== src/Store/Effect.antt =====
-- What a whole command does to the databases, to the replies of its client and to `dirty`.
use cutis.Common.{
  ℕ, ◌+◌, ◌<◌, ◌≡◌, refl, sym, ap, ◌∙◌, inl, inr, ◌&&◌, Option, some, List, [], ◌∷◌, ◌++◌, arith,
  Bool-cases, ==_iff, ◌==◌, if◌then◌else◌, Bytes, append_assoc, append-nil, length, Returns,
}
use cutis.Store.Laws.{value, ValidObj, Valid, Updated, Valid-Updated}
use cutis.Store.Calls.{change_object-Updated}
use cutis.Key.{sds_dict_type}
use cutis.Store.{Obj, State, add_reply, reply_bulk, touch, change_object}
use cutis.Shared

abbrev pub bulk : Bytes → List Bytes
bulk v = Shared.number_line (length v) ∷ v ∷ Shared.crlf ∷ []

append_four :
    (l rs : List Bytes) (x y z : Bytes)
    → (((l ++ rs) ++ x ∷ []) ++ y ∷ []) ++ z ∷ [] ≡ l ++ (rs ++ x ∷ y ∷ z ∷ [])
append_four l rs x y z = simp append_assoc

-- `b` is `a` after a command that leaves `o` under `k` in database `i`, adds `replies` and counts
-- `n` changes.
pub record Effect (a b : State) (i : ℕ) (k : Bytes) (o : Option Obj) (replies : List Bytes) (n : ℕ)
    : Type 0 where
  pub valid : Valid b
  pub reply : b.client.reply ≡ a.client.reply ++ replies
  pub dict : b.client.dict ≡ a.client.dict
  pub buffer : b.client.query_buf ≡ a.client.query_buf
  pub dirty : b.server.dirty ≡ a.server.dirty + n
  pub values :
      (j : ℕ) (q : Bytes)
      → value b j q ≡ (if i == j && sds_dict_type.key_compare q k then o else value a j q)

pub Updated-Effect :
    (a b : State) (i : ℕ) (k : Bytes) (o : Option Obj)
    → Valid a
    → Updated a b i k o
    → ValidObj o
    → Effect a b i k o [] 0
Updated-Effect a b i k o valid u ok_o = record {
  valid = Valid-Updated a b i k o valid u ok_o;
  reply = ap (λ c. c.reply) u.client ∙ sym (append-nil a.client.reply);
  dict = ap (λ c. c.dict) u.client;
  buffer = ap (λ c. c.query_buf) u.client;
  dirty = omega (arith, u.dirty);
  values = u.values;
}

-- Nothing changes, which leaves under `k` what is there.
pub same-Effect :
    (a : State) (i : ℕ) (k : Bytes) (o : Option Obj)
    → Valid a
    → value a i k ≡ o
    → Effect a a i k o [] 0
same-Effect a i k o valid old = record {
  valid = valid;
  reply = sym (append-nil a.client.reply);
  dict = refl;
  buffer = refl;
  dirty = omega arith;
  values = λ j q. elim (Bool-cases (i == j)) [
    | inr apart ↦ rw apart refl
    | inl same ↦ elim (Bool-cases (sds_dict_type.key_compare q k)) [
      | inr other ↦ rw (same, other) refl
      | inl this ↦
          rw (same, this)
            (ap (λ n. value a n q) (sym ((==_iff i j).0 same))
              ∙ ap (λ x. value a i x) ((sds_dict_type.key_compare_iff q k).0 this)
              ∙ old)
    ]
  ];
}

module _ {a b : State} {i : ℕ} {k : Bytes} {o : Option Obj} {rs : List Bytes} {n : ℕ}
    (e : Effect a b i k o rs n) where
  pub add_reply-Effect : (x : Bytes) → Effect a (add_reply x b) i k o (rs ++ x ∷ []) n
  unfolding add_reply
  add_reply-Effect x = record {
    valid = record {
      tables = e.valid.tables;
      objects = e.valid.objects;
      selected = e.valid.selected;
      counted = e.valid.counted;
    };
    reply = ap (λ l. l ++ x ∷ []) e.reply ∙ append_assoc a.client.reply rs (x ∷ []);
    dict = e.dict;
    buffer = e.buffer;
    dirty = e.dirty;
    values = e.values;
  }

  pub reply_bulk-Effect : (v : Bytes) → Effect a (reply_bulk v b) i k o (rs ++ bulk v) n
  unfolding add_reply reply_bulk
  reply_bulk-Effect v = record {
    valid = record {
      tables = e.valid.tables;
      objects = e.valid.objects;
      selected = e.valid.selected;
      counted = e.valid.counted;
    };
    reply =
        rw e.reply (append_four a.client.reply rs (Shared.number_line (length v)) v Shared.crlf);
    dict = e.dict;
    buffer = e.buffer;
    dirty = e.dirty;
    values = e.values;
  }

  pub touch-Effect : Effect a (touch b) i k o rs (n + 1)
  unfolding touch
  touch-Effect = record {
    valid = record {
      tables = e.valid.tables;
      objects = e.valid.objects;
      selected = e.valid.selected;
      counted = e.valid.counted;
    };
    reply = e.reply;
    dict = e.dict;
    buffer = e.buffer;
    dirty = omega (arith, e.dirty);
    values = e.values;
  }

  pub Effect-Updated :
      (c : State) (p : Option Obj) → Updated b c i k p → ValidObj p → Effect a c i k p rs n
  Effect-Updated c p u ok_p = record {
    valid = Valid-Updated b c i k p e.valid u ok_p;
    reply = ap (λ x. x.reply) u.client ∙ e.reply;
    dict = ap (λ x. x.dict) u.client ∙ e.dict;
    buffer = ap (λ x. x.query_buf) u.client ∙ e.buffer;
    dirty = omega (arith, u.dirty, e.dirty);
    values = λ j q. u.values j q ∙ elim (Bool-cases (i == j && sds_dict_type.key_compare q k)) [
      | inl this ↦ rw this refl
      | inr other ↦ rw other (e.values j q ∙ rw other refl)
    ];
  }

  -- What the command leaves under its own key.
  pub Effect-value : value b i k ≡ o
  Effect-value =
      e.values i k ∙ rw ((==_iff i i).1 refl, (sds_dict_type.key_compare_iff k k).1 refl) refl

-- A command that only replies, where `o` is under the key.
pub reply-Effect :
    (a : State) (i : ℕ) (k : Bytes) (o : Option Obj) (x : Bytes)
    → Valid a
    → value a i k ≡ o
    → Effect a (add_reply x a) i k o (x ∷ []) 0
reply-Effect a i k o x valid old = add_reply-Effect (same-Effect a i k o valid old) x

-- The change of an object that an entry leads to.
pub change_object-Effect :
    (a b : State) (i : ℕ) (k : Bytes) (x o : Obj) (rs : List Bytes) (n : ℕ)
    → Effect a b i k (some x) rs n
    → i < length b.server.dicts
    → ValidObj (some o)
    → Returns (change_object i k o b) λ c. Effect a c i k (some o) rs n
change_object-Effect a b i k x o rs n e inside ok_o =
    let (c, run, u) = change_object-Updated b e.valid i inside k o x (Effect-value e) in
    (c, run, Effect-Updated e c (some o) u ok_o)
