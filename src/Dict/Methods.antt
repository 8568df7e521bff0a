-- ===== src/Dict/Methods.antt =====
-- What the operations of src/data_struct/dict.c do to the map from keys to entries that a valid
-- table stands for.
use cutis.Common.{
  ℕ, ◌+◌, ◌-◌, ◌≤◌, ◌<◌, ◌≡◌, refl, sym, ap, ◌∙◌, ◌≢◌, inl, inr, Option, none, some, List, ◌∷◌,
  arith, Bool-cases, Option-cases, ◌==◌, if◌then◌else◌, length, set, inc32, dec32, inc32_lem,
  dec32_lem, ◌>>=◌, ok, Returns,
}
use cutis.Dict.{
  DictType, Entries, Dict, Status, dict_ok, dict_err, slot, chain_at, search, key_index, add, find,
  assign, set_hash_val, replace, unlink, delete,
}
use cutis.Dict.Chain.{
  search-assign, count-assign, search-unlink, count-unlink-le, length-assign, length-unlink,
}
use cutis.Dict.Buckets.{home, view, Holds, at-home, set-Holds, push-Holds}
use cutis.Dict.Power.{max_slots}
use cutis.Dict.Resize.{IsValid, lookup, lookup-empty, expand_if_needed-Resized}

module _ {ℓ} {K V : Type ℓ} ⦃type : DictType K⦄ where
  -- A write to one slot of a valid table with slots.
  written-IsValid :
      (ht : Dict K V) (f : K → Option (K × V)) (t : List (Entries K V)) (total n : ℕ)
      → IsValid ht
      → 0 < ht.size
      → n ≤ ht.size
      → total ≡ n
      → Holds ht.size_mask total f t
      → IsValid (record ht { table = t; used = n })
  written-IsValid ht f t total n valid pos fits e h = record {
    width = omega (arith, h.width, valid.masked);
    masked = valid.masked;
    sized = valid.sized;
    small = valid.small;
    load = fits;
    counted = h.entries ∙ e;
    placed = h.placed;
  }

  slots_width : (ht : Dict K V) → IsValid ht → 0 < ht.size → length ht.table ≡ ht.size_mask + 1
  slots_width ht valid pos = omega (arith, valid.masked, valid.width)

  -- The result of a change of one key: `o` is what the table has for `k` afterwards.
  pub record Writes (ht : Dict K V) (k : K) (o : Option (K × V)) (r : Dict K V) : Type ℓ where
    pub valid : IsValid r
    pub reads : (q : K) → lookup r q ≡ (if type.key_compare q k then o else lookup ht q)

  -- DictFind in a valid table returns without a fault exactly the entry that the table has under
  -- the key, or none.
  pub find-lookup : (ht : Dict K V) (k : K) → IsValid ht → find ht k ≡ ok (lookup ht k)
  unfolding find chain_at view
  find-lookup ht k valid = elim (Bool-cases (ht.used == 0)) [
    | inl empty ↦ rw empty (ap ok (sym (lookup-empty ht valid (ground arith) k)))
    | inr more ↦
        rw
          (
            more,
            at-home ht.size_mask ht.table (slots_width ht valid (ground (arith, valid.load))) k,
          )
          refl
  ]

  -- A new entry for `k`.
  abbrev pub Inserted : Dict K V → K → V → Status × Dict K V → Type ℓ
  Inserted ht k v r = (r.0 ≡ dict_ok) × (r.1.used ≡ ht.used + 1) × Writes ht k (some (k, v)) r.1

  -- The key was there: the call fails, and every lookup is as before.
  abbrev pub Refused : Dict K V → Status × Dict K V → Type ℓ
  Refused ht r =
      (r.0 ≡ dict_err)
      × (r.1.used ≡ ht.used)
      × IsValid r.1
      × ((q : K) → lookup r.1 q ≡ lookup ht q)
      × (0 < r.1.size)

  module _ (ht : Dict K V) (k : K) (v : V) (valid : IsValid ht) (room : ht.used < max_slots) where
    -- DictAdd of a key that a valid table with fewer than 2 ^ 27 entries lacks returns DICT_OK
    -- without a fault, counts one more entry, and leaves a valid table that has the new value
    -- under the key and every other entry as before, whether or not the table had to grow.
    pub add-Inserted : lookup ht k ≡ none → Returns (add ht k v) (Inserted ht k v)
    unfolding add key_index chain_at view
    add-Inserted new =
        let ((st, g), run, d) = expand_if_needed-Resized ht valid room in
        let width = slots_width g d.valid d.some_slots in
        let here = at-home g.size_mask g.table width k in
        let absent = d.same k ∙ new in
        let h = push-Holds g.size_mask g.table width k d.valid.placed v absent in
        let count_up = inc32_lem g.used (omega (arith, d.same_used)) in
        let t = set g.table (slot g.size_mask k) ((k, v) ∷ home g.size_mask g.table k) in
        (
          (dict_ok, record g { table = t; used = inc32 g.used }),
          rw (run, ◌>>=◌, d.status, here, ◌>>=◌, absent, here, ◌>>=◌) refl,
          (
            refl,
            count_up ∙ ap (λ n. n + 1) d.same_used,
            record {
              valid =
                  written-IsValid g _ t _ (inc32 g.used) d.valid d.some_slots
                    (omega (arith, count_up, d.roomy, d.same_used))
                    (ap (λ n. n + 1) d.valid.counted ∙ sym count_up) h;
              reads = λ q. ground (arith, h.reads q, d.same q);
            },
          ),
        )

    -- DictAdd of a key that a valid table with fewer than 2 ^ 27 entries has returns DICT_ERR
    -- without a fault, and leaves a valid table of at least one slot with the same number of
    -- entries and every entry as before.
    pub add-Refused : (e : K × V) → lookup ht k ≡ some e → Returns (add ht k v) (Refused ht)
    unfolding add key_index chain_at view
    add-Refused e old =
        let ((st, g), run, d) = expand_if_needed-Resized ht valid room in
        let width = slots_width g d.valid d.some_slots in
        let here = at-home g.size_mask g.table width k in
        let there = d.same k ∙ old in
        (
          (dict_err, g),
          rw (run, ◌>>=◌, d.status, here, ◌>>=◌, there) refl,
          (refl, d.same_used, d.valid, d.same, d.some_slots),
        )

  -- DictDelete.
  pub data Deletes (ht : Dict K V) (k : K) (r : Status × Dict K V) : Type ℓ where
    removed :
        lookup ht k ≢ none
        → r.0 ≡ dict_ok
        → r.1.used + 1 ≡ ht.used
        → Writes ht k none r.1
        → Deletes ht k r
    absent : lookup ht k ≡ none → r ≡ (dict_err, ht) → Deletes ht k r

  module _ (ht : Dict K V) (k : K) (valid : IsValid ht) where
    -- DictDelete in a valid table returns without a fault: if the key is there, DICT_OK with one
    -- entry less, a valid table that lacks the key and has every other entry as before; if it is
    -- not, DICT_ERR and the same table.
    pub delete-Deletes : Returns (delete ht k) (Deletes ht k)
    unfolding delete chain_at view
    delete-Deletes = elim (Bool-cases (ht.used == 0)) [
      | inl empty ↦
          ((dict_err, ht), rw empty refl, absent (lookup-empty ht valid (ground arith) k) refl)
      | inr more ↦
          let filled : 0 < ht.used = ground arith in
          let pos : 0 < ht.size = omega (arith, filled, valid.load) in
          let width = slots_width ht valid pos in
          let here = at-home ht.size_mask ht.table width k in
          let c = home ht.size_mask ht.table k in
          elim (Option-cases (search k c)) [
            | inl gone ↦ ((dict_err, ht), rw (more, here, ◌>>=◌, gone) refl, absent gone refl)
            | inr (e, there) ↦
                let t = set ht.table (slot ht.size_mask k) (unlink k c) in
                let count_down =
                  dec32_lem ht.used filled (omega (arith, valid.load, valid.small)) in
                let shorter = length-unlink k c e there in
                let few = λ (q : K). (valid.placed q (slot ht.size_mask k)).0 in
                let h =
                  set-Holds ht.size_mask ht.table width k valid.placed none (unlink k c)
                    (ht.used - 1) (omega (arith, shorter, valid.counted, filled))
                    (λ q. (omega (arith, count-unlink-le k q c, few q), λ _. count-unlink-le k q c))
                    (λ q. search-unlink k q c (few q)) in
                (
                  (dict_ok, record ht { table = t; used = dec32 ht.used }),
                  rw (more, here, ◌>>=◌, there) refl,
                  removed (λ e. ground arith) refl (ground (arith, count_down))
                      (record {
                        valid =
                            written-IsValid ht _ t _ (dec32 ht.used) valid pos
                              (omega (arith, count_down, valid.load)) (sym count_down) h;
                        reads = h.reads;
                      }),
                )
          ]
    ]

  module _ (ht : Dict K V) (k : K) (v : V) (valid : IsValid ht) where
    -- `DictSetHashVal` at the entry that DictFind returned.
    pub set_hash_val-Writes :
        (e : K × V)
        → lookup ht k ≡ some e
        → 0 < ht.size
        → Returns (set_hash_val ht k v) λ r. (r.used ≡ ht.used) × Writes ht k (some (k, v)) r
    unfolding set_hash_val chain_at view
    set_hash_val-Writes e there pos =
        let width = slots_width ht valid pos in
        let here = at-home ht.size_mask ht.table width k in
        let c = home ht.size_mask ht.table k in
        let few = λ (q : K). (valid.placed q (slot ht.size_mask k)).0 in
        let t = set ht.table (slot ht.size_mask k) (assign k v c) in
        let h =
          set-Holds ht.size_mask ht.table width k valid.placed (some (k, v)) (assign k v c) ht.used
            (omega (arith, length-assign k v c, valid.counted))
            (λ q. (
              omega (arith, count-assign k q v c, few q),
              λ _. omega (arith, count-assign k q v c),
            ))
            (λ q. search-assign k q v c e there) in
        (
          record ht { table = t },
          rw here refl,
          (
            refl,
            record {
              valid = written-IsValid ht _ t _ ht.used valid pos valid.load refl h;
              reads = h.reads;
            },
          ),
        )

  module _ (ht : Dict K V) (k : K) (v : V) (valid : IsValid ht) where
    -- DictReplace in a valid table with fewer than 2 ^ 27 entries returns DICT_OK without a
    -- fault and leaves a valid table that has the value under the key and every other entry as
    -- before, whether or not the key was there.
    pub replace-Writes :
        ht.used < max_slots
        → Returns (replace ht k v) λ r. (r.0 ≡ dict_ok) × Writes ht k (some (k, v)) r.1
    unfolding replace
    replace-Writes room = elim (Option-cases (lookup ht k)) [
      | inl new ↦
          let ((st, g), run, (status, _, w)) = add-Inserted ht k v valid room new in
          ((dict_ok, g), rw (run, ◌>>=◌, status) refl, (refl, w))
      | inr (e, old) ↦
          let ((st, g), run, (status, _, ok_g, same, pos)) = add-Refused ht k v valid room e old in
          let there = same k ∙ old in
          let (h, run', (_, w)) = set_hash_val-Writes g k v ok_g e there pos in
          (
            (dict_ok, h),
            rw (run, ◌>>=◌, status, find-lookup g k ok_g, ◌>>=◌, there, run', ◌>>=◌) refl,
            (refl, record { valid = w.valid; reads = λ q. ground (arith, w.reads q, same q) }),
          )
    ]
