-- ===== src/Dict/Resize.antt =====
-- The invariant of a table of src/data_struct/dict.c, and the operations that change its size.
use mathlib.Core.List.{flatten}
use cutis.Common.{
  ℕ, ◌+◌, ◌-◌, ◌*◌, ◌%◌, ◌^◌, ◌≤◌, ◌<◌, ◌≡◌, refl, sym, ap, subst, ◌∙◌, ◌⊎◌, inl, inr, true, false,
  Option, none, [], arith, Bool-cases, eq_nil_of_length, ltb, leb, lt→ltb, ◌==◌, length, take,
  replicate, take-all, u32_mod, ltb→lt, Run, ok, Returns,
}
use cutis.Dict.{
  DictType, Dict, search, Status, dict_ok, dict_err, initial_size, reset, alloc_slots, expand,
  expand_if_needed, resize, move_all,
}
use cutis.Dict.Chain.{count}
use cutis.Dict.Buckets.{IsPlaced, view, Holds, flatten-view}
use cutis.Dict.Power.{max_slots, pow_pos, slots_le, doubled_le, next_power_lem}
use cutis.Dict.Expand.{replicate-Holds, move_all-Moved}

alloc_slots-ok {ℓ} :
    {E : Type ℓ} (n : ℕ) → n ≤ max_slots → alloc_slots {E = E} n ≡ ok (replicate n [])
unfolding alloc_slots
alloc_slots-ok n h =
    let same : n * 8 % u32_mod ≡ n * 8 = omega (arith, h) in
    let fits : leb 0x8000_0000 (n * 8) ≡ false = ground (arith, h) in
    let whole : ltb (n * 8) (n * 8) ≡ false = ground arith in rw (same, fits, whole) refl

module _ {ℓ} {K V : Type ℓ} ⦃type : DictType K⦄ where
  -- No table at all, or a power of two slots, at most 2 ^ 27, with no more entries than slots,
  -- every entry in the slot of its key, no key twice, and `used` the number of entries.
  pub record IsValid (ht : Dict K V) : Type ℓ where
    pub width : length ht.table ≡ ht.size
    pub masked : ht.size ≡ 0 ⊎ ht.size ≡ ht.size_mask + 1
    pub sized : ht.size ≡ 0 ⊎ ((e : ℕ) × (ht.size ≡ initial_size * 2 ^ e))
    pub small : ht.size ≤ max_slots
    pub load : ht.used ≤ ht.size
    pub counted : length (flatten ht.table) ≡ ht.used
    pub placed : IsPlaced ht.size_mask ht.table

  -- The entry that a table has for a key.
  abbrev pub lookup : Dict K V → K → Option (K × V)
  lookup ht q = view ht.size_mask ht.table q

  pub reset-IsValid : IsValid (reset {K = K} {V = V})
  unfolding reset flatten count
  reset-IsValid = record {
    width = refl;
    masked = inl refl;
    sized = inl refl;
    small = omega arith;
    load = omega arith;
    counted = refl;
    placed = λ q i. (omega arith, λ _. refl);
  }

  pub lookup-empty : (ht : Dict K V) → IsValid ht → ht.used ≡ 0 → (q : K) → lookup ht q ≡ none
  unfolding count search
  lookup-empty ht valid e q =
      let (found, few) = flatten-view ht.size_mask ht.table q valid.placed in
      sym found ∙ ap (λ c. search q c) (eq_nil_of_length (flatten ht.table) (valid.counted ∙ e))

  -- What a change of size may do: the same entries, and room for `size` of them.
  pub record Resized (ht : Dict K V) (size : ℕ) (r : Status × Dict K V) : Type ℓ where
    pub status : r.0 ≡ dict_ok
    pub valid : IsValid r.1
    pub same_used : r.1.used ≡ ht.used
    pub roomy : size ≤ r.1.size
    pub some_slots : 0 < r.1.size
    pub same : (q : K) → lookup r.1 q ≡ lookup ht q

  -- All the entries go to a new table of `slots` slots.
  abbrev Rehashed : Dict K V → (mask slots : ℕ) → Type ℓ
  Rehashed ht mask slots =
      Returns (move_all mask ht.used (take ht.size ht.table) (replicate slots []))
        λ r. (r.0 ≡ 0) × Holds mask ht.used (lookup ht) r.1

  move_all-Rehashed : (ht : Dict K V) (mask : ℕ) → IsValid ht → Rehashed ht mask (mask + 1)
  unfolding count search
  move_all-Rehashed ht mask valid =
      let start = replicate-Holds {K = K} {V = V} mask in
      let read = λ (q : K). flatten-view ht.size_mask ht.table q valid.placed in
      let whole = take-all ht.size ht.table (omega (arith, valid.width)) in
      let (r, run, (gone, holds)) =
        move_all-Moved mask ht.used ht.table (replicate (mask + 1) []) start.width start.placed
          valid.counted (omega (arith, valid.load, valid.small)) (λ q. (read q).1)
          (λ q _. start.reads q) in
      (
        r,
        rw whole run,
        (
          omega (arith, gone, valid.counted),
          record {
            width = holds.width;
            entries = omega (arith, holds.entries, start.entries, valid.counted);
            placed = holds.placed;
            reads = λ q. rw (holds.reads q, start.reads q) ((read q).0);
          },
        ),
      )

  -- DictExpand of a valid table to a size of at least the number of its entries and at most 2 ^
  -- 27 returns DICT_OK without a fault (its assertion holds), and leaves a valid table with the
  -- same number of entries and the same entry under every key, of at least the wanted number of
  -- slots.
  pub expand-Resized :
      (ht : Dict K V) (size : ℕ)
      → IsValid ht
      → ht.used ≤ size
      → size ≤ max_slots
      → Returns (expand ht size) (Resized ht size)
  unfolding expand
  expand-Resized ht size valid fits most =
      let (p, chosen, power) = next_power_lem size in
      let least : p < 2 * max_slots = omega (arith, power.least, most) in
      let few : p ≤ max_slots = slots_le power.exponent p power.power least in
      let enough : size ≤ p = omega (arith, power.enough, few) in
      let back : p - 1 + 1 ≡ p = omega (arith, power.power, pow_pos power.exponent) in
      let ((left, t), run, (gone, holds)) =
        subst (Rehashed ht (p - 1)) back (move_all-Rehashed ht (p - 1) valid) in
      let over : ltb size ht.used ≡ false = ground arith in
      let all_moved : (left == 0) ≡ true = rw gone refl in
      (
        (dict_ok, record { table = t; size = p; size_mask = p - 1; used = ht.used }),
        rw (chosen, over, alloc_slots-ok {E = K × V} p few, run, all_moved) refl,
        record {
          status = refl;
          valid = record {
            width = holds.width ∙ back;
            masked = inr (sym back);
            sized = inr (power.exponent, power.power);
            small = few;
            load = omega (arith, enough, fits);
            counted = holds.entries;
            placed = holds.placed;
          };
          same_used = refl;
          roomy = enough;
          some_slots = omega (arith, back);
          same = holds.reads;
        },
      )

  -- DictExpand refuses a size below the number of entries, and changes nothing.
  pub expand_refused :
      (ht : Dict K V) (size : ℕ) → size < ht.used → expand ht size ≡ ok (dict_err, ht)
  unfolding expand
  expand_refused ht size h =
      let (p, chosen, power) = next_power_lem size in rw (chosen, lt→ltb size ht.used h) refl

  Resized-le :
      {ht : Dict K V} {r : Run (Status × Dict K V)} {a b : ℕ}
      → a ≤ b
      → Returns r (Resized ht b)
      → Returns r (Resized ht a)
  Resized-le le (x, run, d) = (
    x,
    run,
    record {
      status = d.status;
      valid = d.valid;
      same_used = d.same_used;
      roomy = omega (arith, d.roomy);
      some_slots = d.some_slots;
      same = d.same;
    },
  )

  -- DictResize of a valid table returns DICT_OK without a fault and leaves a valid table with
  -- the same entries, of at least as many slots as entries.
  pub resize-Resized :
      (ht : Dict K V) → IsValid ht → Returns (resize ht) (λ r. Resized ht ht.used r)
  unfolding resize
  resize-Resized ht valid = elim (Bool-cases (ltb ht.used initial_size)) [
    | inl few ↦
        let fits : ht.used ≤ initial_size = omega (arith, ltb→lt ht.used initial_size few) in
        rw few (Resized-le fits (expand-Resized ht initial_size valid fits (omega arith)))
    | inr many ↦
        rw many
          (expand-Resized ht ht.used valid (omega arith) (omega (arith, valid.load, valid.small)))
  ]

  -- _DictExpandIfNeeded makes room for one more entry, if fewer than 2 ^ 27 are there.
  pub expand_if_needed-Resized :
      (ht : Dict K V)
      → IsValid ht
      → ht.used < max_slots
      → Returns (expand_if_needed ht) (Resized ht (ht.used + 1))
  unfolding expand_if_needed
  expand_if_needed-Resized ht valid room = elim (Bool-cases (ht.size == 0)) [
    | inl none_yet ↦
        let fits : ht.used + 1 ≤ initial_size = ground (arith, valid.load) in
        rw none_yet
          (Resized-le fits (expand-Resized ht initial_size valid (omega arith) (omega arith)))
    | inr some_slots ↦ elim (Bool-cases (ht.used == ht.size)) [
      | inl full ↦
          let below : ht.size < max_slots = ground (arith, room, full) in
          let most : ht.size * 2 ≤ max_slots = elim valid.sized [
            | inl none_yet ↦ omega (arith, none_yet)
            | inr (e, power) ↦ omega (arith, doubled_le e ht.size power below)
          ] in
          let doubled : ht.used + 1 ≤ ht.size * 2 % u32_mod = ground (arith, valid.small) in
          rw (some_slots, full)
            (Resized-le doubled (
              expand-Resized ht (ht.size * 2 % u32_mod) valid (omega (arith, doubled))
                (omega (arith, most))))
      | inr free ↦ (
        (dict_ok, ht),
        rw (some_slots, free) refl,
        record {
          status = refl;
          valid = valid;
          same_used = refl;
          roomy = ground (arith, valid.load);
          some_slots = ground arith;
          same = λ q. refl;
        },
      )
    ]
  ]
