-- ===== src/Dict/Iterator/Order.antt =====
-- What the loops over a table of src/data_struct/dict.c visit: every entry, once, slot by slot.
use mathlib.Core.List.{flatten}
use cutis.Common.{
  ℕ, zero, suc, ◌+◌, ◌-◌, ◌≤◌, ◌<◌, ◌≡◌, refl, sym, ap, subst, inl, inr, Bool-cases, Option, none,
  some, false, List, [], ◌∷◌, ◌++◌, arith, leb, leb→le, List-cases, ◌==◌, take-all,
  eq_nil_of_length, length-append, length, drop, get_or, dec32_lem, u32_mod, ok, ◌>>=◌, Returns,
}
use native.Mathlib.Nat.{suc-add}
use cutis.Dict.{DictType, Entries, Dict, reset}
use cutis.Dict.Power.{max_size}
use cutis.Dict.Buckets.{at-get_or}
use cutis.Dict.Resize.{IsValid}
use cutis.Dict.Iterator.{
  DictIterator, get_iterator, next_loop, next, walk, iterate, clear_chain, clear_slots, clear,
}

drop-get_or {ℓ} :
    {A : Type ℓ} (xs : List A) (i : ℕ) (d : A)
    → i < length xs
    → drop i xs ≡ get_or xs i d ∷ drop (i + 1) xs
drop-get_or [] i d h = absurd (omega arith)
drop-get_or (x ∷ xs) zero d h = refl
drop-get_or (x ∷ xs) (suc i) d h = rw (suc-add i 1) (drop-get_or xs i d (omega arith))

drop-all {ℓ} : {A : Type ℓ} (i : ℕ) (xs : List A) → length xs ≤ i → drop i xs ≡ []
drop-all zero [] h = refl
drop-all zero (x ∷ xs) h = absurd (omega arith)
drop-all (suc i) [] h = refl
drop-all (suc i) (x ∷ xs) h = drop-all i xs (omega arith)

module _ {ℓ} {K V : Type ℓ} where
  abbrev pending : Entries K V → Entries K V → Entries K V
  pending [] next_entry = []
  pending (_ ∷ _) next_entry = next_entry

  abbrev one_if_any : Entries K V → ℕ
  one_if_any [] = 0
  one_if_any (_ ∷ _) = 1

  one_if_any-le : (c : Entries K V) → one_if_any c ≤ 1
  one_if_any-le [] = omega arith
  one_if_any-le (_ ∷ _) = omega arith

  -- The entries that an iterator has still to visit.
  abbrev rest_of : Dict K V → DictIterator K V → Entries K V
  rest_of ht it = pending it.entry it.next_entry ++ flatten (drop it.index ht.table)

  abbrev Yields : Dict K V → Entries K V → Option (K × V) × DictIterator K V → Type ℓ
  Yields ht [] r = r.0 ≡ none
  Yields ht (e ∷ es) r = (r.0 ≡ some e) × (rest_of ht r.1 ≡ es) × (r.1.index ≤ ht.size)

  module _ (ht : Dict K V) (width : length ht.table ≡ ht.size) (small : ht.size < max_size) where
    not_huge : leb 0x8000_0000 ht.size ≡ false
    not_huge = ground arith

    next_loop-Yields :
        (fuel i : ℕ) (entry next_entry : Entries K V)
        → i ≤ ht.size
        → ht.size + one_if_any entry < fuel + i
        → Returns
            (next_loop fuel ht (record { index = i; entry = entry; next_entry = next_entry }))
            (Yields ht (pending entry next_entry ++ flatten (drop i ht.table)))
    unfolding next_loop flatten
    next_loop-Yields zero i entry next_entry low enough = absurd (omega arith)
    next_loop-Yields (suc fuel) i (x ∷ xs) [] low enough =
        next_loop-Yields fuel i [] [] low (omega arith)
    next_loop-Yields (suc fuel) i (x ∷ xs) (e ∷ es) low enough = (_, refl, (refl, refl, low))
    next_loop-Yields (suc fuel) i [] next_entry low enough = elim (Bool-cases (leb ht.size i)) [
      | inl past ↦ (
        (none, record { index = i + 1; entry = []; next_entry = next_entry }),
        rw (not_huge, past) refl,
        rw (drop-all i ht.table (omega (arith, leb→le ht.size i past))) refl,
      )
      | inr more ↦
          let inside : i < length ht.table = ground (arith, width) in
          let found = at-get_or ht.table i [] inside in
          let split = drop-get_or ht.table i [] inside in
          elim (List-cases (get_or ht.table i [])) [
            | inl empty ↦
                rw (not_huge, more, found, empty, split, empty)
                  (next_loop-Yields fuel (i + 1) [] next_entry (omega arith) (omega arith))
            | inr (e, es, full) ↦ (
              (some e, record { index = i + 1; entry = e ∷ es; next_entry = es }),
              rw (not_huge, more, found, full) refl,
              rw (split, full) (refl, refl, omega arith),
            )
          ]
    ]

    next-Yields :
        (it : DictIterator K V)
        → it.index ≤ ht.size
        → Returns (next ht it) (Yields ht (rest_of ht it))
    unfolding next
    next-Yields it low =
        next_loop-Yields (ht.size + 2) it.index it.entry it.next_entry low
          (omega (arith, one_if_any-le it.entry))

    walk-rest_of :
        (es : Entries K V) (fuel : ℕ) (it : DictIterator K V)
        → rest_of ht it ≡ es
        → it.index ≤ ht.size
        → length es < fuel
        → walk fuel ht it ≡ ok es
    unfolding walk
    walk-rest_of es zero it e low enough = absurd (omega arith)
    walk-rest_of [] (suc fuel) it e low enough =
        let (r, run, stop) =
          subst (λ l. Returns (next ht it) (Yields ht l)) e (next-Yields it low) in
        rw (run, ◌>>=◌, stop) refl
    walk-rest_of (x ∷ es) (suc fuel) it e low enough =
        let (r, run, (found, left, low')) =
          subst (λ l. Returns (next ht it) (Yields ht l)) e (next-Yields it low) in
        let more = walk-rest_of es fuel r.1 left low' (omega arith) in
        rw (run, ◌>>=◌, found, more) refl

module _ {ℓ} {K V : Type ℓ} where
  clear_chain-eq :
      (used : ℕ) (c : Entries K V)
      → length c ≤ used
      → used < u32_mod
      → clear_chain used c ≡ (used - length c, c)
  unfolding clear_chain
  clear_chain-eq used [] fits small = ap (λ n. (n, [])) (omega arith)
  clear_chain-eq used (x ∷ c) fits small = rw (dec32_lem used (omega arith) small) (
      rw (clear_chain-eq (used - 1) c (omega arith) (omega arith))
        (ap (λ n. (n, x ∷ c)) (omega arith)))

  clear_slots-flatten :
      (used : ℕ) (cs : List (Entries K V))
      → length (flatten cs) ≡ used
      → used < u32_mod
      → clear_slots used cs ≡ flatten cs
  unfolding clear_slots flatten
  clear_slots-flatten used [] total small = refl
  clear_slots-flatten used (c ∷ cs) total small =
      let split = length-append c (flatten cs) in
      let first = clear_chain-eq used c (omega (arith, split)) small in
      let rest =
        clear_slots-flatten (used - length c) cs (omega (arith, split)) (omega (arith, split)) in
      elim (Bool-cases (used == 0)) [
        | inl done ↦
            rw (first, done) (sym (eq_nil_of_length (c ++ flatten cs) (ground (arith, total))))
        | inr more ↦ rw (first, more, rest) refl
      ]

module _ {ℓ} {K V : Type ℓ} ⦃type : DictType K⦄ (ht : Dict K V) (valid : IsValid ht) where
  -- A loop with DictNext over a valid table of fewer than 2 ^ 31 slots ends without a fault
  -- after it has seen each entry exactly once, slot by slot.
  pub iterate-flatten : ht.size < max_size → iterate ht ≡ ok (flatten ht.table)
  unfolding iterate get_iterator
  iterate-flatten small =
      walk-rest_of ht valid.width small (flatten ht.table) (ht.used + 1) get_iterator refl
        (omega arith) (omega (arith, valid.counted))

  -- _DictClear of a valid table frees each entry exactly once, slot by slot, and leaves an empty
  -- table.
  pub clear-flatten : clear ht ≡ (flatten ht.table, reset)
  unfolding clear
  clear-flatten =
      let whole = take-all ht.size ht.table (omega (arith, valid.width)) in
      rw whole (
        ap (λ es. (es, reset))
          (clear_slots-flatten ht.used ht.table valid.counted
            (omega (arith, valid.load, valid.small))))
