-- ===== src/Dict/Found.antt =====
-- What DictFind of src/data_struct/dict.c finds among the entries of a table.
use mathlib.Core.List.{flatten}
use cutis.Common.{
  ℕ, zero, suc, ◌≡◌, ◌≢◌, refl, sym, ap, subst, ◌∙◌, inl, inr, Option, none, some, List, [], ◌∷◌,
  arith, Bool-cases, get_elem?, Returns,
}
use cutis.Dict.{DictType, Entries, Dict, search, find}
use cutis.Dict.Buckets.{flatten-view}
use cutis.Dict.Resize.{IsValid, lookup}
use cutis.Dict.Methods.{find-lookup}

module _ {ℓ} {K V : Type ℓ} where
  -- An entry with the key that stands among `es`, or nothing if no entry there has the key.
  abbrev pub IsFound : K → List (K × V) → Option (K × V) → Type ℓ
  IsFound k es none = (i : ℕ) (e : K × V) → get_elem? es i ≡ some e → e.0 ≢ k
  IsFound k es (some e) = (e.0 ≡ k) × ((i : ℕ) × (get_elem? es i ≡ some e))

  some_inj : (x e : K × V) → some x ≡ some e → x ≡ e
  some_inj x e h = ap (λ o. elim o [ none ↦ x | some y ↦ y ]) h

  missing-later :
      (k : K) (x : K × V) (es : List (K × V))
      → x.0 ≢ k
      → IsFound k es none
      → (i : ℕ) (e : K × V) → get_elem? (x ∷ es) i ≡ some e
      → e.0 ≢ k
  missing-later k x es apart h zero e there same = apart (ap (λ y. y.0) (some_inj x e there) ∙ same)
  missing-later k x es apart h (suc i) e there same = h i e there same

  IsFound-later :
      (k : K) (x : K × V) (es : List (K × V)) (o : Option (K × V))
      → x.0 ≢ k
      → IsFound k es o
      → IsFound k (x ∷ es) o
  IsFound-later k x es none apart h = missing-later k x es apart h
  IsFound-later k x es (some e) apart (same, (i, there)) = (same, (suc i, there))

module _ {ℓ} {K V : Type ℓ} ⦃type : DictType K⦄ where
  search-IsFound : (k : K) (es : Entries K V) → IsFound k es (search k es)
  unfolding search
  search-IsFound k [] = λ i e there same. absurd (ground (arith, there))
  search-IsFound k (x ∷ es) = elim (Bool-cases (type.key_compare k x.0)) [
    | inl equal ↦ rw equal (sym ((type.key_compare_iff k x.0).0 equal), (0, refl))
    | inr other ↦ rw other (
        IsFound-later k x es (search k es)
          (λ same. ground (arith, type.key_compare_iff k x.0, other, sym same))
          (search-IsFound k es))
  ]

  -- DictFind in a valid table ends without a fault: what it returns is an entry of the table
  -- that has the key, and it returns none only if no entry in any slot of the table has the key.
  pub find-IsFound :
      (ht : Dict K V) (k : K) → IsValid ht → Returns (find ht k) (IsFound k (flatten ht.table))
  find-IsFound ht k valid =
      let (found, _) = flatten-view ht.size_mask ht.table k valid.placed in
      (
        lookup ht k,
        find-lookup ht k valid,
        subst (IsFound k (flatten ht.table)) found (search-IsFound k (flatten ht.table)),
      )
