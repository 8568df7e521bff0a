-- ===== src/Dict/Chain.antt =====
-- One chain of src/data_struct/dict.c: what the walks along it find, and how often a key occurs.
use cutis.Common.{
  ℕ, ◌+◌, ◌≤◌, ◌≡◌, refl, Bool, true, false, Option, none, some, [], ◌∷◌, ◌++◌, arith,
  if◌then◌else◌, length,
}
use cutis.Dict.{DictType, Entries, search, assign, unlink}

abbrev pub to_nat : Bool → ℕ
to_nat true = 1
to_nat false = 0

-- The first of two that is there.
abbrev pub first {ℓ} : {A : Type ℓ} → Option A → Option A → Option A
first none o = o
first (some a) o = some a

module _ {ℓ} {K V : Type ℓ} ⦃type : DictType K⦄ where
  -- How many entries of a chain have the key.
  unfoldable pub count : K → Entries K V → ℕ
  count q [] = 0
  count q (he ∷ rest) = to_nat (type.key_compare q he.0) + count q rest

  pub search-eq-none : (q : K) (c : Entries K V) → count q c ≡ 0 → search q c ≡ none
  unfolding count search
  search-eq-none q [] h = refl
  search-eq-none q (e ∷ c) h = ground (arith, search-eq-none q c)

  pub count-eq-zero : (q : K) (c : Entries K V) → search q c ≡ none → count q c ≡ 0
  unfolding count search
  count-eq-zero q [] h = refl
  count-eq-zero q (e ∷ c) h = ground (arith, count-eq-zero q c)

  pub search-key : (q : K) (c : Entries K V) (e : K × V) → search q c ≡ some e → e.0 ≡ q
  unfolding search
  search-key q [] e h = ground arith
  search-key q (x ∷ c) e h = ground (arith, search-key q c e, type.key_compare_iff q x.0)

  pub search-append :
      (q : K) (a b : Entries K V) → search q (a ++ b) ≡ first (search q a) (search q b)
  unfolding search
  search-append q [] b = refl
  search-append q (e ∷ a) b = ground (arith, search-append q a b)

  pub count-append :
      (k : K) (front back : Entries K V) → count k (front ++ back) ≡ count k back + count k front
  unfolding count
  count-append k [] back = omega arith
  count-append k (he ∷ front) back = omega (arith, count-append k front back)

  module _ (k q : K) where
    pub search-assign :
        (v : V) (c : Entries K V) (old : K × V)
        → search k c ≡ some old
        → search q (assign k v c) ≡ (if type.key_compare q k then some (k, v) else search q c)
    unfolding search assign
    search-assign v [] old h = ground arith
    search-assign v (e ∷ c) old h = ground (
      arith,
      search-assign v c old,
      type.key_compare_iff q k,
      type.key_compare_iff k e.0,
      type.key_compare_iff q e.0,
    )

    pub count-assign :
        (val : V) (chain : Entries K V) → count q chain ≡ count q (assign k val chain)
    unfolding assign count
    count-assign val [] = refl
    count-assign val (he ∷ chain) = ground (arith, count-assign val chain)

    pub search-unlink :
        (c : Entries K V)
        → count q c ≤ 1
        → search q (unlink k c) ≡ (if type.key_compare q k then none else search q c)
    unfolding search unlink count
    search-unlink [] h = ground arith
    search-unlink (e ∷ c) h = ground (
      arith,
      search-unlink c,
      search-eq-none q c,
      type.key_compare_iff q k,
      type.key_compare_iff k e.0,
      type.key_compare_iff q e.0,
    )

    pub count-unlink-le : (c : Entries K V) → count q (unlink k c) ≤ count q c
    unfolding count unlink
    count-unlink-le [] = omega arith
    count-unlink-le (e ∷ c) = ground (arith, count-unlink-le c)

  pub length-assign :
      (key : K) (val : V) (chain : Entries K V) → length chain ≡ length (assign key val chain)
  unfolding assign
  length-assign key val [] = refl
  length-assign key val (he ∷ chain) = ground (arith, length-assign key val chain)

  pub length-unlink :
      (k : K) (c : Entries K V) (old : K × V)
      → search k c ≡ some old
      → length (unlink k c) + 1 ≡ length c
  unfolding unlink search
  length-unlink k [] old h = ground arith
  length-unlink k (e ∷ c) old h = ground (arith, length-unlink k c old)
