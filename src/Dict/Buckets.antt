-- ===== src/Dict/Buckets.antt =====
-- Where the entries of a table stand, the map that it stands for, and writes to one slot.
use mathlib.Core.List.{flatten}
use mathlib.Core.Logic.{Ne-symm}
use cutis.Common.{
  ℕ, zero, suc, ◌+◌, ◌≤◌, ◌<◌, ◌≡◌, refl, ap, ◌∙◌, ◌≢◌, true, false, Option, none, some, List, [],
  ◌∷◌, arith, Bool-cases, ◌==◌, if◌then◌else◌, length, get_or, set, length-append, length-set,
  get_or-set, bit_and-le, ok,
}
use cutis.Dict.{DictType, Entries, at, slot, search}
use cutis.Dict.Chain.{count, search-eq-none, count-eq-zero, search-append, count-append}

module _ {ℓ} {A : Type ℓ} where
  pub at-get_or :
      (table : List A) (index : ℕ) (other : A)
      → index < length table
      → at table index ≡ ok (get_or table index other)
  unfolding at
  at-get_or (slot ∷ table) (suc index) other inside = at-get_or table index other (omega arith)
  at-get_or (slot ∷ table) zero other inside = refl
  at-get_or [] index other inside = absurd (omega arith)

  pub length-flatten-set :
      (t : List (List A)) (i : ℕ) (c : List A)
      → i < length t
      → length (flatten (set t i c)) + length (get_or t i []) ≡ length (flatten t) + length c
  unfolding flatten
  length-flatten-set [] i c h = absurd (omega arith)
  length-flatten-set (x ∷ t) zero c h =
      omega (arith, length-append x (flatten t), length-append c (flatten t))
  length-flatten-set (x ∷ t) (suc i) c h = omega (
    arith,
    length-append x (flatten t),
    length-append x (flatten (set t i c)),
    length-flatten-set t i c (omega arith),
  )

pub slot-le {ℓ} : {K : Type ℓ} ⦃type : DictType K⦄ (mask : ℕ) (k : K) → slot mask k ≤ mask
unfolding slot
slot-le ⦃type⦄ mask k = bit_and-le (type.hash_function k) mask

module _ {ℓ} {K V : Type ℓ} ⦃type : DictType K⦄ where
  abbrev pub home : ℕ → List (Entries K V) → K → Entries K V
  home mask t k = get_or t (slot mask k) []

  -- A key occurs at most once, and only in the slot that its hash selects.
  abbrev pub IsPlaced : ℕ → List (Entries K V) → Type ℓ
  IsPlaced mask t =
      (q : K) (i : ℕ)
      → (count q (get_or t i []) ≤ 1) × (slot mask q ≢ i → count q (get_or t i []) ≡ 0)

  -- The map from keys to entries that a table stands for.
  unfoldable pub view : ℕ → List (Entries K V) → K → Option (K × V)
  view mask t q = search q (home mask t q)

  count-flatten_nowhere :
      (q : K) (t : List (Entries K V))
      → ((i : ℕ) → count q (get_or t i []) ≡ 0)
      → count q (flatten t) ≡ 0
  unfolding flatten count
  count-flatten_nowhere q [] h = refl
  count-flatten_nowhere q (c ∷ t) h =
      omega (arith, count-append q c (flatten t), h 0, count-flatten_nowhere q t (λ i. h (suc i)))

  -- If only slot `j` has the key, the table read as one chain has what slot `j` has.
  flatten_only :
      (q : K) (t : List (Entries K V)) (j : ℕ)
      → ((i : ℕ) → i ≢ j → count q (get_or t i []) ≡ 0)
      → (search q (flatten t) ≡ search q (get_or t j []))
        × (count q (flatten t) ≡ count q (get_or t j []))
  unfolding flatten
  flatten_only q [] j h = (refl, refl)
  flatten_only q (c ∷ t) zero h =
      let none_left = count-flatten_nowhere q t (λ i. h (suc i) (omega arith)) in
      (
        rw (search-append q c (flatten t), search-eq-none q (flatten t) none_left) (ground arith),
        omega (arith, count-append q c (flatten t), none_left),
      )
  flatten_only q (c ∷ t) (suc j) h =
      let here = h 0 (omega arith) in
      let (found, counted) = flatten_only q t j (λ i n. h (suc i) (omega arith)) in
      (
        rw (search-append q c (flatten t), search-eq-none q c here) found,
        omega (arith, count-append q c (flatten t), here, counted),
      )

  pub flatten-view :
      (mask : ℕ) (t : List (Entries K V)) (q : K)
      → IsPlaced mask t
      → (search q (flatten t) ≡ view mask t q) × (count q (flatten t) ≤ 1)
  unfolding view
  flatten-view mask t q placed =
      let (found, counted) = flatten_only q t (slot mask q) (λ i n. (placed q i).1 (Ne-symm n)) in
      (found, omega (arith, counted, (placed q (slot mask q)).0))

  -- `t` has `mask + 1` slots and `total` entries, all in their slots, and reads as `f`.
  pub record Holds (mask total : ℕ) (f : K → Option (K × V)) (t : List (Entries K V)) : Type ℓ where
    pub width : length t ≡ mask + 1
    pub entries : length (flatten t) ≡ total
    pub placed : IsPlaced mask t
    pub reads : (q : K) → view mask t q ≡ f q

  -- A map with one key given anew.
  abbrev pub update : (K → Option (K × V)) → K → Option (K × V) → K → Option (K × V)
  update f k o q = if type.key_compare q k then o else f q

  module _ (mask : ℕ) (t : List (Entries K V)) (width : length t ≡ mask + 1) (k : K) where
    pub at-home : at t (slot mask k) ≡ ok (home mask t k)
    at-home = at-get_or t (slot mask k) [] (omega (arith, slot-le mask k))

    -- What another key's slot is after a write to the slot of `k`.
    get_or-set_home :
        (c : Entries K V) (j : ℕ)
        → get_or (set t (slot mask k) c) j [] ≡ (if slot mask k == j then c else get_or t j [])
    get_or-set_home c j = get_or-set t (slot mask k) j c [] (omega (arith, slot-le mask k))

    slot_congr : (q : K) → type.key_compare q k ≡ true → slot mask q ≡ slot mask k
    slot_congr q e = ap (λ p. slot mask p) ((type.key_compare_iff q k).0 e)

    module _ (placed : IsPlaced mask t) where
      -- The writes of DictAdd, DictReplace and DictDelete replace the chain of one key.
      pub set-Holds :
          (o : Option (K × V)) (c : Entries K V) (total : ℕ)
          → total + length (home mask t k) ≡ length (flatten t) + length c
          → ((q : K)
              → (count q c ≤ 1)
                × (type.key_compare q k ≡ false → count q c ≤ count q (home mask t k)))
          → ((q : K) → search q c ≡ update (λ p. search p (home mask t k)) k o q)
          → Holds mask total (update (view mask t) k o) (set t (slot mask k) c)
      unfolding view
      set-Holds o c total size few reads = record {
        width = length-set t (slot mask k) c ∙ width;
        entries =
            omega (arith, length-flatten-set t (slot mask k) c (omega (arith, slot-le mask k)));
        placed = λ q j. rw (get_or-set_home c j) (
            ground (
              arith,
              placed q j,
              placed q (slot mask k),
              few q,
              Bool-cases (type.key_compare q k),
              slot_congr q,
            ));
        reads = λ q.
            rw (get_or-set_home c (slot mask q))
              (ground (arith, reads q, Bool-cases (type.key_compare q k), slot_congr q));
      }

      -- A new entry goes in front of its chain.
      pub push-Holds :
          (v : V)
          → view mask t k ≡ none
          → Holds mask
              (length (flatten t) + 1)
              (update (view mask t) k (some (k, v)))
              (set t (slot mask k) ((k, v) ∷ home mask t k))
      unfolding view count search
      push-Holds v absent =
          set-Holds (some (k, v)) ((k, v) ∷ home mask t k) (length (flatten t) + 1) (omega arith)
            (λ q. ground (
              arith,
              placed q (slot mask k),
              count-eq-zero k (home mask t k) absent,
              type.key_compare_iff q k,
            ))
            (λ q. ground arith)
