-- ===== src/Dump/Fresh.antt =====
-- Keys that are added to a table one by one, each for the first time.
use cutis.Common.{
  ◌+◌, ◌≤◌, ◌<◌, ◌≡◌, refl, ◌∙◌, inl, inr, true, false, none, some, ◌∷◌, arith, Bool-cases,
  if◌then◌else◌, Returns,
}
use cutis.Dict
use cutis.Dict.{Dict, DictType, Entries, Status, dict_ok, search}
use cutis.Dict.Chain.{count, first, search-eq-none}
use cutis.Dict.Power.{max_slots}
use cutis.Dict.Resize.{IsValid, lookup}
use cutis.Dict.Methods.{Writes, add-Inserted}

module _ {ℓ} {K V : Type ℓ} ⦃type : DictType K⦄ where
  -- No key stands twice among the entries, and none is in the table.
  abbrev pub Fresh : Entries K V → Dict K V → Type ℓ
  Fresh es d = (q : K) → (count q es ≤ 1) × (0 < count q es → lookup d q ≡ none)

  abbrev pub AddedFresh : K → V → Entries K V → Dict K V → Status × Dict K V → Type ℓ
  AddedFresh k v es d r =
      (r.0 ≡ dict_ok) × (r.1.used ≡ d.used + 1) × Writes d k (some (k, v)) r.1 × Fresh es r.1

  module _ (d : Dict K V) (k : K) (w : V) (es : Entries K V) (fresh : Fresh ((k, w) ∷ es) d) where
    fresh_key : (q : K) → type.key_compare q k ≡ true → (count q es ≡ 0) × (lookup d q ≡ none)
    unfolding count
    fresh_key q this =
        let h : (1 + count q es ≤ 1) × (0 < 1 + count q es → lookup d q ≡ none) =
          rw this at (fresh q) in
        (omega (arith, h.0), h.1 (omega arith))

    fresh_other :
        (q : K)
        → type.key_compare q k ≡ false
        → (count q es ≤ 1) × (0 < count q es → lookup d q ≡ none)
    unfolding count
    fresh_other q other =
        let h : (0 + count q es ≤ 1) × (0 < 0 + count q es → lookup d q ≡ none) =
          rw other at (fresh q) in
        (omega (arith, h.0), λ m. h.1 (omega (arith, m)))

    pub add-Fresh :
        (v : V) → IsValid d → d.used < max_slots → Returns (Dict.add d k v) (AddedFresh k v es d)
    add-Fresh v valid room =
        let new = (fresh_key k ((type.key_compare_iff k k).1 refl)).1 in
        let (r, run, (status, used, writes)) = add-Inserted d k v valid room new in
        (
          r,
          run,
          (
            status,
            used,
            writes,
            λ q. elim (Bool-cases (type.key_compare q k)) [
              | inl this ↦
                  let gone = (fresh_key q this).0 in
                  (omega (arith, gone), λ m. absurd (omega (arith, gone, m)))
              | inr other ↦
                  let (few, before) = fresh_other q other in
                  (few, λ m. writes.reads q ∙ rw other (before m))
            ],
          ),
        )

    -- What the rest of the entries and the table have for a key after the write.
    pub first-search :
        (v : V) (r : Dict K V) (q : K)
        → Writes d k (some (k, v)) r
        → first (search q es) (lookup r q)
          ≡ (if type.key_compare q k then some (k, v) else first (search q es) (lookup d q))
    first-search v r q writes = elim (Bool-cases (type.key_compare q k)) [
      | inl this ↦
          let gone = search-eq-none q es (fresh_key q this).0 in
          rw (gone, writes.reads q, this) refl
      | inr other ↦ rw (writes.reads q, other) refl
    ]
