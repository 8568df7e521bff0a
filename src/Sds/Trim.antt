-- ===== src/Sds/Trim.antt =====
-- What sdstrim of src/data_struct/sds.c takes away.
use cutis.Common.{
  ◌≡◌, refl, ap, ◌∙◌, inl, inr, Bool, true, false, [], ◌∷◌, ◌++◌, Bytes, Bool-cases, List-cases,
  if◌then◌else◌,
}
use cutis.Sds.{in_cset, trim_front, trim_back, sdstrim}

-- Is every byte one of `cset`?
abbrev pub all_in : Bytes → Bytes → Bool
all_in cset [] = true
all_in cset (c ∷ s) = if in_cset cset c then all_in cset s else false

trim_front-split :
    (cset s : Bytes)
    → (front : Bytes) × (s ≡ front ++ trim_front cset s) × (all_in cset front ≡ true)
unfolding trim_front
trim_front-split cset [] = ([], refl, refl)
trim_front-split cset (c ∷ s) = elim (Bool-cases (in_cset cset c)) [
  | inl here ↦
      let (front, e, all) = trim_front-split cset s in
      (c ∷ front, rw here (ap (λ t. c ∷ t) e), rw here all)
  | inr other ↦ ([], rw other refl, refl)
]

trim_back-split :
    (cset s : Bytes) → (back : Bytes) × (s ≡ trim_back cset s ++ back) × (all_in cset back ≡ true)
unfolding trim_back
trim_back-split cset [] = ([], refl, refl)
trim_back-split cset (c ∷ s) =
    let (back, e, all) = trim_back-split cset s in
    elim (List-cases (trim_back cset s)) [
      | inl none_left ↦ elim (Bool-cases (in_cset cset c)) [
        | inl here ↦
            (c ∷ back, rw (none_left, here) (ap (λ t. c ∷ t) (e ∙ rw none_left refl)), rw here all)
        | inr other ↦ (back, rw (none_left, other) (ap (λ t. c ∷ t) (e ∙ rw none_left refl)), all)
      ]
      | inr (d, t, some_left) ↦
          (back, rw some_left (ap (λ t'. c ∷ t') (e ∙ rw some_left refl)), all)
    ]

-- sdstrim takes from a string only bytes of the given set, from its two ends: the string is what
-- is taken in front, the result and what is taken behind.
pub sdstrim-split :
    (cset s : Bytes)
    → (front back : Bytes) × (s ≡ front ++ (sdstrim cset s ++ back))
      × (all_in cset front ≡ true)
      × (all_in cset back ≡ true)
unfolding sdstrim
sdstrim-split cset s =
    let (front, e, all) = trim_front-split cset s in
    let (back, e', all') = trim_back-split cset (trim_front cset s) in
    (front, back, e ∙ ap (λ t. front ++ t) e', all, all')
