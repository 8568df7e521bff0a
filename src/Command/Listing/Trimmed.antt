-- ===== src/Command/Listing/Trimmed.antt =====
-- What sdstrim of src/data_struct/sds.c leaves of the keys that KEYS replies.
use cutis.Common.{
  ℕ, ◌≡◌, subst, inl, inr, Bool, true, false, ◌||◌, [], ◌∷◌, ◌++◌, arith, Bool-cases, List-cases,
  ◌==◌, Bytes, codes,
}
use cutis.Sds.{in_cset, trim_front, trim_back, sdstrim}
use cutis.Sds.Trim.{all_in, sdstrim-split}

-- A space, or the byte zero, which strchr finds in any set.
abbrev pub is_blank : ℕ → Bool
is_blank c = c == b' ' || c == 0

abbrev pub AllBlank : Bytes → Type 0
AllBlank [] = Unit
AllBlank (c ∷ s) = (is_blank c ≡ true) × AllBlank s

-- No such byte in front, and none at the end.
abbrev pub IsBareFront : Bytes → Type 0
IsBareFront [] = Unit
IsBareFront (c ∷ s) = is_blank c ≡ false

abbrev pub IsBareBack : Bytes → Type 0
IsBareBack [] = Unit
IsBareBack (c ∷ []) = is_blank c ≡ false
IsBareBack (c ∷ d ∷ s) = IsBareBack (d ∷ s)

-- `t` is `s` without the blanks at both ends.
pub record IsTrimmed (s t : Bytes) : Type 0 where
  pub before : Bytes
  pub after : Bytes
  pub whole : s ≡ before ++ (t ++ after)
  pub blank_before : AllBlank before
  pub blank_after : AllBlank after
  pub front : IsBareFront t
  pub back : IsBareBack t

in_cset-blank : (c : ℕ) → in_cset (codes " ") c ≡ is_blank c
unfolding in_cset
in_cset-blank c = ground arith

all_in-AllBlank : (s : Bytes) → all_in (codes " ") s ≡ true → AllBlank s
all_in-AllBlank [] h = tt
all_in-AllBlank (c ∷ s) h =
    let (here, rest) : (in_cset (codes " ") c ≡ true) × (all_in (codes " ") s ≡ true) =
      ground (arith, h) in
    (ground (arith, in_cset-blank c, here), all_in-AllBlank s rest)

trim_front-IsBareFront : (s : Bytes) → IsBareFront (trim_front (codes " ") s)
unfolding trim_front
trim_front-IsBareFront [] = tt
trim_front-IsBareFront (c ∷ s) = elim (Bool-cases (is_blank c)) [
  | inl blank ↦ rw (in_cset-blank c, blank) (trim_front-IsBareFront s)
  | inr bare ↦ rw (in_cset-blank c, bare) bare
]

trim_back-IsBareFront : (s : Bytes) → IsBareFront s → IsBareFront (trim_back (codes " ") s)
unfolding trim_back
trim_back-IsBareFront [] bare = tt
trim_back-IsBareFront (c ∷ s) bare = elim (List-cases (trim_back (codes " ") s)) [
  | inl empty ↦ rw (empty, in_cset-blank c, bare) bare
  | inr (d, t, there) ↦ rw there bare
]

trim_back-IsBareBack : (s : Bytes) → IsBareBack (trim_back (codes " ") s)
unfolding trim_back
trim_back-IsBareBack [] = tt
trim_back-IsBareBack (c ∷ s) = elim (List-cases (trim_back (codes " ") s)) [
  | inl empty ↦ elim (Bool-cases (is_blank c)) [
    | inl blank ↦ rw (empty, in_cset-blank c, blank) tt
    | inr bare ↦ rw (empty, in_cset-blank c, bare) bare
  ]
  | inr (d, t, there) ↦ rw there (subst IsBareBack there (trim_back-IsBareBack s))
]

-- sdstrim with a space leaves its string without the blanks at both ends.
pub sdstrim-IsTrimmed : (s : Bytes) → IsTrimmed s (sdstrim (codes " ") s)
unfolding sdstrim
sdstrim-IsTrimmed s =
    let (front, back, e, before, after) = sdstrim-split (codes " ") s in
    record {
      before = front;
      after = back;
      whole = e;
      blank_before = all_in-AllBlank front before;
      blank_after = all_in-AllBlank back after;
      front = trim_back-IsBareFront (trim_front (codes " ") s) (trim_front-IsBareFront s);
      back = trim_back-IsBareBack (trim_front (codes " ") s);
    }
