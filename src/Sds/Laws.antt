-- ===== src/Sds/Laws.antt =====
-- What splitting a string and taking the rest of a buffer give.
use cutis.Common.{
  ℕ, zero, suc, ◌+◌, ◌-◌, ◌≡◌, refl, sym, ap, ◌∙◌, inl, inr, List, [], ◌∷◌, ◌++◌, arith, false,
  append_assoc, append-nil, Bytes, ltb, leb, ◌==◌, ==_iff, Bool-cases, length, drop, take-all,
  length-drop, eq_nil_of_length,
}
use cutis.Common.Int.{pos, negsuc}
use cutis.Sds.{sdsrange, from_end, clip_index, split_from, sdssplitlen}

-- The tokens with the separator between them.
abbrev pub join : ℕ → List Bytes → Bytes
join sep [] = []
join sep (t ∷ []) = t
join sep (t ∷ u ∷ ts) = t ++ sep ∷ join sep (u ∷ ts)

split_from-some :
    (sep : ℕ) (token s : Bytes)
    → (t : Bytes) × (ts : List Bytes) × (split_from sep token s ≡ t ∷ ts)
unfolding split_from
split_from-some sep token [] = (token, [], refl)
split_from-some sep token (c ∷ s) = elim (Bool-cases (c == sep)) [
  | inl here ↦ (token, split_from sep [] s, rw here refl)
  | inr other ↦ let (t, ts, e) = split_from-some sep (token ++ c ∷ []) s in (t, ts, rw other e)
]

join-split_from : (sep : ℕ) (token s : Bytes) → join sep (split_from sep token s) ≡ token ++ s
unfolding split_from
join-split_from sep token [] = sym (append-nil token)
join-split_from sep token (c ∷ s) = elim (Bool-cases (c == sep)) [
  | inl here ↦
      let (t, ts, e) = split_from-some sep [] s in
      let rest : join sep (t ∷ ts) ≡ s = ap (join sep) (sym e) ∙ join-split_from sep [] s in
      rw (here, e)
        (ap (λ r. token ++ sep ∷ r) rest ∙ ap (λ x. token ++ x ∷ s) (sym ((==_iff c sep).0 here)))
  | inr other ↦ rw other (join-split_from sep (token ++ c ∷ []) s ∙ append_assoc token (c ∷ []) s)
]

-- The tokens of sdssplitlen with a separator of one byte, joined with that separator between
-- them, give the string back.
pub join-sdssplitlen : (sep : ℕ) (s : Bytes) → join sep (sdssplitlen sep s) ≡ s
unfolding sdssplitlen
join-sdssplitlen sep s = join-split_from sep [] s

-- sdsrange from a position from 0 on to -1 leaves what stands from that position on, which is
-- nothing if the string ends before.
pub sdsrange-drop : (s : Bytes) (n : ℕ) → sdsrange s (pos n) (negsuc 0) ≡ drop n s
unfolding sdsrange from_end clip_index
sdsrange-drop [] zero = refl
sdsrange-drop [] (suc n) = refl
sdsrange-drop (c ∷ s) n =
    let some_bytes : (suc (length s) == 0) ≡ false = ground arith in
    elim (Bool-cases (ltb (suc (length s) - 1) n)) [
      | inl past ↦
          let left = length-drop n (c ∷ s) in
          rw (some_bytes, past) (sym (eq_nil_of_length (drop n (c ∷ s)) (ground (arith, left))))
      | inr inside ↦
          let last_in : leb (suc (length s)) (suc (length s) - 1) ≡ false = ground arith in
          let first_in : leb (suc (length s)) n ≡ false = ground arith in
          let left = length-drop n (c ∷ s) in
          rw (some_bytes, inside, last_in, first_in, inside)
            (take-all (suc (length s) - 1 - n + 1) (drop n (c ∷ s)) (ground (arith, left)))
    ]
