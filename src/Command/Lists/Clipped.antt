-- ===== src/Command/Lists/Clipped.antt =====
-- The range of LRANGE and LTRIM of src/commands/command.c, and the positions that it has.
use cutis.Common.{
  ℕ, ◌+◌, ◌-◌, ◌<◌, ◌≡◌, sym, ap, ◌∙◌, inl, inr, false, none, some, List, [], ◌∷◌, arith,
  Option-cases, List-cases, Bytes, length, drop, length-take, length-drop,
}
use cutis.Common.Int.{ℤ, pos, negsuc}
use cutis.Shared
use cutis.Window.{is_between, window, keep, keep_same, keep_none, keep-window}
use cutis.Command.Lists.{convert_index, clip_range}
use cutis.Command.Lists.Range.{slice, bulks, clip_range-bounds}

-- No position of the list lies in an empty range.
outside :
    (n : ℕ) (start end : ℤ) (i : ℕ)
    → clip_range n start end ≡ none
    → i < n
    → is_between n start end i ≡ false
unfolding clip_range convert_index
outside n (pos a) (pos b) i h there = ground arith
outside n (pos a) (negsuc b) i h there = ground arith
outside n (negsuc a) (pos b) i h there = ground arith
outside n (negsuc a) (negsuc b) i h there = ground arith

-- The positions of a range are those that are not before its start and not after its end.
inside :
    (n : ℕ) (start end : ℤ) (p : ℕ × ℕ) (i : ℕ)
    → clip_range n start end ≡ some p
    → i < n
    → is_between n start end i ≡ window p.0 p.1 i
unfolding clip_range convert_index
inside n (pos a) (pos b) p i h there = ground arith
inside n (pos a) (negsuc b) p i h there = ground arith
inside n (negsuc a) (pos b) p i h there = ground arith
inside n (negsuc a) (negsuc b) p i h there = ground arith

-- The elements from one index to another.
abbrev pub between : ℤ → ℤ → List Bytes → List Bytes
between start end l = keep (is_between (length l) start end) 0 l

pub slice-between :
    (l : List Bytes) (start end : ℤ)
    → slice (clip_range (length l) start end) l ≡ between start end l
slice-between l start end = elim (Option-cases (clip_range (length l) start end)) [
  | inl empty ↦ rw empty (
      sym (
        keep_same (is_between (length l) start end) (λ i. false) 0 l
          (λ i m n. outside (length l) start end i empty (omega (arith, n)))
        ∙ keep_none 0 l))
  | inr (p, range) ↦
      let (ordered, _) = clip_range-bounds (length l) start end p range in
      rw range (
        sym (
          keep_same (is_between (length l) start end) (window p.0 p.1) 0 l
            (λ i m n. inside (length l) start end p i range (omega (arith, n)))
          ∙ keep-window p.0 p.1 l ordered))
]

-- What LRANGE replies about the elements that it selects: their number, and each of them.
abbrev pub kept_replies : List Bytes → List Bytes
kept_replies [] = Shared.zero ∷ []
kept_replies (x ∷ kept) = Shared.number_line (length (x ∷ kept)) ∷ bulks (x ∷ kept)

-- The replies to the range of a list are those about the elements in it.
pub replies-between :
    (l : List Bytes) (start end : ℤ) (p : ℕ × ℕ)
    → clip_range (length l) start end ≡ some p
    → Shared.number_line (p.1 - p.0 + 1) ∷ bulks (slice (some p) l)
      ≡ kept_replies (between start end l)
replies-between l start end p range =
    let (ordered, fits) = clip_range-bounds (length l) start end p range in
    let same : slice (some p) l ≡ between start end l =
      ap (λ r. slice r l) (sym range) ∙ slice-between l start end in
    let count : length (slice (some p) l) ≡ p.1 - p.0 + 1 =
      omega (arith, length-take (p.1 - p.0 + 1) (drop p.0 l), length-drop p.0 l, ordered, fits) in
    elim (List-cases (slice (some p) l)) [
      | inl empty ↦ absurd (omega (arith, count, ap length empty))
      | inr (x, kept, there) ↦
          ap (λ n. Shared.number_line n ∷ bulks (slice (some p) l)) (sym count)
          ∙ ap (λ y. Shared.number_line (length y) ∷ bulks y) there
          ∙ ap kept_replies (sym there ∙ same)
    ]
