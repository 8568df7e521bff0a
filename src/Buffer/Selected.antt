-- ===== src/Buffer/Selected.antt =====
-- Which bytes sdsrange of src/data_struct/sds.c keeps.
use cutis.Common.{
  ℕ, ◌+◌, ◌≤◌, ◌<◌, ◌≡◌, sym, ap, ◌∙◌, inl, inr, Bool, true, false, ◌&&◌, ◌||◌, [], arith,
  Bool-cases, ltb, leb, ◌==◌, eq_nil_of_length, length, Bytes, Returns,
}
use cutis.Common.Int.{ℤ, pos, negsuc}
use cutis.Window.{is_between, window, keep, keep_same, keep_none, keep-window}
use cutis.Sds.{sdsrange, from_end, clip_index}
use cutis.Buffer.{SdsHdr, sdsrange_in_place}
use cutis.Buffer.Room.{IsValid, text}
use cutis.Buffer.Ranges.{sdsrange_in_place-sdsrange}

-- Both indices are past the end of `n` bytes, in their order.
abbrev pub is_past : ℕ → ℤ → ℤ → Bool
is_past n (pos a) (pos b) = leb n a && leb a b
is_past n _ _ = false

-- Whether the byte at a position is kept: it lies between the indices, or both are past the end
-- and it is the last byte.
abbrev pub is_kept : ℕ → ℤ → ℤ → ℕ → Bool
is_kept n start end p = is_between n start end p || is_past n start end && p + 1 == n

module _ (n : ℕ) where
  turned :
      (start end : ℤ) (i : ℕ)
      → ltb (from_end n end) (from_end n start) ≡ true
      → i < n
      → is_kept n start end i ≡ false
  unfolding from_end
  turned (pos a) (pos b) i h there = ground arith
  turned (pos a) (negsuc b) i h there = ground arith
  turned (negsuc a) (pos b) i h there = ground arith
  turned (negsuc a) (negsuc b) i h there = ground arith

  onward :
      (start end : ℤ) (i : ℕ)
      → ltb (from_end n end) (from_end n start) ≡ false
      → i < n
      → is_kept n start end i
        ≡ window (clip_index n (from_end n start)) (clip_index n (from_end n end)) i
  unfolding from_end clip_index
  onward (pos a) (pos b) i h there = ground arith
  onward (pos a) (negsuc b) i h there = ground arith
  onward (negsuc a) (pos b) i h there = ground arith
  onward (negsuc a) (negsuc b) i h there = ground arith

  clip_monotone : (first last : ℕ) → ltb last first ≡ false → clip_index n first ≤ clip_index n last
  unfolding clip_index
  clip_monotone first last h = ground arith

-- The bytes that sdsrange keeps.
abbrev pub selected : ℤ → ℤ → Bytes → Bytes
selected start end s = keep (is_kept (length s) start end) 0 s

sdsrange-selected : (s : Bytes) (start end : ℤ) → sdsrange s start end ≡ selected start end s
unfolding sdsrange
sdsrange-selected s start end =
    let n = length s in
    let first = from_end n start in
    let last = from_end n end in
    elim (Bool-cases (n == 0)) [
      | inl empty ↦
          let nothing : s ≡ [] = eq_nil_of_length s (ground arith) in
          rw empty (nothing ∙ sym (ap (selected start end) nothing))
      | inr filled ↦ elim (Bool-cases (ltb last first)) [
        | inl back ↦
            rw (filled, back)
              (sym (
                keep_same (is_kept n start end) (λ i. false) 0 s
                  (λ i m there. turned n start end i back (omega (arith, there)))
                ∙ keep_none 0 s))
        | inr on ↦
            let ordered = clip_monotone n first last on in
            let straight : ltb (clip_index n last) (clip_index n first) ≡ false =
              ground (arith, ordered) in
            rw (filled, on, straight)
              (sym (
                keep_same (is_kept n start end) (window (clip_index n first) (clip_index n last)) 0
                  s (λ i m there. onward n start end i on (omega (arith, there)))
                ∙ keep-window (clip_index n first) (clip_index n last) s ordered))
      ]
    ]

-- sdsrange in memory of a valid string, for any two indices, ends without a fault and leaves a
-- valid string of exactly the bytes from the first index to the last, where a negative index
-- counts from the end and one before the start is the start; where both indices are past the
-- end, in their order, it leaves the last byte.
pub sdsrange_in_place-selected :
    (h : SdsHdr) (start end : ℤ)
    → IsValid h
    → Returns
        (sdsrange_in_place h start end)
        (λ r. IsValid r × (text r ≡ selected start end (text h)))
sdsrange_in_place-selected h start end valid =
    let (r, run, (ok_r, same)) = sdsrange_in_place-sdsrange h start end valid in
    (r, run, (ok_r, same ∙ sdsrange-selected (text h) start end))
