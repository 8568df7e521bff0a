-- ===== src/Buffer/Ranges.antt =====
-- sdsrange of src/data_struct/sds.c in memory gives what it gives on the bytes.
use cutis.Common.{
  ℕ, zero, suc, ◌+◌, ◌-◌, ◌≤◌, ◌<◌, ◌≡◌, inl, inr, refl, sym, ap, ◌∙◌, Bool-cases, false, [], ◌∷◌,
  arith, ltb, ◌==◌, if◌then◌else◌, length, length-drop, take, drop, Bytes, ◌>>=◌, Returns,
}
use cutis.Common.Int.{ℤ}
use cutis.Sds.{sdsrange, from_end, clip_index}
use cutis.Buffer.{SdsHdr, keep_bytes, sdsrange_in_place}
use cutis.Buffer.Splice.{source-take}
use cutis.Buffer.Laws.{written, write_text, hdr_written, length-take_all}
use cutis.Buffer.Room.{IsValid, text}

pub take-take : (n m : ℕ) (s : Bytes) → n ≤ m → take n (take m s) ≡ take n s
take-take zero m s h = refl
take-take (suc n) zero s h = absurd (omega (arith, h))
take-take (suc n) (suc m) [] h = refl
take-take (suc n) (suc m) (c ∷ s) h = ap (λ t. c ∷ t) (take-take n m s (omega (arith, h)))

take-drop-take :
    (a n m : ℕ) (s : Bytes) → a + n ≤ m → take n (drop a (take m s)) ≡ take n (drop a s)
take-drop-take zero n m s h = take-take n m s (omega (arith, h))
take-drop-take (suc a) n zero s h = absurd (omega (arith, h))
take-drop-take (suc a) n (suc m) [] h = refl
take-drop-take (suc a) n (suc m) (c ∷ s) h = take-drop-take a n m s (omega (arith, h))

keep_bytes-Keeps :
    (start n : ℕ) (h : SdsHdr)
    → IsValid h
    → start + n ≤ h.len
    → Returns (keep_bytes start n h) (λ r. IsValid r × (text r ≡ take n (drop start (text h))))
unfolding keep_bytes
keep_bytes-Keeps start n h valid fits =
    let there : n ≤ length (drop start h.buf) =
      omega (arith, length-drop start h.buf, valid.size, fits) in
    let src : Bytes = take n (drop start h.buf) in
    let (run, ok_r, same) =
      written 0 n (h.free + (h.len - n)) src h.buf
        (omega (arith, length-take_all n (drop start h.buf) there))
        (omega (arith, valid.size, fits)) in
    (
      hdr_written 0 n (h.free + (h.len - n)) src h.buf,
      ap (λ m. m >>= (λ b. write_text 0 n (h.free + (h.len - n)) b h.buf))
            (source-take n (drop start h.buf) there)
          ∙ run,
      (ok_r, same ∙ sym (take-drop-take start n h.len h.buf fits)),
    )

-- sdsrange on bytes whose number is `len`.
abbrev range_of : ℕ → Bytes → ℤ → ℤ → Bytes
range_of len s start end =
    let first = from_end len start in
    let last = from_end len end in
    if len == 0
    then s
    else if ltb last first
    then []
    else let first' = clip_index len first in
      let last' = clip_index len last in
      if ltb last' first' then [] else take (last' - first' + 1) (drop first' s)

clip-lt : (len i : ℕ) → (len == 0) ≡ false → clip_index len i < len
unfolding clip_index
clip-lt len i h = ground (arith, h)

-- sdsrange in memory of a valid string, for any two indices, ends without a fault, and leaves a
-- valid string of the bytes that the range of the bytes is.
pub sdsrange_in_place-sdsrange :
    (h : SdsHdr) (start end : ℤ)
    → IsValid h
    → Returns
        (sdsrange_in_place h start end)
        (λ r. IsValid r × (text r ≡ sdsrange (text h) start end))
unfolding sdsrange_in_place sdsrange
sdsrange_in_place-sdsrange h start end valid =
    let size : length (text h) ≡ h.len = length-take_all h.len h.buf (omega (arith, valid.size)) in
    let same : sdsrange (text h) start end ≡ range_of h.len (text h) start end =
      ap (λ n. range_of n (text h) start end) size in
    let first = from_end h.len start in
    let last = from_end h.len end in
    elim (Bool-cases (h.len == 0)) [
      | inl empty ↦ (h, rw empty refl, (valid, sym (same ∙ rw empty refl)))
      | inr filled ↦ elim (Bool-cases (ltb last first)) [
        | inl turned ↦
            let (r, run, (ok_r, kept)) = keep_bytes-Keeps 0 0 h valid (omega arith) in
            (r, rw (filled, turned) run, (ok_r, kept ∙ sym (same ∙ rw (filled, turned) refl)))
        | inr straight ↦ elim (Bool-cases (ltb (clip_index h.len last) (clip_index h.len first))) [
          | inl turned ↦
              let (r, run, (ok_r, kept)) =
                keep_bytes-Keeps (clip_index h.len first) 0 h valid
                  (omega (arith, clip-lt h.len first filled)) in
              (
                r,
                rw (filled, straight, turned) run,
                (ok_r, kept ∙ sym (same ∙ rw (filled, straight, turned) refl)),
              )
          | inr onward ↦
              let (r, run, (ok_r, kept)) =
                keep_bytes-Keeps (clip_index h.len first)
                  (clip_index h.len last - clip_index h.len first + 1) h valid
                  (ground (arith, onward, clip-lt h.len first filled, clip-lt h.len last filled)) in
              (
                r,
                rw (filled, straight, onward) run,
                (ok_r, kept ∙ sym (same ∙ rw (filled, straight, onward) refl)),
              )
        ]
      ]
    ]
