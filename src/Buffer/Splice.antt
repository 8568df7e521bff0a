-- ===== src/Buffer/Splice.antt =====
-- Bytes that memcpy writes in the strings of src/data_struct/sds.c.
use cutis.Common.{
  ℕ, ◌+◌, ◌≤◌, ◌≡◌, refl, sym, ap, ◌∙◌, [], ◌∷◌, ◌++◌, arith, true, leb, length, length-append,
  length-take, length-drop, take, drop, take-append, append_assoc, get_or, Bytes, ok,
}
use cutis.Buffer.{splice, memcpy, source}

pub memcpy-splice :
    (at : ℕ) (src buf : Bytes)
    → at + length src ≤ length buf
    → memcpy at src buf ≡ ok (splice at src buf)
unfolding memcpy
memcpy-splice at src buf h =
    let fits : leb (at + length src) (length buf) ≡ true = ground (arith, h) in rw fits refl

pub source-take : (n : ℕ) (t : Bytes) → n ≤ length t → source n t ≡ ok (take n t)
unfolding source
source-take n t h = let fits : leb n (length t) ≡ true = ground (arith, h) in rw fits refl

pub length-splice :
    (at : ℕ) (src buf : Bytes)
    → at + length src ≤ length buf
    → length (splice at src buf) ≡ length buf
unfolding splice
length-splice at src buf h = omega (
  arith,
  length-append (take at buf) (src ++ drop (at + length src) buf),
  length-append src (drop (at + length src) buf),
  length-take at buf,
  length-drop (at + length src) buf,
  h,
)

pub take-splice :
    (at : ℕ) (src buf : Bytes)
    → at + length src ≤ length buf
    → take (at + length src) (splice at src buf) ≡ take at buf ++ src
unfolding splice
take-splice at src buf h =
    let size : at + length src ≡ length (take at buf ++ src) =
      omega (arith, length-append (take at buf) src, length-take at buf, h) in
    ap (λ k. take k (splice at src buf)) size
    ∙ ap (take (length (take at buf ++ src)))
        (sym (append_assoc (take at buf) src (drop (at + length src) buf)))
    ∙ take-append (take at buf ++ src) (drop (at + length src) buf)

pub before-splice :
    (at : ℕ) (src buf : Bytes) → at ≤ length buf → take at (splice at src buf) ≡ take at buf
unfolding splice
before-splice at src buf h =
    let size : at ≡ length (take at buf) = omega (arith, length-take at buf, h) in
    ap (λ k. take k (splice at src buf)) size
    ∙ take-append (take at buf) (src ++ drop (at + length src) buf)

get_or-append : (xs : Bytes) (c d : ℕ) (ys : Bytes) → get_or (xs ++ c ∷ ys) (length xs) d ≡ c
get_or-append [] c d ys = refl
get_or-append (x ∷ xs) c d ys = get_or-append xs c d ys

pub get_or-splice :
    (at c d : ℕ) (buf : Bytes) → at ≤ length buf → get_or (splice at (c ∷ []) buf) at d ≡ c
unfolding splice
get_or-splice at c d buf h =
    let size : at ≡ length (take at buf) = omega (arith, length-take at buf, h) in
    ap (λ k. get_or (splice at (c ∷ []) buf) k d) size
    ∙ get_or-append (take at buf) c d (drop (at + 1) buf)
