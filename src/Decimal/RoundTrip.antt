-- ===== src/Decimal/RoundTrip.antt =====
-- strtoll undoes printf's %lld.
use cutis.Common.{
  ℕ, zero, suc, ◌+◌, ◌-◌, ◌*◌, ◌/◌, ◌%◌, ◌≤◌, ◌<◌, ◌≡◌, refl, sym, ap, ◌∙◌, inl, inr, true, [], ◌∷◌,
  arith, ltb, ltb→lt, Bool-cases, Bytes,
}
use cutis.Common.Int.{ℤ, pos, negsuc, pos_part, neg_part, neg_ℕ}
use cutis.Decimal.{
  put_digits, print_nat, print_int, is_digit, is_space, read_digits, read_signed, skip_space,
  llong_max, saturate, strtoll,
}

read_digits_step :
    (n d : ℕ) (out : Bytes)
    → d < 10
    → read_digits n ((b'0' + d) ∷ out) ≡ read_digits (n * 10 + d) out
unfolding read_digits is_digit
read_digits_step n d out h =
    let digit : is_digit (b'0' + d) ≡ true = ground arith in
    let value : n * 10 + (b'0' + d - b'0') ≡ n * 10 + d = omega arith in
    rw digit (ap (λ m. read_digits m out) value)

-- How far the digits in front of a text move the number that is read there.
read_digits-put_digits :
    (fuel n : ℕ) (out : Bytes)
    → n < fuel
    → read_digits 0 (put_digits fuel n out) ≡ read_digits n out
unfolding put_digits
read_digits-put_digits zero n out h = absurd (omega arith)
read_digits-put_digits (suc fuel) n out h = elim (Bool-cases (ltb n 10)) [
  | inl last ↦
      let small = ltb→lt n 10 last in
      rw last (read_digits_step 0 n out small ∙ ap (λ m. read_digits m out) (omega arith))
  | inr more ↦ rw more (
      read_digits-put_digits fuel (n / 10) ((b'0' + n % 10) ∷ out) (ground arith)
      ∙ read_digits_step (n / 10) (n % 10) out (omega arith)
      ∙ ap (λ m. read_digits m out) (omega arith))
]

read_digits-nil : (n : ℕ) → read_digits n [] ≡ n
unfolding read_digits
read_digits-nil n = refl

pub put_digits-head :
    (fuel n : ℕ) (out : Bytes)
    → n < fuel
    → (c : ℕ) × (s : Bytes) × (put_digits fuel n out ≡ c ∷ s) × (b'0' ≤ c) × (c ≤ b'9')
unfolding put_digits
put_digits-head zero n out h = absurd (omega arith)
put_digits-head (suc fuel) n out h = elim (Bool-cases (ltb n 10)) [
  | inl last ↦ (b'0' + n, out, rw last refl, omega arith, ground arith)
  | inr more ↦
      let (c, s, e, low, high) =
        put_digits-head fuel (n / 10) ((b'0' + n % 10) ∷ out) (ground arith) in
      (c, s, rw more e, low, high)
]

-- The decimal text of a number, read as a signed number.
read_signed-print_nat : (n : ℕ) → read_signed (skip_space (print_nat n)) ≡ pos n
unfolding read_signed skip_space print_nat is_space
read_signed-print_nat n =
    let (c, s, e, low, high) = put_digits-head (n + 1) n [] (omega arith) in
    let back = read_digits-put_digits (n + 1) n [] (omega arith) in
    let value : read_digits 0 (c ∷ s) ≡ n = sym (ap (read_digits 0) e) ∙ back ∙ read_digits-nil n in
    rw e (ground (arith, value))

read_signed-minus : (n : ℕ) → read_signed (skip_space (b'-' ∷ print_nat n)) ≡ neg_ℕ n
unfolding read_signed skip_space print_nat is_space
read_signed-minus n =
    let back = read_digits-put_digits (n + 1) n [] (omega arith) ∙ read_digits-nil n in
    ap neg_ℕ back

-- For every number in the range of a long long, strtoll of what the format %lld prints gives the
-- number back.
pub strtoll-print_int :
    (z : ℤ) → pos_part z ≤ llong_max → neg_part z ≤ llong_max + 1 → strtoll (print_int z) ≡ z
unfolding strtoll saturate print_int
strtoll-print_int (pos n) low high = rw (read_signed-print_nat n) (ground arith)
strtoll-print_int (negsuc n) low high = rw (read_signed-minus (suc n)) (ground arith)
