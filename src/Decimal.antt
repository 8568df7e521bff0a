-- ===== src/Decimal.antt =====
-- Numbers as text: what the commands use of printf's %d, %lld and %lu, of atoi and of strtoll.
pub mod RoundTrip
use cutis.Common.{
  ℕ, zero, suc, ◌+◌, ◌-◌, ◌*◌, ◌/◌, ◌%◌, ◌^◌, Bool, true, false, ◌&&◌, ◌||◌, [], ◌∷◌, ltb, leb,
  ◌==◌, if◌then◌else◌, Bytes,
}
use cutis.Common.Int.{ℤ, pos, negsuc, to_int32, neg_ℕ}

-- The digits of `n` in front of `out`; each round takes the last one.
unfoldable pub put_digits : ℕ → ℕ → Bytes → Bytes
put_digits zero n out = out
put_digits (suc fuel) n out =
    let more = put_digits fuel (n / 10) ((b'0' + n % 10) ∷ out) in
    if ltb n 10 then (b'0' + n) ∷ out else more

unfoldable pub print_nat : ℕ → Bytes
unfolding put_digits
print_nat n = put_digits (n + 1) n []

unfoldable pub print_int : ℤ → Bytes
unfolding print_nat
print_int (pos n) = print_nat n
print_int (negsuc n) = b'-' ∷ print_nat (suc n)

unfoldable pub is_digit : ℕ → Bool
is_digit c = leb b'0' c && leb c b'9'

unfoldable pub is_space : ℕ → Bool
is_space c = c == 0x20 || leb 9 c && leb c 13

-- Digits are read up to the first byte that is none.
unfoldable pub read_digits : ℕ → Bytes → ℕ
unfolding is_digit
read_digits n [] = n
read_digits n (c ∷ s) =
    let more = read_digits (n * 10 + (c - b'0')) s in if is_digit c then more else n

unfoldable pub read_signed : Bytes → ℤ
unfolding read_digits
read_signed [] = pos 0
read_signed (c ∷ s) =
    if c == b'-'
    then neg_ℕ (read_digits 0 s)
    else if c == b'+'
    then pos (read_digits 0 s)
    else pos (read_digits 0 (c ∷ s))

unfoldable pub skip_space : Bytes → Bytes
unfolding is_space
skip_space [] = []
skip_space (c ∷ s) = let rest = skip_space s in if is_space c then rest else c ∷ s

abbrev pub llong_max : ℕ
llong_max = 2 ^ 63 - 1

-- Out of range, the nearest bound.
unfoldable pub saturate : ℤ → ℤ
saturate (pos n) = if ltb llong_max n then pos llong_max else pos n
saturate (negsuc n) = if ltb llong_max n then negsuc llong_max else negsuc n

-- `strtoll(s, &end, 10)`
unfoldable pub strtoll : Bytes → ℤ
unfolding skip_space read_signed saturate
strtoll s = saturate (read_signed (skip_space s))

-- `(int)strtol(s, NULL, 10)`, with a 64-bit long
unfoldable pub atoi : Bytes → ℤ
unfolding strtoll to_int32
atoi s = to_int32 (strtoll s)
