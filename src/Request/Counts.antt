-- ===== src/Request/Counts.antt =====
-- The length of the data in a request line, and the name of the command.
use cutis.Common.{
  ℕ, zero, suc, ◌+◌, ◌/◌, ◌%◌, ◌≤◌, ◌≡◌, refl, ap, ◌∙◌, inl, inr, Bool-cases, List, [], ◌∷◌, ◌++◌,
  arith, ltb, length, Bytes, ok,
}
use cutis.Common.Int.{pos, to_int32, to_int32-id}
use cutis.Dict.{at}
use cutis.Decimal.{atoi, print_nat, put_digits, print_int}
use cutis.Decimal.RoundTrip.{strtoll-print_int, put_digits-head}
use cutis.Sds.{sdstolower, to_lower}
use cutis.Request.Lines.{ArePlain, AreWords}
use cutis.Request.{max_string_length}

put_digits-ArePlain : (fuel n : ℕ) (out : Bytes) → ArePlain out → ArePlain (put_digits fuel n out)
unfolding put_digits
put_digits-ArePlain zero n out h = h
put_digits-ArePlain (suc fuel) n out h = elim (Bool-cases (ltb n 10)) [
  | inl last ↦ rw last (ground (arith, last), h)
  | inr more ↦ rw more (put_digits-ArePlain fuel (n / 10) ((b'0' + n % 10) ∷ out) (ground arith, h))
]

pub print_nat-AreWords : (n : ℕ) → AreWords (print_nat n ∷ [])
unfolding print_nat
print_nat-AreWords n =
    let (c, s, e, low, high) = put_digits-head (n + 1) n [] (omega arith) in
    (rw e (omega arith), put_digits-ArePlain (n + 1) n [] tt, tt)

pub append-AreWords : (vs ws : List Bytes) → AreWords vs → AreWords ws → AreWords (vs ++ ws)
append-AreWords [] ws h k = k
append-AreWords (v ∷ vs) ws (some_bytes, plain, h) k =
    (some_bytes, plain, append-AreWords vs ws h k)

pub atoi-print_nat : (n : ℕ) → n ≤ max_string_length → atoi (print_nat n) ≡ pos n
unfolding atoi print_int to_int32
atoi-print_nat n h =
    ap to_int32 (strtoll-print_int (pos n) (omega arith) (omega arith))
    ∙ to_int32-id n (omega (arith, h))

to_lower_twice : (c : ℕ) → to_lower (to_lower c) ≡ to_lower c
unfolding to_lower
to_lower_twice c = ground arith

pub sdstolower_twice : (w : Bytes) → sdstolower (sdstolower w) ≡ sdstolower w
unfolding sdstolower
sdstolower_twice [] = refl
sdstolower_twice (c ∷ w) = rw (to_lower_twice c, sdstolower_twice w) refl

pub last-argument : (xs : List Bytes) (v : Bytes) → at (xs ++ v ∷ []) (length xs) ≡ ok v
unfolding at
last-argument [] v = refl
last-argument (x ∷ xs) v = last-argument xs v
