-- ===== src/Glob.antt =====
-- StringMatch of src/utils/string_util.c. A pattern and a string are the bytes that are left of
-- them, and the zero that ends a string is read where they end.
pub mod Plain
use cutis.Common.{
  ℕ, zero, suc, ◌+◌, ◌%◌, Bool, true, false, not, ◌&&◌, ◌||◌, List, [], ◌∷◌, leb, ltb, ◌==◌,
  if◌then◌else◌, length, Bytes, Run, ok, fault, out_of_bounds, out_of_fuel, ◌>>=◌,
}
use cutis.Sds.{to_lower}
use cutis.Store.{is_empty}

unfoldable pub skip_stars : Bytes → Bytes
skip_stars [] = []
skip_stars (x ∷ p) = let rest = skip_stars p in if x == b'*' then rest else x ∷ p

-- `string[0]`
abbrev pub first_byte : Bytes → ℕ
first_byte [] = 0
first_byte (c ∷ _) = c

unfoldable pub fold_case : Bool → ℕ → ℕ
fold_case no_case c = if no_case then to_lower c else c

unfoldable pub same_byte : Bool → ℕ → ℕ → Bool
unfolding fold_case
same_byte no_case a b = fold_case no_case a == fold_case no_case b

-- A char is signed, so the bytes from 128 on come before the others.
unfoldable pub char_rank : ℕ → ℕ
char_rank c = (c + 128) % 256

unfoldable pub between : Bool → ℕ → ℕ → ℕ → Bool
unfolding fold_case char_rank
between no_case start end c =
    let rank = λ (x : ℕ). char_rank (fold_case no_case x) in
    let swap = ltb (char_rank end) (char_rank start) in
    let low = if swap then end else start in
    let high = if swap then start else end in leb (rank low) (rank c) && leb (rank c) (rank high)

-- The loop over a class: whether `c` is in it, and what follows the class. A backslash at the end
-- of the pattern takes the loop past it.
unfoldable pub class_loop : Bool → ℕ → Bool → Bytes → Run (Bool × Bytes)
unfolding same_byte between
class_loop no_case c found [] = ok (found, [])
class_loop no_case c found (x ∷ []) =
    if x == 0x5C
    then fault out_of_bounds
    else if x == b']'
    then ok (found, [])
    else ok (found || same_byte no_case x c, [])
class_loop no_case c found (x ∷ y ∷ []) =
    let escaped = class_loop no_case c (found || y == c) [] in
    let single = class_loop no_case c (found || same_byte no_case x c) (y ∷ []) in
    if x == 0x5C then escaped else if x == b']' then ok (found, y ∷ []) else single
class_loop no_case c found (x ∷ y ∷ z ∷ p) =
    let escaped = class_loop no_case c (found || y == c) (z ∷ p) in
    let range = class_loop no_case c (found || between no_case x z c) p in
    let single = class_loop no_case c (found || same_byte no_case x c) (y ∷ z ∷ p) in
    if x == 0x5C
    then escaped
    else if x == b']'
    then ok (found, y ∷ z ∷ p)
    else if y == b'-'
    then range
    else single

-- A class from behind its bracket on.
unfoldable pub class : Bool → ℕ → Bytes → Run (Bool × Bytes)
unfolding class_loop
class no_case c [] = class_loop no_case c false []
class no_case c (x ∷ p) =
    if x == b'^'
    then class_loop no_case c false p >>= (λ r. ok (not r.0, r.1))
    else class_loop no_case c false (x ∷ p)

-- `string++; str_len--`, and the end of a round. At the end of the string `str_len` is -1 then,
-- and a further round reads past the zero.
unfoldable pub advance : (Bytes → Bytes → Run Bool) → Bytes → Bytes → Run Bool
unfolding skip_stars
advance next p [] = if is_empty p then ok false else fault out_of_bounds
advance next p (c ∷ []) = ok (is_empty (skip_stars p))
advance next p (c ∷ d ∷ s) = next p (d ∷ s)

-- The loop of the case of a star.
unfoldable pub try_suffixes : (Bytes → Run Bool) → Bytes → Run Bool
try_suffixes next [] = ok false
try_suffixes next (c ∷ s) =
    let rest = try_suffixes next s in next (c ∷ s) >>= (λ found. if found then ok true else rest)

unfoldable pub literal : Bool → (Bytes → Bytes → Run Bool) → ℕ → Bytes → Bytes → Run Bool
unfolding same_byte advance
literal no_case next x p s =
    if same_byte no_case x (first_byte s) then advance next p s else ok false

-- A backslash that is not the last byte is left out.
unfoldable pub escape : Bool → (Bytes → Bytes → Run Bool) → Bytes → Bytes → Run Bool
unfolding literal
escape no_case next [] s = literal no_case next 0x5C [] s
escape no_case next (y ∷ p) s = literal no_case next y p s

-- Each round takes a byte of the pattern.
unfoldable pub match_from : ℕ → Bool → Bytes → Bytes → Run Bool
unfolding skip_stars class advance try_suffixes literal escape
match_from fuel no_case [] s = ok (is_empty s)
match_from zero no_case (x ∷ p) s = fault out_of_fuel
match_from (suc fuel) no_case (x ∷ p) s =
    let next : Bytes → Bytes → Run Bool = match_from fuel no_case in
    let rest = skip_stars p in
    if x == b'*'
    then if is_empty rest then ok true else try_suffixes (next rest) s
    else if x == b'?'
    then if is_empty s then ok false else advance next p s
    else if x == b'['
    then class no_case (first_byte s) p >>= (λ r. if r.0 then advance next r.1 s else ok false)
    else if x == 0x5C
    then escape no_case next p s
    else literal no_case next x p s

unfoldable pub string_match : Bytes → Bytes → Bool → Run Bool
unfolding match_from
string_match pattern string no_case = match_from (length pattern) no_case pattern string
