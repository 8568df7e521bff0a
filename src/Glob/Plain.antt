-- ===== src/Glob/Plain.antt =====
-- StringMatch of src/utils/string_util.c on patterns of stars, question marks and bytes.
use cutis.Common.{
  ℕ, zero, suc, ◌≤◌, ◌≡◌, ◌⊎◌, refl, sym, subst, inl, inr, Bool, true, false, ◌||◌, [], ◌∷◌, arith,
  Bool-cases, if◌then◌else◌, length, ◌==◌, Bytes, Run, ok, fault, ◌>>=◌, Returns, ◌↔◌,
}
use cutis.Store.{is_empty}
use cutis.Glob.{
  skip_stars, fold_case, same_byte, advance, try_suffixes, literal, match_from, string_match,
}

-- A string that ends in one with `G`.
abbrev Suffix : (Bytes → Type 0) → Bytes → Type 0
Suffix G [] = G []
Suffix G (c ∷ s) = G (c ∷ s) ⊎ Suffix G s

-- A byte that `x` stands for, and `G` after it.
abbrev Front : ℕ → (Bytes → Type 0) → Bytes → Type 0
Front x G [] = ⊥
Front x G (c ∷ s) = ((x == b'?' || x == c) ≡ true) × G s

-- What a pattern means: a star is any bytes, a question mark any byte, a byte itself.
abbrev pub Matches : Bytes → Bytes → Type 0
Matches [] s = s ≡ []
Matches (x ∷ p) s = if x == b'*' then Suffix (Matches p) s else Front x (Matches p) s

-- No bracket, backslash or zero.
abbrev pub IsPlain : Bytes → Type 0
IsPlain [] = Unit
IsPlain (x ∷ p) = ((x == b'[') ≡ false) × ((x == 0x5C) ≡ false) × ((x == 0) ≡ false) × IsPlain p

-- A run that ends without a fault and tells whether `G` holds.
abbrev pub Answers : Type 0 → Run Bool → Type 0
Answers G (ok true) = G
Answers G (ok false) = ¬ G
Answers G (fault e) = ⊥

Answers-iff : (G H : Type 0) (r : Run Bool) → (G → H) → (H → G) → Answers G r → Answers H r
Answers-iff G H (ok true) f g h = f h
Answers-iff G H (ok false) f g h = λ x. h (g x)
Answers-iff G H (fault e) f g h = h

Star : (p s : Bytes) → Type 0
Star p s = Suffix (Matches p) s

skip_stars_short : (p : Bytes) → length (skip_stars p) ≤ length p
unfolding skip_stars
skip_stars_short [] = omega arith
skip_stars_short (x ∷ p) = elim (Bool-cases (x == b'*')) [
  | inl star ↦ rw star (omega (arith, skip_stars_short p))
  | inr apart ↦ rw apart (omega arith)
]

skip_stars-IsPlain : (p : Bytes) → IsPlain p → IsPlain (skip_stars p)
unfolding skip_stars
skip_stars-IsPlain [] h = tt
skip_stars-IsPlain (x ∷ p) h = elim (Bool-cases (x == b'*')) [
  | inl star ↦ rw star (skip_stars-IsPlain p h.3)
  | inr apart ↦ rw apart h
]

-- The empty string matches stars only.
nothing_left : (p : Bytes) → Answers (Matches p []) (ok (is_empty (skip_stars p)))
unfolding skip_stars
nothing_left [] = refl
nothing_left (x ∷ p) = elim (Bool-cases (x == b'*')) [
  | inl star ↦ rw star (nothing_left p)
  | inr apart ↦ rw apart (λ m. m)
]

Suffix-map :
    (G H : Bytes → Type 0) → ((t : Bytes) → G t → H t) → (s : Bytes) → Suffix G s → Suffix H s
Suffix-map G H f [] h = f [] h
Suffix-map G H f (c ∷ s) (inl h) = inl (f (c ∷ s) h)
Suffix-map G H f (c ∷ s) (inr h) = inr (Suffix-map G H f s h)

Suffix-join : (G : Bytes → Type 0) (s : Bytes) → Suffix (Suffix G) s → Suffix G s
Suffix-join G [] h = h
Suffix-join G (c ∷ s) (inl h) = h
Suffix-join G (c ∷ s) (inr h) = inr (Suffix-join G s h)

Suffix-here : (G : Bytes → Type 0) (s : Bytes) → G s → Suffix G s
Suffix-here G [] h = h
Suffix-here G (c ∷ s) h = inl h

-- Stars in a row mean the same as one.
star-skip_stars : (p s : Bytes) → Suffix (Matches p) s ↔ Suffix (Matches (skip_stars p)) s
unfolding skip_stars
star-skip_stars [] s = (λ h. h, λ h. h)
star-skip_stars (x ∷ p) s = elim (Bool-cases (x == b'*')) [
  | inr apart ↦ rw apart (λ h. h, λ h. h)
  | inl star ↦
      let ih = star-skip_stars p s in
      let into : (t : Bytes) → Matches (x ∷ p) t → Suffix (Matches p) t = λ t. rw star (λ m. m) in
      let back : (t : Bytes) → Suffix (Matches p) t → Matches (x ∷ p) t = λ t. rw star (λ m. m) in
      (
        λ h. rw star (
            ih.0 (
              Suffix-join (Matches p) s
                (Suffix-map (Matches (x ∷ p)) (Suffix (Matches p)) into s h))),
        λ h.
            Suffix-map (Suffix (Matches p)) (Matches (x ∷ p)) back s
              (Suffix-here (Suffix (Matches p)) s (ih.1 (rw star at h))),
      )
]

pub any_bytes : (s : Bytes) → Suffix (Matches []) s
any_bytes [] = refl
any_bytes (c ∷ s) = inr (any_bytes s)

skip_stars-nonempty : (p : Bytes) → is_empty (skip_stars p) ≡ false → ¬ (Matches (skip_stars p) [])
unfolding skip_stars
skip_stars-nonempty [] e = absurd (ground (arith, e))
skip_stars-nonempty (x ∷ p) e = elim (Bool-cases (x == b'*')) [
  | inl star ↦ rw star (skip_stars-nonempty p (rw star at e))
  | inr apart ↦ rw (apart, apart) (λ m. m)
]

found-Answers :
    (G H : Type 0) (r rest : Run Bool)
    → Answers G r
    → Answers H rest
    → Answers (G ⊎ H) (r >>= (λ found. if found then ok true else rest))
found-Answers G H (ok true) rest h k = inl h
found-Answers G H (ok false) rest h k =
    Answers-iff H (G ⊎ H) rest inr (λ e. elim e [ inl g ↦ absurd (h g) | inr t ↦ t ]) k
found-Answers G H (fault e) rest h k = h

try_suffixes-Answers :
    (G : Bytes → Type 0) (next : Bytes → Run Bool)
    → ¬ (G [])
    → ((s : Bytes) → Answers (G s) (next s))
    → (s : Bytes) → Answers (Suffix G s) (try_suffixes next s)
unfolding try_suffixes
try_suffixes-Answers G next none_left answers [] = none_left
try_suffixes-Answers G next none_left answers (c ∷ s) =
    found-Answers (G (c ∷ s)) (Suffix G s) (next (c ∷ s)) (try_suffixes next s) (answers (c ∷ s))
      (try_suffixes-Answers G next none_left answers s)

is_empty-nil : (p : Bytes) → is_empty p ≡ true → p ≡ []
is_empty-nil [] e = refl
is_empty-nil (x ∷ p) e = absurd (ground (arith, e))

module _ (p : Bytes) (next : Bytes → Bytes → Run Bool)
    (answers : (s : Bytes) → Answers (Matches p s) (next p s)) where
  byte-Answers :
      (x c : ℕ) (s : Bytes)
      → (x == b'?' || x == c) ≡ true
      → Answers (Front x (Matches p) (c ∷ s)) (advance next p (c ∷ s))
  unfolding advance
  byte-Answers x c [] test =
      Answers-iff (Matches p []) (Front x (Matches p) (c ∷ [])) (ok (is_empty (skip_stars p)))
        (λ m. (test, m)) (λ f. f.1) (nothing_left p)
  byte-Answers x c (d ∷ s) test =
      Answers-iff (Matches p (d ∷ s)) (Front x (Matches p) (c ∷ d ∷ s)) (next p (d ∷ s))
        (λ m. (test, m)) (λ f. f.1) (answers (d ∷ s))

  any-Answers :
      (x : ℕ) (s : Bytes)
      → (x == b'?') ≡ true
      → Answers (Front x (Matches p) s) (if is_empty s then ok false else advance next p s)
  any-Answers x [] one = λ m. m
  any-Answers x (c ∷ s) one = byte-Answers x c s (rw one refl)

  literal-Answers :
      (x : ℕ) (s : Bytes)
      → (x == 0) ≡ false
      → (x == b'?') ≡ false
      → Answers (Front x (Matches p) s) (literal false next x p s)
  unfolding literal same_byte fold_case
  literal-Answers x [] some_byte one = rw some_byte (λ m. m)
  literal-Answers x (c ∷ s) some_byte one =
      let test : Bool → Type 0 = λ b.
        Answers (Front x (Matches p) (c ∷ s)) (if b then advance next p (c ∷ s) else ok false) in
      elim (Bool-cases (x == c)) [
        | inl same ↦ subst test (sym same) (byte-Answers x c s (rw (one, same) refl))
        | inr apart ↦ subst test (sym apart) (λ f. ground (arith, f.0, one, apart))
      ]

match_from-Answers :
    (fuel : ℕ) (p s : Bytes)
    → length p ≤ fuel
    → IsPlain p
    → Answers (Matches p s) (match_from fuel false p s)
unfolding match_from
match_from-Answers fuel [] [] enough plain = refl
match_from-Answers fuel [] (c ∷ s) enough plain = λ e. ground (arith, e)
match_from-Answers zero (x ∷ p) s enough plain = absurd (omega arith)
match_from-Answers (suc fuel) (x ∷ p) s enough (no_class, no_escape, some_byte, plain) =
    let next : Bytes → Bytes → Run Bool = match_from fuel false in
    let ih : (t : Bytes) → Answers (Matches p t) (next p t) =
      λ t. match_from-Answers fuel p t (omega arith) plain in
    let q = skip_stars p in
    let skipped : (t : Bytes) → Answers (Matches q t) (next q t) = λ t.
      match_from-Answers fuel q t (omega (arith, skip_stars_short p))
        (skip_stars-IsPlain p plain) in
    elim (Bool-cases (x == b'*')) [
      | inl star ↦ elim (Bool-cases (is_empty q)) [
        | inl last ↦
            rw (star, last)
              ((star-skip_stars p s).1
                (subst (λ r. Suffix (Matches r) s) (sym (is_empty-nil q last)) (any_bytes s)))
        | inr more ↦
            rw (star, more)
              (Answers-iff (Suffix (Matches q) s) (Suffix (Matches p) s) (try_suffixes (next q) s)
                (star-skip_stars p s).1 (star-skip_stars p s).0
                (try_suffixes-Answers (Matches q) (next q) (skip_stars-nonempty p more) skipped s))
      ]
      | inr byte ↦ elim (Bool-cases (x == b'?')) [
        | inl one ↦ rw (byte, one) (any-Answers p next ih x s one)
        | inr exact ↦
            rw (byte, exact, no_class, no_escape) (literal-Answers p next ih x s some_byte exact)
      ]
    ]

Answers-Returns :
    (G : Type 0) (r : Run Bool) → Answers G r → Returns r (λ found. (found ≡ true) ↔ G)
Answers-Returns G (ok true) h = (true, refl, (λ e. h, λ g. refl))
Answers-Returns G (ok false) h = (false, refl, (λ e. ground (arith, e), λ g. absurd (h g)))
Answers-Returns G (fault e) h = absurd h

-- StringMatch of a pattern with no bracket, backslash or zero, with case, ends without a fault
-- for every string, and returns 1 exactly if the pattern means the string, where a star means
-- any bytes, a question mark any one byte and another byte itself.
pub string_match-Matches :
    (pattern string : Bytes)
    → IsPlain pattern
    → Returns (string_match pattern string false) (λ found. (found ≡ true) ↔ Matches pattern string)
unfolding string_match
string_match-Matches pattern string plain =
    Answers-Returns (Matches pattern string) (string_match pattern string false)
      (match_from-Answers (length pattern) pattern string (omega arith) plain)
