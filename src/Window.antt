-- ===== src/Window.antt =====
-- The elements of a sequence between two positions, where a negative index counts from the end:
-- what the README says of LRANGE and LTRIM and the comment of sdsrange of its indices.
use cutis.Common.{
  ℕ, zero, suc, ◌+◌, ◌-◌, ◌≤◌, ◌<◌, ◌≡◌, refl, sym, ap, ◌∙◌, inl, inr, Bool, true, false, ◌&&◌,
  ◌||◌, List, [], ◌∷◌, arith, Bool-cases, leb, leb→le, ◌==◌, if◌then◌else◌, length, take, drop,
}
use cutis.Common.Int.{ℤ, pos, negsuc}

-- Whether position `p` of `n` stands at or after an index.
abbrev pub at_or_after : ℕ → ℤ → ℕ → Bool
at_or_after n (pos i) p = leb i p
at_or_after n (negsuc i) p = leb n (p + suc i)

-- Whether it stands at or before an index; one before the start counts as the start.
abbrev pub at_or_before : ℕ → ℤ → ℕ → Bool
at_or_before n (pos i) p = leb p i
at_or_before n (negsuc i) p = leb (p + suc i) n || p == 0

abbrev pub is_between : ℕ → ℤ → ℤ → ℕ → Bool
is_between n start end p = at_or_after n start p && at_or_before n end p

abbrev pub window : ℕ → ℕ → ℕ → Bool
window a b p = leb a p && leb p b

module _ {ℓ} {A : Type ℓ} where
  -- The elements whose position, counted from `p`, passes a test.
  abbrev pub keep : (ℕ → Bool) → ℕ → List A → List A
  keep test p [] = []
  keep test p (x ∷ l) = let rest = keep test (suc p) l in if test p then x ∷ rest else rest

  pub keep_same :
      (f g : ℕ → Bool) (p : ℕ) (l : List A)
      → ((i : ℕ) → p ≤ i → i < p + length l → f i ≡ g i)
      → keep f p l ≡ keep g p l
  keep_same f g p [] h = refl
  keep_same f g p (x ∷ l) h =
      rw
        (
          h p (omega arith) (omega arith),
          keep_same f g (suc p) l (λ i m n. h i (omega (arith, m)) (omega (arith, n))),
        )
        refl

  pub keep_none : (p : ℕ) (l : List A) → keep (λ i. false) p l ≡ []
  keep_none p [] = refl
  keep_none p (x ∷ l) = keep_none (suc p) l

  take_empty : (n : ℕ) → take {A = A} n [] ≡ []
  take_empty zero = refl
  take_empty (suc n) = refl

  drop_empty : (n : ℕ) → drop {A = A} n [] ≡ []
  drop_empty zero = refl
  drop_empty (suc n) = refl

  keep_within :
      (a b p : ℕ) (l : List A) → a ≤ p → p ≤ suc b → keep (window a b) p l ≡ take (suc b - p) l
  keep_within a b p [] low high = sym (take_empty (suc b - p))
  keep_within a b p (x ∷ l) low high = elim (Bool-cases (leb p b)) [
    | inl on ↦
        let left : suc b - p ≡ suc (suc b - suc p) = omega (arith, leb→le p b on) in
        let here : window a b p ≡ true = ground (arith, low, on) in
        rw (here, left)
          (ap (λ t. x ∷ t)
            (keep_within a b (suc p) l (omega (arith, low)) (omega (arith, leb→le p b on))))
    | inr past ↦
        let over : suc b - p ≡ 0 = ground (arith, past) in
        let here : window a b p ≡ false = ground (arith, past) in
        rw (here, over)
          (keep_same (window a b) (λ i. false) (suc p) l (λ i m n. ground (arith, m, past))
            ∙ keep_none (suc p) l)
  ]

  keep_before :
      (a b p : ℕ) (l : List A)
      → p ≤ a
      → a ≤ suc b
      → keep (window a b) p l ≡ take (suc b - a) (drop (a - p) l)
  keep_before a b p [] low high =
      sym (ap (λ t. take (suc b - a) t) (drop_empty (a - p)) ∙ take_empty (suc b - a))
  keep_before a b p (x ∷ l) low high = elim (Bool-cases (a == p)) [
    | inl here ↦
        let same : a ≡ p = ground (arith, here) in
        let start : a - p ≡ 0 = omega (arith, same) in
        rw start (
          keep_within a b p (x ∷ l) (omega (arith, same)) (omega (arith, same, high))
          ∙ ap (λ m. take m (x ∷ l)) (omega (arith, same)))
    | inr later ↦
        let on : a - p ≡ suc (a - suc p) = ground (arith, low, later) in
        let out : window a b p ≡ false = ground (arith, low, later) in
        rw (on, out) (keep_before a b (suc p) l (ground (arith, low, later)) high)
  ]

  -- The elements from one position to another, as a loop that skips and then copies has them.
  pub keep-window :
      (a b : ℕ) (l : List A) → a ≤ b → keep (window a b) 0 l ≡ take (b - a + 1) (drop a l)
  keep-window a b l h =
      keep_before a b 0 l (omega arith) (omega (arith, h))
      ∙ ap (λ m. take m (drop (a - 0) l)) (omega (arith, h))
      ∙ ap (λ m. take (b - a + 1) (drop m l)) (omega arith)
