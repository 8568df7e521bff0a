-- ===== src/Links/Chains.antt =====
-- Chains of linked nodes: what one write does to them.
use cutis.Common.{
  ℕ, ◌≡◌, refl, subst, inl, inr, Bool, true, false, ◌||◌, Bool-cases, Option, some, List, [], ◌∷◌,
  ◌++◌, arith, ==_iff, ◌==◌,
}
use cutis.Links.{Node, Memory, put}

pub ==_false_sym : (a b : ℕ) → (a == b) ≡ false → (b == a) ≡ false
==_false_sym a b h = ground (arith, h)

module _ {A : Type 0} where
  abbrev pub has : ℕ → List (ℕ × A) → Bool
  has a [] = false
  has a (e ∷ es) = e.0 == a || has a es

  -- No address occurs twice.
  abbrev pub AreApart : List (ℕ × A) → Type 0
  AreApart [] = Unit
  AreApart (e ∷ es) = (has e.0 es ≡ false) × AreApart es

  abbrev pub first_or : List (ℕ × A) → Option ℕ → Option ℕ
  first_or [] after = after
  first_or (e ∷ es) after = some e.0

  abbrev pub last_or : Option ℕ → List (ℕ × A) → Option ℕ
  last_or before [] = before
  last_or before (e ∷ es) = last_or (some e.0) es

  -- The nodes `es`, linked both ways, between `before` and `after`.
  abbrev pub Linked : Memory A → Option ℕ → List (ℕ × A) → Option ℕ → Type 0
  Linked nodes before [] after = Unit
  Linked nodes before (e ∷ es) after =
      (nodes e.0 ≡ some (record { prev = before; next = first_or es after; value = e.1 }))
      × Linked nodes (some e.0) es after

  -- A write elsewhere leaves a chain as it is.
  pub Linked-put :
      (nodes : Memory A) (a : ℕ) (n : Option (Node A)) (before : Option ℕ) (es : List (ℕ × A))
      (after : Option ℕ)
      → has a es ≡ false
      → Linked nodes before es after
      → Linked (put nodes a n) before es after
  Linked-put nodes a n before [] after apart h = tt
  Linked-put nodes a n before (e ∷ es) after apart (here, rest) =
      let other : (e.0 == a) ≡ false = ground (arith, apart) in
      (rw other here, Linked-put nodes a n (some e.0) es after (ground (arith, apart)) rest)

  pub Linked-append :
      (nodes : Memory A) (before : Option ℕ) (xs ys : List (ℕ × A)) (after : Option ℕ)
      → Linked nodes before xs (first_or ys after)
      → Linked nodes (last_or before xs) ys after
      → Linked nodes before (xs ++ ys) after
  Linked-append nodes before [] ys after h k = k
  Linked-append nodes before (x ∷ []) ys after (here, rest) k = (here, k)
  Linked-append nodes before (x ∷ y ∷ xs) ys after (here, rest) k =
      (here, Linked-append nodes (some x.0) (y ∷ xs) ys after rest k)

  pub Linked-split :
      (nodes : Memory A) (before : Option ℕ) (xs ys : List (ℕ × A)) (after : Option ℕ)
      → Linked nodes before (xs ++ ys) after
      → Linked nodes before xs (first_or ys after) × Linked nodes (last_or before xs) ys after
  Linked-split nodes before [] ys after h = (tt, h)
  Linked-split nodes before (x ∷ []) ys after (here, rest) = ((here, tt), rest)
  Linked-split nodes before (x ∷ y ∷ xs) ys after (here, rest) =
      let (h, k) = Linked-split nodes (some x.0) (y ∷ xs) ys after rest in ((here, h), k)

  -- Another `prev` for the first node of a chain.
  pub relink_first :
      (nodes : Memory A) (p q : Option ℕ) (e : ℕ × A) (es : List (ℕ × A)) (after : Option ℕ)
      → AreApart (e ∷ es)
      → Linked nodes p (e ∷ es) after
      → Linked
          (put nodes e.0 (some (record { prev = q; next = first_or es after; value = e.1 })))
          q
          (e ∷ es)
          after
  relink_first nodes p q e es after (apart, _) (here, rest) =
      (rw ((==_iff e.0 e.0).1 refl) refl, Linked-put nodes e.0 _ (some e.0) es after apart rest)

  pub has-append : (a : ℕ) (xs ys : List (ℕ × A)) → has a (xs ++ ys) ≡ (has a xs || has a ys)
  has-append a [] ys = refl
  has-append a (x ∷ xs) ys = elim (Bool-cases (x.0 == a)) [
    | inl here ↦ rw here refl
    | inr apart ↦ rw apart (has-append a xs ys)
  ]

  abbrev pub last_address : ℕ × A → List (ℕ × A) → ℕ
  last_address x [] = x.0
  last_address x (y ∷ xs) = last_address y xs

  pub last_or-last_address :
      (p : Option ℕ) (x : ℕ × A) (xs : List (ℕ × A)) → last_or p (x ∷ xs) ≡ some (last_address x xs)
  last_or-last_address p x [] = refl
  last_or-last_address p x (y ∷ xs) = last_or-last_address (some x.0) y xs

  pub has-last_address : (x : ℕ × A) (xs : List (ℕ × A)) → has (last_address x xs) (x ∷ xs) ≡ true
  has-last_address x [] = let same : (x.0 == x.0) ≡ true = (==_iff x.0 x.0).1 refl in rw same refl
  has-last_address x (y ∷ xs) = elim (Bool-cases (x.0 == last_address y xs)) [
    | inl here ↦ rw here refl
    | inr apart ↦ rw apart (has-last_address y xs)
  ]

  -- An address in a chain is not one outside it.
  pub other_address :
      (a b : ℕ) (es : List (ℕ × A)) → has a es ≡ false → has b es ≡ true → (b == a) ≡ false
  other_address a b es outside inside = elim (Bool-cases (b == a)) [
    | inr apart ↦ apart
    | inl same ↦
        let there = subst (λ c. has c es ≡ true) ((==_iff b a).0 same) inside in
        absurd (ground (arith, outside, there))
  ]

  -- Another `next` for the last node of a chain.
  pub relink_last :
      (nodes : Memory A) (p end end' : Option ℕ) (x : ℕ × A) (xs : List (ℕ × A))
      → AreApart (x ∷ xs)
      → Linked nodes p (x ∷ xs) end
      → (n : Node A) × (nodes (last_address x xs) ≡ some n)
        × Linked (put nodes (last_address x xs) (some (record n { next = end' }))) p (x ∷ xs) end'
  relink_last nodes p end end' x [] apart (here, rest) =
      let same : (x.0 == x.0) ≡ true = (==_iff x.0 x.0).1 refl in
      (record { prev = p; next = end; value = x.1 }, here, (rw same refl, tt))
  relink_last nodes p end end' x (y ∷ xs) (apart, aparts) (here, rest) =
      let (n, there, linked) = relink_last nodes (some x.0) end end' y xs aparts rest in
      let other : (last_address y xs == x.0) ≡ false =
        other_address x.0 (last_address y xs) (y ∷ xs) apart (has-last_address y xs) in
      let other' : (x.0 == last_address y xs) ≡ false =
        ==_false_sym (last_address y xs) x.0 other in
      (n, there, (rw other' here, linked))
