-- ===== src/Net/Transfers.antt =====
-- The loops of anetWrite and anetRead in src/net/anet.c.
use cutis.Common.{
  ℕ, zero, suc, ◌+◌, ◌-◌, ◌≤◌, ◌<◌, ◌≡◌, ◌⊎◌, inl, inr, refl, ap, subst, ◌∙◌, Bool, true, false, [],
  ◌∷◌, ◌++◌, arith, Option, none, some, ◌==◌, length, length-append, length-drop, take, drop,
  take-append-drop, append_assoc, Bytes, ok, ◌>>=◌, Returns,
}
use cutis.Session.{Write, wrote}
use cutis.Session.Sending.{AcceptsAtMost, Write-cases}
use cutis.Net.{anet_write, anet_read, Input, input, input_failed}

-- What anetWrite did: it wrote a front part of the buffer, all of it if it says so and no call
-- wrote nothing.
abbrev pub WritesFront : (ℕ → ℕ → Write) → Bytes → Bytes × Bool → Type 0
WritesFront write buf r =
    ((rest : Bytes) × (r.0 ++ rest ≡ buf)
      × ((rest ≡ []) ⊎ ((k n : ℕ) × (0 < n) × ((write k n ≡ wrote 0) ⊎ (r.1 ≡ false)))))

pub anet_write-WritesFront :
    (write : ℕ → ℕ → Write)
    → ((k n : ℕ) → AcceptsAtMost n (write k n))
    → (fuel k : ℕ) (buf : Bytes) → length buf < fuel
    → Returns (anet_write write fuel k buf) (WritesFront write buf)
unfolding anet_write
anet_write-WritesFront write accepts zero k buf h = absurd (omega (arith, h))
anet_write-WritesFront write accepts (suc fuel) k [] h = (([], true), refl, ([], refl, inl refl))
anet_write-WritesFront write accepts (suc fuel) k (c ∷ buf) h =
    let n = length (c ∷ buf) in
    let filled : (length (c ∷ buf) == 0) ≡ false = ground arith in
    elim (Write-cases (write k n)) [
      | inl e ↦ (([], true), rw (filled, e) refl, (c ∷ buf, refl, inr (k, n, omega arith, inl e)))
      | inr (inl e) ↦
          (([], false), rw (filled, e) refl, (c ∷ buf, refl, inr (k, n, omega arith, inr refl)))
      | inr (inr (inl e)) ↦
          (([], false), rw (filled, e) refl, (c ∷ buf, refl, inr (k, n, omega arith, inr refl)))
      | inr (inr (inr (m, e))) ↦
          let (r, run, (rest, whole, ended)) =
            anet_write-WritesFront write accepts fuel (k + 1) (drop (suc m) (c ∷ buf))
              (omega (arith, h, length-drop (suc m) (c ∷ buf))) in
          (
            (take (suc m) (c ∷ buf) ++ r.0, r.1),
            rw (filled, e)
                (ap (λ run. run >>= (λ rest. ok (take (suc m) (c ∷ buf) ++ rest.0, rest.1))) run),
            (
              rest,
              append_assoc (take (suc m) (c ∷ buf)) r.0 rest
                  ∙ ap (λ b. take (suc m) (c ∷ buf) ++ b) whole
                  ∙ take-append-drop (suc m) (c ∷ buf),
              ended,
            ),
          )
    ]

-- `read` gives no more than it is asked for.
abbrev pub GivesAtMost : ℕ → Input → Type 0
GivesAtMost n (input b) = length b ≤ n
GivesAtMost n input_failed = Unit

-- What anetRead did for `left` bytes: all of them, or fewer since a call met the end of the file.
abbrev pub ReadsUpTo : (ℕ → ℕ → Input) → ℕ → Option Bytes → Type 0
ReadsUpTo read left (some b) =
    (length b ≡ left) ⊎ ((length b < left) × ((k n : ℕ) × (0 < n) × (read k n ≡ input [])))
ReadsUpTo read left none = (k n : ℕ) × (0 < n) × (read k n ≡ input_failed)

Input-cases :
    (i : Input)
    → (i ≡ input []) ⊎ (i ≡ input_failed) ⊎ ((c : ℕ) × (b : Bytes) × (i ≡ input (c ∷ b)))
Input-cases (input []) = inl refl
Input-cases input_failed = inr (inl refl)
Input-cases (input (c ∷ b)) = inr (inr (c, b, refl))

abbrev after_piece : Bytes → Option Bytes → Option Bytes
after_piece b none = none
after_piece b (some r) = some (b ++ r)

longer-ReadsUpTo :
    (read : ℕ → ℕ → Input) (left : ℕ) (b : Bytes) (rest : Option Bytes)
    → length b ≤ left
    → ReadsUpTo read (left - length b) rest
    → ReadsUpTo read left (after_piece b rest)
longer-ReadsUpTo read left b none h failure = failure
longer-ReadsUpTo read left b (some r) h (inl whole) =
    inl (omega (arith, length-append b r, whole, h))
longer-ReadsUpTo read left b (some r) h (inr (short, ended)) =
    inr (omega (arith, length-append b r, short, h), ended)

pub anet_read-ReadsUpTo :
    (read : ℕ → ℕ → Input)
    → ((k n : ℕ) → GivesAtMost n (read k n))
    → (fuel k left : ℕ) → left < fuel
    → Returns (anet_read read fuel k left) (ReadsUpTo read left)
unfolding anet_read
anet_read-ReadsUpTo read gives zero k left h = absurd (omega (arith, h))
anet_read-ReadsUpTo read gives (suc fuel) k zero h = (some [], refl, inl refl)
anet_read-ReadsUpTo read gives (suc fuel) k (suc left) h =
    let more : (suc left == 0) ≡ false = ground arith in
    elim (Input-cases (read k (suc left))) [
      | inl e ↦ (some [], rw (more, e) refl, inr (omega arith, (k, suc left, omega arith, e)))
      | inr (inl e) ↦ (none, rw (more, e) refl, (k, suc left, omega arith, e))
      | inr (inr (c, b, e)) ↦
          let fits : length (c ∷ b) ≤ suc left =
            subst (GivesAtMost (suc left)) e (gives k (suc left)) in
          let (rest, run, done) =
            anet_read-ReadsUpTo read gives fuel (k + 1) (suc left - length (c ∷ b))
              (omega (arith, h)) in
          (
            after_piece (c ∷ b) rest,
            rw (more, e) (ap (λ m. m >>= (λ rest. ok (after_piece (c ∷ b) rest))) run),
            longer-ReadsUpTo read (suc left) (c ∷ b) rest fits done,
          )
    ]
