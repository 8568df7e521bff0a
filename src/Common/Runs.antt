-- ===== src/Common/Runs.antt =====
-- Code that may leave the defined behaviour of C: a fault ends the run.
use mathlib.Core.Path.{◌≡◌, refl}
use cutis.Common.Tests.{if◌then◌else◌}
use mathlib.Core.Bool.{Bool, true, false}

pub data Fault : Type 0 where
  out_of_bounds assertion overflow null_pointer uninitialised out_of_fuel use_after_free exits :
      Fault

pub data Run {ℓ} (A : Type ℓ) : Type ℓ where
  ok : A → Run A
  fault : Fault → Run A

infixl 5 ◌>>=◌ ◌>>◌
abbrev pub ◌>>=◌ {ℓ κ} : {S : Type ℓ} {T : Type κ} → Run S → (S → Run T) → Run T
fault cause >>= next = fault cause
ok value >>= next = next value

abbrev pub ◌>>◌ {ℓ} : {B : Type ℓ} → Run (Unit {0}) → Run B → Run B
m >> k = m >>= λ _. k

-- The run ends without a fault, in a value that satisfies `P`.
abbrev pub Returns {ℓ κ} : {S : Type κ} (m : Run S) (P : S → Type ℓ) → Type (κ ⊔ ℓ)
Returns {S} m P = (result : S) × (m ≡ ok result) × P result

-- A value that the run returns satisfies `P`, and a fault of it satisfies `F`.
abbrev pub Yields {κ} : {S : Type κ} (F : Fault → Type 0) (P : S → Type 0) → Run S → Type 0
Yields F P (ok value) = P value
Yields F P (fault cause) = F cause

pub bind-Yields {ℓ κ} :
    {S : Type ℓ} {T : Type κ} (F : Fault → Type 0) (P : S → Type 0) (Q : T → Type 0) (m : Run S)
    (k : S → Run T)
    → Yields F P m
    → ((s : S) → P s → Yields F Q (k s))
    → Yields F Q (m >>= k)
bind-Yields F P Q (ok value) k h next = next value h
bind-Yields F P Q (fault cause) k h next = h

pub if-Yields {ℓ} :
    {S : Type ℓ} (F : Fault → Type 0) (Q : S → Type 0) (b : Bool) (m n : Run S)
    → ((b ≡ true) → Yields F Q m)
    → ((b ≡ false) → Yields F Q n)
    → Yields F Q (if b then m else n)
if-Yields F Q true m n then_h else_h = then_h refl
if-Yields F Q false m n then_h else_h = else_h refl
