-- ===== src/Dict/Power.antt =====
-- `_DictNextPower` of src/data_struct/dict.c: the sizes that a table can have.
use cutis.Common.{
  ℕ, zero, suc, ◌*◌, ◌%◌, ◌^◌, ◌≤◌, ◌<◌, ◌≡◌, refl, ◌⊎◌, inl, inr, arith, leb, leb→le, le→leb,
  Bool-cases, u32_mod, Returns,
}
use native.Mathlib.Nat.{pow-zero, pow-suc, mul_assoc, mul_comm}
use cutis.Dict.{initial_size, next_power_loop, next_power}

abbrev pub max_size : ℕ
max_size = 0x8000_0000

-- The most slots for which `_DictAlloc` gets the number of their bytes.
abbrev pub max_slots : ℕ
max_slots = 0x800_0000

pub pow_pos : (n : ℕ) → 0 < 2 ^ n
pow_pos zero = omega arith
pow_pos (suc n) = omega (arith, pow_pos n, pow-suc 2 n)

-- A power of two below the next one is at most this one.
pow_le : (e n : ℕ) → 2 ^ e < 2 ^ suc n → 2 ^ e ≤ 2 ^ n
pow_le zero n h = omega (arith, pow_pos n, pow-zero 2)
pow_le (suc e) zero h = absurd (omega (arith, h, pow_pos e, pow-suc 2 e, pow-suc 2 0, pow-zero 2))
pow_le (suc e) (suc n) h =
    omega (
      arith,
      pow_le e n (omega (arith, h, pow-suc 2 e, pow-suc 2 (suc n))),
      pow-suc 2 e,
      pow-suc 2 n,
    )

-- 16 times a power of two that is less than 2 ^ 28 is at most 2 ^ 27.
pub slots_le : (e p : ℕ) → p ≡ initial_size * 2 ^ e → p < 2 * max_slots → p ≤ max_slots
slots_le e p h small =
    let below : 2 ^ e < 2 ^ 24 = omega (arith, h, small) in omega (arith, h, pow_le e 23 below)

-- The same one power lower.
pub doubled_le : (e p : ℕ) → p ≡ initial_size * 2 ^ e → p < max_slots → 2 * p ≤ max_slots
doubled_le e p h small =
    let below : 2 ^ e < 2 ^ 23 = omega (arith, h, small) in omega (arith, h, pow_le e 22 below)

factor_le : (a b : ℕ) → a * b ≡ max_size → a ≤ max_size
factor_le a zero h = absurd (omega arith)
factor_le a (suc b) h = omega arith

-- With `16 * 2 ^ j` reached after `j` doublings and at most 27 of them, the loop ends below its
-- fuel at a power of two, the first that is not under `size`.
pub record IsNextPower (size p : ℕ) : Type 0 where
  pub exponent : ℕ
  pub power : p ≡ initial_size * 2 ^ exponent
  pub least : p ≡ initial_size ⊎ p < 2 * size
  pub small : p ≤ max_size
  pub enough : size ≤ p ⊎ p ≡ max_size

-- `m` doublings lead from `i` to the largest size.
next_power_loop_lem :
    (m fuel j i size : ℕ)
    → size < max_size
    → i ≡ initial_size * 2 ^ j
    → i * 2 ^ m ≡ max_size
    → i ≡ initial_size ⊎ i < 2 * size
    → m < fuel
    → Returns (next_power_loop fuel i size) (IsNextPower size)
unfolding next_power_loop
next_power_loop_lem m zero j i size small e room least more = absurd (omega arith)
next_power_loop_lem zero (suc fuel) j i size small e room least more =
    let top : i ≡ max_size = omega (arith, pow-zero 2) in
    (
      i,
      rw (le→leb size i (omega arith)),
      record { exponent = j; power = e; least = least; small = omega arith; enough = omega arith },
    )
next_power_loop_lem (suc m) (suc fuel) j i size small e room least more =
    elim (Bool-cases (leb size i)) [
      | inl done ↦ (
        i,
        rw done,
        record {
          exponent = j;
          power = e;
          least = least;
          small = factor_le i (2 ^ suc m) room;
          enough = inl (leb→le size i done);
        },
      )
      | inr again ↦
          let wide : i * 2 * 2 ^ m ≡ max_size =
            rw (mul_assoc i 2 (2 ^ m), mul_comm 2 (2 ^ m), ← pow-suc 2 m) room in
          let fits : i * 2 ≤ max_size = factor_le (i * 2) (2 ^ m) wide in
          let same : i * 2 % u32_mod ≡ i * 2 = omega arith in
          rw (again, same)
            (next_power_loop_lem m fuel (suc j) (i * 2) size small (omega (arith, pow-suc 2 j)) wide
              (inr (ground arith)) (omega arith))
    ]

-- _DictNextPower ends for every size: what it returns is 16 times a power of two, at most 2 ^
-- 31, at least the size unless it is 2 ^ 31, and it is 16 or less than twice the size.
pub next_power_lem : (size : ℕ) → Returns (next_power size) (IsNextPower size)
unfolding next_power
next_power_lem size = elim (Bool-cases (leb max_size size)) [
  | inl big ↦ (
    max_size,
    rw big,
    record {
      exponent = 27;
      power = refl;
      least = inr (omega (arith, leb→le max_size size big));
      small = omega arith;
      enough = inr refl;
    },
  )
  | inr fits ↦ rw fits (
      next_power_loop_lem 27 32 0 initial_size size (ground arith) refl refl (inl refl)
        (omega arith))
]
