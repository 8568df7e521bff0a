-- ===== src/Examples/Counted.antt =====
-- A list object with two strings, one of which is referred to from elsewhere too.
use cutis.Common.{
  ℕ, zero, suc, ◌≡◌, refl, arith, [], ◌∷◌, ok, Returns, ◌==◌, ◌&&◌, ◌+◌, ltb, length,
}
use cutis.Objects.{Objects, decr_ref_count}
use cutis.Objects.Counts.{count, held, unit, object_at}
use cutis.Objects.Balance.{Balanced}
use cutis.Objects.Release.{IsDeep, decr_ref_count-Balanced}

abbrev objects : Objects
objects = record {
  all =
      record { refcount = 1; elements = 1 ∷ 2 ∷ [] }
      ∷ record { refcount = 1; elements = [] }
      ∷ record { refcount = 2; elements = [] }
      ∷ record { refcount = 0; elements = [] }
      ∷ [];
  free_objs = 3 ∷ [];
}

counts_lem :
    (a : ℕ) → (object_at objects.all a).refcount ≡ count a (0 ∷ 2 ∷ []) + held a objects.all
counts_lem zero = refl
counts_lem (suc zero) = refl
counts_lem (suc (suc zero)) = refl
counts_lem (suc (suc (suc zero))) = refl
counts_lem (suc (suc (suc (suc a)))) = ground arith

free_lem :
    (a : ℕ)
    → count a [] + count a objects.free_objs
      ≡ unit (ltb a (length objects.all) && (object_at objects.all a).refcount == 0)
free_lem zero = refl
free_lem (suc zero) = refl
free_lem (suc (suc zero)) = refl
free_lem (suc (suc (suc zero))) = refl
free_lem (suc (suc (suc (suc a)))) = ground arith

objects-Balanced : Balanced [] (0 ∷ 2 ∷ []) objects
objects-Balanced = record { counts = counts_lem; free = free_lem }

-- The strings have no elements.
string_lem : (a : ℕ) → IsDeep 1 objects (suc a)
string_lem zero = λ b h. omega (arith, h)
string_lem (suc zero) = λ b h. omega (arith, h)
string_lem (suc (suc zero)) = λ b h. omega (arith, h)
string_lem (suc (suc (suc a))) = λ b h. omega (arith, h)

objects-IsDeep : IsDeep 2 objects 0
objects-IsDeep zero h = absurd (ground (arith, h))
objects-IsDeep (suc a) h = string_lem a

decr_ref_count-Balanced_example : Returns (decr_ref_count 2 0 objects) (Balanced [] (2 ∷ []))
decr_ref_count-Balanced_example =
    decr_ref_count-Balanced 2 0 (2 ∷ []) objects objects-Balanced objects-IsDeep

-- The list and its first string are free then, the other string is not.
dropped :
    decr_ref_count 2 0 objects
    ≡ ok (record {
      all =
          record { refcount = 0; elements = [] }
          ∷ record { refcount = 0; elements = [] }
          ∷ record { refcount = 1; elements = [] }
          ∷ record { refcount = 0; elements = [] }
          ∷ [];
      free_objs = 0 ∷ 1 ∷ 3 ∷ [];
    })
unfolding decr_ref_count
dropped = refl
