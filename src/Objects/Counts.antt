-- ===== src/Objects/Counts.antt =====
-- How often an object is referred to, for src/commands/object.c.
use cutis.Common.{
  ℕ, zero, suc, ◌+◌, ◌≤◌, ◌<◌, ◌≡◌, refl, Bool, true, false, List, [], ◌∷◌, ◌++◌, arith, ◌==◌,
  length, set, get_or,
}
use cutis.Objects.{Object}

abbrev pub unit : Bool → ℕ
unit true = 1
unit false = 0

abbrev pub count : ℕ → List ℕ → ℕ
count a [] = 0
count a (o ∷ os) = unit (o == a) + count a os

-- The references to an object from the elements of all objects.
abbrev pub held : ℕ → List Object → ℕ
held a [] = 0
held a (c ∷ cs) = count a c.elements + held a cs

abbrev pub no_object : Object
no_object = record { refcount = 0; elements = [] }

abbrev pub object_at : List Object → ℕ → Object
object_at cs o = get_or cs o no_object

pub count-append : (a : ℕ) (os rest : List ℕ) → count a (os ++ rest) ≡ count a os + count a rest
count-append a [] rest = omega arith
count-append a (o ∷ os) rest = omega (arith, count-append a os rest)

pub held-set :
    (a : ℕ) (cs : List Object) (o : ℕ) (c : Object)
    → o < length cs
    → held a (set cs o c) + count a (object_at cs o).elements ≡ held a cs + count a c.elements
held-set a [] o c inside = absurd (omega arith)
held-set a (d ∷ cs) zero c inside = omega arith
held-set a (d ∷ cs) (suc o) c inside = omega (arith, held-set a cs o c (omega (arith, inside)))

pub outside : (cs : List Object) (o : ℕ) → length cs ≤ o → object_at cs o ≡ no_object
outside [] o h = refl
outside (c ∷ cs) zero h = absurd (omega arith)
outside (c ∷ cs) (suc o) h = outside cs o (omega (arith, h))
