-- ===== src/Objects.antt =====
-- The counted references of src/commands/object.c. An object is an index into the list of all that
-- were ever allocated; what a list or a set holds are the objects that it counts a reference to.
pub mod Counts
pub mod Balance
pub mod Release
use cutis.Common.{
  ℕ, zero, suc, ◌+◌, ◌-◌, List, [], ◌∷◌, ◌++◌, ◌==◌, if◌then◌else◌, length, set, Run, ok, fault,
  use_after_free, out_of_fuel, ◌>>=◌,
}
use cutis.Dict.{at}

-- `refcount`, and the objects that `ptr` leads to, which a string has none of.
pub record Object : Type 0 where
  pub refcount : ℕ
  pub elements : List ℕ

pub record Objects : Type 0 where
  pub all : List Object
  pub free_objs : List ℕ

-- A free object is used again, or a new one is allocated.
unfoldable pub create_cutis_object : List ℕ → Objects → Run (ℕ × Objects)
create_cutis_object elements h = elim h.free_objs [
  | [] ↦
      ok (
        length h.all,
        record h { all = h.all ++ record { refcount = 1; elements = elements } ∷ [] },
      )
  | o ∷ rest ↦ ok (
    o,
    record { all = set h.all o (record { refcount = 1; elements = elements }); free_objs = rest },
  )
]

unfoldable pub incr_ref_count : ℕ → Objects → Run Objects
unfolding at
incr_ref_count o h = do
  c ← at h.all o
  ok (record h { all = set h.all o (record c { refcount = c.refcount + 1 }) })

-- listRelease and DictRelease, which drop the references one after the other.
unfoldable pub release_elements : (ℕ → Objects → Run Objects) → List ℕ → Objects → Run Objects
release_elements decr [] h = ok h
release_elements decr (o ∷ os) h = do h' ← decr o h; release_elements decr os h'

-- An object that has no reference is free, so that its count must not be decreased. The fuel is
-- the depth of objects in objects.
unfoldable pub decr_ref_count : ℕ → ℕ → Objects → Run Objects
unfolding at release_elements
decr_ref_count zero o h = fault out_of_fuel
decr_ref_count (suc fuel) o h = do
  c ← at h.all o
  let emptied = record h { all = set h.all o (record { refcount = 0; elements = [] }) }
  let released =
      release_elements (decr_ref_count fuel) c.elements emptied
      >>= (λ h'. ok (record h' { free_objs = o ∷ h'.free_objs }))
  let kept = ok (record h { all = set h.all o (record c { refcount = c.refcount - 1 }) })
  if c.refcount == 0 then fault use_after_free else if c.refcount == 1 then released else kept
