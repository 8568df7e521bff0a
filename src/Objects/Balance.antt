-- ===== src/Objects/Balance.antt =====
-- The invariant of the reference counts of src/commands/object.c.
use cutis.Common.{
  ℕ, ◌+◌, ◌-◌, ◌<◌, ◌≡◌, refl, sym, ap, ◌∙◌, inl, inr, true, false, ◌&&◌, Bool-cases, List, [], ◌∷◌,
  ◌++◌, arith, ==_iff, ◌==◌, ltb, ltb→lt, if◌then◌else◌, length, length-set, set, get_or-set,
}
use cutis.Objects.{Object, Objects}
use cutis.Objects.Counts.{unit, count, held, no_object, object_at, count-append, held-set, outside}

-- Each count is the number of references, from the roots and from other objects, and exactly the
-- objects without a reference are free or, while their elements are released, pending.
pub record Balanced (pending roots : List ℕ) (h : Objects) : Type 0 where
  pub counts : (a : ℕ) → (object_at h.all a).refcount ≡ count a roots + held a h.all
  pub free :
      (a : ℕ)
      → count a pending + count a h.free_objs
        ≡ unit (ltb a (length h.all) && (object_at h.all a).refcount == 0)

same_object : (o : ℕ) → (o == o) ≡ true
same_object o = (==_iff o o).1 refl

pub rooted_inside :
    (pending roots : List ℕ) (o : ℕ) (h : Objects)
    → Balanced pending (o ∷ roots) h
    → o < length h.all
rooted_inside pending roots o h b = elim (Bool-cases (ltb o (length h.all))) [
  | inl inside ↦ ltb→lt o (length h.all) inside
  | inr beyond ↦
      let none_there = ap (λ (c : Object). c.refcount) (outside h.all o (ground (arith, beyond))) in
      absurd (omega (arith, b.counts o, none_there, ap unit (same_object o)))
]

abbrev pub refs : Objects → ℕ → ℕ
refs h a = (object_at h.all a).refcount

abbrev pub elements_of : Objects → ℕ → List ℕ
elements_of h a = (object_at h.all a).elements

pub refs_at : (h : Objects) (o a : ℕ) → (o == a) ≡ true → refs h a ≡ refs h o
refs_at h o a this = ap (λ n. refs h n) (sym ((==_iff o a).0 this))

elements_at : (h : Objects) (o a : ℕ) → (o == a) ≡ true → elements_of h a ≡ elements_of h o
elements_at h o a this = ap (λ n. elements_of h n) (sym ((==_iff o a).0 this))

-- Another object `c` in place of one.
pub put-Balanced :
    (pending roots : List ℕ) (h : Objects) (o : ℕ) (c : Object)
    → o < length h.all
    → ((a : ℕ)
        → (if o == a then c.refcount else refs h a) + count a (elements_of h o)
          ≡ count a roots + (held a h.all + count a c.elements))
    → ((a : ℕ)
        → count a pending + count a h.free_objs
          ≡ unit (ltb a (length h.all) && (if o == a then c.refcount else refs h a) == 0))
    → Balanced pending roots (record h { all = set h.all o c })
put-Balanced pending roots h o c inside counts free =
    let got : (a : ℕ)
        → (object_at (set h.all o c) a).refcount ≡ (if o == a then c.refcount else refs h a) =
      λ a.
        ap (λ (x : Object). x.refcount) (get_or-set h.all o a c no_object inside)
        ∙ elim (Bool-cases (o == a)) [ inl this ↦ rw this refl | inr other ↦ rw other refl ] in
    record {
      counts = λ a. got a ∙ omega (arith, counts a, held-set a h.all o c inside);
      free = λ a.
          free a
          ∙ ap (λ n. unit (ltb a n && (if o == a then c.refcount else refs h a) == 0))
              (sym (length-set h.all o c))
          ∙ ap (λ n. unit (ltb a (length (set h.all o c)) && n == 0)) (sym (got a));
    }

-- A reference goes that is not the last.
pub decrease-Balanced :
    (pending roots : List ℕ) (o : ℕ) (h : Objects)
    → Balanced pending (o ∷ roots) h
    → 1 < refs h o
    → Balanced pending roots
        (record h { all = set h.all o (record (object_at h.all o) { refcount = refs h o - 1 }) })
decrease-Balanced pending roots o h b more =
    put-Balanced pending roots h o (record (object_at h.all o) { refcount = refs h o - 1 })
      (rooted_inside pending roots o h b)
      (λ a. elim (Bool-cases (o == a)) [
        | inl this ↦ rw this (omega (arith, b.counts a, ap unit this, refs_at h o a this, more))
        | inr other ↦ rw other (omega (arith, b.counts a, ap unit other))
      ])
      (λ a. elim (Bool-cases (o == a)) [
        | inr other ↦ rw other (b.free a)
        | inl this ↦
            let some_now : (refs h a == 0) ≡ false = ground (arith, refs_at h o a this, more) in
            let some_left : (refs h o - 1 == 0) ≡ false = ground (arith, more) in
            rw this
              (b.free a ∙ ap (λ t. unit (ltb a (length h.all) && t)) (some_now ∙ sym some_left))
      ])

-- The last reference goes: the references of the elements are left over.
pub empty-Balanced :
    (pending roots : List ℕ) (o : ℕ) (h : Objects)
    → Balanced pending (o ∷ roots) h
    → refs h o ≡ 1
    → Balanced
        (o ∷ pending)
        (elements_of h o ++ roots)
        (record h { all = set h.all o (record { refcount = 0; elements = [] }) })
empty-Balanced pending roots o h b last =
    let inside = rooted_inside pending roots o h b in
    put-Balanced (o ∷ pending) (elements_of h o ++ roots) h o
      (record { refcount = 0; elements = [] }) inside
      (λ a. elim (Bool-cases (o == a)) [
        | inl this ↦ rw this (
            omega (
              arith,
              count-append a (elements_of h o) roots,
              b.counts a,
              ap unit this,
              refs_at h o a this,
              last,
            ))
        | inr other ↦
            rw other
              (omega (arith, count-append a (elements_of h o) roots, b.counts a, ap unit other))
      ])
      (λ a. elim (Bool-cases (o == a)) [
        | inr other ↦ rw other (omega (arith, b.free a))
        | inl this ↦
            let some_now : (refs h a == 0) ≡ false = ground (arith, refs_at h o a this, last) in
            let here : ltb a (length h.all) ≡ true =
              ap (λ n. ltb n (length h.all)) (sym ((==_iff o a).0 this)) ∙ ground (arith, inside) in
            let none_yet : count a pending + count a h.free_objs ≡ 0 =
              b.free a ∙ rw (some_now, here) refl in
            rw (this, here) (omega (arith, none_yet))
      ])

-- The object that is pending becomes free.
pub push-Balanced :
    (pending roots : List ℕ) (o : ℕ) (h : Objects)
    → Balanced (o ∷ pending) roots h
    → Balanced pending roots (record h { free_objs = o ∷ h.free_objs })
push-Balanced pending roots o h b = record {
  counts = b.counts;
  free = λ a. omega (arith, b.free a);
}
