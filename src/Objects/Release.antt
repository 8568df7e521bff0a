-- ===== src/Objects/Release.antt =====
-- DecrRefCount of src/commands/object.c keeps the invariant of the counts.
use cutis.Common.{
  ℕ, zero, suc, ◌+◌, ◌-◌, ◌<◌, ◌≡◌, ◌⊎◌, refl, sym, ap, subst, ◌∙◌, inl, inr, Bool, false, ◌&&◌,
  ltb, ltb→lt, Bool-cases, List, [], ◌∷◌, ◌++◌, arith, ==_iff, ◌==◌, if◌then◌else◌, length, set,
  get_or-set, Run, ◌>>=◌, Returns,
}
use cutis.Dict.Buckets.{at-get_or}
use cutis.Objects.{Object, Objects, incr_ref_count, release_elements, decr_ref_count}
use cutis.Objects.Counts.{unit, count, no_object, object_at, outside}
use cutis.Objects.Balance.{
  Balanced, put-Balanced, refs_at, refs, elements_of, rooted_inside, decrease-Balanced,
  empty-Balanced, push-Balanced,
}

-- Objects lead to objects no deeper than the fuel.
abbrev pub IsDeep : ℕ → Objects → ℕ → Type 0
IsDeep zero h o = ⊥
IsDeep (suc depth) h o = (a : ℕ) → 0 < count a (elements_of h o) → IsDeep depth h a

-- Objects keep their elements or lose them all.
abbrev Shrunk : Objects → Objects → Type 0
Shrunk h h' = (a : ℕ) → (elements_of h' a ≡ elements_of h a) ⊎ (elements_of h' a ≡ [])

Shrunk-trans : (h h1 h2 : Objects) → Shrunk h h1 → Shrunk h1 h2 → Shrunk h h2
Shrunk-trans h h1 h2 s t a = elim (t a) [
  | inr gone ↦ inr gone
  | inl same ↦ elim (s a) [ inl kept ↦ inl (same ∙ kept) | inr gone ↦ inr (same ∙ gone) ]
]

IsDeep-Shrunk :
    (depth : ℕ) (h h' : Objects) (o : ℕ) → Shrunk h h' → IsDeep depth h o → IsDeep depth h' o
IsDeep-Shrunk zero h h' o s d = d
IsDeep-Shrunk (suc depth) h h' o s d = λ a some_there. elim (s o) [
  | inl same ↦ IsDeep-Shrunk depth h h' a s (d a (subst (λ es. 0 < count a es) same some_there))
  | inr gone ↦ absurd (omega (arith, subst (λ es. 0 < count a es) gone some_there))
]

set-Shrunk :
    (h : Objects) (o : ℕ) (c : Object)
    → o < length h.all
    → (c.elements ≡ elements_of h o) ⊎ (c.elements ≡ [])
    → Shrunk h (record h { all = set h.all o c })
set-Shrunk h o c inside kept a =
    let got = ap (λ (x : Object). x.elements) (get_or-set h.all o a c no_object inside) in
    elim (Bool-cases (o == a)) [
      | inr other ↦
          inl (got ∙ ap (λ (t : Bool). (if t then c else object_at h.all a).elements) other)
      | inl this ↦
          let now : elements_of (record h { all = set h.all o c }) a ≡ c.elements =
            got ∙ ap (λ (t : Bool). (if t then c else object_at h.all a).elements) this in
          elim kept [
            | inl same ↦ inl (now ∙ same ∙ ap (λ n. elements_of h n) ((==_iff o a).0 this))
            | inr gone ↦ inr (now ∙ gone)
          ]
    ]

-- A reference from the roots is gone.
abbrev Dropped : List ℕ → List ℕ → Objects → Objects → Type 0
Dropped pending roots h h' = Balanced pending roots h' × Shrunk h h'

abbrev Drops : (ℕ → Objects → Run Objects) → ℕ → Type 0
Drops decr depth =
    (pending roots : List ℕ) (o : ℕ) (h : Objects)
    → Balanced pending (o ∷ roots) h
    → IsDeep depth h o
    → Returns (decr o h) (Dropped pending roots h)

release_elements-Dropped :
    (decr : ℕ → Objects → Run Objects) (depth : ℕ) (pending roots os : List ℕ) (h : Objects)
    → Drops decr depth
    → Balanced pending (os ++ roots) h
    → ((a : ℕ) → 0 < count a os → IsDeep depth h a)
    → Returns (release_elements decr os h) (Dropped pending roots h)
unfolding release_elements
release_elements-Dropped decr depth pending roots [] h drops b deep = (h, refl, (b, λ a. inl refl))
release_elements-Dropped decr depth pending roots (o ∷ os) h drops b deep =
    let here : IsDeep depth h o = deep o (omega (arith, ap unit ((==_iff o o).1 refl))) in
    let (h1, run1, (b1, s1)) = drops pending (os ++ roots) o h b here in
    let (h2, run2, (b2, s2)) =
      release_elements-Dropped decr depth pending roots os h1 drops b1
        (λ a some_there. IsDeep-Shrunk depth h h1 a s1 (deep a (omega (arith, some_there)))) in
    (h2, rw (run1, ◌>>=◌) run2, (b2, Shrunk-trans h h1 h2 s1 s2))

decr_ref_count-Drops : (fuel : ℕ) → Drops (decr_ref_count fuel) fuel
unfolding decr_ref_count
decr_ref_count-Drops zero pending roots o h b deep = absurd deep
decr_ref_count-Drops (suc fuel) pending roots o h b deep =
    let inside = rooted_inside pending roots o h b in
    let there = at-get_or h.all o no_object inside in
    let some_ref : (refs h o == 0) ≡ false =
      ground (arith, b.counts o, ap unit ((==_iff o o).1 refl)) in
    elim (Bool-cases (refs h o == 1)) [
      | inl last ↦
          let emptied : Objects = record h {
            all = set h.all o (record { refcount = 0; elements = [] });
          } in
          let s = set-Shrunk h o (record { refcount = 0; elements = [] }) inside (inr refl) in
          let (h', run, (b', s')) =
            release_elements-Dropped (decr_ref_count fuel) fuel (o ∷ pending) roots
              (elements_of h o) emptied (decr_ref_count-Drops fuel)
              (empty-Balanced pending roots o h b ((==_iff (refs h o) 1).0 last))
              (λ a some_there. IsDeep-Shrunk fuel h emptied a s (deep a some_there)) in
          (
            record h' { free_objs = o ∷ h'.free_objs },
            rw (there, ◌>>=◌, some_ref, last, run, ◌>>=◌) refl,
            (push-Balanced pending roots o h' b', Shrunk-trans h emptied h' s s'),
          )
      | inr more ↦
          let several : 1 < refs h o = ground (arith, some_ref, more) in
          let c : Object = record (object_at h.all o) { refcount = refs h o - 1 } in
          (
            record h { all = set h.all o c },
            rw (there, ◌>>=◌, some_ref, more) refl,
            (decrease-Balanced pending roots o h b several, set-Shrunk h o c inside (inl refl)),
          )
    ]

-- Where the count of every object is the number of references to it, from outside and from the
-- elements of other objects, and exactly the objects without a reference stand, once each, in
-- the list of free objects, DecrRefCount that gives up a reference from outside, to an object
-- that is no deeper than the fuel, ends without a fault and leaves the counts and the free list
-- right for the references that remain.
pub decr_ref_count-Balanced :
    (fuel o : ℕ) (roots : List ℕ) (h : Objects)
    → Balanced [] (o ∷ roots) h
    → IsDeep fuel h o
    → Returns (decr_ref_count fuel o h) (Balanced [] roots)
decr_ref_count-Balanced fuel o roots h b deep =
    let (h', run, (b', s)) = decr_ref_count-Drops fuel [] roots o h b deep in (h', run, b')

used_inside : (h : Objects) (o : ℕ) → 0 < refs h o → o < length h.all
used_inside h o some_ref = elim (Bool-cases (ltb o (length h.all))) [
  | inl inside ↦ ltb→lt o (length h.all) inside
  | inr beyond ↦
      let none_there = ap (λ (c : Object). c.refcount) (outside h.all o (ground (arith, beyond))) in
      absurd (omega (arith, some_ref, none_there))
]

-- IncrRefCount of an object that has a reference.
pub incr_ref_count-Balanced :
    (o : ℕ) (roots : List ℕ) (h : Objects)
    → Balanced [] roots h
    → 0 < refs h o
    → Returns (incr_ref_count o h) (Balanced [] (o ∷ roots))
unfolding incr_ref_count
incr_ref_count-Balanced o roots h b some_ref =
    let inside = used_inside h o some_ref in
    let c : Object = record (object_at h.all o) { refcount = refs h o + 1 } in
    (
      record h { all = set h.all o c },
      rw (at-get_or h.all o no_object inside, ◌>>=◌) refl,
      put-Balanced [] (o ∷ roots) h o c inside
          (λ a. elim (Bool-cases (o == a)) [
            | inl this ↦ rw this (omega (arith, b.counts a, refs_at h o a this))
            | inr other ↦ rw other (omega (arith, b.counts a))
          ])
          (λ a. elim (Bool-cases (o == a)) [
            | inr other ↦ rw other (b.free a)
            | inl this ↦
                let some_now : (refs h a == 0) ≡ false =
                  ground (arith, refs_at h o a this, some_ref) in
                let some_then : (refs h o + 1 == 0) ≡ false = ground arith in
                rw this
                  (b.free a ∙ ap (λ t. unit (ltb a (length h.all) && t)) (some_now ∙ sym some_then))
          ]),
    )
