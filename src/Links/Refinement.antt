-- ===== src/Links/Refinement.antt =====
-- The operations of src/data_struct/adlist.c on pointers do what they say on the list of values.
use cutis.Common.{
  ℕ, ◌+◌, ◌≡◌, refl, sym, ◌∙◌, true, false, Option, none, some, List, [], ◌∷◌, ◌++◌, arith, ==_iff,
  ◌==◌, length, length-append, ◌>>=◌, Returns,
}
use cutis.Links.{
  Node, Memory, ListHeader, put, load, set_prev, set_next, add_node_head, add_node_tail,
}
use cutis.Links.Chains.{
  has, AreApart, first_or, last_or, Linked, Linked-put, Linked-append, relink_first, relink_last,
  has-append, last_address, last_or-last_address, has-last_address, other_address, ==_false_sym,
}

module _ {A : Type 0} where
  -- A header stands for the nodes `es`, each an address with a value.
  pub record Represents (l : ListHeader A) (es : List (ℕ × A)) : Type 0 where
    pub linked : Linked l.nodes none es none
    pub apart : AreApart es
    pub head : l.head ≡ first_or es none
    pub tail : l.tail ≡ last_or none es
    pub len : l.len ≡ length es

  pub add_node_head-Represents :
      (new : ℕ) (v : A) (l : ListHeader A) (es : List (ℕ × A))
      → Represents l es
      → has new es ≡ false
      → Returns (add_node_head new v l) (λ r. Represents r ((new, v) ∷ es))
  unfolding add_node_head set_prev load
  add_node_head-Represents new v l [] r apart =
      let none_there : (l.len == 0) ≡ true = ground (arith, r.len) in
      let same : (new == new) ≡ true = (==_iff new new).1 refl in
      (
        record {
          nodes = put l.nodes new (some (record { prev = none; next = none; value = v }));
          head = some new;
          tail = some new;
          len = l.len + 1;
        },
        rw none_there refl,
        record {
          linked = (rw same refl, tt);
          apart = (refl, tt);
          head = refl;
          tail = refl;
          len = omega (arith, r.len);
        },
      )
  add_node_head-Represents new v l (e ∷ es) r apart =
      let some_there : (l.len == 0) ≡ false = ground (arith, r.len) in
      let same : (new == new) ≡ true = (==_iff new new).1 refl in
      let other : (e.0 == new) ≡ false = ground (arith, apart) in
      let other' : (new == e.0) ≡ false = ground (arith, other) in
      let nodes : Memory A =
        put l.nodes new (some (record { prev = none; next = some e.0; value = v })) in
      let linked =
        Linked-put l.nodes new (some (record { prev = none; next = some e.0; value = v })) none
          (e ∷ es) none apart r.linked in
      (
        record l {
          nodes =
              put nodes e.0
                (some (record { prev = some new; next = first_or es none; value = e.1 }));
          head = some new;
          len = l.len + 1;
        },
        rw (some_there, r.head, other, r.linked.0, ◌>>=◌) refl,
        record {
          linked =
              (rw (other', same) refl, relink_first nodes none (some new) e es none r.apart linked);
          apart = (apart, r.apart);
          head = refl;
          tail = r.tail;
          len = omega (arith, r.len);
        },
      )

  pub last_or-append :
      (p : Option ℕ) (xs ys : List (ℕ × A)) → last_or p (xs ++ ys) ≡ last_or (last_or p xs) ys
  last_or-append p [] ys = refl
  last_or-append p (x ∷ xs) ys = last_or-append (some x.0) xs ys

  pub first_or-append :
      (xs ys : List (ℕ × A)) (after : Option ℕ)
      → first_or (xs ++ ys) after ≡ first_or xs (first_or ys after)
  first_or-append [] ys after = refl
  first_or-append (x ∷ xs) ys after = refl

  AreApart-tail :
      (xs : List (ℕ × A)) (e : ℕ × A) → AreApart xs → has e.0 xs ≡ false → AreApart (xs ++ e ∷ [])
  AreApart-tail [] e h k = (refl, tt)
  AreApart-tail (x ∷ xs) e (apart, aparts) k =
      let other : (e.0 == x.0) ≡ false = ground (arith, k) in
      (
        has-append x.0 xs (e ∷ []) ∙ rw (apart, other) refl,
        AreApart-tail xs e aparts (ground (arith, k)),
      )

  pub add_node_tail-Represents :
      (new : ℕ) (v : A) (l : ListHeader A) (es : List (ℕ × A))
      → Represents l es
      → has new es ≡ false
      → Returns (add_node_tail new v l) (λ r. Represents r (es ++ (new, v) ∷ []))
  unfolding add_node_tail set_next load
  add_node_tail-Represents new v l [] r apart =
      let none_there : (l.len == 0) ≡ true = ground (arith, r.len) in
      let same : (new == new) ≡ true = (==_iff new new).1 refl in
      (
        record {
          nodes = put l.nodes new (some (record { prev = none; next = none; value = v }));
          head = some new;
          tail = some new;
          len = l.len + 1;
        },
        rw none_there refl,
        record {
          linked = (rw same refl, tt);
          apart = (refl, tt);
          head = refl;
          tail = refl;
          len = omega (arith, r.len);
        },
      )
  add_node_tail-Represents new v l (x ∷ xs) r apart =
      let es = x ∷ xs in
      let some_there : (l.len == 0) ≡ false = ground (arith, r.len) in
      let same : (new == new) ≡ true = (==_iff new new).1 refl in
      let b = last_address x xs in
      let last : l.tail ≡ some b = r.tail ∙ last_or-last_address none x xs in
      let other : (b == new) ≡ false = other_address new b es apart (has-last_address x xs) in
      let other' : (new == b) ≡ false = ==_false_sym b new other in
      let node : Node A = record { prev = some b; next = none; value = v } in
      let nodes : Memory A = put l.nodes new (some node) in
      let before = Linked-put l.nodes new (some node) none es none apart r.linked in
      let (n, there, linked) = relink_last nodes none none (some new) x xs r.apart before in
      (
        record l {
          nodes = put nodes b (some (record n { next = some new }));
          tail = some new;
          len = l.len + 1;
        },
        rw (some_there, last, there, ◌>>=◌) refl,
        record {
          linked =
              Linked-append (put nodes b (some (record n { next = some new }))) none es
                ((new, v) ∷ []) none linked
                (rw (other', same, last_or-last_address (some x.0) x xs) refl, tt);
          apart = AreApart-tail es (new, v) r.apart apart;
          head = r.head;
          tail = sym (last_or-append none es ((new, v) ∷ []));
          len = omega (arith, r.len, length-append es ((new, v) ∷ []));
        },
      )
