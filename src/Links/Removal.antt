-- ===== src/Links/Removal.antt =====
-- listDelNode of src/data_struct/adlist.c on pointers, and the three operations together.
use cutis.Common.{
  ℕ, ◌-◌, ◌≡◌, refl, sym, subst, ◌∙◌, inl, inr, true, false, ◌||◌, Bool-cases, Option, none, some,
  List, [], ◌∷◌, ◌++◌, arith, ==_iff, ◌==◌, length-append, ◌>>=◌, Returns,
}
use cutis.Links.{
  Node, Memory, ListHeader, put, load, set_prev, set_next, unlink_prev, unlink_next, del_node,
}
use cutis.Links.Chains.{
  has, AreApart, first_or, last_or, Linked, Linked-put, Linked-append, Linked-split, relink_first,
  relink_last, has-append, last_address, last_or-last_address, has-last_address, other_address,
  ==_false_sym,
}
use cutis.Links.Refinement.{Represents, last_or-append, first_or-append}

module _ {A : Type 0} where
  Linked-same :
      (nodes nodes' : Memory A) (p : Option ℕ) (es : List (ℕ × A)) (after : Option ℕ)
      → ((c : ℕ) → has c es ≡ true → nodes' c ≡ nodes c)
      → Linked nodes p es after
      → Linked nodes' p es after
  Linked-same nodes nodes' p [] after same h = tt
  Linked-same nodes nodes' p (e ∷ es) after same (here, rest) =
      let this : (e.0 == e.0) ≡ true = (==_iff e.0 e.0).1 refl in
      (
        same e.0 (rw this refl) ∙ here,
        Linked-same nodes nodes' (some e.0) es after (λ c h. same c (ground (arith, h))) rest,
      )

  put_other :
      (nodes : Memory A) (a c : ℕ) (n : Option (Node A))
      → (c == a) ≡ false
      → put nodes a n c ≡ nodes c
  put_other nodes a c n apart = rw apart refl

  -- The parts of a chain around a node have no address in common.
  record Around (xs : List (ℕ × A)) (e : ℕ × A) (ys : List (ℕ × A)) : Type 0 where
    before : AreApart xs
    behind : AreApart ys
    not_before : has e.0 xs ≡ false
    not_behind : has e.0 ys ≡ false
    disjoint : (c : ℕ) → has c xs ≡ true → has c ys ≡ false
    joined : AreApart (xs ++ ys)

  around :
      (xs : List (ℕ × A)) (e : ℕ × A) (ys : List (ℕ × A)) → AreApart (xs ++ e ∷ ys) → Around xs e ys
  around [] e ys (apart, aparts) = record {
    before = tt;
    behind = aparts;
    not_before = refl;
    not_behind = apart;
    disjoint = λ c h. absurd (ground (arith, h));
    joined = aparts;
  }
  around (x ∷ xs) e ys (apart, aparts) =
      let w = around xs e ys aparts in
      let split : (has x.0 xs || (e.0 == x.0 || has x.0 ys)) ≡ false =
        sym (has-append x.0 xs (e ∷ ys)) ∙ apart in
      let none_before : has x.0 xs ≡ false = ground (arith, split) in
      let none_behind : has x.0 ys ≡ false = ground (arith, split) in
      let other : (e.0 == x.0) ≡ false = ground (arith, split) in
      record {
        before = (none_before, w.before);
        behind = w.behind;
        not_before = rw (==_false_sym e.0 x.0 other, w.not_before) refl;
        not_behind = w.not_behind;
        disjoint = λ c h. elim (Bool-cases (x.0 == c)) [
          | inl here ↦ subst (λ d. has d ys ≡ false) ((==_iff x.0 c).0 here) none_behind
          | inr there ↦ w.disjoint c (ground (arith, h, there))
        ];
        joined = (has-append x.0 xs ys ∙ rw (none_before, none_behind) refl, w.joined);
      }

  -- The nodes before the one that goes lead to what follows it.
  record Closed (l l1 : ListHeader A) (xs : List (ℕ × A)) (next : Option ℕ) : Type 0 where
    linked : Linked l1.nodes none xs next
    head : l1.head ≡ first_or xs next
    tail : l1.tail ≡ l.tail
    len : l1.len ≡ l.len
    others : (c : ℕ) → has c xs ≡ false → l1.nodes c ≡ l.nodes c

  unlink_prev-Closed :
      (l : ListHeader A) (a : ℕ) (v : A) (xs : List (ℕ × A)) (next : Option ℕ)
      → AreApart xs
      → Linked l.nodes none xs (some a)
      → l.head ≡ first_or xs (some a)
      → Returns
          (unlink_prev (record { prev = last_or none xs; next = next; value = v }) l)
          (λ l1. Closed l l1 xs next)
  unfolding unlink_prev set_next load
  unlink_prev-Closed l a v [] next apart linked head = (
    record l { head = next },
    refl,
    record { linked = tt; head = refl; tail = refl; len = refl; others = λ c h. refl },
  )
  unlink_prev-Closed l a v (x ∷ xs) next apart linked head =
      let b = last_address x xs in
      let (n, there, relinked) = relink_last l.nodes none (some a) next x xs apart linked in
      let nodes : Memory A = put l.nodes b (some (record n { next = next })) in
      (
        record l { nodes = nodes },
        rw (last_or-last_address none x xs, there, ◌>>=◌) refl,
        record {
          linked = relinked;
          head = head;
          tail = refl;
          len = refl;
          others = λ c h.
              put_other l.nodes b c (some (record n { next = next }))
                (==_false_sym b c (other_address c b (x ∷ xs) h (has-last_address x xs)));
        },
      )

  -- The nodes behind the one that goes lead back to what stands before it.
  record Opened (l l2 : ListHeader A) (ys : List (ℕ × A)) (prev : Option ℕ) : Type 0 where
    linked : Linked l2.nodes prev ys none
    tail : l2.tail ≡ last_or prev ys
    head : l2.head ≡ l.head
    len : l2.len ≡ l.len
    others : (c : ℕ) → has c ys ≡ false → l2.nodes c ≡ l.nodes c

  unlink_next-Opened :
      (l : ListHeader A) (a : ℕ) (v : A) (ys : List (ℕ × A)) (prev : Option ℕ)
      → AreApart ys
      → Linked l.nodes (some a) ys none
      → l.tail ≡ last_or (some a) ys
      → Returns
          (unlink_next (record { prev = prev; next = first_or ys none; value = v }) l)
          (λ l2. Opened l l2 ys prev)
  unfolding unlink_next set_prev load
  unlink_next-Opened l a v [] prev apart linked tail = (
    record l { tail = prev },
    refl,
    record { linked = tt; tail = refl; head = refl; len = refl; others = λ c h. refl },
  )
  unlink_next-Opened l a v (y ∷ ys) prev apart linked tail =
      let node : Node A = record { prev = prev; next = first_or ys none; value = y.1 } in
      (
        record l { nodes = put l.nodes y.0 (some node) },
        rw (linked.0, ◌>>=◌) refl,
        record {
          linked = relink_first l.nodes (some a) prev y ys none apart linked;
          tail = tail;
          head = refl;
          len = refl;
          others =
              λ c h. put_other l.nodes y.0 c (some node) (==_false_sym y.0 c (ground (arith, h)));
        },
      )

  pub del_node-Represents :
      (l : ListHeader A) (xs ys : List (ℕ × A)) (a : ℕ) (v : A)
      → Represents l (xs ++ (a, v) ∷ ys)
      → Returns (del_node a l) (λ r. Represents r (xs ++ ys))
  unfolding del_node load
  del_node-Represents l xs ys a v r =
      let w = around xs (a, v) ys r.apart in
      let (before, (here, behind)) = Linked-split l.nodes none xs ((a, v) ∷ ys) none r.linked in
      let prev = last_or none xs in
      let next = first_or ys none in
      let (l1, run1, c) =
        unlink_prev-Closed l a v xs next w.before before
          (r.head ∙ first_or-append xs ((a, v) ∷ ys) none) in
      let behind1 =
        Linked-same l.nodes l1.nodes (some a) ys none
          (λ d h. c.others d (elim (Bool-cases (has d xs)) [
            | inr out ↦ out
            | inl inside ↦ absurd (ground (arith, w.disjoint d inside, h))
          ]))
          behind in
      let (l2, run2, o) =
        unlink_next-Opened l1 a v ys prev w.behind behind1
          (c.tail ∙ r.tail ∙ last_or-append none xs ((a, v) ∷ ys)) in
      let before2 =
        Linked-same l1.nodes l2.nodes none xs next (λ d h. o.others d (w.disjoint d h)) c.linked in
      (
        record l2 { nodes = put l2.nodes a none; len = l2.len - 1 },
        rw (here, ◌>>=◌, run1, ◌>>=◌, run2, ◌>>=◌) refl,
        record {
          linked =
              Linked-append (put l2.nodes a none) none xs ys none
                (Linked-put l2.nodes a none none xs next w.not_before before2)
                (Linked-put l2.nodes a none prev ys none w.not_behind o.linked);
          apart = w.joined;
          head = o.head ∙ c.head ∙ sym (first_or-append xs ys none);
          tail = o.tail ∙ sym (last_or-append none xs ys);
          len =
              omega
                (arith, o.len, c.len, r.len, length-append xs ((a, v) ∷ ys), length-append xs ys);
        },
      )
