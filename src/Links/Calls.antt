-- ===== src/Links/Calls.antt =====
-- The list of src/data_struct/adlist.c, with its pointers, refines the list of its values.
use cutis.Common.{
  ℕ, ◌≡◌, refl, sym, ap, subst, ◌∙◌, inl, inr, false, Bool-cases, Option, none, some, List, [], ◌∷◌,
  ◌++◌, arith, ==_iff, ◌==◌, length, Run, ◌>>=◌, Returns,
}
use cutis.Adlist.{list_add_node_head, list_add_node_tail, del_at}
use cutis.Links.{
  Memory, ListHeader, put, load, add_node_head, add_node_tail, del_node, release_nodes,
  list_release,
}
use cutis.Links.Chains.{has, Linked, Linked-put, AreApart, first_or}
use cutis.Links.Refinement.{Represents, add_node_head-Represents, add_node_tail-Represents}
use cutis.Links.Removal.{del_node-Represents}

-- A call: a value and the address that zmalloc gives its node, or the node that goes and its
-- position.
pub data Call (A : Type 0) : Type 0 where
  to_head : ℕ → A → Call A
  to_tail : ℕ → A → Call A
  remove : (address position : ℕ) → Call A

module _ {A : Type 0} where
  abbrev pub run : Call A → ListHeader A → Run (ListHeader A)
  run (to_head new v) l = add_node_head new v l
  run (to_tail new v) l = add_node_tail new v l
  run (remove address position) l = del_node address l

  -- What a call does to the list of the values.
  abbrev pub on_values : Call A → List A → List A
  on_values (to_head new v) vs = list_add_node_head vs v
  on_values (to_tail new v) vs = list_add_node_tail vs v
  on_values (remove address position) vs = del_at vs position

  abbrev pub values : List (ℕ × A) → List A
  values [] = []
  values (e ∷ es) = e.1 ∷ values es

  -- The node at a position.
  abbrev NodeAt : List (ℕ × A) → ℕ → ℕ → Type 0
  NodeAt es address position =
      (xs ys : List (ℕ × A)) × (v : A) × (es ≡ xs ++ (address, v) ∷ ys) × (length xs ≡ position)

  -- Nothing is allocated at a new address, and a node that goes is at its position.
  abbrev pub Allowed : Call A → ListHeader A → List (ℕ × A) → Type 0
  Allowed (to_head new v) l es = l.nodes new ≡ none
  Allowed (to_tail new v) l es = l.nodes new ≡ none
  Allowed (remove address position) l es = NodeAt es address position

  fresh_address :
      (nodes : Memory A) (before after : Option ℕ) (es : List (ℕ × A)) (new : ℕ)
      → Linked nodes before es after
      → nodes new ≡ none
      → has new es ≡ false
  fresh_address nodes before after [] new linked free = refl
  fresh_address nodes before after (e ∷ es) new (here, rest) free =
      let other : (e.0 == new) ≡ false = elim (Bool-cases (e.0 == new)) [
        | inr apart ↦ apart
        | inl same ↦
            let clash = sym free ∙ ap nodes (sym ((==_iff e.0 new).0 same)) ∙ here in
            absurd (ground (arith, clash))
      ] in
      rw (other, fresh_address nodes (some e.0) after es new rest free) refl

  values-append : (xs ys : List (ℕ × A)) → values (xs ++ ys) ≡ values xs ++ values ys
  values-append [] ys = refl
  values-append (x ∷ xs) ys = ap (λ vs. x.1 ∷ vs) (values-append xs ys)

  values-del_at :
      (xs ys : List (ℕ × A)) (e : ℕ × A)
      → values (xs ++ ys) ≡ del_at (values (xs ++ e ∷ ys)) (length xs)
  unfolding del_at
  values-del_at [] ys e = refl
  values-del_at (x ∷ xs) ys e = ap (λ vs. x.1 ∷ vs) (values-del_at xs ys e)

  -- A header that stands for nodes with the given values.
  abbrev pub Holds : List A → ListHeader A → Type 0
  Holds vs l = (es : List (ℕ × A)) × Represents l es × (values es ≡ vs)

  -- listAddNodeHead, listAddNodeTail and listDelNode on linked nodes refine the list of their
  -- values: for a header whose nodes are linked both ways from head to tail, no address twice, a
  -- call with a newly allocated node or with a node of the list ends without a fault, leaves
  -- such a header again, and does to the values what the list of values does.
  pub run-Holds :
      (call : Call A) (l : ListHeader A) (es : List (ℕ × A))
      → Represents l es
      → Allowed call l es
      → Returns (run call l) (Holds (on_values call (values es)))
  unfolding list_add_node_head list_add_node_tail
  run-Holds (to_head new v) l es r free =
      let (l', run_ok, r') =
        add_node_head-Represents new v l es r
          (fresh_address l.nodes none none es new r.linked free) in
      (l', run_ok, ((new, v) ∷ es, r', refl))
  run-Holds (to_tail new v) l es r free =
      let (l', run_ok, r') =
        add_node_tail-Represents new v l es r
          (fresh_address l.nodes none none es new r.linked free) in
      (l', run_ok, (es ++ (new, v) ∷ [], r', values-append es ((new, v) ∷ [])))
  run-Holds (remove address position) l es r (xs, ys, v, split, place) =
      let (l', run_ok, r') =
        del_node-Represents l xs ys address v (subst (λ z. Represents l z) split r) in
      (
        l',
        run_ok,
        (
          xs ++ ys,
          r',
          values-del_at xs ys (address, v)
              ∙ ap (λ n. del_at (values (xs ++ (address, v) ∷ ys)) n) place
              ∙ ap (λ z. del_at (values z) position) (sym split),
        ),
      )

  release_nodes-values :
      (nodes : Memory A) (before : Option ℕ) (es : List (ℕ × A))
      → Linked nodes before es none
      → AreApart es
      → Returns (release_nodes (length es) (first_or es none) nodes) (λ r. r.0 ≡ values es)
  unfolding release_nodes load
  release_nodes-values nodes before [] linked apart = (([], nodes), refl, refl)
  release_nodes-values nodes before (e ∷ es) (here, rest) (apart, aparts) =
      let (r, run_ok, freed) =
        release_nodes-values (put nodes e.0 none) (some e.0) es
          (Linked-put nodes e.0 none (some e.0) es none apart rest) aparts in
      ((e.1 ∷ r.0, r.1), rw (here, ◌>>=◌, run_ok, ◌>>=◌) refl, ap (λ vs. e.1 ∷ vs) freed)

  -- listRelease frees the values from head to tail.
  pub list_release-values :
      (l : ListHeader A) (es : List (ℕ × A))
      → Represents l es
      → Returns (list_release l) (λ r. r.0 ≡ values es)
  unfolding list_release
  list_release-values l es r =
      let (t, run_ok, freed) = release_nodes-values l.nodes none es r.linked r.apart in
      (t, rw (r.len, r.head) run_ok, freed)
