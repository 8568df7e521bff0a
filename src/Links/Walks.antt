-- ===== src/Links/Walks.antt =====
-- The iterators of src/data_struct/adlist.c, and listSearchKey.
use cutis.Common.{
  ℕ, zero, suc, ◌<◌, ◌≡◌, refl, ap, ◌∙◌, inl, inr, Bool, true, Bool-cases, Option, none, some, List,
  [], ◌∷◌, arith, if◌then◌else◌, length, map, Run, ok, ◌>>=◌,
}
use cutis.Links.{
  Node, Memory, ListHeader, ListIter, load, list_next_element, search_from, list_search_key,
  list_get_iterator, iterate_list,
}
use cutis.Links.Refinement.{Represents}
use cutis.Links.Chains.{Linked, first_or}

abbrev from : Option ℕ → ListIter
from start = record { next_node = start; forward = true }

module _ {A : Type 0} where
  -- The address of the first node whose value the test accepts.
  abbrev pub first_match : (A → Bool) → List (ℕ × A) → Option ℕ
  first_match match [] = none
  first_match match (e ∷ es) = if match e.1 then some e.0 else first_match match es

  abbrev IsHere : Memory A → Option ℕ → ℕ × A → List (ℕ × A) → Type 0
  IsHere nodes before e es =
      nodes e.0 ≡ some (record { prev = before; next = first_or es none; value = e.1 })

  loaded :
      (nodes : Memory A) (before : Option ℕ) (e : ℕ × A) (es : List (ℕ × A))
      → IsHere nodes before e es
      → load nodes e.0 ≡ ok (record { prev = before; next = first_or es none; value = e.1 })
  unfolding load
  loaded nodes before e es here = rw (here, load) refl

  next_element :
      (nodes : Memory A) (before : Option ℕ) (e : ℕ × A) (es : List (ℕ × A))
      → IsHere nodes before e es
      → list_next_element nodes (from (some e.0)) ≡ ok (some e.0, from (first_or es none))
  unfolding list_next_element
  next_element nodes before e es here =
      let go : Node A → Run (Option ℕ × ListIter) = λ n. ok (some e.0, from n.next) in
      ap (λ m. m >>= go) (loaded nodes before e es here)

  search_from-first_match :
      (match : A → Bool) (fuel : ℕ) (nodes : Memory A) (before : Option ℕ) (es : List (ℕ × A))
      → Linked nodes before es none
      → length es < fuel
      → search_from match fuel nodes (from (first_or es none)) ≡ ok (first_match match es)
  unfolding search_from list_next_element
  search_from-first_match match zero nodes before es linked h = absurd (omega (arith, h))
  search_from-first_match match (suc fuel) nodes before [] linked h = refl
  search_from-first_match match (suc fuel) nodes before (e ∷ es) (here, rest) h =
      let next : ListIter = from (first_or es none) in
      let go : Option ℕ × ListIter → Run (Option ℕ) = λ r. elim r.0 [
        | none ↦ ok none
        | some a ↦
            load nodes a
            >>= (λ n. if match n.value then ok (some a) else search_from match fuel nodes r.1)
      ] in
      ap (λ m. m >>= go) (next_element nodes before e es here)
      ∙ ap
          (λ m.
            m >>= (λ n. if match n.value then ok (some e.0) else search_from match fuel nodes next))
          (loaded nodes before e es here)
      ∙ elim (Bool-cases (match e.1)) [
        | inl found ↦ rw found refl
        | inr other ↦
            rw other
              (search_from-first_match match fuel nodes (some e.0) es rest (omega (arith, h)))
      ]

  pub list_search_key-first_match :
      (match : A → Bool) (fuel : ℕ) (l : ListHeader A) (es : List (ℕ × A))
      → Represents l es
      → length es < fuel
      → list_search_key match fuel l ≡ ok (first_match match es)
  unfolding list_search_key list_get_iterator
  list_search_key-first_match match fuel l es r h =
      ap (λ start. search_from match fuel l.nodes (from start)) r.head
      ∙ search_from-first_match match fuel l.nodes none es r.linked h

  forward-values :
      (fuel : ℕ) (nodes : Memory A) (before : Option ℕ) (es : List (ℕ × A))
      → Linked nodes before es none
      → length es < fuel
      → iterate_list fuel nodes (from (first_or es none)) ≡ ok (map (λ e. e.1) es)
  unfolding iterate_list list_next_element
  forward-values zero nodes before es linked h = absurd (omega (arith, h))
  forward-values (suc fuel) nodes before [] linked h = refl
  forward-values (suc fuel) nodes before (e ∷ es) (here, rest) h =
      let next : ListIter = from (first_or es none) in
      let go : Option ℕ × ListIter → Run (List A) = λ r. elim r.0 [
        | none ↦ ok []
        | some a ↦
            load nodes a
            >>= (λ n. iterate_list fuel nodes r.1 >>= (λ values. ok (n.value ∷ values)))
      ] in
      ap (λ m. m >>= go) (next_element nodes before e es here)
      ∙ ap (λ m. m >>= (λ n. iterate_list fuel nodes next >>= (λ values. ok (n.value ∷ values))))
          (loaded nodes before e es here)
      ∙ ap (λ m. m >>= (λ values. ok (e.1 ∷ values)))
          (forward-values fuel nodes (some e.0) es rest (omega (arith, h)))

  pub iterate_list-values :
      (fuel : ℕ) (l : ListHeader A) (es : List (ℕ × A))
      → Represents l es
      → length es < fuel
      → iterate_list fuel l.nodes (list_get_iterator l true) ≡ ok (map (λ e. e.1) es)
  unfolding list_get_iterator
  iterate_list-values fuel l es r h =
      ap (λ start. iterate_list fuel l.nodes (from start)) r.head
      ∙ forward-values fuel l.nodes none es r.linked h
