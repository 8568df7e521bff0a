-- ===== src/Dict/Expand.antt =====
-- `DictExpand` of src/data_struct/dict.c: moving every entry to a table of another size.
use mathlib.Core.List.{flatten}
use cutis.Common.{
  ℕ, zero, suc, ◌+◌, ◌-◌, ◌≤◌, ◌<◌, ◌≡◌, refl, ap, inl, inr, none, List, [], ◌∷◌, ◌++◌, arith,
  Bool-cases, Option-cases, ◌==◌, length, replicate, get_or-replicate, length-append,
  eq_nil_of_length, length-replicate, u32_mod, dec32, dec32_lem, Returns,
}
use cutis.Dict.{DictType, Entries, slot, search, move_chain, move_all}
use cutis.Dict.Chain.{first, count, search-eq-none, search-append, count-append}
use cutis.Dict.Buckets.{IsPlaced, view, Holds, at-home, push-Holds}

flatten-replicate {ℓ} : {A : Type ℓ} (n : ℕ) → flatten {A = A} (replicate n []) ≡ []
unfolding flatten
flatten-replicate zero = refl
flatten-replicate (suc n) = flatten-replicate n

module _ {ℓ} {K V : Type ℓ} ⦃type : DictType K⦄ where
  pub replicate-Holds :
      (mask : ℕ) → Holds {K = K} {V = V} mask 0 (λ _. none) (replicate (mask + 1) [])
  unfolding view count search
  replicate-Holds mask = record {
    width = length-replicate (mask + 1) [];
    entries = ap length (flatten-replicate (mask + 1));
    placed =
        λ q i. rw (get_or-replicate {A = Entries K V} (mask + 1) i []) (omega arith, λ _. refl);
    reads = λ q. rw (get_or-replicate {A = Entries K V} (mask + 1) (slot mask q) []) refl;
  }

  -- What moving the entries `es` into `n` gives.
  abbrev pub Moved : ℕ → ℕ → Entries K V → List (Entries K V) → ℕ × List (Entries K V) → Type ℓ
  Moved mask used es n r =
      (r.0 + length es ≡ used)
      × Holds mask (length (flatten n) + length es) (λ q. first (view mask n q) (search q es)) r.1

  move_chain-Moved :
      (mask used : ℕ) (es : Entries K V) (n : List (Entries K V))
      → length n ≡ mask + 1
      → IsPlaced mask n
      → length es ≤ used
      → used < u32_mod
      → ((q : K) → count q es ≤ 1)
      → ((q : K) → 0 < count q es → view mask n q ≡ none)
      → Returns (move_chain mask used es n) (Moved mask used es n)
  unfolding move_chain count search dec32
  move_chain-Moved mask used [] n width placed fits small once apart = (
    (used, n),
    refl,
    (
      omega arith,
      record {
        width = width;
        entries = omega arith;
        placed = placed;
        reads = λ q. ground (arith, Option-cases (view mask n q));
      },
    ),
  )
  move_chain-Moved mask used ((k, v) ∷ es) n width placed fits small once apart =
      let absent = apart k (ground (arith, type.key_compare_iff k k)) in
      let step = push-Holds mask n width k placed v absent in
      let down = dec32_lem used (omega arith) small in
      let (r, run, (left, t)) =
        move_chain-Moved mask (used - 1) es _ (step.width) step.placed (omega arith) (omega arith)
          (λ q. omega (arith, once q))
          (λ q h. ground (arith, step.reads q, once q, apart q, type.key_compare_iff q k)) in
      (
        r,
        rw (at-home mask n width k, down) run,
        (
          omega (arith, left),
          record {
            width = t.width;
            entries = omega (arith, t.entries, step.entries);
            placed = t.placed;
            reads = λ q. ground (
              arith,
              t.reads q,
              step.reads q,
              type.key_compare_iff q k,
              Option-cases (view mask n q),
            );
          },
        ),
      )

  pub move_all-Moved :
      (mask used : ℕ) (cs n : List (Entries K V))
      → length n ≡ mask + 1
      → IsPlaced mask n
      → length (flatten cs) ≡ used
      → used < u32_mod
      → ((q : K) → count q (flatten cs) ≤ 1)
      → ((q : K) → 0 < count q (flatten cs) → view mask n q ≡ none)
      → Returns (move_all mask used cs n) (Moved mask used (flatten cs) n)
  unfolding move_all flatten count search
  move_all-Moved mask used [] n width placed total small once apart = (
    (used, n),
    refl,
    (
      omega arith,
      record {
        width = width;
        entries = omega arith;
        placed = placed;
        reads = λ q. ground (arith, Option-cases (view mask n q));
      },
    ),
  )
  move_all-Moved mask used (c ∷ cs) n width placed total small once apart =
      let split = length-append c (flatten cs) in
      elim (Bool-cases (used == 0)) [
        | inl done ↦
            let zero_left : length (c ++ flatten cs) ≡ 0 = ground arith in
            (
              (used, n),
              rw done,
              (
                omega (arith, zero_left),
                record {
                  width = width;
                  entries = omega (arith, zero_left);
                  placed = placed;
                  reads = λ q.
                      rw (eq_nil_of_length (c ++ flatten cs) zero_left)
                        (ground (arith, Option-cases (view mask n q)));
                },
              ),
            )
        | inr more ↦
            let ((used', n'), run, (left, t)) =
              move_chain-Moved mask used c n width placed (omega (arith, split)) small
                (λ q. omega (arith, once q, count-append q c (flatten cs)))
                (λ q h. apart q (omega (arith, h, count-append q c (flatten cs)))) in
            let (r, run', (left', t')) =
              move_all-Moved mask used' cs n' t.width t.placed (omega (arith, split, left))
                (omega (arith, left)) (λ q. omega (arith, once q, count-append q c (flatten cs)))
                (λ q h. ground (
                  arith,
                  t.reads q,
                  apart q,
                  once q,
                  count-append q c (flatten cs),
                  search-eq-none q c,
                )) in
            (
              r,
              rw (more, run) run',
              (
                omega (arith, split, left, left'),
                record {
                  width = t'.width;
                  entries = omega (arith, split, t.entries, t'.entries);
                  placed = t'.placed;
                  reads = λ q. rw (search-append q c (flatten cs)) (
                      ground (
                        arith,
                        t.reads q,
                        t'.reads q,
                        Option-cases (view mask n q),
                        Option-cases (search q c),
                      ));
                },
              ),
            )
      ]
