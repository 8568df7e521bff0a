-- ===== src/Event/Identifiers.antt =====
-- The identifiers of the timers of src/event/ae.c, and one round of AeProcessEvents over them.
use cutis.Common.{
  ℕ, ◌+◌, ◌≤◌, ◌<◌, ◌≡◌, refl, ap, subst, ◌∙◌, inl, inr, Bool, true, false, ◌||◌, List, [], ◌∷◌,
  arith, Bool-cases, ==_iff, ◌==◌, ◌>>=◌, Returns,
}
use cutis.Event.{Time, TimeEvent, drop_time_event, set_when}

module _ {T : Type 0} where
  abbrev pub has_id : ℕ → List (TimeEvent T) → Bool
  has_id id [] = false
  has_id id (te ∷ tes) = te.id == id || has_id id tes

  -- Every identifier is below the next one, and no two events share one.
  abbrev pub AreFresh : ℕ → List (TimeEvent T) → Type 0
  AreFresh next_id [] = Unit
  AreFresh next_id (te ∷ tes) =
      (te.id < next_id) × (has_id te.id tes ≡ false) × AreFresh next_id tes

  pub fresh_id :
      (next_id id : ℕ) (tes : List (TimeEvent T))
      → AreFresh next_id tes
      → next_id ≤ id
      → has_id id tes ≡ false
  fresh_id next_id id [] fresh h = refl
  fresh_id next_id id (te ∷ tes) (below, apart, fresh) h =
      let other : (te.id == id) ≡ false = ground (arith, below, h) in
      rw (other, fresh_id next_id id tes fresh h) refl

  pub later_fresh :
      (next_id : ℕ) (tes : List (TimeEvent T)) → AreFresh next_id tes → AreFresh (next_id + 1) tes
  later_fresh next_id [] fresh = tt
  later_fresh next_id (te ∷ tes) (below, apart, fresh) =
      (omega (arith, below), apart, later_fresh next_id tes fresh)

  dropped_others :
      (id j : ℕ) (tes : List (TimeEvent T))
      → (id == j) ≡ false
      → has_id j (drop_time_event id tes).1 ≡ has_id j tes
  unfolding drop_time_event
  dropped_others id j [] apart = refl
  dropped_others id j (te ∷ tes) apart = elim (Bool-cases (te.id == id)) [
    | inl here ↦
        let other : (te.id == j) ≡ false = ground (arith, here, apart) in rw (here, other) refl
    | inr there ↦ rw there (ap (λ b. te.id == j || b) (dropped_others id j tes apart))
  ]

  dropped_absent :
      (id j : ℕ) (tes : List (TimeEvent T))
      → has_id j tes ≡ false
      → has_id j (drop_time_event id tes).1 ≡ false
  unfolding drop_time_event
  dropped_absent id j [] h = refl
  dropped_absent id j (te ∷ tes) h = elim (Bool-cases (te.id == id)) [
    | inl here ↦ rw here (ground (arith, h))
    | inr there ↦
        let other : (te.id == j) ≡ false = ground (arith, h) in
        let rest : has_id j tes ≡ false = ground (arith, h) in
        rw (there, other) (dropped_absent id j tes rest)
  ]

  -- The event is gone, the others are there as before, and identifiers stay fresh.
  pub record Dropped (next_id id : ℕ) (tes : List (TimeEvent T)) (r : Bool × List (TimeEvent T))
      : Type 0 where
    pub found : r.0 ≡ has_id id tes
    pub gone : has_id id r.1 ≡ false
    pub others : (j : ℕ) → (id == j) ≡ false → has_id j r.1 ≡ has_id j tes
    pub fresh : AreFresh next_id r.1

  pub drop_time_event-Dropped :
      (next_id id : ℕ) (tes : List (TimeEvent T))
      → AreFresh next_id tes
      → Dropped next_id id tes (drop_time_event id tes)
  unfolding drop_time_event
  drop_time_event-Dropped next_id id [] fresh = record {
    found = refl;
    gone = refl;
    others = λ j h. refl;
    fresh = tt;
  }
  drop_time_event-Dropped next_id id (te ∷ tes) (below, apart, fresh) =
      let d = drop_time_event-Dropped next_id id tes fresh in
      elim (Bool-cases (te.id == id)) [
        | inl here ↦ record {
          found = rw here refl;
          gone = rw here (subst (λ n. has_id n tes ≡ false) ((==_iff te.id id).0 here) apart);
          others = λ j h. dropped_others id j (te ∷ tes) h;
          fresh = rw here fresh;
        }
        | inr there ↦ record {
          found = rw there d.found;
          gone = rw there (rw there d.gone);
          others = λ j h. dropped_others id j (te ∷ tes) h;
          fresh = rw there (below, dropped_absent id te.id tes apart, d.fresh);
        }
      ]

  -- Another time for an event that is there.
  pub set_when-Returns :
      (next_id id : ℕ) (when : Time) (tes : List (TimeEvent T))
      → AreFresh next_id tes
      → has_id id tes ≡ true
      → Returns
          (set_when id when tes)
          λ r. AreFresh next_id r × ((j : ℕ) → has_id j r ≡ has_id j tes)
  unfolding set_when
  set_when-Returns next_id id when [] fresh there = absurd (ground (arith, there))
  set_when-Returns next_id id when (te ∷ tes) (below, apart, fresh) there =
      elim (Bool-cases (te.id == id)) [
        | inl here ↦
            (record te { when = when } ∷ tes, rw here refl, ((below, apart, fresh), λ j. refl))
        | inr other ↦
            let later : has_id id tes ≡ true = ground (arith, there, other) in
            let (r, run, (fresh', same)) = set_when-Returns next_id id when tes fresh later in
            (
              te ∷ r,
              rw (other, run, ◌>>=◌) refl,
              ((below, same te.id ∙ apart, fresh'), λ j. ap (λ b. te.id == j || b) (same j)),
            )
      ]
