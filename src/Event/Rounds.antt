-- ===== src/Event/Rounds.antt =====
-- The rounds of AeProcessEvents of src/event/ae.c over the time events.
use cutis.Common.{
  ℕ, zero, suc, ◌+◌, ◌≡◌, ◌⊎◌, refl, ◌∙◌, inl, inr, Bool, true, false, List, [], ◌∷◌, arith,
  Bool-cases, leb, Run, ok, fault, out_of_fuel, ◌>>=◌, Returns,
}
use cutis.Event.{
  Time, TimeEvent, EventLoop, Next, no_more, again, is_earlier, delete_time_event,
  create_time_event, set_when, add_milliseconds_to_now, fire, process_time_events,
}
use cutis.Event.Identifiers.{
  has_id, AreFresh, drop_time_event-Dropped, set_when-Returns, fresh_id, later_fresh,
}

abbrev pub is_again : Next → Bool
is_again no_more = false
is_again (again _) = true

module _ {F T : Type 0} where
  abbrev pub IsFresh : EventLoop F T → Type 0
  IsFresh el = AreFresh el.time_event_next_id el.time_events

  -- A new timer gets an identifier that no other has.
  pub create_time_event-IsFresh :
      (now : Time) (milliseconds : ℕ) (proc : T) (el : EventLoop F T)
      → IsFresh el
      → IsFresh (create_time_event now milliseconds proc el).1
  unfolding create_time_event
  create_time_event-IsFresh now milliseconds proc el fresh =
      let id = el.time_event_next_id in
      (
        omega arith,
        fresh_id id id el.time_events fresh (omega arith),
        later_fresh id el.time_events fresh,
      )

  module _ {W : Type 0} (call : T → ℕ → EventLoop F T × W → Next × EventLoop F T × W) where
    -- A timer's function keeps the identifiers fresh, and does not delete its own timer.
    abbrev pub IsBehaved : Type 0
    IsBehaved =
        (proc : T) (id : ℕ) (s : EventLoop F T × W)
        → IsFresh s.0
        → has_id id s.0.time_events ≡ true
        → IsFresh (call proc id s).1 × (has_id id (call proc id s).1.time_events ≡ true)

    -- Fresh identifiers, and the timer is there exactly if its function asks for it again.
    abbrev pub Fired : TimeEvent T → EventLoop F T × W → EventLoop F T × W → Type 0
    Fired te s r = IsFresh r.0 × (has_id te.id r.0.time_events ≡ is_again (call te.proc te.id s).0)

    module _ (behaved : IsBehaved) where
      -- A round of AeProcessEvents with a timer that is there, whose function keeps the
      -- identifiers of the timers fresh and does not delete its own timer, ends without a fault,
      -- so no timer is used after it is freed: every identifier stays below the next one and
      -- none occurs twice, and the timer is there afterwards exactly if its function asked for
      -- another call.
      pub fire-Fired :
          (now : Time) (te : TimeEvent T) (s : EventLoop F T × W)
          → IsFresh s.0
          → has_id te.id s.0.time_events ≡ true
          → Returns (fire call now te s) (Fired te s)
      unfolding fire delete_time_event
      fire-Fired now te s fresh there =
          let (fresh', there') = behaved te.proc te.id s fresh there in
          go (call te.proc te.id s) fresh' there'
        where
          go :
              (r : Next × EventLoop F T × W)
              → IsFresh r.1
              → has_id te.id r.1.time_events ≡ true
              → Returns {S = EventLoop F T × W}
                  (elim r.0 [
                    | no_more ↦ ok ((delete_time_event te.id r.1).1, r.2)
                    | again milliseconds ↦
                        set_when te.id (add_milliseconds_to_now milliseconds now) r.1.time_events
                        >>= (λ tes. ok (record r.1 { time_events = tes }, r.2))
                  ])
                  λ t. IsFresh t.0 × (has_id te.id t.0.time_events ≡ is_again r.0)
          go (no_more, el, w) f h =
              let d = drop_time_event-Dropped el.time_event_next_id te.id el.time_events f in
              (((delete_time_event te.id el).1, w), refl, (d.fresh, d.gone))
          go (again milliseconds, el, w) f h =
              let (tes, run, (f', same)) =
                set_when-Returns el.time_event_next_id te.id
                  (add_milliseconds_to_now milliseconds now) el.time_events f h in
              ((record el { time_events = tes }, w), rw (run, ◌>>=◌) refl, (f', same te.id ∙ h))

      abbrev AllThere : List (TimeEvent T) → List (TimeEvent T) → Type 0
      AllThere [] all = Unit
      AllThere (te ∷ tes) all = (has_id te.id all ≡ true) × AllThere tes all

      more_there :
          (x : TimeEvent T) (tes all : List (TimeEvent T))
          → AllThere tes all
          → AllThere tes (x ∷ all)
      more_there x [] all h = tt
      more_there x (te ∷ tes) all (h, hs) = (ground (arith, h), more_there x tes all hs)

      all_there : (tes : List (TimeEvent T)) → AllThere tes tes
      all_there [] = tt
      all_there (te ∷ tes) = (ground arith, more_there te tes tes (all_there tes))

      -- The rounds end with fresh identifiers, or more of them follow than there is fuel.
      abbrev pub IsSafe : Run (EventLoop F T × W) → Type 0
      IsSafe r = (r ≡ fault out_of_fuel) ⊎ Returns r (λ s. IsFresh s.0)

      rounds-IsSafe :
          (clock : ℕ → Time) (fuel k next_id : ℕ) (tes : List (TimeEvent T)) (s : EventLoop F T × W)
          → IsFresh s.0
          → AllThere tes s.0.time_events
          → IsSafe (process_time_events call clock fuel k next_id tes s)
      unfolding process_time_events
      rounds-IsSafe clock zero k next_id tes s fresh there = inl refl
      rounds-IsSafe clock (suc fuel) k next_id [] s fresh there = inr (s, refl, fresh)
      rounds-IsSafe clock (suc fuel) k next_id (te ∷ tes) s fresh (here, there) =
          elim (Bool-cases (leb next_id te.id)) [
            | inl new ↦ rw new (rounds-IsSafe clock fuel k next_id tes s fresh there)
            | inr old ↦ elim (Bool-cases (is_earlier (clock k) te.when)) [
              | inl early ↦
                  rw (old, early) (rounds-IsSafe clock fuel (k + 1) next_id tes s fresh there)
              | inr due ↦
                  let (r, run, (fresh', kept)) = fire-Fired (clock (k + 1)) te s fresh here in
                  rw (old, due, run, ◌>>=◌)
                    (rounds-IsSafe clock fuel (k + 2) next_id r.0.time_events r fresh'
                      (all_there r.0.time_events))
            ]
          ]

      pub process_time_events-IsSafe :
          (clock : ℕ → Time) (fuel : ℕ) (s : EventLoop F T × W)
          → IsFresh s.0
          → IsSafe (process_time_events call clock fuel 0 s.0.time_event_next_id s.0.time_events s)
      process_time_events-IsSafe clock fuel s fresh =
          rounds-IsSafe clock fuel 0 s.0.time_event_next_id s.0.time_events s fresh
            (all_there s.0.time_events)
