-- ===== src/Event/Timers.antt =====
-- The timers of src/event/ae.c: which one is next, how long to sleep, and their identifiers.
use cutis.Common.{
  ℕ, ◌+◌, ◌-◌, ◌*◌, ◌≤◌, ◌<◌, ◌≡◌, ◌⊎◌, refl, sym, ap, subst, ◌∙◌, inl, inr, true, false, Option,
  none, some, List, [], ◌∷◌, arith, Bool-cases, ltb→lt, ltb,
}
use cutis.Common.Int.{ℤ, pos, negsuc, sub_ℕ, ◌+ℤ◌, is_neg}
use cutis.Event.{
  Time, TimeEvent, EventLoop, is_earlier, timeout, nearest_from, search_nearest_timer,
}

-- `a` is not later than `b`.
abbrev NotLater : Time → Time → Type 0
NotLater a b = is_earlier b a ≡ false

NotLater-trans : (a b c : Time) → NotLater a b → NotLater b c → NotLater a c
unfolding is_earlier
NotLater-trans a b c h k = ground (arith, h, k)

earlier-NotLater : (a b : Time) → is_earlier a b ≡ true → NotLater a b
unfolding is_earlier
earlier-NotLater a b h = ground (arith, h)

NotLater-refl : (a : Time) → NotLater a a
unfolding is_earlier
NotLater-refl a = ground arith

module _ {T : Type 0} where
  abbrev Among : TimeEvent T → List (TimeEvent T) → Type 0
  Among te [] = ⊥
  Among te (t ∷ tes) = (te ≡ t) ⊎ Among te tes

  abbrev BeforeAll : Time → List (TimeEvent T) → Type 0
  BeforeAll when [] = Unit
  BeforeAll when (t ∷ tes) = NotLater when t.when × BeforeAll when tes

  -- One of the events that no other is earlier than, or none if there is none.
  abbrev pub Nearest : List (TimeEvent T) → Option (TimeEvent T) → Type 0
  Nearest tes none = tes ≡ []
  Nearest tes (some te) = Among te tes × BeforeAll te.when tes

  nearest_from-Nearest :
      (best : TimeEvent T) (tes : List (TimeEvent T))
      → (te : TimeEvent T) × (nearest_from (some best) tes ≡ some te)
        × ((te ≡ best) ⊎ Among te tes)
        × NotLater te.when best.when
        × BeforeAll te.when tes
  unfolding nearest_from
  nearest_from-Nearest best [] = (best, refl, inl refl, NotLater-refl best.when, tt)
  nearest_from-Nearest best (t ∷ tes) = elim (Bool-cases (is_earlier t.when best.when)) [
    | inl earlier ↦
        let (te, run, among, first, before) = nearest_from-Nearest t tes in
        (
          te,
          rw earlier run,
          inr among,
          NotLater-trans te.when t.when best.when first (earlier-NotLater t.when best.when earlier),
          (first, before),
        )
    | inr later ↦
        let (te, run, among, first, before) = nearest_from-Nearest best tes in
        (
          te,
          rw later run,
          elim among [ inl same ↦ inl same | inr there ↦ inr (inr there) ],
          first,
          (NotLater-trans te.when best.when t.when first later, before),
        )
  ]

  -- AeSearchNearestTimer gives one of the timers that no timer is earlier than, and none if
  -- there is none.
  pub search_nearest_timer-Nearest :
      {F : Type 0} (el : EventLoop F T) → Nearest el.time_events (search_nearest_timer el)
  unfolding search_nearest_timer nearest_from
  search_nearest_timer-Nearest el = go el.time_events
    where
      go : (tes : List (TimeEvent T)) → Nearest tes (nearest_from none tes)
      go [] = refl
      go (t ∷ tes) =
          let (te, run, among, first, before) = nearest_from-Nearest t tes in
          subst (Nearest (t ∷ tes)) (sym run) (among, (first, before))

abbrev pub total : Time → ℕ
total t = t.sec * 1000 + t.ms

-- The timeout for select: what is left until the timer, or a negative number of seconds if the
-- timer is overdue.
abbrev pub Sleeps : Time → Time → ℤ × ℕ → Type 0
Sleeps now when r =
    (total now ≤ total when
      → (s u : ℕ) × (r ≡ (pos s, u * 1000)) × (u < 1000) × (total now + s * 1000 + u ≡ total when))
    × (total when < total now → is_neg r.0 ≡ true)

sub_ℕ-pos : (a b : ℕ) → b ≤ a → sub_ℕ a b ≡ pos (a - b)
sub_ℕ-pos a b h = ground (arith, h)

sub_ℕ-negsuc : (a b : ℕ) → a < b → sub_ℕ a b ≡ negsuc (b - a - 1)
sub_ℕ-negsuc a b h = ground (arith, h)

one_less : (n : ℕ) → 0 < n → pos n +ℤ negsuc 0 ≡ pos (n - 1)
unfolding ◌+ℤ◌
one_less n h = ground (arith, h)

one_less_neg : (a b : ℕ) → a ≤ b → is_neg (sub_ℕ a b +ℤ negsuc 0) ≡ true
unfolding ◌+ℤ◌
one_less_neg a b h = elim (Bool-cases (ltb a b)) [
  | inl less ↦ rw (sub_ℕ-negsuc a b (ltb→lt a b less)) (ground arith)
  | inr same ↦ rw (sub_ℕ-pos a b (ground (arith, same))) (ground (arith, h))
]

-- The timeout that AeProcessEvents gives to select, for times of fewer than 1000 milliseconds,
-- is exactly what is left until the timer, with fewer than 1000000 microseconds, and it is a
-- negative number of seconds if the timer is overdue.
pub timeout-Sleeps :
    (now when : Time) → now.ms < 1000 → when.ms < 1000 → Sleeps now when (timeout now when)
unfolding timeout
timeout-Sleeps now when small small' = elim (Bool-cases (ltb when.ms now.ms)) [
  | inl borrow ↦
      let less = ltb→lt when.ms now.ms borrow in
      (
        λ h. (
          when.sec - now.sec - 1,
          when.ms + 1000 - now.ms,
          rw borrow (
              ap (λ z. (z, (when.ms + 1000 - now.ms) * 1000))
                (ap (λ z. z +ℤ negsuc 0)
                    (sub_ℕ-pos when.sec now.sec (omega (arith, h, small, less)))
                  ∙ one_less (when.sec - now.sec) (omega (arith, h, small, less)))),
          omega (arith, less, small),
          omega (arith, h, less, small),
        ),
        λ h. rw borrow (one_less_neg when.sec now.sec (omega (arith, h, less, small'))),
      )
  | inr plain ↦
      let more : now.ms ≤ when.ms = ground (arith, plain) in
      (
        λ h. (
          when.sec - now.sec,
          when.ms - now.ms,
          rw plain (
              ap (λ z. (z, (when.ms - now.ms) * 1000))
                (sub_ℕ-pos when.sec now.sec (omega (arith, h, small')))),
          omega (arith, small'),
          omega (arith, h, more, small'),
        ),
        λ h. rw plain (
            ap is_neg (sub_ℕ-negsuc when.sec now.sec (omega (arith, h, more, small)))
            ∙ ground arith),
      )
]
