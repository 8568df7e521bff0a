-- ===== src/Examples/Events.antt =====
-- The event loop at concrete inputs.
use cutis.Common.{ℕ, ◌≡◌, refl, arith, false, [], ◌∷◌, Returns, ◌==◌, if◌then◌else◌}
use cutis.Common.Int.{pos, negsuc, ◌+ℤ◌}
use cutis.Event.{Time, TimeEvent, EventLoop, Next, no_more, again, timeout, fire}
use cutis.Event.Timers.{Sleeps, timeout-Sleeps}
use cutis.Event.Rounds.{IsFresh, IsBehaved, Fired, fire-Fired}

abbrev noon : Time
noon = record { sec = 43200; ms = 900 }

-- The functions of the timers are numbers here: 0 ends its timer, the others wait so many
-- milliseconds.
abbrev call : ℕ → ℕ → EventLoop ℕ ℕ × ℕ → Next × EventLoop ℕ ℕ × ℕ
call proc id s = (if proc == 0 then no_more else again proc, s.0, s.1)

call-IsBehaved : IsBehaved call
call-IsBehaved proc id s fresh there = (fresh, there)

abbrev two_timers : EventLoop ℕ ℕ
two_timers = record {
  time_event_next_id = 2;
  file_events = [];
  time_events =
      record { id = 1; when = record { sec = 43205; ms = 0 }; proc = 1000 }
      ∷ record { id = 0; when = record { sec = 43201; ms = 100 }; proc = 0 }
      ∷ [];
  stop = false;
}

two_timers-IsFresh : IsFresh two_timers
two_timers-IsFresh = (omega arith, refl, (omega arith, refl, tt))

timeout-Sleeps_example :
    Sleeps noon (record { sec = 43201; ms = 100 }) (timeout noon (record { sec = 43201; ms = 100 }))
timeout-Sleeps_example =
    timeout-Sleeps noon (record { sec = 43201; ms = 100 }) (omega arith) (omega arith)

half_a_second : timeout noon (record { sec = 43201; ms = 400 }) ≡ (pos 0, 500000)
unfolding timeout ◌+ℤ◌
half_a_second = refl

-- A timer that is overdue by a tenth of a second.
overdue : timeout noon (record { sec = 43200; ms = 800 }) ≡ (negsuc 0, 900000)
unfolding timeout ◌+ℤ◌
overdue = refl

abbrev first_timer : TimeEvent ℕ
first_timer = record { id = 1; when = record { sec = 43205; ms = 0 }; proc = 1000 }

fire-Fired_example :
    Returns (fire call noon first_timer (two_timers, 7)) (Fired call first_timer (two_timers, 7))
fire-Fired_example =
    fire-Fired call call-IsBehaved noon first_timer (two_timers, 7) two_timers-IsFresh refl
