-- ===== src/Event.antt =====
-- The event loop of src/event/ae.c: the lists of the events, the choice of the time to sleep and
-- the calls of the events. What is called, the clock and select are arguments; times and intervals
-- are not negative.
pub mod Timers
pub mod Identifiers
pub mod Rounds
pub mod Loop
use cutis.Common.{
  ℕ, zero, suc, ◌+◌, ◌-◌, ◌*◌, ◌/◌, ◌%◌, Bool, true, false, not, ◌&&◌, ◌||◌, Option, none, some,
  List, [], ◌∷◌, ltb, leb, ◌==◌, bit_and, if◌then◌else◌, Run, ok, fault, out_of_fuel,
  use_after_free, ◌>>=◌,
}
use cutis.Common.Int.{ℤ, pos, negsuc, sub_ℕ, ◌+ℤ◌}

abbrev pub ae_readable : ℕ
ae_readable = 1

abbrev pub ae_writable : ℕ
ae_writable = 2

abbrev pub ae_exception : ℕ
ae_exception = 4

-- Seconds and milliseconds.
pub record Time : Type 0 where
  pub sec : ℕ
  pub ms : ℕ

-- `proc` is the function with its `client_data`.
pub record FileEvent (F : Type 0) : Type 0 where
  pub fd : ℕ
  pub mask : ℕ
  pub proc : F

pub record TimeEvent (T : Type 0) : Type 0 where
  pub id : ℕ
  pub when : Time
  pub proc : T

pub record EventLoop (F T : Type 0) : Type 0 where
  pub time_event_next_id : ℕ
  pub file_events : List (FileEvent F)
  pub time_events : List (TimeEvent T)
  pub stop : Bool

-- What a timer's function returns: AE_NOMORE, or milliseconds.
pub data Next : Type 0 where
  no_more : Next
  again : ℕ → Next

-- AeAddMillisecondsToNow
unfoldable pub add_milliseconds_to_now : ℕ → Time → Time
add_milliseconds_to_now milliseconds now =
    let ms = now.ms + milliseconds % 1000 in
    let sec = now.sec + milliseconds / 1000 in
    if leb 1000 ms then record { sec = sec + 1; ms = ms - 1000 } else record { sec = sec; ms = ms }

unfoldable pub is_earlier : Time → Time → Bool
is_earlier a b = ltb a.sec b.sec || (a.sec == b.sec && ltb a.ms b.ms)

-- The timeout for select, seconds and microseconds, until `when`.
unfoldable pub timeout : Time → Time → ℤ × ℕ
timeout now when =
    if ltb when.ms now.ms
    then (sub_ℕ when.sec now.sec +ℤ negsuc 0, (when.ms + 1000 - now.ms) * 1000)
    else (sub_ℕ when.sec now.sec, (when.ms - now.ms) * 1000)

abbrev pub clear_fd : ℕ → (ℕ → ℕ) → ℕ → ℕ
clear_fd fd ready n = if n == fd then 0 else ready n

module _ {F : Type 0} where
  -- The first event of the descriptor that shares a bit of the mask gets the new function.
  unfoldable pub set_file_proc : ℕ → ℕ → F → List (FileEvent F) → Option (List (FileEvent F))
  set_file_proc fd mask proc [] = none
  set_file_proc fd mask proc (fe ∷ fes) =
      let rest = set_file_proc fd mask proc fes in
      if fe.fd == fd && not (bit_and fe.mask mask == 0)
      then some (record fe { proc = proc } ∷ fes)
      else elim rest [ none ↦ none | some fes' ↦ some (fe ∷ fes') ]

  unfoldable pub drop_file_event : ℕ → ℕ → List (FileEvent F) → List (FileEvent F)
  drop_file_event fd mask [] = []
  drop_file_event fd mask (fe ∷ fes) =
      if fe.fd == fd && fe.mask == mask then fes else fe ∷ drop_file_event fd mask fes

  -- The bits of the mask of an event that select found.
  unfoldable pub ready_mask : (ℕ → ℕ) → FileEvent F → ℕ
  ready_mask ready fe = bit_and (bit_and fe.mask (ready fe.fd)) 7

module _ {T : Type 0} where
  -- Whether the event was there, and the events without it.
  unfoldable pub drop_time_event : ℕ → List (TimeEvent T) → Bool × List (TimeEvent T)
  drop_time_event id [] = (false, [])
  drop_time_event id (te ∷ tes) =
      let rest = drop_time_event id tes in
      if te.id == id then (true, tes) else (rest.0, te ∷ rest.1)

  -- The loop of AeSearchNearestTimer; `nearest` is the best so far.
  unfoldable pub nearest_from : Option (TimeEvent T) → List (TimeEvent T) → Option (TimeEvent T)
  unfolding is_earlier
  nearest_from nearest [] = nearest
  nearest_from none (te ∷ tes) = nearest_from (some te) tes
  nearest_from (some best) (te ∷ tes) =
      nearest_from (some (if is_earlier te.when best.when then te else best)) tes

  -- The new time of an event, which is lost if its function has deleted it.
  unfoldable pub set_when : ℕ → Time → List (TimeEvent T) → Run (List (TimeEvent T))
  set_when id when [] = fault use_after_free
  set_when id when (te ∷ tes) =
      let rest = set_when id when tes in
      if te.id == id
      then ok (record te { when = when } ∷ tes)
      else rest >>= (λ tes'. ok (te ∷ tes'))

module _ {F T : Type 0} where
  unfoldable pub create_event_loop : EventLoop F T
  create_event_loop = record {
    time_event_next_id = 0;
    file_events = [];
    time_events = [];
    stop = false;
  }

  unfoldable pub stop_loop : EventLoop F T → EventLoop F T
  stop_loop el = record el { stop = true }

  unfoldable pub create_file_event : ℕ → ℕ → F → EventLoop F T → EventLoop F T
  unfolding set_file_proc
  create_file_event fd mask proc el = elim (set_file_proc fd mask proc el.file_events) [
    | some fes ↦ record el { file_events = fes }
    | none ↦ record el {
      file_events = record { fd = fd; mask = mask; proc = proc } ∷ el.file_events;
    }
  ]

  unfoldable pub delete_file_event : ℕ → ℕ → EventLoop F T → EventLoop F T
  unfolding drop_file_event
  delete_file_event fd mask el = record el { file_events = drop_file_event fd mask el.file_events }

  unfoldable pub create_time_event : Time → ℕ → T → EventLoop F T → ℕ × EventLoop F T
  unfolding add_milliseconds_to_now
  create_time_event now milliseconds proc el = (
    el.time_event_next_id,
    record el {
      time_event_next_id = el.time_event_next_id + 1;
      time_events =
          record {
            id = el.time_event_next_id;
            when = add_milliseconds_to_now milliseconds now;
            proc = proc;
          }
          ∷ el.time_events;
    },
  )

  unfoldable pub delete_time_event : ℕ → EventLoop F T → Bool × EventLoop F T
  unfolding drop_time_event
  delete_time_event id el =
      let (found, tes) = drop_time_event id el.time_events in
      (found, record el { time_events = tes })

  unfoldable pub search_nearest_timer : EventLoop F T → Option (TimeEvent T)
  unfolding nearest_from
  search_nearest_timer el = nearest_from none el.time_events

  -- A time event that is due: its function is called, and then it is deleted or set again.
  unfoldable pub fire :
      {W : Type 0}
      → (T → ℕ → EventLoop F T × W → Next × EventLoop F T × W)
      → Time
      → TimeEvent T
      → EventLoop F T × W
      → Run (EventLoop F T × W)
  unfolding delete_time_event set_when add_milliseconds_to_now
  fire call now te s =
      let (ret, el, w) = call te.proc te.id s in
      elim ret [
        | no_more ↦ ok ((delete_time_event te.id el).1, w)
        | again milliseconds ↦
            set_when te.id (add_milliseconds_to_now milliseconds now) el.time_events
            >>= (λ tes. ok (record el { time_events = tes }, w))
      ]

  -- The loop over the time events: after a call it starts again with the first event, and events
  -- that were created since it began are left out. The clock is read at `clock k`, `clock (k + 1)`
  -- and so on.
  unfoldable pub process_time_events :
      {W : Type 0}
      → (T → ℕ → EventLoop F T × W → Next × EventLoop F T × W)
      → (ℕ → Time)
      → (fuel k next_id : ℕ) → List (TimeEvent T)
      → EventLoop F T × W
      → Run (EventLoop F T × W)
  unfolding fire is_earlier
  process_time_events call clock zero k next_id tes s = fault out_of_fuel
  process_time_events call clock (suc fuel) k next_id [] s = ok s
  process_time_events call clock (suc fuel) k next_id (te ∷ tes) s =
      let skip = process_time_events call clock fuel k next_id tes s in
      let wait = process_time_events call clock fuel (k + 1) next_id tes s in
      let called =
        fire call (clock (k + 1)) te s
        >>= (λ s'. process_time_events call clock fuel (k + 2) next_id s'.0.time_events s') in
      if leb next_id te.id then skip else if is_earlier (clock k) te.when then wait else called

  -- The loop over the file events; `ready` has the bits that select found for each descriptor,
  -- which are cleared after the call. With the events it counts the calls.
  unfoldable pub process_file_events :
      {W : Type 0}
      → (F → ℕ → ℕ → EventLoop F T × W → EventLoop F T × W)
      → (fuel processed : ℕ) → (ℕ → ℕ)
      → List (FileEvent F)
      → EventLoop F T × W
      → Run (ℕ × EventLoop F T × W)
  unfolding ready_mask
  process_file_events call zero processed ready fes s = fault out_of_fuel
  process_file_events call (suc fuel) processed ready [] s = ok (processed, s.0, s.1)
  process_file_events call (suc fuel) processed ready (fe ∷ fes) s =
      let mask = ready_mask ready fe in
      let skip = process_file_events call fuel processed ready fes s in
      let s' = call fe.proc fe.fd mask s in
      let called =
        process_file_events call fuel (processed + 1) (clear_fd fe.fd ready) s'.0.file_events s' in
      if mask == 0 then skip else called
