-- ===== src/Event/Loop.antt =====
-- AeProcessEvents, AeWait and AeMain of src/event/ae.c as a whole. What select finds is an argument.
use cutis.Common.{
  ℕ, zero, suc, ◌+◌, ◌*◌, ◌/◌, ◌%◌, Bool, false, not, ◌&&◌, ◌||◌, Option, none, some, List, [], ◌∷◌,
  ltb, ◌==◌, bit_and, if◌then◌else◌, Run, ok, fault, out_of_fuel, exits, ◌>>=◌,
}
use cutis.Common.Int.{ℤ, pos}
use cutis.Event.{
  Time, FileEvent, TimeEvent, EventLoop, Next, timeout, search_nearest_timer, process_file_events,
  process_time_events,
}

abbrev pub ae_file_events : ℕ
ae_file_events = 1

abbrev pub ae_time_events : ℕ
ae_time_events = 2

abbrev pub ae_all_events : ℕ
ae_all_events = 3

abbrev pub ae_dont_wait : ℕ
ae_dont_wait = 4

-- `flags & flag`
abbrev pub is_set : ℕ → ℕ → Bool
is_set flags flag = not (bit_and flags flag == 0)

-- `tvp`: NULL, or seconds and microseconds.
pub data Patience : Type 0 where
  forever : Patience
  at_most : ℤ × ℕ → Patience

-- What select returns: the bits of the descriptors that are ready, none, or -1 with EINTR or another
-- error.
pub data Select : Type 0 where
  ready : (ℕ → ℕ) → Select
  none_ready interrupted select_failed : Select

module _ {F : Type 0} where
  unfoldable pub max_fd : List (FileEvent F) → ℕ
  max_fd [] = 0
  max_fd (fe ∷ fes) = let rest = max_fd fes in if ltb rest fe.fd then fe.fd else rest

module _ {F T : Type 0} where
  unfoldable pub patience : ℕ → Time → EventLoop F T → Patience
  unfolding search_nearest_timer timeout
  patience flags now el =
      let shortest : Option (TimeEvent T) =
        if is_set flags ae_time_events && not (is_set flags ae_dont_wait)
        then search_nearest_timer el
        else none in
      elim shortest [
        | some te ↦ at_most (timeout now te.when)
        | none ↦ if is_set flags ae_dont_wait then at_most (pos 0, 0) else forever
      ]

  -- The call of select, and the events that it finds.
  unfoldable pub wait_for_files :
      {W : Type 0}
      → (F → ℕ → ℕ → EventLoop F T × W → EventLoop F T × W)
      → (Patience → Select)
      → (fuel : ℕ) → (flags : ℕ) → Time
      → EventLoop F T × W
      → Run (ℕ × EventLoop F T × W)
  unfolding patience process_file_events
  wait_for_files call select fuel flags now s = elim (select (patience flags now s.0)) [
    | ready bits ↦ process_file_events call fuel 0 bits s.0.file_events s
    | none_ready ↦ ok (0, s.0, s.1)
    | interrupted ↦ ok (0, s.0, s.1)
    | select_failed ↦ fault exits
  ]

  -- The number that is returned counts the events of files only.
  unfoldable pub process_events :
      {W : Type 0}
      → (F → ℕ → ℕ → EventLoop F T × W → EventLoop F T × W)
      → (T → ℕ → EventLoop F T × W → Next × EventLoop F T × W)
      → (Patience → Select)
      → (ℕ → Time)
      → (fuel : ℕ) → (flags : ℕ) → EventLoop F T × W
      → Run (ℕ × EventLoop F T × W)
  unfolding max_fd wait_for_files process_time_events
  process_events call_file call_time select clock fuel flags s =
      let files = is_set flags ae_file_events in
      let times = is_set flags ae_time_events in
      let highest = if files then max_fd s.0.file_events else 0 in
      let waited =
        if not (highest == 0) || (times && not (is_set flags ae_dont_wait))
        then wait_for_files call_file select fuel flags (clock 0) s
        else ok (0, s.0, s.1) in
      if not times && not files then ok (0, s.0, s.1) else do
        (processed, el, w) ← waited
        s' ←
            if times
            then process_time_events call_time clock fuel 1 el.time_event_next_id el.time_events
                (el, w)
            else ok (el, w)
        ok (processed, s'.0, s'.1)

  -- The loop of AeMain, where round `k` of it has the results `select k` and the clock `clock k`.
  unfoldable pub main_loop :
      {W : Type 0}
      → (F → ℕ → ℕ → EventLoop F T × W → EventLoop F T × W)
      → (T → ℕ → EventLoop F T × W → Next × EventLoop F T × W)
      → (select : ℕ → Patience → Select) → (clock : ℕ → ℕ → Time) → (rounds k fuel : ℕ)
      → EventLoop F T × W
      → Run (EventLoop F T × W)
  unfolding process_events
  main_loop call_file call_time select clock zero k fuel s = fault out_of_fuel
  main_loop call_file call_time select clock (suc rounds) k fuel s = do
    (processed, el, w) ←
        process_events call_file call_time (select k) (clock k) fuel ae_all_events s
    let rest = main_loop call_file call_time select clock rounds (k + 1) fuel (el, w)
    if el.stop then ok (el, w) else rest

  unfoldable pub ae_main :
      {W : Type 0}
      → (F → ℕ → ℕ → EventLoop F T × W → EventLoop F T × W)
      → (T → ℕ → EventLoop F T × W → Next × EventLoop F T × W)
      → (select : ℕ → Patience → Select) → (clock : ℕ → ℕ → Time) → (rounds fuel : ℕ)
      → EventLoop F T × W
      → Run (EventLoop F T × W)
  unfolding main_loop
  ae_main call_file call_time select clock rounds fuel s =
      main_loop call_file call_time select clock rounds 0 fuel (record s.0 { stop = false }, s.1)

-- AeWait: the bits that are ready, or what select returns instead, with the timeout it gets.
unfoldable pub wait_fd : (Patience → Select) → ℕ → ℕ → (milliseconds : ℕ) → Option ℕ
wait_fd select fd mask milliseconds =
    elim (select (at_most (pos (milliseconds / 1000), milliseconds % 1000 * 1000))) [
      | ready bits ↦ some (bit_and (bit_and mask (bits fd)) 7)
      | none_ready ↦ some 0
      | interrupted ↦ none
      | select_failed ↦ none
    ]
