-- ===== src/Request/Progress.antt =====
-- The loop of ParseQuery in src/server/client.c ends: each round that asks for another one leaves
-- less in the buffer.
use cutis.Request.Dispatch.{
  IsBulkLen, IsBulkLen, IsBulkLen, IsWithin, KeepBuffers, KeepBuffers, weaker-Yields,
  process_command-Yields,
}
use cutis.Common.{
  ℕ, zero, suc, ◌+◌, ◌-◌, ◌≤◌, ◌<◌, ◌≡◌, refl, sym, ap, subst, ◌∙◌, inl, inr, Bool-cases, Option,
  none, some, List, [], ◌∷◌, ◌++◌, arith, ◌==◌, ltb, leb, if◌then◌else◌, length, length-drop, take,
  drop, Bytes, Run, Fault, out_of_bounds, Yields, bind-Yields, if-Yields, ok, fault, ◌>>=◌,
}
use cutis.Common.Int.{ℤ, pos, negsuc}
use cutis.Sds.{sdsrange, sdssplitlen}
use cutis.Sds.Laws.{sdsrange-drop}
use cutis.Store.{State}
use cutis.Request.{
  CutisCommand, Connection, connected, closed, Parsed, again, finished, with_argv, with_buffer,
  process_command, next_request, parse_bulk_query, find_line, chomp, keep_tokens,
  parse_non_bulk_query, parse_once, parse_query,
}

-- A round asks for another one only with less in the buffer.
abbrev pub IsRound : ℕ → Parsed → Type 0
IsRound n (again (connected s)) = (length s.client.query_buf < n) × IsBulkLen s.client.bulk_len
IsRound n (again (closed s)) = Unit
IsRound n (finished (connected s)) = (length s.client.query_buf ≤ n) × IsBulkLen s.client.bulk_len
IsRound n (finished (closed s)) = Unit

next_request-IsRound :
    (m n : ℕ) (c : Connection) → m < n → IsWithin m c → IsRound n (next_request c)
next_request-IsRound m n (closed s) h within = tt
next_request-IsRound m n (connected s) h (shorter, bulk) =
    elim (Bool-cases (ltb 0 (length s.client.query_buf))) [
      | inl more ↦ rw more (omega (arith, shorter, h), bulk)
      | inr none_left ↦ rw none_left (omega (arith, shorter, h), bulk)
    ]

-- What parse_non_bulk_query does after its search for the end of a line.
abbrev pub parse_line : List CutisCommand → State → Option ℕ → Run Parsed
parse_line table s line_end =
    let buf = s.client.query_buf in
    elim line_end [
      | none ↦ ok (finished (if leb 1024 (length buf) then closed s else connected s))
      | some p ↦
          let s' = with_buffer (drop (p + 1) buf) s in
          let query = chomp (take p buf) in
          if length query == 0 then ok (finished (connected s')) else do
            c ←
                process_command table
                  (with_argv (keep_tokens s.client.argv (sdssplitlen b' ' query)) s')
            ok (next_request c)
    ]

-- A line that is found ends inside the buffer.
abbrev IsInside : Bytes → Option ℕ → Type 0
IsInside s none = Unit
IsInside s (some p) = p < length s

later-IsInside :
    (c : ℕ) (s : Bytes) (o : Option ℕ)
    → IsInside s o
    → IsInside (c ∷ s) (elim o [ none ↦ none | some p ↦ some (suc p) ])
later-IsInside c s none h = tt
later-IsInside c s (some p) h = omega (arith, h)

find_line-IsInside : (s : Bytes) → IsInside s (find_line s)
unfolding find_line
find_line-IsInside [] = tt
find_line-IsInside (c ∷ s) = elim (Bool-cases (c == 0)) [
  | inl ended ↦ rw ended tt
  | inr goes_on ↦ elim (Bool-cases (c == 10)) [
    | inl here ↦ rw (goes_on, here) (omega arith)
    | inr there ↦ rw (goes_on, there) (later-IsInside c s (find_line s) (find_line-IsInside s))
  ]
]

-- The next rounds of parse_query.
abbrev pub go_on : ℕ → List CutisCommand → Parsed → Run Connection
go_on fuel table parsed = elim parsed [
  | finished c ↦ ok c
  | again c ↦ elim c [ connected s' ↦ parse_query fuel table s' | closed s' ↦ ok (closed s') ]
]

pub go_on-bind :
    (fuel : ℕ) (table : List CutisCommand) (run : Run Connection)
    → (run >>= (λ c. ok (next_request c)) >>= go_on fuel table)
      ≡ (run >>= (λ c. go_on fuel table (next_request c)))
go_on-bind fuel table (ok c) = refl
go_on-bind fuel table (fault cause) = refl

-- The fuel is enough for the rounds: more of it changes nothing, and a client that is still
-- connected at the end has at most `n` bytes in its buffer; a fault is one of `F`.
abbrev pub Settles : (Fault → Type 0) → ℕ → ℕ → List CutisCommand → State → Type 0
Settles F n fuel table s =
    ((extra : ℕ) → parse_query (fuel + extra) table s ≡ parse_query fuel table s)
    × Yields F (IsWithin n) (parse_query fuel table s)

module _ (F : Fault → Type 0) (bounds : F out_of_bounds) where
  process_again-Yields :
      (table : List CutisCommand) (s : State) (n : ℕ)
      → KeepBuffers F table
      → length s.client.query_buf < n
      → Yields F (IsRound n) (process_command table s >>= (λ c. ok (next_request c)))
  process_again-Yields table s n keep shorter =
      bind-Yields F (IsWithin (length s.client.query_buf)) (IsRound n) (process_command table s)
        (λ c. ok (next_request c)) (process_command-Yields F bounds table s keep)
        (λ c within. next_request-IsRound (length s.client.query_buf) n c shorter within)

  parse_bulk_query-Yields :
      (table : List CutisCommand) (bulk_len : ℕ) (s : State)
      → KeepBuffers F table
      → 2 ≤ bulk_len
      → s.client.bulk_len ≡ pos bulk_len
      → Yields F (IsRound (length s.client.query_buf)) (parse_bulk_query table bulk_len s)
  unfolding parse_bulk_query
  parse_bulk_query-Yields table bulk_len s keep h bulk =
      let buf = s.client.query_buf in
      let s' =
        with_buffer (sdsrange buf (pos bulk_len) (negsuc 0))
          (with_argv (s.client.argv ++ take (bulk_len - 2) buf ∷ []) s) in
      if-Yields F (IsRound (length buf)) (leb bulk_len (length buf)) _ (ok (finished (connected s)))
        (λ there. process_again-Yields table s' (length buf) keep (
          ground
            (arith, h, there, ap length (sdsrange-drop buf bulk_len), length-drop bulk_len buf)))
        (λ _. (omega arith, subst IsBulkLen (sym bulk) h))

  line-Yields :
      (table : List CutisCommand) (s : State) (line_end : Option ℕ)
      → KeepBuffers F table
      → IsBulkLen s.client.bulk_len
      → IsInside s.client.query_buf line_end
      → Yields F (IsRound (length s.client.query_buf)) (parse_line table s line_end)
  line-Yields table s none keep bulk inside =
      elim (Bool-cases (leb 1024 (length s.client.query_buf))) [
        | inl too_long ↦ rw too_long tt
        | inr short ↦ rw short (omega arith, bulk)
      ]
  line-Yields table s (some p) keep bulk inside =
      let buf = s.client.query_buf in
      let s' = with_buffer (drop (p + 1) buf) s in
      let query = chomp (take p buf) in
      let shorter : length (drop (p + 1) buf) < length buf =
        omega (arith, inside, length-drop (p + 1) buf) in
      if-Yields F (IsRound (length buf)) (length query == 0) (ok (finished (connected s'))) _
        (λ _. (omega (arith, shorter), bulk))
        (λ _.
          process_again-Yields table
            (with_argv (keep_tokens s.client.argv (sdssplitlen b' ' query)) s') (length buf) keep
            shorter)

  parse_once-Yields :
      (table : List CutisCommand) (s : State) (bulk_len : ℤ)
      → s.client.bulk_len ≡ bulk_len
      → KeepBuffers F table
      → IsBulkLen bulk_len
      → Yields F (IsRound (length s.client.query_buf)) (elim bulk_len [
        | negsuc _ ↦ parse_non_bulk_query table s
        | pos n ↦ parse_bulk_query table n s
      ])
  unfolding parse_non_bulk_query
  parse_once-Yields table s (pos n) same keep bulk =
      parse_bulk_query-Yields table n s keep bulk same
  parse_once-Yields table s (negsuc n) same keep bulk =
      line-Yields table s (find_line s.client.query_buf) keep (subst IsBulkLen (sym same) bulk)
        (find_line-IsInside s.client.query_buf)

  -- Two continuations that agree on what a run yields.
  bind_same :
      (P : Parsed → Type 0) (m : Run Parsed) (f g : Parsed → Run Connection)
      → Yields F P m
      → ((parsed : Parsed) → P parsed → f parsed ≡ g parsed)
      → (m >>= f) ≡ (m >>= g)
  bind_same P (ok parsed) f g h same = same parsed h
  bind_same P (fault cause) f g h same = refl

  -- Let `F` be a set of faults with the read past an array. For a table of commands that, if
  -- they return, do not lengthen the buffer of the client, and whose faults are in `F`, the
  -- rounds of ParseQuery end: with more fuel than bytes in the buffer, any more fuel gives the
  -- same result, whose fault, if it is one, is in `F`, so that fuel is lacking only where a
  -- command lacks it. A client that is still connected then has no more in its buffer than
  -- before, and waits for a line or for at least two bytes.
  pub parse_query-Settles :
      (fuel : ℕ) (table : List CutisCommand) (s : State)
      → KeepBuffers F table
      → IsBulkLen s.client.bulk_len
      → length s.client.query_buf < fuel
      → Settles F (length s.client.query_buf) fuel table s
  unfolding parse_query parse_once
  parse_query-Settles zero table s keep bulk h = absurd (omega (arith, h))
  parse_query-Settles (suc fuel) table s keep bulk h =
      let n = length s.client.query_buf in
      let round = parse_once-Yields table s s.client.bulk_len refl keep bulk in
      let next : (parsed : Parsed)
          → IsRound n parsed
          → ((extra : ℕ) → go_on (fuel + extra) table parsed ≡ go_on fuel table parsed)
            × Yields F (IsWithin n) (go_on fuel table parsed) =
        λ parsed.
          elim parsed
            as (λ parsed.
              IsRound n parsed
              → ((extra : ℕ) → go_on (fuel + extra) table parsed ≡ go_on fuel table parsed)
                × Yields F (IsWithin n) (go_on fuel table parsed)) [
                  | finished (connected s') ↦ λ round. (λ extra. refl, round)
                  | finished (closed s') ↦ λ round. (λ extra. refl, tt)
                  | again (closed s') ↦ λ round. (λ extra. refl, tt)
                  | again (connected s') ↦ λ (shorter, bulk').
                      let (same, within) =
                        parse_query-Settles fuel table s' keep bulk' (omega (arith, shorter, h)) in
                      (
                        same,
                        weaker-Yields F bounds (length s'.client.query_buf) n
                            (parse_query fuel table s') (omega (arith, shorter)) within,
                      )
                ] in
      (
        λ extra.
            let more : suc fuel + extra ≡ suc (fuel + extra) = omega arith in
            ap (λ f. parse_query f table s) more
            ∙ bind_same (IsRound n) _ (go_on (fuel + extra) table) (go_on fuel table) round
                (λ parsed r. (next parsed r).0 extra),
        bind-Yields F (IsRound n) (IsWithin n) _ (go_on fuel table) round
            (λ parsed r. (next parsed r).1),
      )
