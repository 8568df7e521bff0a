-- ===== src/Request/Bulk.antt =====
-- Requests whose last argument comes after the line, with its length in the line: the part of
-- src/server/client.c and of ProcessCommand in src/commands/command.c that reads them.
use cutis.Request.Counts.{
  print_nat-AreWords, append-AreWords, append-AreWords, atoi-print_nat, sdstolower_twice,
  sdstolower_twice, last-argument, last-argument,
}
use cutis.Common.{
  ℕ, suc, ◌+◌, ◌-◌, ◌≤◌, ◌<◌, ◌≡◌, refl, sym, ap, ◌∙◌, inl, inr, true, false, ◌&&◌, Bool-cases,
  some, List, [], ◌∷◌, ◌++◌, arith, ltb, leb, if◌then◌else◌, length, length-append, take, drop,
  take-append, drop-append, append_assoc, Bytes, codes, Run, ok, ◌>>=◌,
}
use cutis.Common.Int.{pos, negsuc}
use cutis.Dict.{at}
use cutis.Decimal.{atoi, print_nat}
use cutis.Sds.{sdsrange, sdstolower}
use cutis.Sds.Laws.{sdsrange-drop}
use cutis.Store.{State, arg}
use cutis.Request.Progress.{go_on, go_on-bind}
use cutis.Request.Dispatch.{start_counted, dispatch}
use cutis.Request.Inline.{idle}
use cutis.Request.Lines.{AreWords, request_line, parse_non_bulk_query-request}
use cutis.Request.{
  CutisCommand, bulk_command, Connection, connected, closed, with_argv, with_buffer, with_bulk_len,
  lookup_command, same_string, wrong_arity, is_bulk, execute, read_bulk, start_bulk,
  process_command, next_request, parse_bulk_query, parse_once, parse_query, max_args,
  max_string_length,
}

-- A request for the command `cmd` of the table, whose last argument is `data`.
pub record IsBulkRequest (table : List CutisCommand) (cmd : CutisCommand) (name : Bytes)
    (args : List Bytes) (payload : Bytes) : Type 0 where
  pub words : AreWords (name ∷ args)
  pub room : length args + 2 ≤ max_args
  pub known : lookup_command table (sdstolower name) ≡ some cmd
  pub no_quit : same_string (sdstolower name) (codes "quit") ≡ false
  pub bulk : cmd.type ≡ bulk_command
  pub arity : wrong_arity cmd.arity (length args + 2) ≡ false
  pub small : length payload ≤ max_string_length

module _ {table : List CutisCommand} {cmd : CutisCommand} {name : Bytes} {args : List Bytes}
    {payload : Bytes} (r : IsBulkRequest table cmd name args payload) where
  start_bulk-read :
      (s : State)
      → start_bulk cmd (with_argv ((sdstolower name ∷ args) ++ print_nat (length payload) ∷ []) s)
        ≡ read_bulk cmd (length payload) (with_argv (sdstolower name ∷ args) s)
  unfolding start_bulk arg
  start_bulk-read s =
      let argv : List Bytes = (sdstolower name ∷ args) ++ print_nat (length payload) ∷ [] in
      let size : length argv - 1 ≡ length (sdstolower name ∷ args) =
        omega (arith, length-append args (print_nat (length payload) ∷ [])) in
      let count : at argv (length argv - 1) ≡ ok (print_nat (length payload)) =
        ap (at argv) size ∙ last-argument (sdstolower name ∷ args) (print_nat (length payload)) in
      let left : take (length argv - 1) argv ≡ sdstolower name ∷ args =
        ap (λ k. take k argv) size
        ∙ take-append (sdstolower name ∷ args) (print_nat (length payload) ∷ []) in
      let fits : ltb max_string_length (length payload) ≡ false = ground (arith, r.small) in
      ap
        (λ run.
          run >>= (λ v. start_counted cmd (with_argv (take (length argv - 1) argv) s) (atoi v)))
        count
      ∙ ap (λ a. start_counted cmd (with_argv a s) (atoi (print_nat (length payload)))) left
      ∙ ap (start_counted cmd (with_argv (sdstolower name ∷ args) s))
          (atoi-print_nat (length payload) r.small)
      ∙ rw fits refl

  process_command-read :
      (s : State)
      → process_command table (
          with_argv ((name ∷ args) ++ print_nat (length payload) ∷ []) (with_bulk_len (negsuc 0) s))
        ≡ read_bulk cmd
            (length payload)
            (with_argv (sdstolower name ∷ args) (with_bulk_len (negsuc 0) s))
  unfolding process_command arg at
  process_command-read s =
      let count : wrong_arity cmd.arity (suc (length (args ++ print_nat (length payload) ∷ [])))
          ≡ false =
        ap (wrong_arity cmd.arity)
          (omega (arith, length-append args (print_nat (length payload) ∷ [])))
        ∙ r.arity in
      let is_last : (is_bulk cmd.type && true) ≡ true = rw r.bulk refl in
      rw (r.no_quit, r.known, count, is_last) (start_bulk-read (with_bulk_len (negsuc 0) s))

  process_command-execute :
      (s : State) (k : ℕ)
      → process_command table
          (with_argv ((sdstolower name ∷ args) ++ payload ∷ []) (with_bulk_len (pos k) s))
        ≡ execute cmd
            (with_argv ((sdstolower name ∷ args) ++ payload ∷ []) (with_bulk_len (pos k) s))
  unfolding process_command arg at
  process_command-execute s k =
      let count : wrong_arity cmd.arity (suc (length (args ++ payload ∷ []))) ≡ false =
        ap (wrong_arity cmd.arity) (omega (arith, length-append args (payload ∷ []))) ∙ r.arity in
      let named : Bytes → Run Connection = λ n.
        let s' = with_argv (n ∷ args ++ payload ∷ []) (with_bulk_len (pos k) s) in
        if same_string n (codes "quit")
        then ok (closed s')
        else dispatch s' (lookup_command table n) in
      let not_last : (is_bulk cmd.type && false) ≡ false = rw r.bulk refl in
      ap named (sdstolower_twice name) ∙ rw (r.no_quit, r.known, count, not_last) refl

  -- The client when the request is there, and when the data is not.
  abbrev pub received : Bytes → State → State
  received rest s = with_buffer rest (
      with_argv ((sdstolower name ∷ args) ++ payload ∷ [])
        (with_bulk_len (pos (length payload + 2)) s))

  abbrev pub awaiting : Bytes → State → State
  awaiting buf s =
      with_buffer buf
        (with_argv (sdstolower name ∷ args) (with_bulk_len (pos (length payload + 2)) s))

  abbrev pub bulk_line : Bytes
  bulk_line = request_line ((name ∷ args) ++ print_nat (length payload) ∷ [])

  -- The same with the line read.
  abbrev awaiting_count : Bytes → State → State
  awaiting_count buf s =
      with_buffer buf (with_argv (sdstolower name ∷ args) (with_bulk_len (negsuc 0) s))

  line_read :
      (buf : Bytes) (s : State)
      → parse_once table (idle (bulk_line ++ buf) s)
        ≡ (read_bulk cmd (length payload) (awaiting_count buf s) >>= (λ c. ok (next_request c)))
  unfolding parse_once
  line_read buf s =
      let words : AreWords ((name ∷ args) ++ print_nat (length payload) ∷ []) =
        append-AreWords (name ∷ args) (print_nat (length payload) ∷ []) r.words
          (print_nat-AreWords (length payload)) in
      let room : length ((name ∷ args) ++ print_nat (length payload) ∷ []) ≤ max_args =
        omega (arith, r.room, length-append args (print_nat (length payload) ∷ [])) in
      parse_non_bulk_query-request table (with_bulk_len (negsuc 0) s) name
        (args ++ print_nat (length payload) ∷ []) buf words room
      ∙ ap (λ run. run >>= (λ c. ok (next_request c))) (process_command-read (with_buffer buf s))

  behind-data :
      (rest : Bytes)
      → sdsrange (payload ++ 13 ∷ 10 ∷ rest) (pos (length payload + 2)) (negsuc 0) ≡ rest
  behind-data rest =
      let size : length payload + 2 ≡ length (payload ++ 13 ∷ 10 ∷ []) =
        omega (arith, length-append payload (13 ∷ 10 ∷ [])) in
      sdsrange-drop (payload ++ 13 ∷ 10 ∷ rest) (length payload + 2)
      ∙ ap (λ k. drop k (payload ++ 13 ∷ 10 ∷ rest)) size
      ∙ ap (drop (length (payload ++ 13 ∷ 10 ∷ [])))
          (sym (append_assoc payload (13 ∷ 10 ∷ []) rest))
      ∙ drop-append (payload ++ 13 ∷ 10 ∷ []) rest

  read_bulk-there :
      (rest : Bytes) (s : State)
      → read_bulk cmd (length payload) (awaiting_count (payload ++ 13 ∷ 10 ∷ rest) s)
        ≡ execute cmd (received rest s)
  unfolding read_bulk
  read_bulk-there rest s =
      let buf : Bytes = payload ++ 13 ∷ 10 ∷ rest in
      let there : leb (length payload + 2) (length buf) ≡ true =
        ground (arith, length-append payload (13 ∷ 10 ∷ rest)) in
      rw there (
        ap
          (λ d. execute cmd (
            with_buffer (sdsrange buf (pos (length payload + 2)) (negsuc 0)) (
              with_argv ((sdstolower name ∷ args) ++ d ∷ [])
                (with_bulk_len (pos (length payload + 2)) s))))
          (take-append payload (13 ∷ 10 ∷ rest))
        ∙ ap (λ b. execute cmd (received b s)) (behind-data rest))

  parse_once-there :
      (rest : Bytes) (s : State)
      → parse_once table (awaiting (payload ++ 13 ∷ 10 ∷ rest) s)
        ≡ (execute cmd (received rest s) >>= (λ c. ok (next_request c)))
  unfolding parse_once parse_bulk_query
  parse_once-there rest s =
      let buf : Bytes = payload ++ 13 ∷ 10 ∷ rest in
      let there : leb (length payload + 2) (length buf) ≡ true =
        ground (arith, length-append payload (13 ∷ 10 ∷ rest)) in
      let value : take (length payload + 2 - 2) buf ≡ payload =
        ap (λ k. take k buf) (omega arith) ∙ take-append payload (13 ∷ 10 ∷ rest) in
      let with_rest : Bytes → State = λ b. with_buffer b s in
      rw there (
        ap
          (λ d.
            process_command table (
              with_argv ((sdstolower name ∷ args) ++ d ∷ []) (
                with_bulk_len (pos (length payload + 2))
                  (with_rest (sdsrange buf (pos (length payload + 2)) (negsuc 0)))))
            >>= (λ c. ok (next_request c)))
          value
        ∙ ap
            (λ b.
              process_command table (
                with_argv ((sdstolower name ∷ args) ++ payload ∷ [])
                  (with_bulk_len (pos (length payload + 2)) (with_rest b)))
              >>= (λ c. ok (next_request c)))
            (behind-data rest)
        ∙ ap (λ run. run >>= (λ c. ok (next_request c)))
            (process_command-execute (with_rest rest) (length payload + 2)))

  -- For a name, arguments of at least one byte without zero, newline or space, and data of at
  -- most 1073741824 bytes, at most 16 arguments in all, where the table has a command for data
  -- of that arity under the name in lower case: ParseQuery of a waiting client that has read the
  -- line with the length of the data, the data and its end runs exactly that command, with the
  -- name in lower case, the arguments and the data as its arguments and what follows left in the
  -- buffer, and goes on with that.
  pub parse_query-request :
      (fuel : ℕ) (rest : Bytes) (s : State)
      → parse_query (suc fuel) table (idle (bulk_line ++ (payload ++ 13 ∷ 10 ∷ rest)) s)
        ≡ (execute cmd (received rest s) >>= (λ c. go_on fuel table (next_request c)))
  unfolding parse_query
  parse_query-request fuel rest s =
      ap (λ run. run >>= go_on fuel table)
        (line_read (payload ++ 13 ∷ 10 ∷ rest) s
          ∙ ap (λ run. run >>= (λ c. ok (next_request c))) (read_bulk-there rest s))
      ∙ go_on-bind fuel table (execute cmd (received rest s))

  read_bulk-missing :
      (buf : Bytes) (s : State)
      → length buf < length payload + 2
      → read_bulk cmd (length payload) (awaiting_count buf s) ≡ ok (connected (awaiting buf s))
  unfolding read_bulk
  read_bulk-missing buf s h =
      let missing : leb (length payload + 2) (length buf) ≡ false = ground (arith, h) in
      rw missing refl

  parse_query-missing :
      (fuel : ℕ) (buf : Bytes) (s : State)
      → length buf < length payload + 2
      → parse_query (suc fuel) table (awaiting buf s) ≡ ok (connected (awaiting buf s))
  unfolding parse_query parse_once parse_bulk_query
  parse_query-missing fuel buf s h =
      let missing : leb (length payload + 2) (length buf) ≡ false = ground (arith, h) in
      rw missing refl

  -- The line and the first bytes of the data alone leave the client waiting with these bytes.
  pub parse_query-waits :
      (fuel : ℕ) (buf : Bytes) (s : State)
      → length buf < length payload + 2
      → parse_query (suc (suc fuel)) table (idle (bulk_line ++ buf) s)
        ≡ ok (connected (awaiting buf s))
  unfolding parse_query
  parse_query-waits fuel buf s h =
      ap (λ run. run >>= go_on (suc fuel) table)
        (line_read buf s
          ∙ ap (λ run. run >>= (λ c. ok (next_request c))) (read_bulk-missing buf s h))
      ∙ elim (Bool-cases (ltb 0 (length buf))) [
        | inl more ↦ rw more (parse_query-missing fuel buf s h)
        | inr empty ↦ rw empty refl
      ]

  -- With the rest of the data the waiting client does what it does with the whole request.
  pub parse_query-resumed :
      (fuel : ℕ) (rest : Bytes) (s : State)
      → parse_query (suc fuel) table (awaiting (payload ++ 13 ∷ 10 ∷ rest) s)
        ≡ parse_query (suc fuel) table (idle (bulk_line ++ (payload ++ 13 ∷ 10 ∷ rest)) s)
  unfolding parse_query
  parse_query-resumed fuel rest s =
      ap (λ run. run >>= go_on fuel table) (parse_once-there rest s)
      ∙ go_on-bind fuel table (execute cmd (received rest s))
      ∙ sym (parse_query-request fuel rest s)
