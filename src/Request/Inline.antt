-- ===== src/Request/Inline.antt =====
-- Requests that are one line: src/server/client.c and ProcessCommand of src/commands/command.c.
use cutis.Common.{
  ℕ, suc, ◌≤◌, ◌≡◌, refl, ap, ◌∙◌, false, some, List, [], ◌∷◌, ◌++◌, length, Bytes, codes, ok,
  ◌>>=◌,
}
use cutis.Common.Int.{negsuc}
use cutis.Dict.{at}
use cutis.Sds.{sdstolower}
use cutis.Store.{State, arg}
use cutis.Request.Progress.{go_on, go_on-bind}
use cutis.Request.Lines.{AreWords, request_line, parse_non_bulk_query-request}
use cutis.Request.{
  CutisCommand, inline_command, with_argv, with_buffer, with_bulk_len, lookup_command, same_string,
  wrong_arity, execute, process_command, next_request, parse_once, parse_query, max_args,
}

-- A line for the command `cmd` of the table.
pub record IsInlineRequest (table : List CutisCommand) (cmd : CutisCommand) (name : Bytes)
    (args : List Bytes) : Type 0 where
  pub words : AreWords (name ∷ args)
  pub room : length (name ∷ args) ≤ max_args
  pub known : lookup_command table (sdstolower name) ≡ some cmd
  pub no_quit : same_string (sdstolower name) (codes "quit") ≡ false
  pub inline : cmd.type ≡ inline_command
  pub arity : wrong_arity cmd.arity (length (name ∷ args)) ≡ false

-- A client that has read `buf` and waits for a request.
abbrev pub idle : Bytes → State → State
idle buf s = with_buffer buf (with_argv [] (with_bulk_len (negsuc 0) s))

module _ {table : List CutisCommand} {cmd : CutisCommand} {name : Bytes} {args : List Bytes}
    (r : IsInlineRequest table cmd name args) where
  process_command-inline :
      (s : State)
      → process_command table (with_argv (name ∷ args) s)
        ≡ execute cmd (with_argv (sdstolower name ∷ args) s)
  unfolding process_command arg at
  process_command-inline s = rw (r.no_quit, r.known, r.arity, r.inline) refl

  pub parse_query-inline :
      (fuel : ℕ) (rest : Bytes) (s : State)
      → parse_query (suc fuel) table (idle (request_line (name ∷ args) ++ rest) s) ≡ (
          execute cmd (with_argv (sdstolower name ∷ args) (idle rest s))
          >>= (λ c. go_on fuel table (next_request c)))
  unfolding parse_query parse_once
  parse_query-inline fuel rest s =
      ap (λ run. run >>= go_on fuel table)
        (parse_non_bulk_query-request table (with_bulk_len (negsuc 0) s) name args rest r.words
            r.room
          ∙ ap (λ run. run >>= (λ c. ok (next_request c))) (process_command-inline (idle rest s)))
      ∙ go_on-bind fuel table (execute cmd (with_argv (sdstolower name ∷ args) (idle rest s)))
