-- ===== src/Request.antt =====
-- Requests: the parsing of src/server/client.c, and ProcessCommand and LookupCommand of
-- src/commands/command.c. A client is closed by FreeClient. In place of its table the code has
-- an argument, since the commands are its entries.
pub mod Bounds
pub mod Dispatch
pub mod Progress
pub mod Lines
pub mod Counts
pub mod Bulk
pub mod Inline
use cutis.Common.{
  ℕ, zero, suc, ◌+◌, ◌-◌, ◌*◌, Bool, true, false, not, ◌&&◌, ◌||◌, Option, none, some, List, [],
  ◌∷◌, ◌++◌, Bytes, codes, ltb, leb, ◌==◌, if◌then◌else◌, length, get_or, take, drop, Run, ok,
  fault, out_of_fuel, ◌>>=◌,
}
use cutis.Common.Int.{ℤ, pos, negsuc}
use cutis.Decimal.{atoi}
use cutis.Key.{sdscmp, is_zero}
use cutis.Sds.{sdsrange, sdssplitlen, sdstolower}
use cutis.Store.{State, add_reply, arg}

pub data CommandType : Type 0 where
  inline_command bulk_command : CommandType

-- `arity` is an exact number of arguments, or a least one if it is negative.
pub record CutisCommand : Type 0 where
  pub name : Bytes
  pub proc : State → Run State
  pub arity : ℤ
  pub type : CommandType

-- A client after a request: still connected, or closed with the server's state left.
pub data Connection : Type 0 where
  connected closed : State → Connection

pub data Parsed : Type 0 where
  again finished : Connection → Parsed

abbrev pub max_args : ℕ
max_args = 16

abbrev pub max_string_length : ℕ
max_string_length = 1024 * 1024 * 1024

unfoldable pub reset_client : State → State
reset_client s = record s { client = record s.client { argv = []; bulk_len = negsuc 0 } }

abbrev pub with_argv : List Bytes → State → State
with_argv argv s = record s { client = record s.client { argv = argv } }

abbrev pub with_buffer : Bytes → State → State
with_buffer buf s = record s { client = record s.client { query_buf = buf } }

abbrev pub with_bulk_len : ℤ → State → State
with_bulk_len n s = record s { client = record s.client { bulk_len = n } }

-- What the functions on C strings see of a string: its bytes up to the first zero.
unfoldable pub c_string : Bytes → Bytes
c_string [] = []
c_string (zero ∷ s) = []
c_string (suc c ∷ s) = suc c ∷ c_string s

-- `!strcmp(a, b)`
unfoldable pub same_string : Bytes → Bytes → Bool
unfolding c_string sdscmp
same_string a b = is_zero (sdscmp (c_string a) (c_string b))

unfoldable pub lookup_command : List CutisCommand → Bytes → Option CutisCommand
unfolding same_string
lookup_command [] name = none
lookup_command (cmd ∷ cmds) name =
    if same_string cmd.name name then some cmd else lookup_command cmds name

-- The test of `cmd->arity` against `c->argc`.
unfoldable pub wrong_arity : ℤ → ℕ → Bool
wrong_arity (pos n) argc = ltb 0 n && not (n == argc)
wrong_arity (negsuc n) argc = ltb argc (suc n)

abbrev pub is_bulk : CommandType → Bool
is_bulk inline_command = false
is_bulk bulk_command = true

-- `c->bulk_len == -1`
abbrev pub single_read : ℤ → Bool
single_read (negsuc zero) = true
single_read _ = false

unfoldable pub execute : CutisCommand → State → Run Connection
unfolding reset_client
execute cmd s = do s' ← cmd.proc s; ok (connected (reset_client s'))

unfoldable pub refuse : Bytes → State → Connection
unfolding reset_client add_reply
refuse error s = connected (reset_client (add_reply error s))

-- The argument of a bulk command is in the buffer, or it comes later.
unfoldable pub read_bulk : CutisCommand → ℕ → State → Run Connection
unfolding execute sdsrange
read_bulk cmd count s =
    let bulk_len = count + 2 in
    let waiting = with_bulk_len (pos bulk_len) s in
    let buf = s.client.query_buf in
    if leb bulk_len (length buf)
    then execute cmd (
        with_buffer (sdsrange buf (pos bulk_len) (negsuc 0))
          (with_argv (s.client.argv ++ take count buf ∷ []) waiting))
    else ok (connected waiting)

-- The bulk count, the last argument so far, is dropped before the test.
unfoldable pub start_bulk : CutisCommand → State → Run Connection
unfolding read_bulk refuse atoi arg
start_bulk cmd s = do
  let argc = length s.client.argv
  count ← arg (argc - 1) s
  let s' = with_argv (take (argc - 1) s.client.argv) s
  elim (atoi count) [
    | negsuc _ ↦ ok (refuse (codes "-ERR invalid bulk write count\r\n") s')
    | pos n ↦
        if ltb max_string_length n
        then ok (refuse (codes "-ERR invalid bulk write count\r\n") s')
        else read_bulk cmd n s'
  ]

-- The first argument in lower case.
abbrev pub lower_name : List Bytes → List Bytes
lower_name [] = []
lower_name (name ∷ args) = sdstolower name ∷ args

unfoldable pub process_command : List CutisCommand → State → Run Connection
unfolding arg sdstolower lookup_command same_string wrong_arity start_bulk execute refuse
process_command table s = do
  let s' = with_argv (lower_name s.client.argv) s
  name ← arg 0 s'
  if same_string name (codes "quit") then ok (closed s') else elim (lookup_command table name) [
    | none ↦ ok (refuse (codes "-ERR unknown command\r\n") s')
    | some cmd ↦
        if wrong_arity cmd.arity (length s'.client.argv)
        then ok (refuse (codes "-ERR wrong number of arguments\r\n") s')
        else if is_bulk cmd.type && single_read s'.client.bulk_len
        then start_bulk cmd s'
        else execute cmd s'
  ]

-- `ProcessCommand(c) && sdslen(c->query_buf) > 0`
abbrev pub next_request : Connection → Parsed
next_request (connected s) =
    if ltb 0 (length s.client.query_buf) then again (connected s) else finished (connected s)
next_request (closed s) = finished (closed s)

unfoldable pub parse_bulk_query : List CutisCommand → ℕ → State → Run Parsed
unfolding process_command sdsrange
parse_bulk_query table bulk_len s =
    let buf = s.client.query_buf in
    let s' =
      with_buffer (sdsrange buf (pos bulk_len) (negsuc 0))
        (with_argv (s.client.argv ++ take (bulk_len - 2) buf ∷ []) s) in
    if leb bulk_len (length buf)
    then process_command table s' >>= (λ c. ok (next_request c))
    else ok (finished (connected s))

-- `strchr(s, '\n')`, as a position.
unfoldable pub find_line : Bytes → Option ℕ
find_line [] = none
find_line (c ∷ s) =
    let rest = find_line s in
    if c == 0
    then none
    else if c == 10
    then some 0
    else elim rest [ none ↦ none | some p ↦ some (suc p) ]

-- The line without the carriage return at its end. Before an empty line the code looks at a byte
-- of the string's header.
unfoldable pub chomp : Bytes → Bytes
chomp [] = []
chomp (c ∷ []) = if c == 13 then [] else c ∷ []
chomp (c ∷ d ∷ s) = c ∷ chomp (d ∷ s)

-- The loop over the tokens: those that are not empty, as long as there is room.
unfoldable pub keep_tokens : List Bytes → List Bytes → List Bytes
keep_tokens argv [] = argv
keep_tokens argv (t ∷ ts) =
    if ltb (length argv) max_args
    then if ltb 0 (length t) then keep_tokens (argv ++ t ∷ []) ts else keep_tokens argv ts
    else argv

unfoldable pub parse_non_bulk_query : List CutisCommand → State → Run Parsed
unfolding find_line chomp keep_tokens sdssplitlen process_command
parse_non_bulk_query table s =
    let buf = s.client.query_buf in
    elim (find_line buf) [
      | none ↦ ok (finished (if leb 1024 (length buf) then closed s else connected s))
      | some p ↦
          let s' = with_buffer (drop (p + 1) buf) s in
          let query = chomp (take p buf) in
          if length query == 0 then ok (finished (connected s')) else do
            c ←
                process_command table
                  (with_argv (keep_tokens s.client.argv (sdssplitlen b' ' query)) s')
            ok (next_request c)
    ]

-- One round of ParseQuery.
unfoldable pub parse_once : List CutisCommand → State → Run Parsed
unfolding parse_non_bulk_query parse_bulk_query
parse_once table s = elim s.client.bulk_len [
  | negsuc _ ↦ parse_non_bulk_query table s
  | pos n ↦ parse_bulk_query table n s
]

unfoldable pub parse_query : ℕ → List CutisCommand → State → Run Connection
unfolding parse_once
parse_query zero table s = fault out_of_fuel
parse_query (suc fuel) table s = do
  parsed ← parse_once table s
  elim parsed [
    | finished c ↦ ok c
    | again c ↦ elim c [ connected s' ↦ parse_query fuel table s' | closed s' ↦ ok (closed s') ]
  ]
