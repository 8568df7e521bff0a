-- ===== src/Request/Dispatch.antt =====
-- What ProcessCommand of src/commands/command.c leaves in the buffer of the client.
use cutis.Common.{
  ℕ, zero, suc, ◌+◌, ◌-◌, ◌≤◌, ◌≡◌, refl, ap, inl, inr, ◌&&◌, Bool-cases, Option, none, some, List,
  [], ◌∷◌, ◌++◌, arith, ltb, leb, if◌then◌else◌, length, length-drop, take, Bytes, codes, Run,
  Fault, out_of_bounds, Yields, bind-Yields, if-Yields, ok, fault,
}
use cutis.Common.Int.{ℤ, pos, negsuc}
use cutis.Decimal.{atoi}
use cutis.Sds.{sdsrange}
use cutis.Sds.Laws.{sdsrange-drop}
use cutis.Store.{State, arg, add_reply}
use cutis.Dict.{at}
use cutis.Request.{
  CutisCommand, Connection, connected, closed, reset_client, with_argv, with_buffer, with_bulk_len,
  lookup_command, wrong_arity, same_string, is_bulk, single_read, execute, refuse, read_bulk,
  start_bulk, lower_name, process_command, max_string_length,
}

-- `bulk_len` is -1, or at least the 2 bytes that end the argument.
abbrev pub IsBulkLen : ℤ → Type 0
IsBulkLen (pos n) = 2 ≤ n
IsBulkLen (negsuc n) = n ≡ 0

-- The connection's buffer has at most `n` bytes.
abbrev pub IsWithin : ℕ → Connection → Type 0
IsWithin n (connected s) = (length s.client.query_buf ≤ n) × IsBulkLen s.client.bulk_len
IsWithin n (closed s) = Unit

-- A command that returns does not add to the buffer, and a fault of it satisfies `F`.
abbrev pub KeepsBuffer : (Fault → Type 0) → CutisCommand → Type 0
KeepsBuffer F cmd =
    (s : State)
    → Yields F (λ s'. length s'.client.query_buf ≤ length s.client.query_buf) (cmd.proc s)

abbrev pub KeepBuffers : (Fault → Type 0) → List CutisCommand → Type 0
KeepBuffers F [] = Unit
KeepBuffers F (cmd ∷ table) = KeepsBuffer F cmd × KeepBuffers F table

abbrev FoundKeeps : (Fault → Type 0) → Option CutisCommand → Type 0
FoundKeeps F none = Unit
FoundKeeps F (some cmd) = KeepsBuffer F cmd

refuse-IsWithin :
    (error : Bytes) (s : State) → IsWithin (length s.client.query_buf) (refuse error s)
unfolding refuse reset_client add_reply
refuse-IsWithin error s = (omega arith, refl)

-- What start_bulk does with the count.
abbrev pub start_counted : CutisCommand → State → ℤ → Run Connection
start_counted cmd s count = elim count [
  | negsuc _ ↦ ok (refuse (codes "-ERR invalid bulk write count\r\n") s)
  | pos n ↦
      if ltb max_string_length n
      then ok (refuse (codes "-ERR invalid bulk write count\r\n") s)
      else read_bulk cmd n s
]

weaker-IsWithin : (m n : ℕ) (c : Connection) → m ≤ n → IsWithin m c → IsWithin n c
weaker-IsWithin m n (connected s) h (shorter, bulk) = (omega (arith, shorter, h), bulk)
weaker-IsWithin m n (closed s) h c = tt

-- What process_command does with the command it finds.
abbrev pub dispatch : State → Option CutisCommand → Run Connection
dispatch s found = elim found [
  | none ↦ ok (refuse (codes "-ERR unknown command\r\n") s)
  | some cmd ↦
      if wrong_arity cmd.arity (length s.client.argv)
      then ok (refuse (codes "-ERR wrong number of arguments\r\n") s)
      else if is_bulk cmd.type && single_read s.client.bulk_len
      then start_bulk cmd s
      else execute cmd s
]

module _ (F : Fault → Type 0) (bounds : F out_of_bounds) where
  found-KeepsBuffer :
      (table : List CutisCommand) (name : Bytes)
      → KeepBuffers F table
      → FoundKeeps F (lookup_command table name)
  unfolding lookup_command
  found-KeepsBuffer [] name h = tt
  found-KeepsBuffer (cmd ∷ table) name (keeps, rest) =
      elim (Bool-cases (same_string cmd.name name)) [
        | inl here ↦ rw here keeps
        | inr there ↦ rw there (found-KeepsBuffer table name rest)
      ]

  at-Yields : (xs : List Bytes) (i : ℕ) → Yields F (λ _. Unit) (at xs i)
  unfolding at
  at-Yields [] i = bounds
  at-Yields (x ∷ xs) zero = tt
  at-Yields (x ∷ xs) (suc i) = at-Yields xs i

  pub arg-Yields : (i : ℕ) (s : State) → Yields F (λ _. Unit) (arg i s)
  unfolding arg
  arg-Yields i s = at-Yields s.client.argv i

  execute-Yields :
      (cmd : CutisCommand) (s : State)
      → KeepsBuffer F cmd
      → Yields F (IsWithin (length s.client.query_buf)) (execute cmd s)
  unfolding execute reset_client
  execute-Yields cmd s keeps =
      bind-Yields F (λ s'. length s'.client.query_buf ≤ length s.client.query_buf)
        (IsWithin (length s.client.query_buf)) (cmd.proc s) (λ s'. ok (connected (reset_client s')))
        (keeps s) (λ s' h. (h, refl))

  pub weaker-Yields :
      (m n : ℕ) (run : Run Connection)
      → m ≤ n
      → Yields F (IsWithin m) run
      → Yields F (IsWithin n) run
  weaker-Yields m n (ok c) h ends = weaker-IsWithin m n c h ends
  weaker-Yields m n (fault cause) h ends = ends

  read_bulk-Yields :
      (cmd : CutisCommand) (count : ℕ) (s : State)
      → KeepsBuffer F cmd
      → Yields F (IsWithin (length s.client.query_buf)) (read_bulk cmd count s)
  unfolding read_bulk
  read_bulk-Yields cmd count s keeps =
      let buf = s.client.query_buf in
      let waiting = with_bulk_len (pos (count + 2)) s in
      let ready =
        with_buffer (sdsrange buf (pos (count + 2)) (negsuc 0))
          (with_argv (s.client.argv ++ take count buf ∷ []) waiting) in
      let shorter : length (sdsrange buf (pos (count + 2)) (negsuc 0)) ≤ length buf =
        omega (arith, ap length (sdsrange-drop buf (count + 2)), length-drop (count + 2) buf) in
      if-Yields F (IsWithin (length buf)) (leb (count + 2) (length buf)) (execute cmd ready)
        (ok (connected waiting))
        (λ _. weaker-Yields _ _ (execute cmd ready) shorter (execute-Yields cmd ready keeps))
        (λ _. (omega arith, omega arith))

  counted-Yields :
      (cmd : CutisCommand) (s : State) (count : ℤ)
      → KeepsBuffer F cmd
      → Yields F (IsWithin (length s.client.query_buf)) (start_counted cmd s count)
  unfolding start_bulk
  counted-Yields cmd s (negsuc n) keeps =
      refuse-IsWithin (codes "-ERR invalid bulk write count\r\n") s
  counted-Yields cmd s (pos n) keeps =
      if-Yields F (IsWithin (length s.client.query_buf)) (ltb max_string_length n) _
        (read_bulk cmd n s) (λ _. refuse-IsWithin (codes "-ERR invalid bulk write count\r\n") s)
        (λ _. read_bulk-Yields cmd n s keeps)

  start_bulk-Yields :
      (cmd : CutisCommand) (s : State)
      → KeepsBuffer F cmd
      → Yields F (IsWithin (length s.client.query_buf)) (start_bulk cmd s)
  unfolding start_bulk
  start_bulk-Yields cmd s keeps =
      let argc = length s.client.argv in
      let s' = with_argv (take (argc - 1) s.client.argv) s in
      bind-Yields F (λ _. Unit) (IsWithin (length s.client.query_buf)) (arg (argc - 1) s)
        (λ count. start_counted cmd s' (atoi count)) (arg-Yields (argc - 1) s)
        (λ count _. counted-Yields cmd s' (atoi count) keeps)

  dispatch-Yields :
      (s : State) (found : Option CutisCommand)
      → FoundKeeps F found
      → Yields F (IsWithin (length s.client.query_buf)) (dispatch s found)
  dispatch-Yields s none keeps = refuse-IsWithin (codes "-ERR unknown command\r\n") s
  dispatch-Yields s (some cmd) keeps =
      let within = IsWithin (length s.client.query_buf) in
      if-Yields F within (wrong_arity cmd.arity (length s.client.argv)) _ _
        (λ _. refuse-IsWithin (codes "-ERR wrong number of arguments\r\n") s)
        (λ _.
          if-Yields F within (is_bulk cmd.type && single_read s.client.bulk_len) (start_bulk cmd s)
            (execute cmd s) (λ _. start_bulk-Yields cmd s keeps) (λ _. execute-Yields cmd s keeps))

  pub process_command-Yields :
      (table : List CutisCommand) (s : State)
      → KeepBuffers F table
      → Yields F (IsWithin (length s.client.query_buf)) (process_command table s)
  unfolding process_command
  process_command-Yields table s keep =
      let s' = with_argv (lower_name s.client.argv) s in
      let within = IsWithin (length s.client.query_buf) in
      bind-Yields F (λ _. Unit) within (arg 0 s')
        (λ name.
          if same_string name (codes "quit")
          then ok (closed s')
          else dispatch s' (lookup_command table name))
        (arg-Yields 0 s')
        (λ name _.
          if-Yields F within (same_string name (codes "quit")) (ok (closed s'))
            (dispatch s' (lookup_command table name)) (λ _. tt)
            (λ _.
              dispatch-Yields s' (lookup_command table name) (found-KeepsBuffer table name keep)))
