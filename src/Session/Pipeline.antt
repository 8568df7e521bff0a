-- ===== src/Session/Pipeline.antt =====
-- Requests that wait together in the buffer of a client of src/server/client.c, with commands of
-- src/commands/command.c.
use cutis.Common.{
  ℕ, suc, ◌<◌, ◌≤◌, ◌≡◌, refl, sym, ap, ◌∙◌, true, false, some, List, [], ◌∷◌, ◌++◌, arith,
  append-nil, append_assoc, ltb, length, Bytes, codes, Run, ok, ◌>>=◌, Returns,
}
use cutis.Common.Int.{pos}
use cutis.Decimal.{print_nat}
use cutis.Dict.{at}
use cutis.Sds.{sdstolower, to_lower}
use cutis.Shared
use cutis.Store.{State, Client, string, arg}
use cutis.Store.Laws.{Valid, HasRoom, value}
use cutis.Store.Effect.{Effect, Effect-value, bulk as bulk_reply}
use cutis.Request.{
  CutisCommand, Connection, connected, lookup_command, same_string, wrong_arity, execute,
  reset_client, next_request, parse_query, max_string_length, with_argv,
}
use cutis.Request.Progress.{go_on}
use cutis.Request.Lines.{ArePlain, request_line}
use cutis.Request.Inline.{IsInlineRequest, idle, parse_query-inline}
use cutis.Request.Bulk.{IsBulkRequest, received, parse_query-request}
use cutis.Command.Strings.{get_command, set_command}
use cutis.Command.Strings.Writes.{set_command-Effect}
use cutis.Command.Strings.Reads.{get_command-Effect, get_reply}
use cutis.Command.Table.{inline, bulk, cmd_table}

-- Only the client differs.
moved-Valid :
    (s : State) (client : Client)
    → Valid s
    → client.dict ≡ s.client.dict
    → Valid (record { server = s.server; client = client })
moved-Valid s client valid dict = record {
  tables = valid.tables;
  objects = valid.objects;
  selected = omega (arith, valid.selected, dict);
  counted = valid.counted;
}

module _ (save bgsave shut_down : State → Run State) (randoms : List ℕ) where
  abbrev table : List CutisCommand
  table = cmd_table save bgsave shut_down randoms

  pub set_request :
      (k v : Bytes)
      → 0 < length k
      → ArePlain k
      → length v ≤ max_string_length
      → IsBulkRequest table (bulk (codes "set") set_command (pos 3)) (codes "set") (k ∷ []) v
  unfolding lookup_command same_string sdstolower to_lower wrong_arity
  set_request k v some_bytes plain small = record {
    words = (omega arith, (refl, (refl, (refl, tt))), (some_bytes, plain, tt));
    room = omega arith;
    known = refl;
    no_quit = refl;
    bulk = refl;
    arity = refl;
    small = small;
  }

  get_request :
      (k : Bytes)
      → 0 < length k
      → ArePlain k
      → IsInlineRequest table (inline (codes "get") get_command (pos 2)) (codes "get") (k ∷ [])
  unfolding lookup_command same_string sdstolower to_lower wrong_arity
  get_request k some_bytes plain = record {
    words = (omega arith, (refl, (refl, (refl, tt))), (some_bytes, plain, tt));
    room = omega arith;
    known = refl;
    no_quit = refl;
    inline = refl;
    arity = refl;
  }

  -- A client with nothing in its buffer asks for no further round.
  last_round :
      (fuel : ℕ) (s : State)
      → s.client.query_buf ≡ []
      → go_on fuel table (next_request (connected s)) ≡ ok (connected s)
  last_round fuel s empty =
      let none_left : ltb 0 (length s.client.query_buf) ≡ false = ground (arith, ap length empty) in
      rw none_left refl

  next_round :
      (fuel : ℕ) (s : State) (buf : Bytes)
      → s.client.query_buf ≡ buf
      → 0 < length buf
      → go_on fuel table (next_request (connected (reset_client s)))
        ≡ parse_query fuel table (idle buf s)
  unfolding reset_client
  next_round fuel s buf same h =
      let more : ltb 0 (length s.client.query_buf) ≡ true = ground (arith, ap length same, h) in
      rw more (ap (λ b. parse_query fuel table (idle b s)) same)

  module _ (s : State) (valid : Valid s) (room : HasRoom s s.client.dict) (k v : Bytes)
      (some_bytes : 0 < length k) (plain : ArePlain k) (small : length v ≤ max_string_length) where
    set_executed :
        (rest : Bytes)
        → Returns
            (set_command (received (set_request k v some_bytes plain small) rest s))
            λ r. Effect (idle rest s) r s.client.dict k (some (string v)) (Shared.ok ∷ []) 1
    unfolding arg at sdstolower to_lower
    set_executed rest =
        let start : State = received (set_request k v some_bytes plain small) rest s in
        let (r, run, e) =
          set_command-Effect start (moved-Valid s start.client valid refl) k refl v refl room in
        (
          r,
          run,
          record {
            valid = e.valid;
            reply = e.reply;
            dict = e.dict;
            buffer = e.buffer;
            dirty = e.dirty;
            values = e.values;
          },
        )

    -- GET after SET, with the client's state in between.
    get_executed :
        (r : State)
        → Effect
            (idle (request_line (codes "get" ∷ k ∷ [])) s)
            r
            s.client.dict
            k
            (some (string v))
            (Shared.ok ∷ [])
            1
        → Returns (get_command (with_argv (sdstolower (codes "get") ∷ k ∷ []) (idle [] r))) λ g.
          (g.client.query_buf ≡ [])
          × (g.client.reply ≡ s.client.reply ++ Shared.ok ∷ bulk_reply v)
          × (value g s.client.dict k ≡ some (string v))
    unfolding arg at sdstolower to_lower
    get_executed r e =
        let start : State = with_argv (sdstolower (codes "get") ∷ k ∷ []) (idle [] r) in
        let (g, run, f) =
          get_command-Effect start (moved-Valid r start.client e.valid refl) k refl in
        let stored : value r r.client.dict k ≡ some (string v) =
          ap (λ i. value r i k) e.dict ∙ Effect-value e in
        (
          g,
          run,
          (
            f.buffer,
            f.reply
                ∙ ap (λ o. r.client.reply ++ get_reply o) stored
                ∙ ap (λ l. l ++ bulk_reply v) e.reply
                ∙ append_assoc s.client.reply (Shared.ok ∷ []) (bulk_reply v),
            ap (λ i. value g i k) (sym e.dict) ∙ Effect-value f ∙ stored,
          ),
        )

    -- For a key of at least one byte without zero, newline or space, and a value of at most
    -- 1073741824 bytes, a client in a valid state with room for a key in its database, whose
    -- buffer holds the two requests SET of the value under the key and GET of the key and that
    -- has read nothing else, is served by ParseQuery with fuel for two rounds and the table of
    -- the commands without a fault: it stays connected with an empty buffer, its new replies are
    -- +OK and then the length and the bytes of the value, and the database has the value under
    -- the key.
    pub parse_query-set_get :
        (fuel : ℕ)
        → Returns
            (parse_query (suc (suc fuel)) table (
              idle
                (request_line ((codes "set" ∷ k ∷ []) ++ print_nat (length v) ∷ [])
                  ++ (v ++ 13 ∷ 10 ∷ request_line (codes "get" ∷ k ∷ [])))
                s))
            λ c.
              (g : State) × (c ≡ connected g)
              × (g.client.query_buf ≡ [])
              × (g.client.reply ≡ s.client.reply ++ Shared.ok ∷ bulk_reply v)
              × (value g s.client.dict k ≡ some (string v))
    unfolding execute reset_client
    parse_query-set_get fuel =
        let get_line : Bytes = request_line (codes "get" ∷ k ∷ []) in
        let (r, run, e) = set_executed get_line in
        let (g, run', (empty, replies, stored)) = get_executed r e in
        let start : State = received (set_request k v some_bytes plain small) get_line s in
        let between : State = with_argv (sdstolower (codes "get") ∷ k ∷ []) (idle [] r) in
        let finish : State → Run Connection = λ s'. ok (connected (reset_client s')) in
        let buffer : r.client.query_buf ≡ get_line ++ [] = e.buffer ∙ sym (append-nil get_line) in
        (
          connected (reset_client g),
          parse_query-request (set_request k v some_bytes plain small) (suc fuel) get_line s
              ∙ ap (λ m. m >>= finish >>= (λ c. go_on (suc fuel) table (next_request c))) run
              ∙ next_round (suc fuel) r (get_line ++ []) buffer (omega arith)
              ∙ parse_query-inline (get_request k some_bytes plain) fuel [] r
              ∙ ap (λ m. m >>= finish >>= (λ c. go_on fuel table (next_request c))) run'
              ∙ last_round fuel (reset_client g) empty,
          (reset_client g, refl, empty, replies, stored),
        )
