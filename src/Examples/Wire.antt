-- ===== src/Examples/Wire.antt =====
-- Requests as bytes, at concrete inputs.
use cutis.Common.{◌≡◌, refl, arith, some, List, [], ◌∷◌, ◌++◌, codes, ok, ◌>>=◌, Returns}
use cutis.Common.Int.{pos}
use cutis.Decimal.{print_nat}
use cutis.Shared
use cutis.Store.{State, string}
use cutis.Store.Laws.{value}
use cutis.Store.Effect.{bulk as bulk_reply}
use cutis.Request.{CutisCommand, connected, execute, next_request, parse_query, with_buffer}
use cutis.Request.Progress.{go_on, Settles, parse_query-Settles}
use cutis.Request.Dispatch.{KeepBuffers}
use cutis.Command.Kept.{
  AnyFault, Keeps-length, ping_command-Keeps, echo_command-Keeps, keys_command-Keeps,
  random_key_command-Keeps,
}
use cutis.Command.Listing.{keys_command}
use cutis.Request.Lines.{request_line}
use cutis.Request.Inline.{idle}
use cutis.Request.Bulk.{IsBulkRequest, received, bulk_line, parse_query-request}
use cutis.Command.Keys.{ping_command, echo_command, random_key_command}
use cutis.Command.Strings.{set_command}
use cutis.Command.Table.{inline, bulk, cmd_table}
use cutis.Session.{Session, kept, got, read_query_from_client}
use cutis.Session.Pieces.{read_query_from_client-pieces}
use cutis.Session.Pipeline.{set_request, parse_query-set_get}
use cutis.Examples.Data.{empty_state, empty_state-Valid, empty_state-HasRoom}

abbrev table : List CutisCommand
table = cmd_table (λ s. ok s) (λ s. ok s) (λ s. ok s) []

abbrev set_entry : CutisCommand
set_entry = bulk (codes "set") set_command (pos 3)

-- `set k 2`, and then the two bytes 12.
set_12 : IsBulkRequest table set_entry (codes "set") (codes "k" ∷ []) (codes "12")
set_12 =
    set_request (λ s. ok s) (λ s. ok s) (λ s. ok s) [] (codes "k") (codes "12") (omega arith)
      (refl, tt) (omega arith)

parse_query-set_get_example :
    Returns
      (parse_query 2 table (
        idle
          (request_line ((codes "set" ∷ codes "k" ∷ []) ++ print_nat 2 ∷ [])
            ++ (codes "12" ++ 13 ∷ 10 ∷ request_line (codes "get" ∷ codes "k" ∷ [])))
          empty_state))
      λ c.
        (g : State) × (c ≡ connected g)
        × (g.client.query_buf ≡ [])
        × (g.client.reply ≡ Shared.ok ∷ bulk_reply (codes "12"))
        × (value g 0 (codes "k") ≡ some (string (codes "12")))
parse_query-set_get_example =
    parse_query-set_get (λ s. ok s) (λ s. ok s) (λ s. ok s) [] empty_state empty_state-Valid
      empty_state-HasRoom (codes "k") (codes "12") (omega arith) (refl, tt) (omega arith) 0

parse_query-request_example :
    parse_query 1 table (idle (bulk_line set_12 ++ (codes "12" ++ 13 ∷ 10 ∷ [])) empty_state)
    ≡ (execute set_entry (received set_12 [] empty_state) >>= (λ c. go_on 0 table (next_request c)))
parse_query-request_example = parse_query-request set_12 0 [] empty_state

abbrev session : Session
session = record { state = empty_state; sent_len = 0; last_interaction = 0 }

-- The first read ends within the data.
read_query_from_client-pieces_example :
    Returns
      (read_query_from_client
        (got (bulk_line set_12 ++ codes "1"))
        2
        100
        table
        (record session { state = idle [] empty_state }))
      λ handled.
        (c' : Session) × (handled ≡ kept c')
        × (read_query_from_client (got (50 ∷ 13 ∷ 10 ∷ [])) 1 101 table c'
            ≡ read_query_from_client
                (got (bulk_line set_12 ++ (codes "12" ++ 13 ∷ 10 ∷ [])))
                1
                101
                table
                (record session { state = idle [] empty_state }))
read_query_from_client-pieces_example =
    read_query_from_client-pieces set_12 0 100 101 (codes "1") (50 ∷ 13 ∷ 10 ∷ []) [] session
      empty_state (omega arith) refl

-- Rows of cmd_table, among them commands that lack fuel for some states.
abbrev table_rows : List CutisCommand
table_rows =
    inline (codes "ping") ping_command (pos 1)
    ∷ inline (codes "echo") echo_command (pos 2)
    ∷ inline (codes "keys") keys_command (pos 2)
    ∷ inline (codes "randomkey") (random_key_command []) (pos 1)
    ∷ []

table_rows-KeepBuffers : KeepBuffers AnyFault table_rows
table_rows-KeepBuffers = (
  λ s. Keeps-length s (ping_command s) (ping_command-Keeps s),
  (
    λ s. Keeps-length s (echo_command s) (echo_command-Keeps s),
    (
      λ s. Keeps-length s (keys_command s) (keys_command-Keeps s),
      (λ s. Keeps-length s (random_key_command [] s) (random_key_command-Keeps [] s), tt),
    ),
  ),
)

abbrev two_pings : State
two_pings = with_buffer (codes "ping\r\nping\r\n") empty_state

parse_query-Settles_example : Settles AnyFault 12 13 table_rows two_pings
parse_query-Settles_example =
    parse_query-Settles AnyFault tt 13 table_rows two_pings table_rows-KeepBuffers refl
      (omega arith)
