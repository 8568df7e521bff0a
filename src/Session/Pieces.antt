-- ===== src/Session/Pieces.antt =====
-- Requests that ReadQueryFromClient of src/server/client.c gets in two pieces.
use cutis.Common.{
  ℕ, suc, ◌+◌, ◌<◌, ◌≡◌, refl, ap, ◌∙◌, List, [], ◌∷◌, ◌++◌, length, Bytes, Run, ok, ◌>>=◌, Returns,
}
use cutis.Store.{State}
use cutis.Session.{Session, Handled, kept, freed, got, read_query_from_client}
use cutis.Request.{CutisCommand, Connection, connected, closed, parse_query}
use cutis.Request.Inline.{idle}
use cutis.Request.Bulk.{IsBulkRequest, awaiting, bulk_line, parse_query-waits, parse_query-resumed}

module _ {table : List CutisCommand} {cmd : CutisCommand} {name : Bytes} {args : List Bytes}
    {payload : Bytes} (r : IsBulkRequest table cmd name args payload) where
  -- A request for a command of the table whose last argument follows the line may arrive in two
  -- pieces: if a client that waits for a request first reads the line and fewer bytes than the
  -- argument with its end, it is kept, and what the second read does to it, with the rest of the
  -- bytes, is what a single read of all of the bytes does.
  pub read_query_from_client-pieces :
      (fuel first second : ℕ) (early late rest : Bytes) (c : Session) (s : State)
      → length early < length payload + 2
      → early ++ late ≡ payload ++ 13 ∷ 10 ∷ rest
      → Returns
          (read_query_from_client
            (got (bulk_line r ++ early))
            (suc (suc fuel))
            first
            table
            (record c { state = idle [] s }))
          (λ handled.
            (c' : Session) × (handled ≡ kept c')
            × (read_query_from_client (got late) (suc fuel) second table c'
                ≡ read_query_from_client
                    (got (bulk_line r ++ (payload ++ 13 ∷ 10 ∷ rest)))
                    (suc fuel)
                    second
                    table
                    (record c { state = idle [] s })))
  unfolding read_query_from_client
  read_query_from_client-pieces fuel first second early late rest c s h whole =
      let c' : Session = record {
        state = awaiting r early s;
        sent_len = c.sent_len;
        last_interaction = first;
      } in
      let finish : Connection → Run Handled = λ parsed. ok (elim parsed [
        | connected s' ↦
            kept (record { state = s'; sent_len = c.sent_len; last_interaction = second })
        | closed s' ↦ freed s'
      ]) in
      (
        kept c',
        ap
            (λ run. run >>= (λ parsed. ok (elim parsed [
              | connected s' ↦
                  kept (record { state = s'; sent_len = c.sent_len; last_interaction = first })
              | closed s' ↦ freed s'
            ])))
            (parse_query-waits r fuel early s h),
        (
          c',
          refl,
          ap (λ b. parse_query (suc fuel) table (awaiting r b s) >>= finish) whole
              ∙ ap (λ run. run >>= finish) (parse_query-resumed r fuel rest s),
        ),
      )
