-- ===== src/Session.antt =====
-- The connection of a client in src/server/client.c: SendReplyToClient, ReadQueryFromClient,
-- CreateClient and FreeClient. What read and write return is an argument.
pub mod Pending
pub mod Sending
pub mod Events
pub mod Pieces
pub mod Pipeline
use cutis.Common.{
  ℕ, zero, suc, ◌+◌, ◌-◌, Bool, true, false, Option, none, some, List, [], ◌∷◌, ◌++◌, ◌==◌, ltb,
  if◌then◌else◌, length, take, drop, Bytes, Run, ok, fault, out_of_fuel, assertion, ◌>>=◌,
}
use cutis.Event.{EventLoop, ae_readable, ae_writable, create_file_event, delete_file_event}
use cutis.Request.{CutisCommand, Connection, connected, closed, parse_query}
use cutis.Common.Int.{pos, negsuc}
use cutis.Store.{Server, State, is_empty, select_db}

-- What `write` returns: the number of bytes, or -1 with EAGAIN or another error.
pub data Write : Type 0 where
  wrote : ℕ → Write
  would_block failed : Write

-- The replies that are left after the loop, how much of the first is sent, the bytes that were
-- written, and the last `nwritten`.
pub record Progress : Type 0 where
  pub reply : List Bytes
  pub sent_len : ℕ
  pub written : Bytes
  pub last : Write

-- The loop of SendReplyToClient. `write k n` is the call number `k`, for `n` bytes.
unfoldable pub send_loop : (ℕ → ℕ → Write) → (fuel k : ℕ) → List Bytes → ℕ → Write → Run Progress
send_loop write zero k reply sent_len last = fault out_of_fuel
send_loop write (suc fuel) k [] sent_len last =
    ok (record { reply = []; sent_len = sent_len; written = []; last = last })
send_loop write (suc fuel) k (msg ∷ reply) sent_len last =
    let len = length msg in
    let stop : Write → Run Progress = λ nwritten.
      ok (record { reply = msg ∷ reply; sent_len = sent_len; written = []; last = nwritten }) in
    let skip = send_loop write fuel k reply sent_len last in
    let go : ℕ → Run Progress = λ n.
      (if sent_len + n == len
        then send_loop write fuel (k + 1) reply 0 (wrote n)
        else send_loop write fuel (k + 1) (msg ∷ reply) (sent_len + n) (wrote n))
      >>= (λ p. ok (record p { written = take n (drop sent_len msg) ++ p.written })) in
    if len == 0 then skip else elim (write k (len - sent_len)) [
      | wrote zero ↦ stop (wrote 0)
      | wrote (suc n) ↦ go (suc n)
      | would_block ↦ stop would_block
      | failed ↦ stop failed
    ]

-- A client with the fields that only this file uses.
pub record Session : Type 0 where
  pub state : State
  pub sent_len : ℕ
  pub last_interaction : ℕ

pub data Handled : Type 0 where
  kept : Session → Handled
  freed : State → Handled

-- SendReplyToClient at the time `now`, with the bytes that were written.
unfoldable pub send_reply_to_client :
    (ℕ → ℕ → Write) → (fuel now : ℕ) → Session → Run (Bytes × Handled)
unfolding send_loop
send_reply_to_client write fuel now c = do
  p ← send_loop write fuel 0 c.state.client.reply c.sent_len (wrote 0)
  let client = record c.state.client {
    reply = p.reply;
    writable = if is_empty p.reply then false else c.state.client.writable;
  }
  let sent = kept (record {
    state = record c.state { client = client };
    sent_len = if is_empty p.reply then 0 else p.sent_len;
    last_interaction = if ltb 0 (length p.written) then now else c.last_interaction;
  })
  ok (p.written, elim p.last [ failed ↦ freed c.state | _ ↦ sent ])

-- The fields of the client that CreateClient makes, at the time `now`; what SelectDB returns is not
-- looked at.
unfoldable pub new_session : Server → (now : ℕ) → Session
unfolding select_db
new_session server now =
    let s : State = record {
      server = server;
      client = record {
        query_buf = [];
        reply = [];
        writable = false;
        argv = [];
        bulk_len = negsuc 0;
        dict = 0;
      };
    } in
    record {
      state = elim (select_db (pos 0) s) [ none ↦ s | some s' ↦ s' ];
      sent_len = 0;
      last_interaction = now;
    }

-- What `read` of at most 1024 bytes returns.
pub data Read : Type 0 where
  got : Bytes → Read
  end_of_file no_data read_failed : Read

unfoldable pub read_query_from_client :
    Read → (fuel now : ℕ) → List CutisCommand → Session → Run Handled
unfolding parse_query
read_query_from_client (got buf) fuel now table c = do
  let client = record c.state.client { query_buf = c.state.client.query_buf ++ buf }
  parsed ← parse_query fuel table (record c.state { client = client })
  ok (elim parsed [
    | connected s ↦ kept (record c { state = s; last_interaction = now })
    | closed s ↦ freed s
  ])
read_query_from_client no_data fuel now table c = ok (kept c)
read_query_from_client end_of_file fuel now table c = ok (freed c.state)
read_query_from_client read_failed fuel now table c = ok (freed c.state)

-- The clients of the server, each by its descriptor, and the events.
pub record Peers (F T : Type 0) : Type 0 where
  pub el : EventLoop F T
  pub clients : List ℕ

-- listSearchKey, the assertion, and listDelNode.
unfoldable pub del_client : ℕ → List ℕ → Run (List ℕ)
del_client fd [] = fault assertion
del_client fd (c ∷ cs) =
    let rest = del_client fd cs in if c == fd then ok cs else rest >>= (λ cs'. ok (c ∷ cs'))

module _ {F T : Type 0} where
  -- `read_proc` is ReadQueryFromClient with the client.
  unfoldable pub create_client : ℕ → F → Peers F T → Peers F T
  unfolding create_file_event
  create_client fd read_proc p = record {
    el = create_file_event fd ae_readable read_proc p.el;
    clients = p.clients ++ fd ∷ [];
  }

  unfoldable pub free_client : ℕ → Peers F T → Run (Peers F T)
  unfolding delete_file_event del_client
  free_client fd p = do
    let el = delete_file_event fd ae_writable (delete_file_event fd ae_readable p.el)
    clients ← del_client fd p.clients
    ok (record { el = el; clients = clients })
