-- ===== src/Examples/Sessions.antt =====
-- The connection of a client at concrete inputs.
use cutis.Common.{ℕ, zero, suc, refl, arith, inl, inr, false, [], ◌∷◌, codes, Returns}
use cutis.Session.{Write, wrote, would_block, Session, Peers, send_reply_to_client, free_client}
use cutis.Session.Sending.{AcceptsAtMost, RepliesSent, send_reply_to_client-Sent}
use cutis.Session.Events.{Freed, free_client-Freed}
use cutis.Examples.Data.{empty_state}

-- One byte is taken, and then none.
abbrev trickle : ℕ → ℕ → Write
trickle k zero = wrote 0
trickle zero (suc n) = wrote 1
trickle (suc k) (suc n) = would_block

trickle-AcceptsAtMost : (k n : ℕ) → AcceptsAtMost n (trickle k n)
trickle-AcceptsAtMost zero zero = omega arith
trickle-AcceptsAtMost (suc k) zero = omega arith
trickle-AcceptsAtMost zero (suc n) = omega arith
trickle-AcceptsAtMost (suc k) (suc n) = tt

-- Two replies, with two bytes of the first sent.
abbrev replying : Session
replying = record {
  state = record empty_state {
    client = record empty_state.client { reply = codes "+OK\r\n" ∷ codes "$2\r\n" ∷ [] };
  };
  sent_len = 2;
  last_interaction = 0;
}

send_reply_to_client-Sent_example :
    Returns (send_reply_to_client trickle 20 100 replying) (RepliesSent trickle replying)
send_reply_to_client-Sent_example =
    send_reply_to_client-Sent trickle 20 100 replying trickle-AcceptsAtMost (inr (omega arith))
      (omega arith)

-- Descriptor 5 is read and written, and descriptor 6 is read.
abbrev peers : Peers ℕ ℕ
peers = record {
  el = record {
    time_event_next_id = 0;
    file_events =
        record { fd = 5; mask = 2; proc = 1 }
        ∷ record { fd = 6; mask = 1; proc = 0 }
        ∷ record { fd = 5; mask = 1; proc = 0 }
        ∷ [];
    time_events = [];
    stop = false;
  };
  clients = 5 ∷ 6 ∷ [];
}

free_client-Freed_example : Returns (free_client 5 peers) (Freed 5 peers)
free_client-Freed_example =
    free_client-Freed 5 peers (inr refl, refl, (inl refl, refl, (inl refl, refl, tt))) refl
