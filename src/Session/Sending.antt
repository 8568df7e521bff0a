-- ===== src/Session/Sending.antt =====
-- SendReplyToClient of src/server/client.c loses no byte of the replies and keeps their order.
use cutis.Session.Pending.{
  pending, IsStarted, IsStarted, pending-piece, pending-whole, length-pending,
}
use cutis.Common.{
  ℕ, zero, suc, ◌+◌, ◌-◌, ◌≤◌, ◌<◌, ◌≡◌, ◌⊎◌, refl, sym, ap, subst, ◌∙◌, inl, inr, Bool, true,
  false, Bool-cases, ==_iff, List, [], ◌∷◌, ◌++◌, arith, append_assoc, ◌==◌, ltb, if◌then◌else◌,
  length, take, drop, Bytes, Run, ok, ◌>>=◌, Returns,
}
use cutis.Store.{is_empty}
use cutis.Session.{
  Session, Handled, kept, freed, send_reply_to_client, Write, wrote, would_block, failed, Progress,
  send_loop,
}

-- `write` accepts no more than it is given.
abbrev pub AcceptsAtMost : ℕ → Write → Type 0
AcceptsAtMost n (wrote m) = m ≤ n
AcceptsAtMost n would_block = Unit
AcceptsAtMost n failed = Unit

abbrev pub is_failed : Write → Bool
is_failed failed = true
is_failed would_block = false
is_failed (wrote n) = false

-- A call of `write` for some bytes returned `w`, and sent none.
abbrev pub HasStopped : (ℕ → ℕ → Write) → Write → Type 0
HasStopped write w =
    (k n : ℕ) × (0 < n) × (write k n ≡ w) × ((w ≡ wrote 0) ⊎ (w ≡ would_block) ⊎ (w ≡ failed))

-- What the loop has done: what was written and what is pending then is what was pending, and it
-- ended since nothing was left or since a call of `write` sent nothing.
abbrev pub HasSent : (ℕ → ℕ → Write) → List Bytes → ℕ → Progress → Type 0
HasSent write reply sent_len p =
    (p.written ++ pending p.reply p.sent_len ≡ pending reply sent_len)
    × IsStarted p.reply p.sent_len
    × (((p.reply ≡ []) × (is_failed p.last ≡ false)) ⊎ HasStopped write p.last)

pub Write-cases :
    (w : Write) → (w ≡ wrote 0) ⊎ (w ≡ would_block) ⊎ (w ≡ failed) ⊎ ((n : ℕ) × (w ≡ wrote (suc n)))
Write-cases (wrote zero) = inl refl
Write-cases (wrote (suc n)) = inr (inr (inr (n, refl)))
Write-cases would_block = inr (inl refl)
Write-cases failed = inr (inr (inl refl))

-- The results of a call of `write` that ends the loop, and of one that sent `n` bytes.
abbrev stopped : List Bytes → ℕ → Write → Progress
stopped reply s w = record { reply = reply; sent_len = s; written = []; last = w }

abbrev with_piece : Bytes → Progress → Progress
with_piece piece p = record p { written = piece ++ p.written }

zero-IsStarted : (reply : List Bytes) → IsStarted reply 0
zero-IsStarted [] = refl
zero-IsStarted (m ∷ reply) = inl refl

piece-fits : (s n : ℕ) (m : Bytes) → (s ≡ 0) ⊎ (s < length m) → n ≤ length m - s → s + n ≤ length m
piece-fits s n m started h = omega (arith, started, h)

send_loop-Sent :
    (write : ℕ → ℕ → Write)
    → ((k n : ℕ) → AcceptsAtMost n (write k n))
    → (fuel k : ℕ) (reply : List Bytes) (sent_len : ℕ) (last : Write) → is_failed last ≡ false
    → IsStarted reply sent_len
    → length reply + length (pending reply sent_len) < fuel
    → Returns (send_loop write fuel k reply sent_len last) (HasSent write reply sent_len)
unfolding send_loop
send_loop-Sent write accepts zero k reply s last fine started h = absurd (omega (arith, h))
send_loop-Sent write accepts (suc fuel) k [] s last fine started h =
    (_, refl, (refl, started, inl (refl, fine)))
send_loop-Sent write accepts (suc fuel) k ([] ∷ reply) s last fine started h =
    let none_sent : s ≡ 0 = ground (arith, started) in
    send_loop-Sent write accepts fuel k reply s last fine
      (subst (IsStarted reply) (sym none_sent) (zero-IsStarted reply)) (omega (arith, h))
send_loop-Sent write accepts (suc fuel) k ((c ∷ m) ∷ reply) s last fine started h =
    let msg : Bytes = c ∷ m in
    let more : 0 < length msg - s = omega (arith, started) in
    let filled : (length msg == 0) ≡ false = ground arith in
    elim (Write-cases (write k (length msg - s))) [
      | inl e ↦ (
        stopped (msg ∷ reply) s (wrote 0),
        rw (filled, e) refl,
        (refl, started, inr (k, length msg - s, more, e, inl refl)),
      )
      | inr (inl e) ↦ (
        stopped (msg ∷ reply) s would_block,
        rw (filled, e) refl,
        (refl, started, inr (k, length msg - s, more, e, inr (inl refl))),
      )
      | inr (inr (inl e)) ↦ (
        stopped (msg ∷ reply) s failed,
        rw (filled, e) refl,
        (refl, started, inr (k, length msg - s, more, e, inr (inr refl))),
      )
      | inr (inr (inr (n, e))) ↦
          let fits : s + suc n ≤ length msg =
            piece-fits s (suc n) msg started
              (subst (AcceptsAtMost (length msg - s)) e (accepts k _)) in
          let piece : take (suc n) (drop s msg) ++ pending (msg ∷ reply) (s + suc n)
              ≡ pending (msg ∷ reply) s =
            pending-piece s (suc n) msg reply fits in
          let less : length (pending (msg ∷ reply) (s + suc n)) + suc n
              ≡ length (pending (msg ∷ reply) s) =
            length-pending s (suc n) msg reply fits in
          elim (Bool-cases (s + suc n == length msg)) [
            | inl whole ↦
                let next : pending (msg ∷ reply) (s + suc n) ≡ pending reply 0 =
                  ap (pending (msg ∷ reply)) ((==_iff _ _).0 whole) ∙ pending-whole msg reply in
                let (p, run, (sent, start, ended)) =
                  send_loop-Sent write accepts fuel (k + 1) reply 0 (wrote (suc n)) refl
                    (zero-IsStarted reply) (omega (arith, h, less, ap length next)) in
                (
                  with_piece (take (suc n) (drop s msg)) p,
                  rw (filled, e, whole)
                      (ap (λ r. r >>= (λ p. ok (with_piece (take (suc n) (drop s msg)) p))) run),
                  (
                    append_assoc _ p.written _
                        ∙ ap (λ d. take (suc n) (drop s msg) ++ d) (sent ∙ sym next)
                        ∙ piece,
                    start,
                    ended,
                  ),
                )
            | inr part ↦
                let (p, run, (sent, start, ended)) =
                  send_loop-Sent write accepts fuel (k + 1) (msg ∷ reply) (s + suc n)
                    (wrote (suc n)) refl (inr (ground (arith, fits, part)))
                    (omega (arith, h, less)) in
                (
                  with_piece (take (suc n) (drop s msg)) p,
                  rw (filled, e, part)
                      (ap (λ r. r >>= (λ p. ok (with_piece (take (suc n) (drop s msg)) p))) run),
                  (
                    append_assoc _ p.written _
                        ∙ ap (λ d. take (suc n) (drop s msg) ++ d) sent
                        ∙ piece,
                    start,
                    ended,
                  ),
                )
          ]
    ]

-- What SendReplyToClient promises for the client `c`.
abbrev pub RepliesSent : (ℕ → ℕ → Write) → Session → Bytes × Handled → Type 0
RepliesSent write c (written, kept c') =
    (written ++ pending c'.state.client.reply c'.sent_len ≡ pending c.state.client.reply c.sent_len)
    × IsStarted c'.state.client.reply c'.sent_len
    × (c'.state.client.writable
        ≡ (if is_empty c'.state.client.reply then false else c.state.client.writable))
    × ((c'.state.client.reply ≡ []) ⊎ ((w : Write) × HasStopped write w))
RepliesSent write c (written, freed s) = (s ≡ c.state) × HasStopped write failed

failed-cases : (w : Write) → (w ≡ failed) ⊎ ((a b : Handled) → elim w [ failed ↦ a | _ ↦ b ] ≡ b)
failed-cases failed = inl refl
failed-cases would_block = inr (λ a b. refl)
failed-cases (wrote n) = inr (λ a b. refl)

-- The client after the loop, unless it is freed.
abbrev after_sending : ℕ → Session → Progress → Session
after_sending now c p = record {
  state = record c.state {
    client = record c.state.client {
      reply = p.reply;
      writable = if is_empty p.reply then false else c.state.client.writable;
    };
  };
  sent_len = if is_empty p.reply then 0 else p.sent_len;
  last_interaction = if ltb 0 (length p.written) then now else c.last_interaction;
}

started-settled :
    (reply : List Bytes) (s : ℕ) → IsStarted reply s → (if is_empty reply then 0 else s) ≡ s
started-settled [] s started = sym started
started-settled (m ∷ reply) s started = refl

-- SendReplyToClient with a write that takes no more bytes than it gets, for a client of whose
-- first reply less than all is sent, with fuel for the replies and the bytes that are pending,
-- ends without a fault: if the client is kept, the bytes that were written followed by what is
-- pending then are what was pending, the part of the first reply that is sent is again less than
-- all of it, the event for writing goes exactly if no reply is left, and some reply is left only
-- if a write for some bytes sent none; it is freed only if such a write failed.
pub send_reply_to_client-Sent :
    (write : ℕ → ℕ → Write) (fuel now : ℕ) (c : Session)
    → ((k n : ℕ) → AcceptsAtMost n (write k n))
    → IsStarted c.state.client.reply c.sent_len
    → length c.state.client.reply + length (pending c.state.client.reply c.sent_len) < fuel
    → Returns (send_reply_to_client write fuel now c) (RepliesSent write c)
unfolding send_reply_to_client
send_reply_to_client-Sent write fuel now c accepts started h =
    let (p, run, (sent, start, ended)) =
      send_loop-Sent write accepts fuel 0 c.state.client.reply c.sent_len (wrote 0) refl started
        h in
    let finish : Progress → Run (Bytes × Handled) = λ q.
      ok (q.written, elim q.last [ failed ↦ freed c.state | _ ↦ kept (after_sending now c q) ]) in
    let settled : (if is_empty p.reply then 0 else p.sent_len) ≡ p.sent_len =
      started-settled p.reply p.sent_len start in
    elim (failed-cases p.last) [
      | inr apart ↦ (
        (p.written, kept (after_sending now c p)),
        ap (λ r. r >>= finish) run ∙ ap (λ d. ok (p.written, d)) (apart _ _),
        (
          ap (λ s. p.written ++ pending p.reply s) settled ∙ sent,
          subst (IsStarted p.reply) (sym settled) start,
          refl,
          elim ended [ inl (none_left, _) ↦ inl none_left | inr stop ↦ inr (p.last, stop) ],
        ),
      )
      | inl bad ↦ (
        (p.written, freed c.state),
        ap (λ r. r >>= finish) run ∙ rw bad refl,
        (
          refl,
          elim ended [
            | inl (_, fine) ↦ absurd (ground (arith, fine, ap is_failed bad))
            | inr stop ↦ subst (HasStopped write) bad stop
          ],
        ),
      )
    ]
