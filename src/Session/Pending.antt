-- ===== src/Session/Pending.antt =====
-- The replies of a client that are still to be sent.
use cutis.Common.{
  ℕ, zero, suc, ◌+◌, ◌≤◌, ◌<◌, ◌≡◌, ◌⊎◌, refl, sym, ap, ◌∙◌, List, [], ◌∷◌, ◌++◌, arith,
  append_assoc, length, length-append, length-drop, take, drop, take-append-drop, drop-append,
  Bytes,
}

abbrev pub joined : List Bytes → Bytes
joined [] = []
joined (m ∷ reply) = m ++ joined reply

-- What is still to be sent.
abbrev pub pending : List Bytes → ℕ → Bytes
pending reply sent_len = drop sent_len (joined reply)

-- `sent_len` is less than the length of the first reply, or 0.
abbrev pub IsStarted : List Bytes → ℕ → Type 0
IsStarted [] sent_len = sent_len ≡ 0
IsStarted (m ∷ reply) sent_len = (sent_len ≡ 0) ⊎ (sent_len < length m)

drop-append_le : (n : ℕ) (xs ys : Bytes) → n ≤ length xs → drop n (xs ++ ys) ≡ drop n xs ++ ys
drop-append_le zero xs ys h = refl
drop-append_le (suc n) [] ys h = absurd (omega arith)
drop-append_le (suc n) (x ∷ xs) ys h = drop-append_le n xs ys (omega (arith, h))

drop-nil : (n : ℕ) → drop {A = ℕ} n [] ≡ []
drop-nil zero = refl
drop-nil (suc n) = refl

drop-drop : (a n : ℕ) (xs : Bytes) → drop n (drop a xs) ≡ drop (a + n) xs
drop-drop zero n xs = ap (λ k. drop k xs) (omega arith)
drop-drop (suc a) n [] = drop-nil n ∙ sym (drop-nil (suc a + n))
drop-drop (suc a) n (x ∷ xs) =
    let step : suc (a + n) ≡ suc a + n = omega arith in
    drop-drop a n xs ∙ ap (λ k. drop k (x ∷ xs)) step

-- A piece that was written is what was pending before, less what is pending then.
pub pending-piece :
    (s n : ℕ) (m : Bytes) (reply : List Bytes)
    → s + n ≤ length m
    → take n (drop s m) ++ pending (m ∷ reply) (s + n) ≡ pending (m ∷ reply) s
pending-piece s n m reply h =
    let rest : pending (m ∷ reply) (s + n) ≡ drop n (drop s m) ++ joined reply =
      drop-append_le (s + n) m (joined reply) h
      ∙ ap (λ d. d ++ joined reply) (sym (drop-drop s n m)) in
    let start : pending (m ∷ reply) s ≡ drop s m ++ joined reply =
      drop-append_le s m (joined reply) (omega (arith, h)) in
    ap (λ d. take n (drop s m) ++ d) rest
    ∙ sym (append_assoc (take n (drop s m)) (drop n (drop s m)) (joined reply))
    ∙ ap (λ d. d ++ joined reply) (take-append-drop n (drop s m))
    ∙ sym start

pub pending-whole : (m : Bytes) (reply : List Bytes) → pending (m ∷ reply) (length m) ≡ joined reply
pending-whole m reply = drop-append m (joined reply)

pub length-pending :
    (s n : ℕ) (m : Bytes) (reply : List Bytes)
    → s + n ≤ length m
    → length (pending (m ∷ reply) (s + n)) + n ≡ length (pending (m ∷ reply) s)
length-pending s n m reply h = omega (
  arith,
  length-drop (s + n) (m ++ joined reply),
  length-drop s (m ++ joined reply),
  length-append m (joined reply),
  h,
)
