-- ===== src/Request/Lines.antt =====
-- Requests of one line, as src/server/client.c reads them: words with a space between them, and a
-- carriage return and a newline at the end.
use cutis.Common.{
  ℕ, ◌+◌, ◌≤◌, ◌<◌, ◌≡◌, refl, sym, ap, ◌∙◌, Bool, true, false, not, ◌&&◌, some, List, [], ◌∷◌,
  ◌++◌, arith, ◌==◌, ltb, if◌then◌else◌, length, length-append, take, drop, take-append,
  drop-append, append_assoc, append-nil, Bytes, Run, ok, ◌>>=◌,
}
use cutis.Sds.{split_from, sdssplitlen}
use cutis.Sds.Laws.{join}
use cutis.Store.{State}
use cutis.Request.Progress.{parse_line}
use cutis.Request.{
  CutisCommand, Parsed, finished, connected, with_argv, with_buffer, process_command, next_request,
  find_line, chomp, keep_tokens, parse_non_bulk_query, max_args,
}

-- Bytes of a word: no zero, no newline, no space.
abbrev pub is_plain : ℕ → Bool
is_plain c = not (c == 0) && not (c == 10) && not (c == b' ')

abbrev pub ArePlain : Bytes → Type 0
ArePlain [] = Unit
ArePlain (c ∷ w) = (is_plain c ≡ true) × ArePlain w

abbrev pub AreWords : List Bytes → Type 0
AreWords [] = Unit
AreWords (w ∷ ws) = (0 < length w) × ArePlain w × AreWords ws

abbrev pub request_line : List Bytes → Bytes
request_line words = join b' ' words ++ 13 ∷ 10 ∷ []

-- No zero and no newline.
abbrev is_in_line : ℕ → Bool
is_in_line c = not (c == 0) && not (c == 10)

abbrev AreInLine : Bytes → Type 0
AreInLine [] = Unit
AreInLine (c ∷ s) = (is_in_line c ≡ true) × AreInLine s

append-AreInLine : (s t : Bytes) → AreInLine s → AreInLine t → AreInLine (s ++ t)
append-AreInLine [] t h k = k
append-AreInLine (c ∷ s) t (here, h) k = (here, append-AreInLine s t h k)

plain-AreInLine : (w : Bytes) → ArePlain w → AreInLine w
plain-AreInLine [] h = tt
plain-AreInLine (c ∷ w) (here, h) = (ground (arith, here), plain-AreInLine w h)

join-AreInLine : (ws : List Bytes) → AreWords ws → AreInLine (join b' ' ws)
join-AreInLine [] h = tt
join-AreInLine (w ∷ []) (some_bytes, plain, h) = plain-AreInLine w plain
join-AreInLine (w ∷ v ∷ ws) (some_bytes, plain, h) =
    append-AreInLine w (b' ' ∷ join b' ' (v ∷ ws)) (plain-AreInLine w plain)
      (refl, join-AreInLine (v ∷ ws) h)

find_line-line : (s rest : Bytes) → AreInLine s → find_line (s ++ 10 ∷ rest) ≡ some (length s)
unfolding find_line
find_line-line [] rest h = refl
find_line-line (c ∷ s) rest (here, h) =
    let other : (c == 0) ≡ false = ground (arith, here) in
    let inside : (c == 10) ≡ false = ground (arith, here) in
    rw (other, inside, find_line-line s rest h) refl

chomp-line : (s : Bytes) → chomp (s ++ 13 ∷ []) ≡ s
unfolding chomp
chomp-line [] = refl
chomp-line (c ∷ []) = refl
chomp-line (c ∷ d ∷ s) = ap (λ t. c ∷ t) (chomp-line (d ∷ s))

split_from-word : (token w : Bytes) → ArePlain w → split_from b' ' token w ≡ (token ++ w) ∷ []
unfolding split_from
split_from-word token [] h = ap (λ t. t ∷ []) (sym (append-nil token))
split_from-word token (c ∷ w) (here, h) =
    let other : (c == b' ') ≡ false = ground (arith, here) in
    rw other
      (split_from-word (token ++ c ∷ []) w h ∙ ap (λ t. t ∷ []) (append_assoc token (c ∷ []) w))

split_from-words :
    (token w rest : Bytes)
    → ArePlain w
    → split_from b' ' token (w ++ b' ' ∷ rest) ≡ (token ++ w) ∷ split_from b' ' [] rest
unfolding split_from
split_from-words token [] rest h = ap (λ t. t ∷ split_from b' ' [] rest) (sym (append-nil token))
split_from-words token (c ∷ w) rest (here, h) =
    let other : (c == b' ') ≡ false = ground (arith, here) in
    rw other (
      split_from-words (token ++ c ∷ []) w rest h
      ∙ ap (λ t. t ∷ split_from b' ' [] rest) (append_assoc token (c ∷ []) w))

sdssplitlen-join :
    (w : Bytes) (ws : List Bytes)
    → AreWords (w ∷ ws)
    → sdssplitlen b' ' (join b' ' (w ∷ ws)) ≡ w ∷ ws
unfolding sdssplitlen
sdssplitlen-join w [] (some_bytes, plain, h) = split_from-word [] w plain
sdssplitlen-join w (v ∷ ws) (some_bytes, plain, h) =
    split_from-words [] w (join b' ' (v ∷ ws)) plain ∙ ap (λ t. w ∷ t) (sdssplitlen-join v ws h)

keep_tokens-all :
    (argv ws : List Bytes)
    → AreWords ws
    → length argv + length ws ≤ max_args
    → keep_tokens argv ws ≡ argv ++ ws
unfolding keep_tokens
keep_tokens-all argv [] words h = sym (append-nil argv)
keep_tokens-all argv (w ∷ ws) (some_bytes, plain, words) h =
    let room : ltb (length argv) max_args ≡ true = ground (arith, h) in
    let filled : ltb 0 (length w) ≡ true = ground (arith, some_bytes) in
    rw (room, filled)
      (keep_tokens-all (argv ++ w ∷ []) ws words (omega (arith, h, length-append argv (w ∷ [])))
        ∙ append_assoc argv (w ∷ []) ws)

-- What parse_line does with the line it found and the rest of the buffer.
abbrev with_query : List CutisCommand → State → Bytes → Bytes → Run Parsed
with_query table s rest query =
    let s' = with_buffer rest s in
    if length query == 0
    then ok (finished (connected s'))
    else process_command table (with_argv (keep_tokens s.client.argv (sdssplitlen b' ' query)) s')
      >>= (λ c. ok (next_request c))

parse_line-found :
    (table : List CutisCommand) (s : State) (line rest : Bytes)
    → s.client.query_buf ≡ (line ++ 13 ∷ 10 ∷ []) ++ rest
    → parse_line table s (some (length (line ++ 13 ∷ []))) ≡ with_query table s rest line
parse_line-found table s line rest e =
    let n = length (line ++ 13 ∷ []) in
    let first : (line ++ 13 ∷ 10 ∷ []) ++ rest ≡ (line ++ 13 ∷ []) ++ 10 ∷ rest =
      append_assoc line (13 ∷ 10 ∷ []) rest ∙ sym (append_assoc line (13 ∷ []) (10 ∷ rest)) in
    let size : n + 1 ≡ length (line ++ 13 ∷ 10 ∷ []) =
      omega (arith, length-append line (13 ∷ []), length-append line (13 ∷ 10 ∷ [])) in
    let after : drop (n + 1) s.client.query_buf ≡ rest =
      ap (λ k. drop k s.client.query_buf) size
      ∙ ap (drop (length (line ++ 13 ∷ 10 ∷ []))) e
      ∙ drop-append (line ++ 13 ∷ 10 ∷ []) rest in
    let query : chomp (take n s.client.query_buf) ≡ line =
      ap (λ b. chomp (take n b)) (e ∙ first)
      ∙ ap chomp (take-append (line ++ 13 ∷ []) (10 ∷ rest))
      ∙ chomp-line line in
    ap (λ r. with_query table s r (chomp (take n s.client.query_buf))) after
    ∙ ap (with_query table s rest) query

length-join :
    (w : Bytes) (ws : List Bytes) → 0 < length w → (length (join b' ' (w ∷ ws)) == 0) ≡ false
length-join w [] h = ground (arith, h)
length-join w (v ∷ ws) h = ground (arith, h, length-append w (b' ' ∷ join b' ' (v ∷ ws)))

pub parse_non_bulk_query-request :
    (table : List CutisCommand) (s : State) (w : Bytes) (ws : List Bytes) (rest : Bytes)
    → AreWords (w ∷ ws)
    → length (w ∷ ws) ≤ max_args
    → parse_non_bulk_query table (with_buffer (request_line (w ∷ ws) ++ rest) (with_argv [] s)) ≡ (
        process_command table (with_argv (w ∷ ws) (with_buffer rest s))
        >>= (λ c. ok (next_request c)))
unfolding parse_non_bulk_query
parse_non_bulk_query-request table s w ws rest words h =
    let line = join b' ' (w ∷ ws) in
    let start = with_buffer (request_line (w ∷ ws) ++ rest) (with_argv [] s) in
    let first : request_line (w ∷ ws) ++ rest ≡ (line ++ 13 ∷ []) ++ 10 ∷ rest =
      append_assoc line (13 ∷ 10 ∷ []) rest ∙ sym (append_assoc line (13 ∷ []) (10 ∷ rest)) in
    let found : find_line (request_line (w ∷ ws) ++ rest) ≡ some (length (line ++ 13 ∷ [])) =
      ap find_line first
      ∙ find_line-line (line ++ 13 ∷ []) rest
          (append-AreInLine line (13 ∷ []) (join-AreInLine (w ∷ ws) words) (refl, tt)) in
    let tokens : keep_tokens [] (sdssplitlen b' ' line) ≡ w ∷ ws =
      ap (keep_tokens []) (sdssplitlen-join w ws words)
      ∙ keep_tokens-all [] (w ∷ ws) words (omega (arith, h)) in
    ap (parse_line table start) found
    ∙ parse_line-found table start line rest refl
    ∙ rw (length-join w ws words.0) (
        ap
          (λ argv.
            process_command table (with_argv argv (with_buffer rest s))
            >>= (λ c. ok (next_request c)))
          tokens)
