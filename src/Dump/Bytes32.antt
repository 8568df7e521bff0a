-- ===== src/Dump/Bytes32.antt =====
-- Lengths and bytes, read back from what was written.
use cutis.Common.{
  ℕ, suc, ◌^◌, ◌<◌, ◌≡◌, refl, sym, ap, ◌∙◌, false, List, [], ◌∷◌, ◌++◌, arith, append_assoc,
  append-nil, Bytes, ltb, ◌==◌, length, length-append, take-append, drop-append, ok, ◌>>=◌,
}
use cutis.Adlist.{list_add_node_tail}
use cutis.Dump.{htonl, bytes_chunks, list_chunks, read_long, read_bytes, load_bytes, load_list}

-- The bytes that a list of writes leaves, before what follows.
abbrev pub then_bytes : List Bytes → Bytes → Bytes
then_bytes [] rest = rest
then_bytes (c ∷ cs) rest = c ++ then_bytes cs rest

pub then_bytes-append :
    (a b : List Bytes) (rest : Bytes) → then_bytes (a ++ b) rest ≡ then_bytes a (then_bytes b rest)
then_bytes-append [] b rest = refl
then_bytes-append (c ∷ a) b rest = ap (λ x. c ++ x) (then_bytes-append a b rest)

pub read_long-htonl :
    (n : ℕ) (rest : Bytes) → n < 2 ^ 32 → read_long (htonl n ++ rest) ≡ ok (n, rest)
unfolding read_long htonl
read_long-htonl n rest h = ap (λ (m : ℕ). ok (m, rest)) (omega arith)

pub read_bytes-append :
    (v rest : Bytes) → 0 < length v → read_bytes (length v) (v ++ rest) ≡ ok (v, rest)
unfolding read_bytes
read_bytes-append v rest some_bytes =
    let more : (length v == 0) ≡ false = ground arith in
    let more' : (length (v ++ rest) == 0) ≡ false = ground (arith, length-append v rest) in
    let enough : ltb (length (v ++ rest)) (length v) ≡ false =
      ground (arith, length-append v rest) in
    rw (more, more', enough, take-append v rest, drop-append v rest) refl

pub load_bytes-bytes_chunks :
    (v rest : Bytes)
    → length v < 2 ^ 32
    → load_bytes (then_bytes (bytes_chunks v) rest) ≡ ok (v, rest)
unfolding load_bytes bytes_chunks
load_bytes-bytes_chunks [] rest h = rw (read_long-htonl 0 rest (omega arith)) refl
load_bytes-bytes_chunks (b ∷ v) rest h =
    let more : (suc (length v) == 0) ≡ false = ground arith in
    rw (more, read_long-htonl (suc (length v)) (b ∷ (v ++ rest)) h, ◌>>=◌, more)
      (read_bytes-append (b ∷ v) rest (omega arith))

abbrev pub AllShort : List Bytes → Type 0
AllShort [] = Unit
AllShort (v ∷ l) = (length v < 2 ^ 32) × AllShort l

pub load_list-list_chunks :
    (l done : List Bytes) (rest : Bytes)
    → AllShort l
    → load_list (length l) done (then_bytes (list_chunks l) rest) ≡ ok (done ++ l, rest)
unfolding load_list list_chunks list_add_node_tail
load_list-list_chunks [] done rest h = ap (λ l. ok (l, rest)) (sym (append-nil done))
load_list-list_chunks (v ∷ l) done rest (short, shorts) =
    rw
      (
        then_bytes-append (bytes_chunks v) (list_chunks l) rest,
        load_bytes-bytes_chunks v (then_bytes (list_chunks l) rest) short,
        ◌>>=◌,
      )
      (load_list-list_chunks l (list_add_node_tail done v) rest shorts
        ∙ ap (λ x. ok (x, rest)) (append_assoc done (v ∷ []) l))
