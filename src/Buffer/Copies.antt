-- ===== src/Buffer/Copies.antt =====
-- New strings of src/data_struct/sds.c, and sdsupdatelen.
use cutis.Common.{
  ℕ, zero, suc, ◌+◌, ◌≤◌, ◌<◌, ◌≡◌, inl, inr, refl, ap, ◌∙◌, ◌⊎◌, Option, none, some, Option-cases,
  [], ◌∷◌, arith, length, take, get_or, replicate, length-replicate, Bytes, ok, fault, null_pointer,
  ◌>>=◌, Returns,
}
use cutis.Request.{c_string}
use cutis.Buffer.{SdsHdr, Allocator, source, sdsnewlen, sdsdup, sdsupdatelen}
use cutis.Buffer.Splice.{source-take}
use cutis.Buffer.Laws.{written, write_text, hdr_written, length-take_all}
use cutis.Buffer.Room.{IsAllocator, IsValid, text}

-- The bytes of a new string.
abbrev pub initial : Option Bytes → ℕ → Bytes
initial none n = replicate n 0
initial (some t) n = take n t

abbrev HasBytes : Option Bytes → ℕ → Type 0
HasBytes none n = Unit
HasBytes (some t) n = n ≤ length t

length-initial : (init : Option Bytes) (n : ℕ) → HasBytes init n → length (initial init n) ≡ n
length-initial none n h = length-replicate n 0
length-initial (some t) n h = length-take_all n t h

initial-source :
    (init : Option Bytes) (n : ℕ)
    → HasBytes init n
    → elim init [ none ↦ ok (replicate n 0) | some t ↦ source n t ] ≡ ok (initial init n)
initial-source none n h = refl
initial-source (some t) n h = source-take n t h

pub sdsnewlen-Makes :
    (heap : Allocator) (init : Option Bytes) (n : ℕ)
    → IsAllocator heap
    → HasBytes init n
    → (sdsnewlen heap init n ≡ fault null_pointer)
      ⊎ Returns (sdsnewlen heap init n) (λ r. IsValid r × (text r ≡ initial init n))
unfolding sdsnewlen
sdsnewlen-Makes heap init n laws h = elim (Option-cases (heap.malloc (n + 1))) [
  | inl no_memory ↦ inl (rw no_memory refl)
  | inr (buf, e) ↦
      let size : length buf ≡ n + 1 = laws.malloc_size (n + 1) buf e in
      let (run, ok_r, same) =
        written 0 n 0 (initial init n) buf (omega (arith, length-initial init n h))
          (omega (arith, size)) in
      inr (
        hdr_written 0 n 0 (initial init n) buf,
        rw e (ap (λ m. m >>= (λ src. write_text 0 n 0 src buf)) (initial-source init n h) ∙ run),
        (ok_r, same),
      )
]

pub sdsdup-text :
    (heap : Allocator) (h : SdsHdr)
    → IsAllocator heap
    → IsValid h
    → (sdsdup heap h ≡ fault null_pointer)
      ⊎ Returns (sdsdup heap h) (λ r. IsValid r × (text r ≡ text h))
unfolding sdsdup
sdsdup-text heap h laws valid =
    sdsnewlen-Makes heap (some h.buf) h.len laws (omega (arith, valid.size))

-- What strlen sees of bytes with a zero at `n`.
c_string-ended :
    (s : Bytes) (n : ℕ)
    → n < length s
    → get_or s n 1 ≡ 0
    → (c_string s ≡ c_string (take n s))
      × (length (c_string s) ≤ n)
      × (get_or s (length (c_string s)) 1 ≡ 0)
      × (take (length (c_string s)) s ≡ c_string s)
unfolding c_string
c_string-ended [] n inside end = absurd (omega (arith, inside))
c_string-ended (zero ∷ s) zero inside end = (refl, omega arith, refl, refl)
c_string-ended (zero ∷ s) (suc n) inside end = (refl, omega arith, refl, refl)
c_string-ended (suc c ∷ s) zero inside end = absurd (omega (arith, end))
c_string-ended (suc c ∷ s) (suc n) inside end =
    let (same, short, stop, all_of) = c_string-ended s n (omega (arith, inside)) end in
    (ap (λ t. suc c ∷ t) same, omega (arith, short), stop, ap (λ t. suc c ∷ t) all_of)

pub sdsupdatelen-Cuts :
    (h : SdsHdr)
    → IsValid h
    → IsValid (sdsupdatelen h) × (text (sdsupdatelen h) ≡ c_string (text h))
unfolding sdsupdatelen
sdsupdatelen-Cuts h valid =
    let (same, short, stop, all_of) =
      c_string-ended h.buf h.len (omega (arith, valid.size)) valid.ended in
    (record { size = omega (arith, valid.size, short); ended = stop }, all_of ∙ same)
