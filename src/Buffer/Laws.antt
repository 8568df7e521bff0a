-- ===== src/Buffer/Laws.antt =====
-- The strings of src/data_struct/sds.c in memory are the bytes they stand for.
use cutis.Buffer.Room.{IsAllocator, text, IsValid, ReturnsOrAborts, make_room_for-Roomy}
use cutis.Common.{
  size_mod, ℕ, ◌+◌, ◌-◌, ◌*◌, ◌%◌, ◌≤◌, ◌<◌, ◌≡◌, ◌⊎◌, inl, inr, refl, sym, ap, ◌∙◌, Bool-cases,
  true, false, [], ◌∷◌, ◌++◌, arith, leb, ltb, length, length-take, take, Bytes, Run, ok, fault,
  out_of_bounds, ◌>>=◌, Returns,
}
use cutis.Buffer.{
  SdsHdr, Allocator, sub64, make_room_for, memcpy, source, splice, sdscatlen, sdscpylen,
}
use cutis.Buffer.Splice.{
  memcpy-splice, source-take, length-splice, take-splice, before-splice, get_or-splice,
}

-- Both writes of the operations: the bytes of `src` at `at`, and the zero behind them.
abbrev pub write_text : (at end f : ℕ) → Bytes → Bytes → Run SdsHdr
write_text at end f src buf = do
  b ← memcpy at src buf
  b' ← memcpy end (0 ∷ []) b
  ok (record { len = end; free = f; buf = b' })

abbrev pub hdr_written : (at end f : ℕ) → Bytes → Bytes → SdsHdr
hdr_written at end f src buf = record {
  len = end;
  free = f;
  buf = splice end (0 ∷ []) (splice at src buf);
}

pub written :
    (at end f : ℕ) (src buf : Bytes)
    → at + length src ≡ end
    → end + f + 1 ≡ length buf
    → (write_text at end f src buf ≡ ok (hdr_written at end f src buf))
      × IsValid (hdr_written at end f src buf)
      × (text (hdr_written at end f src buf) ≡ take at buf ++ src)
written at end f src buf size fits =
    let inside : at + length src ≤ length buf = omega (arith, size, fits) in
    let length1 : length (splice at src buf) ≡ length buf = length-splice at src buf inside in
    let inside2 : end + 1 ≤ length (splice at src buf) = omega (arith, length1, fits) in
    (
      rw (memcpy-splice at src buf inside, memcpy-splice end (0 ∷ []) (splice at src buf) inside2)
          refl,
      record {
        size = length-splice end (0 ∷ []) (splice at src buf) inside2 ∙ length1 ∙ sym fits;
        ended = get_or-splice end 0 1 (splice at src buf) (omega (arith, inside2));
      },
      before-splice end (0 ∷ []) (splice at src buf) (omega (arith, inside2))
          ∙ ap (λ k. take k (splice at src buf)) (sym size)
          ∙ take-splice at src buf inside,
    )

pub length-take_all : (n : ℕ) (t : Bytes) → n ≤ length t → length (take n t) ≡ n
length-take_all n t h = omega (arith, length-take n t, h)

-- sdscatlen of n bytes to a valid string in memory (the two numbers of its header tell how many
-- bytes are allocated, and a zero stands behind its bytes), with an allocator that gives as many
-- bytes as it is asked for and keeps the old ones, where twice the new length fits a size_t,
-- either ends the process for lack of memory or returns, without a write out of bounds, a valid
-- string of the old bytes and then the n bytes.
pub sdscatlen-Appends :
    (heap : Allocator) (h : SdsHdr) (t : Bytes) (n : ℕ)
    → IsAllocator heap
    → IsValid h
    → h.free < size_mod
    → (h.len + n) * 2 < size_mod
    → n ≤ length t
    → ReturnsOrAborts (sdscatlen heap h t n) (λ r. IsValid r × (text r ≡ text h ++ take n t))
unfolding sdscatlen
sdscatlen-Appends heap h t n laws valid small fits enough =
    let go : SdsHdr → Run SdsHdr =
      λ h'. source n t >>= (λ src. write_text h.len (h.len + n) (sub64 h'.free n) src h'.buf) in
    elim (make_room_for-Roomy heap n h laws valid small fits) [
      | inl aborts ↦ inl (ap (λ m. m >>= go) aborts)
      | inr (h', run, r) ↦
          let left : sub64 h'.free n ≡ h'.free - n = omega (arith, r.room, r.small, fits) in
          let (run', ok_r, same) =
            written h.len (h.len + n) (sub64 h'.free n) (take n t) h'.buf
              (ap (λ k. h.len + k) (length-take_all n t enough))
              (omega (arith, r.size, r.len, r.room, left)) in
          inr (
            hdr_written h.len (h.len + n) (sub64 h'.free n) (take n t) h'.buf,
            ap (λ m. m >>= go) run
                ∙ ap (λ m. m >>= (λ src. write_text h.len (h.len + n) (sub64 h'.free n) src h'.buf))
                    (source-take n t enough)
                ∙ run',
            (ok_r, same ∙ ap (λ b. b ++ take n t) r.kept),
          )
    ]

-- The writes of sdscpylen.
abbrev copy_into : Bytes → ℕ → SdsHdr → Run SdsHdr
copy_into t n h =
    source n t >>= (λ src. write_text 0 n (sub64 ((h.free + h.len) % size_mod) n) src h.buf)

copied :
    (h : SdsHdr) (t : Bytes) (n : ℕ)
    → h.free + h.len < size_mod
    → length h.buf ≡ h.len + h.free + 1
    → n ≤ h.free + h.len
    → n ≤ length t
    → Returns (copy_into t n h) (λ r. IsValid r × (text r ≡ take n t))
copied h t n small size room enough =
    let left : sub64 ((h.free + h.len) % size_mod) n ≡ h.free + h.len - n =
      omega (arith, small, room) in
    let (run, ok_r, same) =
      written 0 n (sub64 ((h.free + h.len) % size_mod) n) (take n t) h.buf
        (omega (arith, length-take_all n t enough)) (omega (arith, left, size, room)) in
    (
      hdr_written 0 n (sub64 ((h.free + h.len) % size_mod) n) (take n t) h.buf,
      ap (λ m. m >>= (λ src. write_text 0 n (sub64 ((h.free + h.len) % size_mod) n) src h.buf))
            (source-take n t enough)
          ∙ run,
      (ok_r, same),
    )

-- What sdscpylen does: it copies into the room there is, or into new room, or past the end.
pub sdscpylen-Copies :
    (heap : Allocator) (h : SdsHdr) (t : Bytes) (n : ℕ)
    → IsAllocator heap
    → IsValid h
    → (h.len + h.free + n) * 2 < size_mod
    → n ≤ length t
    → (n ≤ h.len + h.free) ⊎ (h.len + h.free * 2 < n)
    → ReturnsOrAborts (sdscpylen heap h t n) (λ r. IsValid r × (text r ≡ take n t))
unfolding sdscpylen
sdscpylen-Copies heap h t n laws valid fits enough cases =
    let whole : (h.free + h.len) % size_mod ≡ h.free + h.len = omega (arith, fits) in
    elim (Bool-cases (ltb ((h.free + h.len) % size_mod) n)) [
      | inr there ↦
          let room : n ≤ h.free + h.len = ground (arith, there, whole) in
          let (r, run, done) = copied h t n (omega (arith, fits)) valid.size room enough in
          inr (r, rw there run, done)
      | inl more ↦
          let more' : h.free + h.len < n = ground (arith, more, whole) in
          let addlen : sub64 n ((h.free + h.len) % size_mod) ≡ n - (h.free + h.len) =
            omega (arith, whole, more', fits) in
          elim (make_room_for-Roomy heap (sub64 n ((h.free + h.len) % size_mod)) h laws valid
            (omega (arith, fits)) (omega (arith, addlen, fits))) [
              | inl aborts ↦ inl (rw more (ap (λ m. m >>= copy_into t n) aborts))
              | inr (h', run, r) ↦
                  let room : n ≤ h'.free + h'.len =
                    omega (arith, cases, more', addlen, r.made, r.len) in
                  let (r', run', done) =
                    copied h' t n (omega (arith, cases, more', addlen, r.made, r.len, fits)) r.size
                      room enough in
                  inr (r', rw more (ap (λ m. m >>= copy_into t n) run ∙ run'), done)
            ]
    ]

-- Without room for the zero one of the writes is out of bounds.
past_end :
    (n f : ℕ) (src buf : Bytes)
    → length src ≡ n
    → length buf ≤ n
    → write_text 0 n f src buf ≡ fault out_of_bounds
unfolding memcpy
past_end n f src buf size short = elim (Bool-cases (leb (0 + length src) (length buf))) [
  | inr past ↦ rw past refl
  | inl exact ↦
      let same : length (splice 0 src buf) ≡ length buf =
        length-splice 0 src buf (ground (arith, exact)) in
      let past : leb (n + 1) (length (splice 0 src buf)) ≡ false = ground (arith, same, short) in
      rw (exact, past) refl
]

-- sdscpylen of n bytes into a valid string with less room than n bytes, where n is at most its
-- length and twice its free bytes, writes out of bounds: sdsMakeRoomFor is asked only for the
-- bytes that are missing, and takes the free ones for enough.
pub sdscpylen-Overflows :
    (heap : Allocator) (h : SdsHdr) (t : Bytes) (n : ℕ)
    → IsValid h
    → (h.len + h.free + n) * 2 < size_mod
    → n ≤ length t
    → h.len + h.free < n
    → n ≤ h.len + h.free * 2
    → sdscpylen heap h t n ≡ fault out_of_bounds
unfolding sdscpylen make_room_for
sdscpylen-Overflows heap h t n valid fits enough over under =
    let whole : (h.free + h.len) % size_mod ≡ h.free + h.len = omega (arith, fits) in
    let more : ltb ((h.free + h.len) % size_mod) n ≡ true = ground (arith, whole, over) in
    let addlen : sub64 n ((h.free + h.len) % size_mod) ≡ n - (h.free + h.len) =
      omega (arith, whole, over, fits) in
    let none_made : leb (sub64 n ((h.free + h.len) % size_mod)) h.free ≡ true =
      ground (arith, addlen, under) in
    rw (more, none_made)
      (ap (λ m. m >>= (λ src. write_text 0 n (sub64 ((h.free + h.len) % size_mod) n) src h.buf))
          (source-take n t enough)
        ∙ past_end n _ (take n t) h.buf (length-take_all n t enough)
            (omega (arith, valid.size, over)))
