-- ===== src/Buffer.antt =====
-- The strings of src/data_struct/sds.c in memory: the header with the length and the free bytes,
-- and the bytes behind it. The allocator is an argument; a size_t wraps around at 2 ^ 64.
pub mod Splice
pub mod Room
pub mod Laws
pub mod Ranges
pub mod Selected
pub mod Copies
use cutis.Common.{
  size_mod, ℕ, ◌+◌, ◌-◌, ◌*◌, ◌%◌, ◌^◌, Bool, Option, none, some, List, [], ◌∷◌, ◌++◌, ltb, leb,
  ◌==◌, if◌then◌else◌, length, take, drop, replicate, Bytes, Run, ok, fault, out_of_bounds,
  null_pointer, exits, ◌>>=◌,
}
use cutis.Common.Int.{ℤ}
use cutis.Request.{c_string}
use cutis.Sds.{from_end, clip_index}

-- The difference of two numbers of type size_t.
abbrev pub sub64 : ℕ → ℕ → ℕ
sub64 a b = (a + (size_mod - b)) % size_mod

-- `buf` is all of the allocated bytes behind the two numbers.
pub record SdsHdr : Type 0 where
  pub len : ℕ
  pub free : ℕ
  pub buf : Bytes

-- What zmalloc and zrealloc give for the header and `n` more bytes: these bytes, or NULL.
pub record Allocator : Type 0 where
  pub malloc : ℕ → Option Bytes
  pub realloc : Bytes → ℕ → Option Bytes

-- The bytes with `src` from the position `at` on.
unfoldable pub splice : ℕ → Bytes → Bytes → Bytes
splice at src buf = take at buf ++ (src ++ drop (at + length src) buf)

-- memcpy of `src` to the position `at` of `buf`.
unfoldable pub memcpy : ℕ → Bytes → Bytes → Run Bytes
unfolding splice
memcpy at src buf =
    if leb (at + length src) (length buf) then ok (splice at src buf) else fault out_of_bounds

-- The `n` bytes that memcpy reads.
unfoldable pub source : ℕ → Bytes → Run Bytes
source n t = if leb n (length t) then ok (take n t) else fault out_of_bounds

-- sdsMakeRoomFor
unfoldable pub make_room_for : Allocator → ℕ → SdsHdr → Run SdsHdr
make_room_for heap addlen h =
    let newlen = (h.len + addlen) * 2 % size_mod in
    if leb addlen h.free then ok h else elim (heap.realloc h.buf (newlen + 1)) [
      | none ↦ fault exits
      | some buf ↦ ok (record { len = h.len; free = sub64 newlen h.len; buf = buf })
    ]

-- zmalloc writes the size before the result is tested, through NULL if there is no memory.
unfoldable pub sdsnewlen : Allocator → Option Bytes → ℕ → Run SdsHdr
unfolding source memcpy
sdsnewlen heap init initlen = do
  buf ← elim (heap.malloc (initlen + 1)) [ none ↦ fault null_pointer | some b ↦ ok b ]
  src ← elim init [ none ↦ ok (replicate initlen 0) | some t ↦ source initlen t ]
  buf' ← memcpy 0 src buf
  buf'' ← memcpy initlen (0 ∷ []) buf'
  ok (record { len = initlen; free = 0; buf = buf'' })

unfoldable pub sdsnew : Allocator → Option Bytes → Run SdsHdr
unfolding sdsnewlen c_string
sdsnew heap init = sdsnewlen heap init (elim init [ none ↦ 0 | some t ↦ length (c_string t) ])

unfoldable pub sdsempty : Allocator → Run SdsHdr
unfolding sdsnewlen
sdsempty heap = sdsnewlen heap (some []) 0

abbrev pub sdslen : SdsHdr → ℕ
sdslen h = h.len

abbrev pub sdsavail : SdsHdr → ℕ
sdsavail h = h.free

unfoldable pub sdsdup : Allocator → SdsHdr → Run SdsHdr
unfolding sdsnewlen
sdsdup heap h = sdsnewlen heap (some h.buf) (sdslen h)

unfoldable pub sdscatlen : Allocator → SdsHdr → Bytes → ℕ → Run SdsHdr
unfolding make_room_for source memcpy
sdscatlen heap h t len = do
  let curlen = sdslen h
  h' ← make_room_for heap len h
  src ← source len t
  buf ← memcpy curlen src h'.buf
  buf' ← memcpy (curlen + len) (0 ∷ []) buf
  ok (record { len = curlen + len; free = sub64 h'.free len; buf = buf' })

unfoldable pub sdscat : Allocator → SdsHdr → Bytes → Run SdsHdr
unfolding sdscatlen c_string
sdscat heap h t = sdscatlen heap h t (length (c_string t))

unfoldable pub sdscpylen : Allocator → SdsHdr → Bytes → ℕ → Run SdsHdr
unfolding make_room_for source memcpy
sdscpylen heap h t len = do
  let totlen = (h.free + h.len) % size_mod
  h' ← if ltb totlen len then make_room_for heap (sub64 len totlen) h else ok h
  src ← source len t
  buf ← memcpy 0 src h'.buf
  buf' ← memcpy len (0 ∷ []) buf
  ok (record { len = len; free = sub64 ((h'.free + h'.len) % size_mod) len; buf = buf' })

unfoldable pub sdscpy : Allocator → SdsHdr → Bytes → Run SdsHdr
unfolding sdscpylen c_string
sdscpy heap h t = sdscpylen heap h t (length (c_string t))

unfoldable pub sdsupdatelen : SdsHdr → SdsHdr
unfolding c_string
sdsupdatelen h =
    let reallen = length (c_string h.buf) in
    record h { len = reallen; free = h.free + (h.len - reallen) }

-- The end of sdsrange and sdstrim: `newlen` bytes from `start` on are moved to the front.
unfoldable pub keep_bytes : ℕ → ℕ → SdsHdr → Run SdsHdr
unfolding source memcpy
keep_bytes start newlen h = do
  src ← source newlen (drop start h.buf)
  buf ← memcpy 0 src h.buf
  buf' ← memcpy newlen (0 ∷ []) buf
  ok (record { len = newlen; free = h.free + (h.len - newlen); buf = buf' })

unfoldable pub sdsrange_in_place : SdsHdr → ℤ → ℤ → Run SdsHdr
unfolding keep_bytes from_end clip_index
sdsrange_in_place h start end =
    let len = sdslen h in
    let first = from_end len start in
    let last = from_end len end in
    let first' = clip_index len first in
    let last' = clip_index len last in
    if len == 0
    then ok h
    else if ltb last first
    then keep_bytes 0 0 h
    else keep_bytes first' (if ltb last' first' then 0 else last' - first' + 1) h
