-- ===== src/Buffer/Room.antt =====
-- Valid strings of src/data_struct/sds.c in memory, and sdsMakeRoomFor.
use cutis.Common.{
  size_mod, ℕ, ◌+◌, ◌-◌, ◌*◌, ◌%◌, ◌≤◌, ◌<◌, ◌≡◌, ◌⊎◌, inl, inr, refl, some, Option-cases,
  Bool-cases, arith, leb, length, take, get_or, Bytes, Run, fault, exits, Returns,
}
use cutis.Buffer.{SdsHdr, Allocator, sub64, make_room_for}

-- The allocator gives as many bytes as it is asked for, and zrealloc keeps the old ones that fit.
pub record IsAllocator (heap : Allocator) : Type 0 where
  pub malloc_size : (n : ℕ) (b : Bytes) → heap.malloc n ≡ some b → length b ≡ n
  pub realloc_size : (old : Bytes) (n : ℕ) (b : Bytes) → heap.realloc old n ≡ some b → length b ≡ n
  pub realloc_keeps :
      (old : Bytes) (n : ℕ) (b : Bytes)
      → heap.realloc old n ≡ some b
      → (k : ℕ) → k ≤ length old
      → k ≤ n
      → take k b ≡ take k old

-- The bytes of the string.
abbrev pub text : SdsHdr → Bytes
text h = take h.len h.buf

-- The two numbers tell how many bytes there are, and a zero stands behind the string.
pub record IsValid (h : SdsHdr) : Type 0 where
  pub size : length h.buf ≡ h.len + h.free + 1
  pub ended : get_or h.buf h.len 1 ≡ 0

-- Without memory the process ends.
abbrev pub ReturnsOrAborts : (m : Run SdsHdr) (P : SdsHdr → Type 0) → Type 0
ReturnsOrAborts m P = (m ≡ fault exits) ⊎ Returns m P

-- What sdsMakeRoomFor leaves.
pub record Roomy (h : SdsHdr) (addlen : ℕ) (r : SdsHdr) : Type 0 where
  pub size : length r.buf ≡ r.len + r.free + 1
  pub len : r.len ≡ h.len
  pub room : addlen ≤ r.free
  pub small : r.free < size_mod
  pub kept : take h.len r.buf ≡ text h
  pub made : (addlen ≤ h.free) ⊎ (r.free ≡ (h.len + addlen) * 2 - h.len)

pub make_room_for-Roomy :
    (heap : Allocator) (addlen : ℕ) (h : SdsHdr)
    → IsAllocator heap
    → IsValid h
    → h.free < size_mod
    → (h.len + addlen) * 2 < size_mod
    → ReturnsOrAborts (make_room_for heap addlen h) (Roomy h addlen)
unfolding make_room_for
make_room_for-Roomy heap addlen h laws valid small fits = elim (Bool-cases (leb addlen h.free)) [
  | inl room ↦ inr (
    h,
    rw room refl,
    record {
      size = valid.size;
      len = refl;
      room = ground (arith, room);
      small = small;
      kept = refl;
      made = inl (ground (arith, room));
    },
  )
  | inr full ↦
      let n : (h.len + addlen) * 2 % size_mod ≡ (h.len + addlen) * 2 = omega (arith, fits) in
      elim (Option-cases (heap.realloc h.buf ((h.len + addlen) * 2 % size_mod + 1))) [
        | inl no_memory ↦ inl (rw (full, no_memory) refl)
        | inr (buf, e) ↦
            let size = laws.realloc_size h.buf ((h.len + addlen) * 2 % size_mod + 1) buf e in
            let kept =
              laws.realloc_keeps h.buf ((h.len + addlen) * 2 % size_mod + 1) buf e h.len
                (omega (arith, valid.size)) (omega (arith, n)) in
            inr (
              record {
                len = h.len;
                free = sub64 ((h.len + addlen) * 2 % size_mod) h.len;
                buf = buf;
              },
              rw (full, e) refl,
              record {
                size = omega (arith, size, n, fits);
                len = refl;
                room = omega (arith, n, fits);
                small = omega arith;
                kept = kept;
                made = inr (omega (arith, n, fits));
              },
            )
      ]
]
