-- ===== src/Request/Bounds.antt =====
-- The array of 16 arguments of a client in src/server/client.h.
use cutis.Common.{
  ◌≤◌, inl, inr, arith, List, [], ◌∷◌, ◌++◌, Bytes, ltb, Bool-cases, length, length-append,
}
use cutis.Request.{max_args, keep_tokens}

-- The loop that stores the tokens of a request leaves at most 16 arguments if there were at most
-- 16 before.
pub length-keep_tokens :
    (ts argv : List Bytes) → length argv ≤ max_args → length (keep_tokens argv ts) ≤ max_args
unfolding keep_tokens
length-keep_tokens [] argv h = h
length-keep_tokens (t ∷ ts) argv h = elim (Bool-cases (ltb (length argv) max_args)) [
  | inl room ↦ elim (Bool-cases (ltb 0 (length t))) [
    | inl some_bytes ↦
        rw (room, some_bytes)
          (length-keep_tokens ts (argv ++ t ∷ [])
            (ground (arith, room, length-append argv (t ∷ []))))
    | inr empty ↦ rw (room, empty) (length-keep_tokens ts argv h)
  ]
  | inr full ↦ rw full h
]
