-- ===== src/Sds.antt =====
-- The operations of src/data_struct/sds.c that requests need, on the bytes of a string.
pub mod Laws
pub mod Trim
use cutis.Common.{
  ℕ, zero, suc, ◌+◌, ◌-◌, Bool, true, false, ◌&&◌, List, [], ◌∷◌, ◌++◌, map, Bytes, ltb, leb, ◌==◌,
  if◌then◌else◌, length, take, drop,
}
use cutis.Common.Int.{ℤ, pos, negsuc}

-- An index counted from the end if it is negative, and then 0 if it is still negative.
unfoldable pub from_end : ℕ → ℤ → ℕ
from_end len (pos i) = i
from_end len (negsuc i) = len - suc i

-- An index past the end becomes the last one.
unfoldable pub clip_index : ℕ → ℕ → ℕ
clip_index len i = if leb len i then len - 1 else i

unfoldable pub sdsrange : Bytes → ℤ → ℤ → Bytes
unfolding from_end clip_index
sdsrange s start end =
    let len = length s in
    let first = from_end len start in
    let last = from_end len end in
    if len == 0
    then s
    else if ltb last first
    then []
    else let first' = clip_index len first in
      let last' = clip_index len last in
      if ltb last' first' then [] else take (last' - first' + 1) (drop first' s)

-- The loop of sdssplitlen with a separator of one byte: `token` is what stands since `start`.
unfoldable pub split_from : ℕ → Bytes → Bytes → List Bytes
split_from sep token [] = token ∷ []
split_from sep token (c ∷ s) =
    if c == sep then token ∷ split_from sep [] s else split_from sep (token ++ c ∷ []) s

unfoldable pub sdssplitlen : ℕ → Bytes → List Bytes
unfolding split_from
sdssplitlen sep s = split_from sep [] s

-- `tolower` in the C locale.
unfoldable pub to_lower : ℕ → ℕ
to_lower c = if leb b'A' c && leb c b'Z' then c + 32 else c

unfoldable pub sdstolower : Bytes → Bytes
unfolding to_lower
sdstolower s = map to_lower s

unfoldable pub to_upper : ℕ → ℕ
to_upper c = if leb b'a' c && leb c b'z' then c - 32 else c

unfoldable pub sdstoupper : Bytes → Bytes
unfolding to_upper
sdstoupper s = map to_upper s

-- `strchr(cset, c)`, which also finds the zero that ends `cset`.
unfoldable pub in_cset : Bytes → ℕ → Bool
in_cset [] c = c == 0
in_cset (d ∷ cset) c = if d == 0 then c == 0 else if d == c then true else in_cset cset c

-- The two loops of sdstrim.
unfoldable pub trim_front : Bytes → Bytes → Bytes
unfolding in_cset
trim_front cset [] = []
trim_front cset (c ∷ s) = if in_cset cset c then trim_front cset s else c ∷ s

unfoldable pub trim_back : Bytes → Bytes → Bytes
unfolding in_cset
trim_back cset [] = []
trim_back cset (c ∷ s) = elim (trim_back cset s) [
  | [] ↦ if in_cset cset c then [] else c ∷ []
  | d ∷ t ↦ c ∷ d ∷ t
]

unfoldable pub sdstrim : Bytes → Bytes → Bytes
unfolding trim_front trim_back
sdstrim cset s = trim_back cset (trim_front cset s)
