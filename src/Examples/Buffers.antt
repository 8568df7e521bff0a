-- ===== src/Examples/Buffers.antt =====
-- Strings in memory, and the account of the memory, at concrete inputs.
use cutis.Common.{
  ℕ, zero, suc, ◌≤◌, ◌≡◌, refl, sym, ap, subst, ◌∙◌, arith, Option, none, some, List, [], ◌∷◌, ◌++◌,
  length, length-take, length-append, length-replicate, take, replicate, Bytes, codes, fault,
  out_of_bounds, Returns,
}
use cutis.Common.Int.{pos, negsuc}
use cutis.Buffer.{SdsHdr, Allocator, sdscatlen, sdscpylen, sdsrange_in_place}
use cutis.Buffer.Laws.{sdscatlen-Appends, sdscpylen-Overflows}
use cutis.Buffer.Room.{IsAllocator, IsValid, text, ReturnsOrAborts}
use cutis.Buffer.Ranges.{take-take}
use cutis.Buffer.Selected.{selected, sdsrange_in_place-selected}
use cutis.Memory
use cutis.Memory.{Heap, Call, run_call, run_calls}
use cutis.Memory.Account.{IsAccounted, AreLegal, run_calls-IsAccounted}

-- New bytes are sevens.
abbrev heap : Allocator
heap = record {
  malloc = λ n. some (replicate n 7);
  realloc = λ old n. some (take n (old ++ replicate n 7));
}

abbrev bytes_of : Option Bytes → Bytes
bytes_of none = []
bytes_of (some b) = b

take-front : (k : ℕ) (xs ys : Bytes) → k ≤ length xs → take k (xs ++ ys) ≡ take k xs
take-front zero xs ys h = refl
take-front (suc k) [] ys h = absurd (omega (arith, h))
take-front (suc k) (x ∷ xs) ys h = ap (λ t. x ∷ t) (take-front k xs ys (omega (arith, h)))

heap-IsAllocator : IsAllocator heap
heap-IsAllocator = record {
  malloc_size = λ n b e. subst (λ b. length b ≡ n) (ap bytes_of e) (length-replicate n 7);
  realloc_size = λ old n b e.
      let sevens : length {A = ℕ} (replicate n 7) ≡ n = length-replicate n 7 in
      subst (λ b. length b ≡ n) (ap bytes_of e)
        (omega
          (arith, length-take n (old ++ replicate n 7), length-append old (replicate n 7), sevens));
  realloc_keeps = λ old n b e k inside small.
      ap (take k) (sym (ap bytes_of e))
      ∙ take-take k n (old ++ replicate n 7) small
      ∙ take-front k old (replicate n 7) inside;
}

-- Four bytes, and two more behind the zero.
abbrev abcd : SdsHdr
abcd = record { len = 4; free = 2; buf = codes "abcd" ++ 0 ∷ 7 ∷ 7 ∷ [] }

abcd-IsValid : IsValid abcd
abcd-IsValid = record { size = refl; ended = refl }

sdscatlen-Appends_example :
    ReturnsOrAborts
      (sdscatlen heap abcd (codes "efg") 3)
      (λ r. IsValid r × (text r ≡ text abcd ++ take 3 (codes "efg")))
sdscatlen-Appends_example =
    sdscatlen-Appends heap abcd (codes "efg") 3 heap-IsAllocator abcd-IsValid (omega arith)
      (omega arith) (omega arith)

-- Seven bytes do not fit, and the two free ones are taken for enough.
sdscpylen-Overflows_example : sdscpylen heap abcd (codes "abcdefgh") 8 ≡ fault out_of_bounds
sdscpylen-Overflows_example =
    sdscpylen-Overflows heap abcd (codes "abcdefgh") 8 abcd-IsValid (omega arith) (omega arith)
      (omega arith) (omega arith)

sdsrange_in_place-selected_example :
    Returns
      (sdsrange_in_place abcd (pos 1) (negsuc 1))
      (λ r. IsValid r × (text r ≡ selected (pos 1) (negsuc 1) (text abcd)))
sdsrange_in_place-selected_example = sdsrange_in_place-selected abcd (pos 1) (negsuc 1) abcd-IsValid

abbrev no_blocks : Heap
no_blocks = record { used_memory = 0; blocks = [] }

-- A block that is allocated, moved and freed.
abbrev calls : List Call
calls =
    Memory.malloc (some 100) 10
    ∷ Memory.realloc (some 108) (some 200) 30
    ∷ Memory.free (some 208)
    ∷ []

calls-AreLegal : AreLegal calls no_blocks
unfolding run_call
calls-AreLegal = (refl, (refl, (refl, tt)))

run_calls-IsAccounted_example : Returns (run_calls calls no_blocks) IsAccounted
run_calls-IsAccounted_example = run_calls-IsAccounted calls no_blocks refl calls-AreLegal
