-- ===== src/Memory.antt =====
-- src/memory/zmalloc.c: the account of the memory in use. What malloc and realloc return is an
-- argument; a block is known by its real address, in front of which nothing is kept.
pub mod Account
use cutis.Common.{
  size_mod, ℕ, ◌+◌, ◌-◌, ◌*◌, ◌%◌, ◌^◌, Bool, true, false, Option, none, some, List, [], ◌∷◌, ◌==◌,
  if◌then◌else◌, length, Bytes, Run, ok, fault, null_pointer, use_after_free, ◌>>=◌,
}
use cutis.Request.{c_string}

-- sizeof(size_t)
abbrev pub header : ℕ
header = 8

-- The live blocks, each with its real address and the size that its header holds.
pub record Heap : Type 0 where
  pub used_memory : ℕ
  pub blocks : List (ℕ × ℕ)

-- `*((size_t*)realptr)`
unfoldable pub old_size : ℕ → List (ℕ × ℕ) → Run ℕ
old_size realptr [] = fault use_after_free
old_size realptr (b ∷ bs) =
    let rest = old_size realptr bs in if b.0 == realptr then ok b.1 else rest

unfoldable pub without : ℕ → List (ℕ × ℕ) → List (ℕ × ℕ)
without realptr [] = []
without realptr (b ∷ bs) = let rest = without realptr bs in if b.0 == realptr then bs else b ∷ rest

-- The size is written before the result is tested, through NULL if malloc gives none.
unfoldable pub zmalloc : Option ℕ → ℕ → Heap → Run (ℕ × Heap)
zmalloc none size h = fault null_pointer
zmalloc (some ptr) size h = ok (
  ptr + header,
  record {
    used_memory = (h.used_memory + (size + header) % size_mod) % size_mod;
    blocks = (ptr, size) ∷ h.blocks;
  },
)

-- A pointer is `none` if it is NULL; `new` is what realloc returns, or malloc.
unfoldable pub zrealloc : Option ℕ → (new : Option ℕ) → ℕ → Heap → Run (Option ℕ × Heap)
unfolding zmalloc old_size without
zrealloc none new size h = do (ptr, h') ← zmalloc new size h; ok (some ptr, h')
zrealloc (some ptr) new size h = do
  let realptr = ptr - header
  oldsize ← old_size realptr h.blocks
  ok (elim new [
    | none ↦ (none, h)
    | some newptr ↦ (
      some (newptr + header),
      record {
        used_memory =
            ((h.used_memory + (size_mod - oldsize % size_mod)) % size_mod + size) % size_mod;
        blocks = (newptr, size) ∷ without realptr h.blocks;
      },
    )
  ])

unfoldable pub zfree : Option ℕ → Heap → Run Heap
unfolding old_size without
zfree none h = ok h
zfree (some ptr) h = do
  let realptr = ptr - header
  oldsize ← old_size realptr h.blocks
  ok (record {
    used_memory = (h.used_memory + (size_mod - (oldsize + header) % size_mod)) % size_mod;
    blocks = without realptr h.blocks;
  })

-- The size that zstrdup asks for.
unfoldable pub zstrdup : Option ℕ → Bytes → Heap → Run (ℕ × Heap)
unfolding zmalloc c_string
zstrdup new s h = zmalloc new (length (c_string s) + 1) h

abbrev pub zmalloc_used_memory : Heap → ℕ
zmalloc_used_memory h = h.used_memory

-- A call by the program, with what the allocator returns.
pub data Call : Type 0 where
  malloc : Option ℕ → ℕ → Call
  realloc : Option ℕ → Option ℕ → ℕ → Call
  free : Option ℕ → Call
  strdup : Option ℕ → Bytes → Call

unfoldable pub run_call : Call → Heap → Run Heap
unfolding zmalloc zrealloc zfree zstrdup
run_call (malloc new size) h = do (ptr, h') ← zmalloc new size h; ok h'
run_call (realloc ptr new size) h = do (ptr', h') ← zrealloc ptr new size h; ok h'
run_call (free ptr) h = zfree ptr h
run_call (strdup new s) h = do (ptr, h') ← zstrdup new s h; ok h'

unfoldable pub run_calls : List Call → Heap → Run Heap
unfolding run_call
run_calls [] h = ok h
run_calls (c ∷ cs) h = do h' ← run_call c h; run_calls cs h'
