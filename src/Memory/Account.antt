-- ===== src/Memory/Account.antt =====
-- used_memory of src/memory/zmalloc.c is the size of the live blocks.
use cutis.Common.{
  size_mod, ℕ, ◌+◌, ◌-◌, ◌%◌, ◌≡◌, inl, inr, refl, ap, subst, ◌∙◌, Bool, true, false, ◌||◌,
  Bool-cases, Option, none, some, List, [], ◌∷◌, arith, ◌==◌, length, Run, ok, fault, ◌>>=◌,
  Returns,
}
use cutis.Request.{c_string}
use cutis.Memory.{
  header, Heap, old_size, without, zmalloc, zrealloc, zfree, zstrdup, Call, malloc, realloc, free,
  strdup, run_call, run_calls,
}

-- The bytes of the blocks, with their headers.
abbrev pub total : List (ℕ × ℕ) → ℕ
total [] = 0
total (b ∷ bs) = b.1 + header + total bs

abbrev pub is_live : ℕ → List (ℕ × ℕ) → Bool
is_live realptr [] = false
is_live realptr (b ∷ bs) = b.0 == realptr || is_live realptr bs

-- Every size fits a size_t, and so does the sum of all of them.
abbrev pub IsAccounted : Heap → Type 0
IsAccounted h = h.used_memory ≡ total h.blocks % size_mod

-- The header of a live block tells by how much the sum goes down without it.
old_size-total :
    (p : ℕ) (bs : List (ℕ × ℕ))
    → is_live p bs ≡ true
    → Returns (old_size p bs) (λ n. total bs ≡ n + header + total (without p bs))
unfolding old_size without
old_size-total p [] h = absurd (ground (arith, h))
old_size-total p (b ∷ bs) h = elim (Bool-cases (b.0 == p)) [
  | inl here ↦ (b.1, rw here refl, rw here refl)
  | inr there ↦
      let live : is_live p bs ≡ true = ground (arith, there, h) in
      let (n, run, sum) = old_size-total p bs live in
      (n, rw there run, rw there (omega (arith, sum)))
]

-- The allocator gave a block where it is needed, and what is freed or moved is NULL or live.
abbrev pub is_block : Option ℕ → Bool
is_block none = false
is_block (some p) = true

abbrev pub is_legal : Call → Heap → Bool
is_legal (malloc new size) h = is_block new
is_legal (strdup new s) h = is_block new
is_legal (free none) h = true
is_legal (free (some p)) h = is_live (p - header) h.blocks
is_legal (realloc none new size) h = is_block new
is_legal (realloc (some p) new size) h = is_live (p - header) h.blocks

malloc-IsAccounted :
    (new : Option ℕ) (size : ℕ) (h : Heap)
    → IsAccounted h
    → is_block new ≡ true
    → Returns (zmalloc new size h) (λ r. IsAccounted r.1)
unfolding zmalloc
malloc-IsAccounted none size h good legal = absurd (ground (arith, legal))
malloc-IsAccounted (some p) size h good legal = (_, refl, omega (arith, good))

pub run_call-IsAccounted :
    (c : Call) (h : Heap) → IsAccounted h → is_legal c h ≡ true → Returns (run_call c h) IsAccounted
unfolding run_call zrealloc zfree zstrdup
run_call-IsAccounted (malloc new size) h good legal =
    let (r, run, good') = malloc-IsAccounted new size h good legal in
    (r.1, ap (λ m. m >>= (λ r. ok r.1)) run, good')
run_call-IsAccounted (strdup new s) h good legal =
    let (r, run, good') = malloc-IsAccounted new (length (c_string s) + 1) h good legal in
    (r.1, ap (λ m. m >>= (λ r. ok r.1)) run, good')
run_call-IsAccounted (free none) h good legal = (h, refl, good)
run_call-IsAccounted (free (some p)) h good legal =
    let (n, run, sum) = old_size-total (p - header) h.blocks legal in
    (
      record {
        used_memory = (h.used_memory + (size_mod - (n + header) % size_mod)) % size_mod;
        blocks = without (p - header) h.blocks;
      },
      rw run refl,
      omega (arith, good, sum),
    )
run_call-IsAccounted (realloc none new size) h good legal =
    let (r, run, good') = malloc-IsAccounted new size h good legal in
    let wrap : ℕ × Heap → Run (Option ℕ × Heap) = λ r. ok (some r.0, r.1) in
    (r.1, ap (λ m. m >>= wrap >>= (λ r. ok r.1)) run, good')
run_call-IsAccounted (realloc (some p) none size) h good legal =
    let (n, run, sum) = old_size-total (p - header) h.blocks legal in (h, rw run refl, good)
run_call-IsAccounted (realloc (some p) (some q) size) h good legal =
    let (n, run, sum) = old_size-total (p - header) h.blocks legal in
    (
      record {
        used_memory = ((h.used_memory + (size_mod - n % size_mod)) % size_mod + size) % size_mod;
        blocks = (q, size) ∷ without (p - header) h.blocks;
      },
      rw run refl,
      omega (arith, good, sum),
    )

-- Each call is legal in the heap that the calls before it leave.
abbrev pub AreLegal : List Call → Heap → Type 0
AreLegal [] h = Unit
AreLegal (c ∷ cs) h =
    (is_legal c h ≡ true)
    × elim (run_call c h) as (λ _. Type 0) [ ok h' ↦ AreLegal cs h' | fault _ ↦ Unit ]

AreLegal-next :
    (cs : List Call) (m : Run Heap) (h : Heap)
    → elim m as (λ _. Type 0) [ ok h' ↦ AreLegal cs h' | fault _ ↦ Unit ]
    → m ≡ ok h
    → AreLegal cs h
AreLegal-next cs m h legal run =
    subst (λ m. elim m as (λ _. Type 0) [ ok h' ↦ AreLegal cs h' | fault _ ↦ Unit ]) run legal

-- Calls of zmalloc, zrealloc, zfree and zstrdup in any order, where malloc gives a block and
-- what is moved or freed is NULL or a live block, end without a fault, and used_memory is then
-- the size of the live blocks with their headers, as a size_t, if it was so before.
pub run_calls-IsAccounted :
    (cs : List Call) (h : Heap)
    → IsAccounted h
    → AreLegal cs h
    → Returns (run_calls cs h) IsAccounted
unfolding run_calls
run_calls-IsAccounted [] h good legal = (h, refl, good)
run_calls-IsAccounted (c ∷ cs) h good (legal, later) =
    let (h1, run, good1) = run_call-IsAccounted c h good legal in
    let (h2, runs, good2) =
      run_calls-IsAccounted cs h1 good1 (AreLegal-next cs (run_call c h) h1 later run) in
    (h2, ap (λ m. m >>= run_calls cs) run ∙ runs, good2)
