-- ===== src/Dict/Iterator.antt =====
-- The iterator of src/data_struct/dict.c, the release of a whole table, and the random choice.
pub mod Order
use mathlib.Core.List.{flatten}
use cutis.Common.{
  ℕ, zero, suc, ◌+◌, ◌%◌, bit_and, ◌||◌, Option, none, some, List, [], ◌∷◌, ◌++◌, leb, ◌==◌,
  if◌then◌else◌, length, take, dec32, Run, ok, fault, out_of_fuel, null_pointer, ◌>>=◌,
}
use cutis.Dict.{Entries, Dict, reset, at}

-- `index` is the next slot to visit, one more than `iter->index`; a pointer to an entry is the
-- chain from that entry on.
pub record DictIterator {ℓ} (K V : Type ℓ) : Type ℓ where
  pub index : ℕ
  pub entry : Entries K V
  pub next_entry : Entries K V

module _ {ℓ} {K V : Type ℓ} where
  unfoldable pub get_iterator : DictIterator K V
  get_iterator = record { index = 0; entry = []; next_entry = [] }

  -- The first half of a round of DictNext; `none` is the `break`. The size is compared as an int.
  unfoldable pub advance : Dict K V → DictIterator K V → Run (Option (DictIterator K V))
  unfolding at
  advance ht iter = elim iter.entry [
    | [] ↦ if leb 0x8000_0000 ht.size || leb ht.size iter.index then ok none else do
      chain ← at ht.table iter.index
      ok (some (record iter { index = iter.index + 1; entry = chain }))
    | _ ∷ _ ↦ ok (some (record iter { entry = iter.next_entry }))
  ]

  unfoldable pub next_loop :
      ℕ → Dict K V → DictIterator K V → Run (Option (K × V) × DictIterator K V)
  unfolding advance
  next_loop zero ht iter = fault out_of_fuel
  next_loop (suc fuel) ht iter = do
    moved ← advance ht iter
    elim moved [
      | none ↦ ok (none, record iter { index = iter.index + 1 })
      | some iter' ↦ elim iter'.entry [
        | [] ↦ next_loop fuel ht iter'
        | e ∷ rest ↦ ok (some e, record iter' { next_entry = rest })
      ]
    ]

  -- DictNext; every slot takes at most one round, and a chain's end one more.
  unfoldable pub next : Dict K V → DictIterator K V → Run (Option (K × V) × DictIterator K V)
  unfolding next_loop
  next ht iter = next_loop (ht.size + 2) ht iter

  -- `while ((de = DictNext(di)) != NULL)`: the entries that such a loop sees.
  unfoldable pub walk : ℕ → Dict K V → DictIterator K V → Run (List (K × V))
  unfolding next
  walk zero ht iter = fault out_of_fuel
  walk (suc fuel) ht iter = do
    (de, iter') ← next ht iter
    elim de [ none ↦ ok [] | some e ↦ do es ← walk fuel ht iter'; ok (e ∷ es) ]

  unfoldable pub iterate : Dict K V → Run (List (K × V))
  unfolding walk get_iterator
  iterate ht = walk (ht.used + 1) ht get_iterator

  -- The loops of `_DictClear`: the entries that are freed, in order; `used` counts down.
  unfoldable pub clear_chain : ℕ → Entries K V → ℕ × Entries K V
  clear_chain used [] = (used, [])
  clear_chain used (he ∷ rest) =
      let (left, freed) = clear_chain (dec32 used) rest in (left, he ∷ freed)

  unfoldable pub clear_slots : ℕ → List (Entries K V) → Entries K V
  unfolding clear_chain
  clear_slots used [] = []
  clear_slots used (chain ∷ chains) =
      let (left, freed) = clear_chain used chain in
      let rest = clear_slots left chains in if used == 0 then [] else freed ++ rest

  -- `_DictClear`: what is freed, and the table that is left.
  unfoldable pub clear : Dict K V → Entries K V × Dict K V
  unfolding clear_slots reset
  clear ht = (clear_slots ht.used (take ht.size ht.table), reset)

  -- The random numbers that the code draws are the argument.
  unfoldable pub pick_slot : Dict K V → List ℕ → Run (Entries K V × List ℕ)
  unfolding at
  pick_slot ht [] = fault out_of_fuel
  pick_slot ht (r ∷ rs) = do
    chain ← at ht.table (bit_and r ht.size_mask)
    elim chain [ [] ↦ pick_slot ht rs | e ∷ es ↦ ok (e ∷ es, rs) ]

  unfoldable pub get_random_key : Dict K V → List ℕ → Run (Option (K × V))
  unfolding pick_slot at
  get_random_key ht randoms = if ht.used == 0 then ok none else do
    (chain, rs) ← pick_slot ht randoms
    elim rs [ [] ↦ fault out_of_fuel | r ∷ _ ↦ do e ← at chain (r % length chain); ok (some e) ]
