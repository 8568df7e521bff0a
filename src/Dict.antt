-- ===== src/Dict.antt =====
-- src/data_struct/dict.c and dict.h: a hash table with chained buckets that grows by doubling.
-- The table is the list of its slots, and a slot the list of its entries from `table[i]` on.
-- An entry that C reaches by a pointer is its key and value; keys are compared by value.
pub mod Chain
pub mod Power
pub mod Buckets
pub mod Expand
pub mod Resize
pub mod Methods
pub mod Found
pub mod Iterator
use cutis.Common.{
  ℕ, zero, suc, ◌+◌, ◌*◌, ◌-◌, ◌%◌, ◌^◌, ◌≡◌, ◌↔◌, bit_and, bit_xor, ◌/◌, Bool, true, Option, none,
  some, List, [], ◌∷◌, ltb, leb, ◌==◌, if◌then◌else◌, length, set, take, replicate, Bytes, u32_mod,
  inc32, dec32, Run, ok, fault, out_of_bounds, assertion, null_pointer, out_of_fuel, ◌>>=◌,
}

-- `DICT_OK` and `DICT_ERR`.
pub data Status : Type 0 where
  dict_ok dict_err : Status

-- The functions of a table's type that decide where a key goes, with what a table asks of them.
pub record DictType {ℓ} (K : Type ℓ) : Type ℓ where
  pub hash_function : K → ℕ
  pub key_compare : K → K → Bool
  pub key_compare_iff : (a b : K) → (key_compare a b ≡ true) ↔ (a ≡ b)

abbrev pub Entries {ℓ} : Type ℓ → Type ℓ → Type ℓ
Entries K V = List (K × V)

pub record Dict {ℓ} (K V : Type ℓ) : Type ℓ where
  pub table : List (Entries K V)
  pub size : ℕ
  pub size_mask : ℕ
  pub used : ℕ

abbrev pub initial_size : ℕ
initial_size = 16

-- `hash * 33 + c` over the bytes, in 32 bits.
unfoldable pub gen_hash_from : ℕ → Bytes → ℕ
gen_hash_from hash [] = hash
gen_hash_from hash (c ∷ buf) = gen_hash_from ((hash * 2 ^ 5 % u32_mod + hash + c) % u32_mod) buf

unfoldable pub gen_hash_function : Bytes → ℕ
unfolding gen_hash_from
gen_hash_function buf = gen_hash_from 5381 buf

-- `~x` of an unsigned int.
abbrev pub not32 : ℕ → ℕ
not32 x = u32_mod - 1 - x

-- Thomas Wang's mix function.
unfoldable pub int_hash_function : ℕ → ℕ
int_hash_function key =
    let k1 = (key + not32 (key * 2 ^ 15 % u32_mod)) % u32_mod in
    let k2 = bit_xor k1 (k1 / 2 ^ 10) in
    let k3 = (k2 + k2 * 2 ^ 3 % u32_mod) % u32_mod in
    let k4 = bit_xor k3 (k3 / 2 ^ 6) in
    let k5 = (k4 + not32 (k4 * 2 ^ 11 % u32_mod)) % u32_mod in bit_xor k5 (k5 / 2 ^ 16)

-- The doubling loop. 28 rounds lead from 16 to 2 ^ 32, where `i` would wrap.
unfoldable pub next_power_loop : ℕ → ℕ → ℕ → Run ℕ
next_power_loop zero i size = fault out_of_fuel
next_power_loop (suc fuel) i size =
    let more = next_power_loop fuel (i * 2 % u32_mod) size in if leb size i then ok i else more

unfoldable pub next_power : ℕ → Run ℕ
unfolding next_power_loop
next_power size =
    if leb 0x8000_0000 size then ok 0x8000_0000 else next_power_loop 32 initial_size size

-- `array[i]`.
unfoldable pub at {ℓ} : {A : Type ℓ} → List A → ℕ → Run A
at [] i = fault out_of_bounds
at (x ∷ xs) zero = ok x
at (x ∷ xs) (suc i) = at xs i

module _ {ℓ} {K V : Type ℓ} where
  -- `_DictReset`
  unfoldable pub reset : Dict K V
  reset = record { table = []; size = 0; size_mask = 0; used = 0 }

  unfoldable pub create : Dict K V
  unfolding reset
  create = reset

  unfoldable pub get_hash_table_size : Dict K V → ℕ
  get_hash_table_size ht = ht.size

  unfoldable pub get_hash_table_used : Dict K V → ℕ
  get_hash_table_used ht = ht.used

-- `DictHashKey(ht, key) & mask`
unfoldable pub slot {ℓ} : {K : Type ℓ} ⦃type : DictType K⦄ → ℕ → K → ℕ
slot ⦃type⦄ mask k = bit_and (type.hash_function k) mask

-- `_DictAlloc(real_size * sizeof(DictEntry*))` and the memset behind it. _DictAlloc takes an
-- int: 2 ^ 28 slots are INT_MIN bytes for it, which zmalloc gets as a size_t that malloc refuses
-- before it writes through the null pointer; of more slots 0 bytes are left, and memset writes
-- past them.
unfoldable pub alloc_slots {ℓ} : {E : Type ℓ} → ℕ → Run (List (List E))
alloc_slots real_size =
    let size = real_size * 8 % u32_mod in
    if leb 0x8000_0000 size
    then fault null_pointer
    else if ltb size (real_size * 8)
    then fault out_of_bounds
    else ok (replicate real_size [])

module _ {ℓ} {K V : Type ℓ} ⦃type : DictType K⦄ where
  -- The chain at the slot of a key.
  unfoldable pub chain_at : Dict K V → K → Run (Entries K V)
  unfolding slot at
  chain_at ht k = at ht.table (slot ht.size_mask k)

  -- The walk along a chain that ends at the first entry with an equal key.
  unfoldable pub search : K → Entries K V → Option (K × V)
  search k [] = none
  search k (he ∷ rest) = if type.key_compare k he.0 then some he else search k rest

  -- Every entry of a chain is put in front of its chain in the new table; `used` counts down.
  unfoldable pub move_chain :
      ℕ → ℕ → Entries K V → List (Entries K V) → Run (ℕ × List (Entries K V))
  unfolding slot at
  move_chain mask used [] n = ok (used, n)
  move_chain mask used (he ∷ rest) n = do
    let h = slot mask he.0
    front ← at n h
    move_chain mask (dec32 used) rest (set n h (he ∷ front))

  -- `for (i = 0; i < ht->size && ht->used > 0; i++)`
  unfoldable pub move_all :
      ℕ → ℕ → List (Entries K V) → List (Entries K V) → Run (ℕ × List (Entries K V))
  unfolding move_chain
  move_all mask used [] n = ok (used, n)
  move_all mask used (chain ∷ chains) n =
      if used == 0
      then ok (used, n)
      else do (used', n') ← move_chain mask used chain n; move_all mask used' chains n'

  unfoldable pub expand : Dict K V → ℕ → Run (Status × Dict K V)
  unfolding next_power alloc_slots move_all
  expand ht size = do
    real_size ← next_power size
    if ltb size ht.used then ok (dict_err, ht) else do
      let mask = real_size - 1
      slots ← alloc_slots real_size
      (left, table) ← move_all mask ht.used (take ht.size ht.table) slots
      if left == 0
          then ok (
            dict_ok,
            record { table = table; size = real_size; size_mask = mask; used = ht.used },
          )
          else fault assertion

  unfoldable pub expand_if_needed : Dict K V → Run (Status × Dict K V)
  unfolding expand
  expand_if_needed ht =
      if ht.size == 0
      then expand ht initial_size
      else if ht.used == ht.size
      then expand ht (ht.size * 2 % u32_mod)
      else ok (dict_ok, ht)

  -- The slot for a new key, or `none` (the code's -1) if the key is there or there is no room.
  unfoldable pub key_index : Dict K V → K → Run (Option ℕ × Dict K V)
  unfolding expand_if_needed chain_at search
  key_index ht k = do
    (ret, ht') ← expand_if_needed ht
    elim ret [
      | dict_err ↦ ok (none, ht')
      | dict_ok ↦ do
        chain ← chain_at ht' k
        ok (elim (search k chain) [ none ↦ some (slot ht'.size_mask k) | some _ ↦ none ], ht')
    ]

  unfoldable pub add : Dict K V → K → V → Run (Status × Dict K V)
  unfolding key_index
  add ht k v = do
    (index, ht') ← key_index ht k
    elim index [
      | none ↦ ok (dict_err, ht')
      | some i ↦ do
        front ← at ht'.table i
        ok (dict_ok, record ht' { table = set ht'.table i ((k, v) ∷ front); used = inc32 ht'.used })
    ]

  unfoldable pub find : Dict K V → K → Run (Option (K × V))
  unfolding chain_at search
  find ht k = if ht.used == 0 then ok none else do chain ← chain_at ht k; ok (search k chain)

  -- `entry->val = val` at the entry that the walk for `k` stops at.
  unfoldable pub assign : K → V → Entries K V → Entries K V
  assign k v [] = []
  assign k v (he ∷ rest) =
      if type.key_compare k he.0 then (he.0, v) ∷ rest else he ∷ assign k v rest

  unfoldable pub set_hash_val : Dict K V → K → V → Run (Dict K V)
  unfolding assign chain_at
  set_hash_val ht k v = do
    chain ← chain_at ht k
    ok (record ht { table = set ht.table (slot ht.size_mask k) (assign k v chain) })

  unfoldable pub replace : Dict K V → K → V → Run (Status × Dict K V)
  unfolding add find set_hash_val
  replace ht k v = do
    (ret, ht') ← add ht k v
    elim ret [
      | dict_ok ↦ ok (dict_ok, ht')
      | dict_err ↦ do
        entry ← find ht' k
        elim entry [
          | none ↦ fault null_pointer
          | some _ ↦ do ht'' ← set_hash_val ht' k v; ok (dict_ok, ht'')
        ]
    ]

  -- The chain without the first entry that the walk for `k` stops at.
  unfoldable pub unlink : K → Entries K V → Entries K V
  unlink k [] = []
  unlink k (he ∷ rest) = if type.key_compare k he.0 then rest else he ∷ unlink k rest

  -- `DictGenericDelete`; what `no_free` decides is who frees the key and the value.
  unfoldable pub delete : Dict K V → K → Run (Status × Dict K V)
  unfolding chain_at search unlink
  delete ht k = if ht.used == 0 then ok (dict_err, ht) else do
    chain ← chain_at ht k
    elim (search k chain) [
      | none ↦ ok (dict_err, ht)
      | some _ ↦ ok (
        dict_ok,
        record ht {
          table = set ht.table (slot ht.size_mask k) (unlink k chain);
          used = dec32 ht.used;
        },
      )
    ]

  unfoldable pub resize : Dict K V → Run (Status × Dict K V)
  unfolding expand
  resize ht = expand ht (if ltb ht.used initial_size then initial_size else ht.used)
