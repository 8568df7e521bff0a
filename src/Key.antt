-- ===== src/Key.antt =====
-- The keys of the databases and of the sets: sdscmp of src/data_struct/sds.c, and the functions of
-- `sdsDictType` in src/server/server.c and `SetDictType` in src/commands/object.c, which agree on
-- the bytes of a string. Lengths are below 2 ^ 31, so their difference fits an int.
use cutis.Common.{
  ℕ, zero, suc, ◌≡◌, refl, sym, subst, ◌↔◌, Bool, true, false, [], ◌∷◌, arith, ◌==◌, ltb,
  if◌then◌else◌, length, Bytes,
}
use cutis.Common.Int.{ℤ, pos, sub_ℕ}
use cutis.Dict.{DictType, gen_hash_function}

-- The sign is that of the first difference among `n` bytes.
unfoldable pub memcmp : ℕ → Bytes → Bytes → ℤ
memcmp (suc n) (a ∷ s1) (b ∷ s2) = if a == b then memcmp n s1 s2 else sub_ℕ a b
memcmp _ _ _ = pos 0

abbrev pub is_zero : ℤ → Bool
is_zero (pos n) = n == 0
is_zero _ = false

unfoldable pub sdscmp : Bytes → Bytes → ℤ
unfolding memcmp
sdscmp s1 s2 =
    let l1 = length s1 in
    let l2 = length s2 in
    let minlen = if ltb l1 l2 then l1 else l2 in
    let cmp = memcmp minlen s1 s2 in if is_zero cmp then sub_ℕ l1 l2 else cmp

unfoldable pub sds_dict_hash_function : Bytes → ℕ
unfolding gen_hash_function
sds_dict_hash_function key = gen_hash_function key

unfoldable pub sds_dict_key_compare : Bytes → Bytes → Bool
unfolding sdscmp
sds_dict_key_compare key1 key2 = is_zero (sdscmp key1 key2)

memcmp_sound :
    (n : ℕ) (s1 s2 : Bytes)
    → length s1 ≡ n
    → length s2 ≡ n
    → is_zero (memcmp n s1 s2) ≡ true
    → s1 ≡ s2
unfolding memcmp
memcmp_sound n [] [] e1 e2 h = refl
memcmp_sound n [] (b ∷ s2) e1 e2 h = absurd (omega arith)
memcmp_sound n (a ∷ s1) [] e1 e2 h = absurd (omega arith)
memcmp_sound zero (a ∷ s1) (b ∷ s2) e1 e2 h = absurd (omega arith)
memcmp_sound (suc n) (a ∷ s1) (b ∷ s2) e1 e2 h =
    ground (arith, memcmp_sound n s1 s2 (omega arith) (omega arith))

memcmp_self : (n : ℕ) (s : Bytes) → memcmp n s s ≡ pos 0
unfolding memcmp
memcmp_self zero [] = refl
memcmp_self zero (a ∷ s) = refl
memcmp_self (suc n) [] = refl
memcmp_self (suc n) (a ∷ s) = ground (arith, memcmp_self n s)

-- A length and its equal give the minimum and no difference.
compare_all : (s1 s2 : Bytes) → is_zero (sdscmp s1 s2) ≡ true → s1 ≡ s2
unfolding sdscmp
compare_all s1 s2 h =
    let same : length s1 ≡ length s2 = unfold memcmp in ground arith in
    memcmp_sound (length s1) s1 s2 refl (sym same) (ground arith)

compare_self : (s : Bytes) → is_zero (sdscmp s s) ≡ true
unfolding sdscmp
compare_self s = ground (arith, memcmp_self (length s) s)

-- sdsDictKeyCompare holds for two strings exactly if they have the same bytes.
pub sds_dict_key_compare_iff : (a b : Bytes) → (sds_dict_key_compare a b ≡ true) ↔ (a ≡ b)
unfolding sds_dict_key_compare
sds_dict_key_compare_iff a b =
    (compare_all a b, λ e. subst (λ s. is_zero (sdscmp a s) ≡ true) e (compare_self a))

instance abbrev pub sds_dict_type : DictType Bytes
sds_dict_type = record {
  hash_function = sds_dict_hash_function;
  key_compare = sds_dict_key_compare;
  key_compare_iff = sds_dict_key_compare_iff;
}
