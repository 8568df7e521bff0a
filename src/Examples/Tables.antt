-- ===== src/Examples/Tables.antt =====
-- The table and its keys at concrete inputs.
use mathlib.Core.List.{flatten}
use cutis.Common.{
  ℕ, fault, null_pointer, out_of_bounds, ◌<◌, ◌≡◌, refl, arith, some, codes, ok, Returns,
}
use cutis.Dict
use cutis.Dict.Power.{max_slots, IsNextPower, next_power_lem}
use cutis.Dict.Resize.{Resized, expand-Resized}
use cutis.Dict.Methods.{
  Writes, Inserted, add-Inserted, Refused, add-Refused, Deletes, delete-Deletes, replace-Writes,
}
use cutis.Dict.Iterator.{iterate}
use cutis.Dict.Iterator.Order.{iterate-flatten}
use cutis.Key.{sds_dict_hash_function, sds_dict_type}
use cutis.Examples.Data.{
  empty_table, empty_room, empty_lookup, one_table, one_table_lem, one_lookup,
}
use cutis.Dict.Resize.{reset-IsValid}
use cutis.Dict.Found.{IsFound, find-IsFound}

one_room : one_table.used < max_slots
one_room = omega (arith, one_table_lem.0)

find-IsFound_example :
    Returns (Dict.find one_table (codes "a")) (IsFound (codes "a") (flatten one_table.table))
find-IsFound_example = find-IsFound one_table (codes "a") one_table_lem.1.valid

add-Inserted_example :
    Returns (Dict.add empty_table (codes "a") 7) (Inserted empty_table (codes "a") 7)
add-Inserted_example =
    add-Inserted empty_table (codes "a") 7 reset-IsValid empty_room (empty_lookup (codes "a"))

add-Refused_example : Returns (Dict.add one_table (codes "a") 8) (Refused one_table)
add-Refused_example =
    add-Refused one_table (codes "a") 8 one_table_lem.1.valid one_room (codes "a", 7) one_lookup

delete-Deletes_example : Returns (Dict.delete one_table (codes "a")) (Deletes one_table (codes "a"))
delete-Deletes_example = delete-Deletes one_table (codes "a") one_table_lem.1.valid

replace-Writes_example :
    Returns
      (Dict.replace one_table (codes "a") 9)
      λ r. (r.0 ≡ Dict.dict_ok) × Writes one_table (codes "a") (some (codes "a", 9)) r.1
replace-Writes_example = replace-Writes one_table (codes "a") 9 one_table_lem.1.valid one_room

expand-Resized_example : Returns (Dict.expand one_table 40) (Resized one_table 40)
expand-Resized_example =
    expand-Resized one_table 40 one_table_lem.1.valid (omega (arith, one_table_lem.0)) (omega arith)

next_power_lem_example : Returns (Dict.next_power 17) (IsNextPower 17)
next_power_lem_example = next_power_lem 17

one_size : one_table.size ≡ 16
unfolding Dict.add Dict.reset Dict.expand_if_needed Dict.expand Dict.next_power Dict.next_power_loop
    Dict.key_index Dict.chain_at Dict.slot Dict.at Dict.search Dict.move_all Dict.move_chain
    Dict.gen_hash_function Dict.gen_hash_from sds_dict_hash_function
one_size = refl

iterate-flatten_example : iterate one_table ≡ ok (flatten one_table.table)
iterate-flatten_example = iterate-flatten one_table one_table_lem.1.valid (omega (arith, one_size))

-- The slots of the two smallest tables for which `_DictAlloc` gets another number of bytes.
alloc_slots_null : Dict.alloc_slots {E = ℕ} 0x1000_0000 ≡ fault null_pointer
unfolding Dict.alloc_slots
alloc_slots_null = refl

alloc_slots_overrun : Dict.alloc_slots {E = ℕ} 0x2000_0000 ≡ fault out_of_bounds
unfolding Dict.alloc_slots
alloc_slots_overrun = refl
