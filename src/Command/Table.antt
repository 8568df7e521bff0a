-- ===== src/Command/Table.antt =====
-- The table of the commands, cmdTable of src/commands/command.c. SAVE, BGSAVE and SHUTDOWN, which
-- need the disk and processes, are arguments, and so are the numbers that RANDOMKEY draws.
use cutis.Common.{ℕ, List, [], ◌∷◌, Bytes, codes, Run}
use cutis.Common.Int.{ℤ, pos, negsuc}
use cutis.Store.{State}
use cutis.Request.{CutisCommand, inline_command, bulk_command}
use cutis.Command.Strings.{
  get_command, set_command, setnx_command, exists_command, del_command, incr_command, decr_command,
}
use cutis.Command.Lists.{
  rpush_command, lpush_command, rpop_command, lpop_command, llen_command, lindex_command,
  lrange_command, ltrim_command, lset_command,
}
use cutis.Command.Sets.{
  sadd_command, srem_command, sismember_command, scard_command, sinter_command,
}
use cutis.Command.Keys.{
  select_command, move_command, rename_command, renamenx_command, random_key_command,
  dbsize_command, ping_command, echo_command, last_save_command, type_command,
}
use cutis.Command.Listing.{keys_command}

abbrev pub inline : Bytes → (State → Run State) → ℤ → CutisCommand
inline name proc arity = record { name = name; proc = proc; arity = arity; type = inline_command }

abbrev pub bulk : Bytes → (State → Run State) → ℤ → CutisCommand
bulk name proc arity = record { name = name; proc = proc; arity = arity; type = bulk_command }

abbrev pub cmd_table :
    (save bgsave shut_down : State → Run State) (randoms : List ℕ) → List CutisCommand
cmd_table save bgsave shut_down randoms =
    inline (codes "get") get_command (pos 2)
    ∷ bulk (codes "set") set_command (pos 3)
    ∷ bulk (codes "setnx") setnx_command (pos 3)
    ∷ inline (codes "exists") exists_command (pos 2)
    ∷ inline (codes "del") del_command (pos 2)
    ∷ inline (codes "incr") incr_command (pos 2)
    ∷ inline (codes "decr") decr_command (pos 2)
    ∷ bulk (codes "rpush") rpush_command (pos 3)
    ∷ bulk (codes "lpush") lpush_command (pos 3)
    ∷ inline (codes "rpop") rpop_command (pos 2)
    ∷ inline (codes "lpop") lpop_command (pos 2)
    ∷ inline (codes "llen") llen_command (pos 2)
    ∷ inline (codes "lindex") lindex_command (pos 3)
    ∷ inline (codes "lrange") lrange_command (pos 4)
    ∷ inline (codes "ltrim") ltrim_command (pos 4)
    ∷ bulk (codes "lset") lset_command (pos 4)
    ∷ bulk (codes "sadd") sadd_command (pos 3)
    ∷ bulk (codes "srem") srem_command (pos 3)
    ∷ bulk (codes "sismember") sismember_command (pos 3)
    ∷ inline (codes "scard") scard_command (pos 2)
    ∷ inline (codes "sinter") sinter_command (negsuc 1)
    ∷ inline (codes "smembers") sinter_command (pos 2)
    ∷ inline (codes "select") select_command (pos 2)
    ∷ inline (codes "move") move_command (pos 3)
    ∷ inline (codes "rename") rename_command (pos 3)
    ∷ inline (codes "renamenx") renamenx_command (pos 3)
    ∷ inline (codes "randomkey") (random_key_command randoms) (pos 1)
    ∷ inline (codes "keys") keys_command (pos 2)
    ∷ inline (codes "dbsize") dbsize_command (pos 1)
    ∷ inline (codes "save") save (pos 1)
    ∷ inline (codes "bgsave") bgsave (pos 1)
    ∷ inline (codes "shutdown") shut_down (pos 1)
    ∷ inline (codes "ping") ping_command (pos 1)
    ∷ inline (codes "echo") echo_command (pos 2)
    ∷ inline (codes "lastsave") last_save_command (pos 1)
    ∷ inline (codes "type") type_command (pos 2)
    ∷ []
