-- ===== src/Shared.antt =====
-- The shared replies of src/commands/object.c, and the texts that the commands make of numbers.
use cutis.Common.{ℕ, ◌++◌, Bytes, codes, length}
use cutis.Common.Int.{pos, to_int32, neg_ℕ}
use cutis.Decimal.{print_nat, print_int}

abbrev pub crlf : Bytes
crlf = codes "\r\n"

abbrev pub ok : Bytes
ok = codes "+OK\r\n"

abbrev pub err : Bytes
err = codes "-ERR\r\n"

abbrev pub nil : Bytes
nil = codes "nil\r\n"

abbrev pub zero : Bytes
zero = codes "0\r\n"

abbrev pub one : Bytes
one = codes "1\r\n"

abbrev pub pong : Bytes
pong = codes "+PONG\r\n"

-- "%d\r\n" of a length or a count: its low 32 bits, with a sign.
abbrev pub number_line : ℕ → Bytes
number_line n = print_int (to_int32 (pos n)) ++ crlf

-- "%lu\r\n" of an unsigned number.
abbrev pub long_line : ℕ → Bytes
long_line n = print_nat n ++ crlf

-- "%d\r\n%s\r\n" of -strlen(err) and err.
abbrev pub error_bulk : Bytes → Bytes
error_bulk text = print_int (neg_ℕ (length text)) ++ crlf ++ text ++ crlf
