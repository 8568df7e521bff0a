-- ===== src/Command/Kept.antt =====
-- Commands of cmdTable of src/commands/command.c that do not change the buffer of the client.
use cutis.Common.{
  ◌≤◌, ◌≡◌, refl, ap, arith, Option, none, some, length, Run, Fault, ok, fault, Yields, ◌>>=◌, List,
  [], ℕ, Bytes,
}
use cutis.Store.{State, Obj, add_reply, reply_bulk, arg, db}
use cutis.Command.Keys.{random_key_command, ping_command, echo_command}
use cutis.Command.Listing.{append_keys, keys_command}
use cutis.Dict.Iterator.{iterate, get_random_key}
use cutis.Key.{sds_dict_type}
use cutis.Shared

abbrev pub AnyFault : Fault → Type 0
AnyFault cause = Unit

abbrev pub Kept : State → State → Type 0
Kept s t = t.client.query_buf ≡ s.client.query_buf

abbrev pub Keeps : State → Run State → Type 0
Keeps s run = Yields AnyFault (Kept s) run

module _ {ℓ} {S : Type ℓ} (s : State) where
  after : (m : Run S) (k : S → Run State) → ((x : S) → Keeps s (k x)) → Keeps s (m >>= k)
  after (ok x) k h = h x
  after (fault cause) k h = tt

-- What a row of the table asks of a command.
pub Keeps-length :
    (s : State) (run : Run State)
    → Keeps s run
    → Yields AnyFault (λ t. length t.client.query_buf ≤ length s.client.query_buf) run
Keeps-length s (ok t) h = omega (arith, ap length h)
Keeps-length s (fault cause) h = tt

pub ping_command-Keeps : (s : State) → Keeps s (ping_command s)
unfolding ping_command add_reply
ping_command-Keeps s = refl

pub echo_command-Keeps : (s : State) → Keeps s (echo_command s)
unfolding echo_command reply_bulk add_reply
echo_command-Keeps s = after s (arg 1 s) _ (λ text. refl)

pub keys_command-Keeps : (s : State) → Keeps s (keys_command s)
unfolding keys_command add_reply
keys_command-Keeps s = after s (arg 1 s) _ (λ pattern.
    after s (db s.client.dict s) _
      (λ d. after s (iterate d) _ (λ es. after s (append_keys pattern [] es) _ (λ keys. refl))))

pub random_key_command-Keeps :
    (randoms : List ℕ) (s : State) → Keeps s (random_key_command randoms s)
unfolding random_key_command add_reply
random_key_command-Keeps randoms s =
    after s (db s.client.dict s) _ (λ d. after s (get_random_key d randoms) _ (λ de. replied de))
  where
    replied :
        (de : Option (Bytes × Obj))
        → Keeps s (
            ok (elim de [
              | none ↦ add_reply Shared.crlf s
              | some e ↦ add_reply Shared.crlf (add_reply e.0 s)
            ]))
    replied none = refl
    replied (some e) = refl
