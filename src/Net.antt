-- ===== src/Net.antt =====
-- src/net/anet.c: sockets. What the system calls return is an argument; kept are the open
-- descriptors and which message the caller's buffer gets.
pub mod Descriptors
pub mod Transfers
use cutis.Common.{
  ℕ, zero, suc, ◌+◌, ◌-◌, Bool, true, false, Option, none, some, List, [], ◌∷◌, ◌++◌, ◌==◌,
  if◌then◌else◌, length, take, drop, Bytes, Run, ok, fault, out_of_fuel, ◌>>=◌,
}
use cutis.Session.{Write, wrote, would_block, failed, Peers, create_client}

-- The messages of anetSetError, by the call that failed.
pub data NetError : Type 0 where
  creating_socket cannot_resolve get_flags set_flags connecting : NetError
  socket_failed set_reuse invalid_address binding listening accepting no_delay keep_alive : NetError

pub data Connect : Type 0 where
  established in_progress refused : Connect

pub data Accept : Type 0 where
  accepted : ℕ → Accept
  try_again accept_failed : Accept

-- What the system calls return; true is success.
pub record System : Type 0 where
  pub socket : Option ℕ
  pub reuse_address : Bool
  pub inet_aton : Bool
  pub gethostbyname : Bool
  pub getfl : Bool
  pub setfl : Bool
  pub connect : Connect
  pub bind : Bool
  pub listen : Bool
  pub accept : ℕ → Accept
  pub set_no_delay : Bool
  pub set_keep_alive : Bool

-- `none` is ANET_ERR.
pub record Outcome : Type 0 where
  pub result : Option ℕ
  pub fds : List ℕ
  pub error : Option NetError

unfoldable pub close : ℕ → List ℕ → List ℕ
close fd [] = []
close fd (g ∷ fds) = let rest = close fd fds in if g == fd then fds else g ∷ rest

abbrev pub succeed : ℕ → List ℕ → Outcome
succeed fd fds = record { result = some fd; fds = fds; error = none }

abbrev pub give_up : NetError → List ℕ → Outcome
give_up e fds = record { result = none; fds = fds; error = some e }

-- The failure, if there is one.
unfoldable pub anet_non_block : System → Option NetError
anet_non_block sys =
    if sys.getfl then if sys.setfl then none else some set_flags else some get_flags

unfoldable pub anet_tcp_no_delay : System → Option NetError
anet_tcp_no_delay sys = if sys.set_no_delay then none else some no_delay

unfoldable pub anet_tcp_keep_alive : System → Option NetError
anet_tcp_keep_alive sys = if sys.set_keep_alive then none else some keep_alive

-- The end of anetTcpGenericConnect, with the socket `s`.
unfoldable pub connect_socket : System → Bool → ℕ → List ℕ → Outcome
unfolding close
connect_socket sys nonblock s fds = elim sys.connect [
  | established ↦ succeed s fds
  | refused ↦ give_up connecting (close s fds)
  | in_progress ↦ if nonblock then succeed s fds else give_up connecting (close s fds)
]

unfoldable pub anet_tcp_generic_connect : System → (nonblock : Bool) → List ℕ → Outcome
unfolding anet_non_block connect_socket close
anet_tcp_generic_connect sys nonblock fds = elim sys.socket [
  | none ↦ give_up creating_socket fds
  | some s ↦
      let resolved : Bool = if sys.inet_aton then true else sys.gethostbyname in
      let blocking = connect_socket sys nonblock s (s ∷ fds) in
      if resolved
      then if nonblock
        then elim (anet_non_block sys) [ none ↦ blocking | some e ↦ give_up e (s ∷ fds) ]
        else blocking
      else give_up cannot_resolve (close s (s ∷ fds))
]

unfoldable pub anet_tcp_connect : System → List ℕ → Outcome
unfolding anet_tcp_generic_connect
anet_tcp_connect sys fds = anet_tcp_generic_connect sys false fds

unfoldable pub anet_tcp_non_block_connect : System → List ℕ → Outcome
unfolding anet_tcp_generic_connect
anet_tcp_non_block_connect sys fds = anet_tcp_generic_connect sys true fds

-- `has_address` says that `bind_addr` is not NULL.
unfoldable pub anet_tcp_server : System → (has_address : Bool) → List ℕ → Outcome
unfolding close
anet_tcp_server sys has_address fds = elim sys.socket [
  | none ↦ give_up socket_failed fds
  | some s ↦
      let address : Bool = if has_address then sys.inet_aton else true in
      if sys.reuse_address
      then if address
        then if sys.bind
          then if sys.listen then succeed s (s ∷ fds) else give_up listening (close s (s ∷ fds))
          else give_up binding (close s (s ∷ fds))
        else give_up invalid_address (close s (s ∷ fds))
      else give_up set_reuse (s ∷ fds)
]

-- The loop of anetAccept; the call number `k` returns `sys.accept k`.
unfoldable pub anet_accept : (fuel k : ℕ) → System → List ℕ → Run Outcome
anet_accept zero k sys fds = fault out_of_fuel
anet_accept (suc fuel) k sys fds =
    let rest = anet_accept fuel (k + 1) sys fds in
    elim (sys.accept k) [
      | accepted fd ↦ ok (succeed fd (fd ∷ fds))
      | try_again ↦ rest
      | accept_failed ↦ ok (give_up accepting fds)
    ]

-- What `read` gives: some bytes, none at the end of the file, or -1.
pub data Input : Type 0 where
  input : Bytes → Input
  input_failed : Input

-- The loop of anetRead for `left` more bytes: all that was read so far, or `none` for -1.
unfoldable pub anet_read : (ℕ → ℕ → Input) → (fuel k left : ℕ) → Run (Option Bytes)
anet_read read zero k left = fault out_of_fuel
anet_read read (suc fuel) k left =
    let more : Bytes → Run (Option Bytes) = λ b.
      anet_read read fuel (k + 1) (left - length b)
      >>= (λ rest. ok (elim rest [ none ↦ none | some r ↦ some (b ++ r) ])) in
    if left == 0 then ok (some []) else elim (read k left) [
      | input [] ↦ ok (some [])
      | input (c ∷ b) ↦ more (c ∷ b)
      | input_failed ↦ ok none
    ]

-- The loop of anetWrite: the bytes that were written, and whether it returns their number.
unfoldable pub anet_write : (ℕ → ℕ → Write) → (fuel k : ℕ) → Bytes → Run (Bytes × Bool)
anet_write write zero k buf = fault out_of_fuel
anet_write write (suc fuel) k buf =
    let more : ℕ → Run (Bytes × Bool) = λ n.
      anet_write write fuel (k + 1) (drop n buf) >>= (λ rest. ok (take n buf ++ rest.0, rest.1)) in
    if length buf == 0 then ok ([], true) else elim (write k (length buf)) [
      | wrote zero ↦ ok ([], true)
      | wrote (suc n) ↦ more (suc n)
      | would_block ↦ ok ([], false)
      | failed ↦ ok ([], false)
    ]

-- AcceptHandler of src/server/server.c, for a new client `fd` with `read_proc fd`: ANET_OK or
-- ANET_ERR, the open descriptors and the clients.
unfoldable pub accept_handler :
    {F T : Type 0}
    → (fuel : ℕ) → System
    → (ℕ → F)
    → List ℕ
    → Peers F T
    → Run (Bool × List ℕ × Peers F T)
unfolding anet_accept create_client
accept_handler fuel sys read_proc fds p = do
  r ← anet_accept fuel 0 sys fds
  ok (elim r.result [
    | none ↦ (false, r.fds, p)
    | some fd ↦ (true, r.fds, create_client fd (read_proc fd) p)
  ])
