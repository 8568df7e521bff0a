-- ===== src/Net/Descriptors.antt =====
-- Which descriptors the functions of src/net/anet.c leave open.
use cutis.Common.{
  ℕ, ◌≡◌, Bool, true, false, ◌||◌, ◌&&◌, not, Option, none, some, List, ◌∷◌, if◌then◌else◌,
}
use cutis.Net.{System, Outcome}

abbrev pub has_result : Option ℕ → Bool
has_result none = false
has_result (some s) = true

-- Whether anetTcpServer leaves its socket behind: SO_REUSEADDR cannot be set.
abbrev pub server_leaks : System → Bool
server_leaks sys = not sys.reuse_address

-- Whether anetTcpGenericConnect does: the address is known, the socket is to be non-blocking, and
-- its flags cannot be read or cannot be set.
abbrev pub connect_leaks : System → Bool → Bool
connect_leaks sys nonblock =
    (if sys.inet_aton then true else sys.gethostbyname) && nonblock && not (sys.getfl && sys.setfl)

-- The socket `s` is open exactly if it is the result or it leaks.
abbrev pub KeepsOpen : Bool → ℕ → List ℕ → Outcome → Type 0
KeepsOpen leaks s fds r = r.fds ≡ (if has_result r.result || leaks then s ∷ fds else fds)
