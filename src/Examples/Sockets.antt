-- ===== src/Examples/Sockets.antt =====
-- The functions on sockets at concrete results of the system calls.
use cutis.Common.{true, false, some}
use cutis.Net.{System, established, accepted}

-- The address is in use, and the flags of a descriptor cannot be set.
abbrev busy : System
busy = record {
  socket = some 4;
  reuse_address = true;
  inet_aton = true;
  gethostbyname = false;
  getfl = true;
  setfl = false;
  connect = established;
  bind = false;
  listen = true;
  accept = λ k. accepted 5;
  set_no_delay = true;
  set_keep_alive = true;
}
