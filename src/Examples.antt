-- ===== src/Examples.antt =====
-- Concrete runs of the model: tests, and the theorems at concrete inputs.
pub mod Data
pub mod Tables
pub mod Dumps
pub mod Servers
pub mod Globs
pub mod Events
pub mod Links
pub mod Counted
pub mod Restarts
pub mod Strings
pub mod Lists
pub mod Requests
pub mod Wire
pub mod Sessions
pub mod Buffers
pub mod Sockets
