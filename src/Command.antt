-- ===== src/Command.antt =====
-- src/commands/command.c. The handlers of the commands, in groups.
pub mod Kept
pub mod Strings
pub mod Lists
pub mod Sets
pub mod Saves
pub mod Listing
pub mod Keys
pub mod Table
