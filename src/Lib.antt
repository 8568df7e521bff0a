-- ===== src/Lib.antt =====
-- Cutis, a key/value database server: the hash table, the lists, the databases and the commands.
--
-- A client's request is split into an array of strings. A command looks up its key in the hash
-- table of the selected database, changes the object there, counts the change and appends its
-- replies to the list of the client's replies.
--
-- Parts, and the files of the repository that they model:
--
-- Dict: src/data_struct/dict.c. A table is its array of chains, with size, size_mask and used as
-- in the struct; a slot is the list of the entries that `next` leads to. Dict/Chain is about one
-- chain, Dict/Power about the size that is chosen, Dict/Buckets about the slots, Dict/Expand
-- about the move to a new array, Dict/Resize has the invariant IsValid and what the calls of
-- DictExpand keep, Dict/Methods what add, replace and delete do, Dict/Found what find finds,
-- Dict/Iterator the iterator, release and the random entry. A valid table has at most 2 ^ 27
-- slots, the most for which _DictAlloc, which takes an int, gets the number of their bytes. The keys' type is an argument (DictType), with the law
-- that keys compare as equal only if they are.
-- Key: sdscmp of src/data_struct/sds.c, and the functions of sdsDictType in src/server/server.c.
-- A string is the list of its bytes.
-- Decimal: the formats %d, %lu and %lld, strtoll and atoi of the C library, as far as
-- src/commands/command.c uses them.
-- Adlist: src/data_struct/adlist.c, at the level of what a list holds: a node is its position.
-- Links: the same file with its pointers: a store of nodes, and the operations that change it.
-- Links/Chains is about linked nodes, Links/Refinement and Links/Removal about what the calls
-- leave, Links/Calls about the list of values that they refine, Links/Walks about the iterators;
-- Links/Duplicate has listDup.
-- Shared: the shared replies of src/commands/object.c.
-- Objects: the reference counts and the list of free objects of src/commands/object.c, apart
-- from the values. Objects/Balance has the invariant of the counts, Objects/Release what
-- DecrRefCount does to it; its fuel is the depth of objects in objects, which is 2 in the
-- program.
-- Store: CutisServer, CutisClient and CutisObject of src/server/server.h, src/server/client.h
-- and src/commands/object.h, AddReply and SelectDB of src/server/client.c, and the calls of a
-- table's operations. Store/Laws has the databases as a map from index and key to object,
-- Store/Calls what a call does to that map, Store/Effect what a whole command does to it and to
-- the replies.
-- Command: src/commands/command.c. Strings, Lists, Sets and Keys have the commands by what they
-- work on; the modules below them say what the commands do on every branch. Command/Table: the
-- table of the commands. Command/Kept: commands that keep the buffer of the client.
-- Window: the elements between two indices, where a negative one counts from the end, for
-- LRANGE, LTRIM and sdsrange.
-- Sds: sdsrange, sdssplitlen (with a separator of one byte), sdstrim, sdstolower and sdstoupper
-- of src/data_struct/sds.c.
-- Request: ParseQuery of src/server/client.c, ProcessCommand and LookupCommand of
-- src/commands/command.c, for any table of commands. Request/Dispatch is about what
-- ProcessCommand leaves in the buffer, Request/Progress about the rounds of ParseQuery,
-- Request/Lines about lines and their words, Request/Inline and Request/Bulk about whole
-- requests, without and with data behind the line, Request/Counts about the length of that data
-- as text.
-- Session: SendReplyToClient, ReadQueryFromClient, CreateClient and FreeClient of
-- src/server/client.c. Session/Pending and Session/Sending are about the replies that are sent,
-- Session/Events about the events of a client, Session/Pieces about a request in two reads,
-- Session/Pipeline about two requests in one buffer, from their bytes to the replies.
-- Buffer: strings of src/data_struct/sds.c in memory, with the two numbers of the header. The
-- allocator is an argument, with laws (IsAllocator in Buffer/Room): it gives as many bytes as it
-- is asked for, and keeps the old ones. Buffer/Splice is about memcpy, Buffer/Room about
-- sdsMakeRoomFor, Buffer/Laws about appending and copying, Buffer/Ranges and
-- Buffer/Selected about sdsrange, Buffer/Copies about new strings.
-- Memory: src/memory/zmalloc.c; Memory/Account is about used_memory.
-- Net: src/net/anet.c, with the results of the system calls as an argument, and AcceptHandler of
-- src/server/server.c. Net/Descriptors is about sockets that are closed, Net/Transfers about the
-- loops of anetRead and anetWrite.
-- Dump: SaveDB and LoadDB of src/server/server.c. A dump is the list of its writes; Dump/Values,
-- Dump/Entries and Dump/RoundTrip follow LoadDB through what SaveDB wrote, Dump/Atomic is about
-- the file that is left. Command/Saves: SAVE, BGSAVE and SHUTDOWN.
-- Glob: StringMatch of src/utils/string_util.c; Glob/Plain has what a pattern without classes
-- and escapes means. Command/Listing: KEYS.
-- Config: InitServerConfig, LoadServerConfig and the rules for saving of src/server/server.c,
-- and the start of main in src/cutis.c. Cron: ServerCron and what it calls;
-- Cron/Rules is about the rules for saving and the idle clients, Cron/Laws about a whole call. Startup: InitServer,
-- and main up to the event loop; Startup/Restart is about a SHUTDOWN and the next start.
-- Event: src/event/ae.c. Event/Timers is about the next timer and the time to sleep, Event/Loop
-- has AeProcessEvents as a whole and AeMain, Event/Identifiers is about the identifiers of the
-- timers, Event/Rounds about the calls of their functions, which are arguments like the clock
-- and what select finds.
-- Examples: tests, and the theorems at concrete inputs.
--
-- Undefined behaviour of C (a null pointer, an index out of range, an overflow of long long, a
-- failed assertion, memory that was freed) is a fault that ends the run (Common). The unsigned
-- counters of a table wrap at 2 ^ 32; an int, the length of a list and the count of changes are
-- not bounded. Loops are recursion on the list they walk; next_power has fuel for the doublings
-- up to 2 ^ 31, an iterator for one round per slot and one per entry, LoadDB the length of the
-- file, StringMatch the length of the pattern (enough without classes and escapes, by its
-- theorem), and each is enough. ParseQuery has fuel for one round per byte of its buffer and
-- SendReplyToClient for each pending reply and byte, which are enough too. The loops of
-- AeProcessEvents, AeMain and anetAccept have the fuel that they are given. A size_t wraps at 2
-- ^ 64.
--
-- Not modelled: the failure of an allocation (but in Buffer and Memory), and the ownership of
-- the arguments and of the objects in the commands; the log. The disk, the clock, the system
-- calls on sockets, wait4, chdir and the log file are arguments. A disk may take a part of a
-- write and lose bytes at fclose, which SaveDB does not see; the theorems about files that are
-- left ask for a disk where a write takes all of its bytes or none and fclose loses none. The order in which qsort leaves sets of the same size is that of an
-- insertion sort.
pub mod Common
pub mod Dict
pub mod Window
pub mod Key
pub mod Decimal
pub mod Shared
pub mod Sds
pub mod Memory
pub mod Buffer
pub mod Adlist
pub mod Links
pub mod Store
pub mod Dump
pub mod Objects
pub mod Event
pub mod Glob
pub mod Config
pub mod Cron
pub mod Startup
pub mod Command
pub mod Request
pub mod Session
pub mod Net
pub mod Examples
