-- ===== src/Lib.antt =====
-- A model of the LLP prime pool: its byte streams, wide integers, packets, DDOS protection, databases,
-- accounting, prime clusters, data threads, sessions of miners, daemon handles, and the threads that
-- talk to the wallet server.
--
-- The pool (src/core.cpp) keeps accounts and blocks in two databases (src/LLD). Miners connect to it
-- by packets (src/LLP/types.h) and submit shares, which count in their accounts. When a block has been
-- accepted, the accounts are settled; the master thread builds the coinbase transaction that pays the
-- balances out with the next block, and a block that is orphaned is refunded.
--
-- Files and what they model:
--
--   Common        the shared names: lists and Boolean tests on the native numbers, two's complement,
--                 orders on keys, and std::map as a list in key order (Common/StdMap)
--   Bytes         src/util.h: uint2bytes, bytes2uint, uint2bytes64, bytes2uint64, string2bytes, ...
--   Uint          src/hash/uint1024.h: base_uint as a number, GetBytes and SetBytes; Uint/Words has the
--                 arithmetic and comparisons of its words, Uint/Words/Shift, Bitwise and Hex the
--                 shifts, bitwise operators and hexadecimal strings, and Uint/Words/Modular what
--                 the operators do to the number
--   Base58        src/base58.h: the text of an address and back, with the hash as a parameter
--   Packet        src/LLP/types.h: Packet and Connection::ReadPacket; Packet/Stream has the loop of
--                 src/LLP/server.h that calls it until a packet is complete
--   Ddos          src/LLP/types.h: DDOS_Score and DDOS_Filter
--   Banlist       src/util.cpp: the lists of banned addresses and accounts and their file
--   Coinbase      src/coinbase.h: Coinbase and Credits
--   Record        src/LLD/record.h: Account and Block
--   Database      src/LLD/database.h: Database, its map and its file
--   Prime         src/prime.cpp: the sieve (Prime/Sieve), the cluster search (Prime/Search), and its two
--                 versions (Prime/Agree), with GMP, OpenSSL and doubles as parameters
--   Core          src/core.cpp: ClearShares, TotalWeight, and the BLOCK_REWARD branch of MasterThread
--                 up to SetCoinbase (build_coinbase)
--   Core/Reward   src/core.cpp: UpdateBalances and NewRound
--   Core/Orphan   src/core.cpp: RefundPayouts
--   Server        src/LLP/server.h: DataThread, with ProtocolType as a parameter, and FindThread;
--                 Server/Listen has a round of the listening loop with its DDOS filters, where
--                 the thread is chosen from the threads as they are before the wait in accept
--   Session       src/LLP/pool.h, src/LLP/pool.cpp: PoolConnection; Session/Request has ProcessPacket,
--                 Session/Events has Event, Clear, AddBlock and SerializeBlock
--   Daemon        src/LLP/daemon.h, src/LLP/daemon.cpp: the packets of DaemonConnection, and the slots
--                 of DaemonHandle with the hand-out of blocks
--   Stats         src/statscollector.cpp: the connections by address and the data of the accounts
--   Lobby         src/LLP/pool.cpp, src/LLP/daemon.cpp, src/core.cpp: how connections come, sign in and
--                 go, over the handles (FindDaemon) and with the statistics
--   Threads       src/core.cpp, src/LLP/daemon.cpp: a round of the loops of MasterThread (Master),
--                 OrphanThread (Orphan) and DaemonThread (Handles), sequences of such rounds of all
--                 threads (Traces), and what StartPool does to the databases (Start)
--
-- State is passed explicitly. A C++ class is a record with the source's fields, a global of namespace
-- Core is a field of the record Core, and a member function is a function of the same name in this
-- library's spelling. Integers are natural numbers with their wrap-around written out: u8, u32, u64,
-- and int_of_u64 for a uint64 that becomes an int. A vector that is read out of bounds is undefined in
-- the source and gives none here. The clock is an argument. Doubles are the parameter Floats of
-- Core; what the settlement relies on is the law IsPart, that two percent of an integer which a double
-- holds exactly is no more than the integer.
--
-- Blocks that miners work on are shared by pointers: the sessions keep them in a heap, from which they
-- are deleted. The difficulties of src/prime.cpp, the hash of a block and the check of an address are
-- parameters of the sessions (Difficulty, Policy); Session/Request/Cluster puts the cluster search of
-- Prime in the place of the first.
--
-- The threads share a World: the pool, the handles, and the files of the databases. What a round of a
-- loop meets is an argument: whether the connection stands, is lost, or was made anew, which timers have
-- run out, and the packet that was complete. The packets that the round sends are its result, and none
-- is a read out of bounds or through a dangling pointer.
--
-- All loops are structural, but for the reading loop of the database, which runs to the length of the
-- file as an unsigned int, and whose rounds are bounded by the length of the file: each round takes four bytes at least; and for the cluster search, which has 1163
-- rounds: among 1155 candidates, 1155 being 3 * 5 * 7 * 11, there is one behind which six in a row have
-- one of these divisors, so that the gap exceeds 12.
--
-- Not modelled: the classes uint256 to uint1024 but for their base, VerifyPrimeDifficulty, which nothing
-- calls, and the conversions of difficulties to bits, the meters, sockets and threads themselves, the order that std::sort gives the accounts (a parameter), printing, the pool data of the
-- statistics and their persister, the hash functions and the JSON library, which are vendored, and the
-- parts that the pool takes from GMP, OpenSSL and MySQL. The calls of the statistics from the accounting
-- are a log. The loops of to_digits in Base58 have as many rounds as the number, which is enough since
-- each divides it. Within an operation of Core the moment at which a database is written to its file is
-- left out; the threads write the files where the source does. Mutexes are left out, since each
-- operation that holds one is a single step.
pub mod Common
pub mod Bytes
pub mod Packet
pub mod Ddos
pub mod Banlist
pub mod Coinbase
pub mod Uint
pub mod Base58
pub mod Record
pub mod Prime
pub mod Database
pub mod Core
pub mod Server
pub mod Session
pub mod Daemon
pub mod Stats
pub mod Lobby
pub mod Threads
