-- ===== src/Lib.antt =====
-- whosecoin-core: a node of a peer-to-peer ledger (C, in src/, include/ and main/ of the
-- repository).
--
-- The program's parts and the files that model them:
--   util/list.c (src/util/list.c), the generic array list: ArrayList is its block of cells
--     with the allocated size, and list_create, list_add, list_get, list_remove and list_find
--     on it; ArrayList/Refines shows that it implements a sequence.
--   util/buffer.c, the growing byte buffer: Buffer, and Buffer/Refines for the byte string
--     that it holds; Buffer/Appends states what a writer promises and chains such promises.
--   tuple.c, the binary message format: Tuple is the parser (tuple_parse), Tuple/Write the
--     writers, Tuple/Readers the readers; Tuple/Values is the grammar of README.md,
--     Tuple/RoundTrip and Tuple/Readers/Agree relate them.
--   transaction.c: Transaction (validation, hash, creation, reading and writing), with
--     Transaction/Wire for its bytes and Transaction/Read for reading them.
--   block.c: Block is the block tree as a store of blocks by address, with the searches along
--     a branch; Block/Chain is the branch as a relation; Block/Accounts builds the accounts
--     of a block, and Block/Ledger shows which balances these are; Block/Merkle is the Merkle
--     root, Block/Wire the bytes, the hash and the seed of a block, with Block/Wire/Size for
--     their length, Block/Create its creation with the sortition among delegates, Block/Read
--     its reading, with Block/Read/Accepted for what holds of a block that is accepted (with
--     Block/Read/Stages for the steps of reading and Block/Read/Drawn for its place, seed,
--     delegate and Merkle root), Block/Create/Proposed for what holds of one that is created
--     (with the delegates that are counted in Block/Create/Delegates), Block/Read/Proposed
--     (with Header, Valid and Listed for the parts of the message) for reading such a block,
--     Block/Create/Placed for where a created block stands, and Block/RoundTrip for a block
--     that is created, written and read; Block/Json is the JSON text of transactions and
--     blocks.
--   util/map.c: HashMap, and HashMap/Refines for the function from keys to values that a map
--     implements.
--   pool.c: Pool, the transactions that wait, and Pool/Distinct.
--   util/guid.c and message.c: Message is the header of a message, and Message/Header the
--     lemmas on its bytes.
--   network.c: Network frames messages, remembers their guids and handles them once, with the
--     proofs in Network/Frames and Network/Once; Network/Stream finds the messages in the
--     bytes that a peer sends, and Network/Stream/Whole is about a read that holds a whole
--     one; Network/Shared counts the references to a buffer that is sent to several peers.
--   util/heap.c: Heap, with Heap/Layout for the list that its cells hold, Heap/Order for the
--     order of the heap, Heap/Up and Heap/Down for the two loops that restore it, and
--     Heap/Add, Heap/Pop and Heap/Remove for the operations. util/json.c: Json, and
--     Json/Strings. Text has the texts that the sources write out and the numbers that
--     sprintf prints, with Text/Atoll for the numbers that atoll reads; Hex is buffer_t and
--     the conversions of bytes to hexadecimal text, which buffer.c, block.c, transaction.c
--     and main.c each have.
--   util/http.c: Http has the patterns and the response lines, Http/Server the handling of a
--     request from the bytes that arrive to those that are sent, Http/Patterns what a pattern
--     matches.
--   blockchain.c: Blockchain adds a block to the tree and chooses the principal chain;
--     Blockchain/ForkChoice and Blockchain/Tree prove what it chooses and keeps,
--     Blockchain/Records what is found afterwards, and Blockchain/Runs what every run that
--     returns has done.
--   main/main.c: Node is the state of a node, its globals, with the callback on_extended;
--     Node/Blocks are the handlers that create and receive blocks (on_block,
--     on_blocks_response, on_timer), Node/Sync those that exchange blocks and transactions,
--     Node/Peers those by which nodes meet, Node/Api the HTTP handlers. Node/Invariant has
--     the events as steps of a state machine (Steps), and shows handler by handler (Adds,
--     Proposes, Replies) what every step keeps; Node/FirstBlock follows the creation of the
--     first block from beginning to end.
--   cli.c: Cli is the command line, with Cli/Words for the words of a line and Cli/Dispatch
--     for the handler that a line calls; Node/Commands are the commands that main registers,
--     and Node/Commands/Send follows a line of the send command into the pool.
--   Base and Bytes hold what the parts share: C's ways to end (a value, a failed assertion,
--     undefined behaviour, no end), lists under native numbers, machine words as bytes,
--     memcmp and strlen.
--   Crypto is the interface to libsodium, which the code calls and which is not part of the
--     repository: a record of its functions, with the sizes and laws that its documentation
--     states. Examples/Toy is an instance, Examples the theorems and tests at concrete
--     inputs.
--
-- How they interact: a received message is parsed by Tuple, read by Transaction or turned into
-- a block; a block is checked against the accounts of its branch and added to the Blockchain,
-- which tells the node through a callback when the principal changes. The node draws its next
-- block from the pool, and on_extended returns the transactions of the blocks that a fork
-- leaves behind. Each client of list_t and map_t holds the sequence or the map that the
-- container stands for.
--
-- Conventions. A pointer into a message is the rest of the message from there. A block pointer
-- is an address in a store, NULL is none. Unsigned words wrap by % 2 ^ w where the code
-- computes on them; size_t sums of sizes of objects in memory do not reach 2 ^ 64 and are
-- written without it. The host is little-endian. Memory allocation succeeds.
--
-- Bounds and fuel. A loop with no counter of its own takes fuel, and out_of_fuel is the result
-- when it is used up: the parser's loop (the theorems ask for the rounds that the values take),
-- the walks along a branch (one round for each block and one for the end), and the doubling of
-- a buffer's capacity, for which dynamic_buffer_write gives 33 rounds, since 32 doublings pass
-- every 32-bit size. The rounds of the Merkle root, of which each at least halves the hashes,
-- are one more than the hashes, and those of the heap one more than the index that climbs,
-- which each round at least halves, or as many as the elements, past which an index that is
-- doubled gets sooner.
--
-- Not modelled: printing, libuv's event loop and sockets (what a node asks of them is a list of
-- actions), memory release except for the block that blockchain_add_block frees, the tuple
-- setters, which nothing calls, the parsing of the arguments of main, and the parts that
-- PROJECT.json lists as not_modelled. An event is handled to its end before the next, as libuv
-- does, and a message of a node to its peers is in the log of its actions with its payload,
-- before Network frames it.
pub mod Base
pub mod Bytes
pub mod ArrayList
pub mod Buffer
pub mod Tuple
pub mod Crypto
pub mod Transaction
pub mod Block
pub mod Blockchain
pub mod Message
pub mod Pool
pub mod HashMap
pub mod Network
pub mod Heap
pub mod Json
pub mod Node
pub mod Cli
pub mod Text
pub mod Hex
pub mod Http
mod Examples
