-- ===== src/Lib.antt =====
-- Blocxxi, a C++ toolkit for local chains, with a DHT and a Bitcoin adapter. This library models its
-- core: the codecs, hashes and signatures, the primitives and event records, the chain kernel, the
-- in-memory stores, the node with its services, the messages and events of the DHT, and the Bitcoin
-- adapter.
--
-- The parts, and the files that model them:
--   Base      what the modules share: byte strings, decimal text (std::to_string, std::from_chars),
--             native numbers, Outcome (code that may throw, abort or run out of fuel), the sort
--             of texts and of what they are keys of (Sort), with its permutations (Perms), and what
--             std::getline, std::stoull and their like read (Scan).
--   Codec     Hex is src/Blocxxi/Codec/base16.cpp, with Encode and Decode as `encode` and `decode`;
--             Bencode is bencode.h and the encoder of bencode.cpp, Bencode/Decode its decoder.
--   Crypto    Hash is src/Blocxxi/Crypto/hash.h: a hash is the bytes that its storage holds.
--             Signature is signature.cpp, with the key pairs of keypair.cpp that have a given secret.
--   Core      Status is src/Blocxxi/Core/result.h, Primitives is primitives.h and primitives.cpp:
--             transactions, blocks, snapshots, and MakeId, which names them by their content.
--             EventRecord is event_record.cpp: the canonical text of events, and signed events.
--   Chain     Ports is the interfaces of src/Blocxxi/Chain/kernel.h, with the contracts that a block
--             store and a snapshot store keep; Kernel is kernel.cpp. Validation, Pending, Ledger,
--             Invariant, Commit, Operations and Bootstrap prove each call correct, Runs, Moves and
--             Reachable any sequence of calls.
--   Storage   Memory is src/Blocxxi/Storage/in_memory_store.cpp, Memory/Contract its contract;
--             File is file_store.cpp: File the text of fields and names, File/Blocks and
--             File/Snapshots the files, File/Stores the classes FileBlockStore and
--             FileSnapshotStore.
--   P2P       Krpc is the messages of src/Blocxxi/P2P/kademlia/krpc.cpp, Compact its compact peers
--             and nodes, over any type of IP addresses that keeps the laws of IPv4. EventDht is the
--             store of signed events in src/Blocxxi/P2P/event_dht.cpp, EventDht/Wire the bencode form
--             of events there, EventDht/Mainline and Mainline/Calls the calls that ask routers and
--             peers. EventDht/Matches says when an event matches a query.
--   Node      Service is src/Blocxxi/Node/service.h and the run of a managed service in node.cpp,
--             Lifecycle and Lifecycle/Services the calls of a node in node.cpp. Service/Retry and
--             Schedule are about when services run and what they report, Lifecycle/Blocks and
--             Outcomes about the node.
--   Bitcoin   src/Blocxxi/Bitcoin/adapter.h and adapter.cpp: Wire is the encodings, Message the
--             frame of peer messages and the requests, Merkle and Target the Merkle root and the
--             proof-of-work target, Headers the class HeaderSyncAdapter, Sync and Block (with
--             Block/Metadata) the parsers of headers and blocks, Peer the conversation with a peer,
--             Fetch the class SignetLiveClient with its cache, Import the import of live headers and its
--             saved progress. Ingestion is
--             src/Blocxxi/Bitcoin/ingestion.h and ingestion.cpp: Base64 and Json what they are
--             named for, Observations what is observed, Poll the class BitcoinCoreRpcAdapter, Config
--             how its configuration is found.
--
-- The kernel calls a BlockStore, a SnapshotStore and a BlockValidator through pointers. Here the
-- state behind each pointer is a value, and the kernel's theorems take the contracts of the stores as
-- parameters, which Storage/Memory/Contract fills. A call returns its status and the next kernel.
-- The clock that Block::MakeNext reads is an argument. A service of a node is a parameter over the
-- state of its object, and gets and returns the state of the node; the plugins and handlers are
-- modelled by the events that they are passed.
--
-- Parameters stand for the code outside the repository: the ECDSA of the crypto library (Ecdsa), the
-- orders that a hash map and a sort that is not stable leave open (Arrange), what a session of the
-- DHT receives in time (Session), SHA-256 and the digits that a string stream reads (Outside). The
-- node that the Bitcoin adapter submits to is a parameter too (NodeCalls), which Headers/OnNode fills
-- with the node of Node/Lifecycle. A peer of a conversation is the bytes that it sends and the number
-- of writes that succeed; the endpoints that are resolved are a list, with the peers behind those that
-- can be connected (Endpoint). The file system (FileSystem), of which no law is assumed, and the
-- environment with the files of a configuration (Surroundings) are parameters, and so are the type double (Doubles) and the transport
-- of remote procedure calls (RpcTransport).
--
-- Heights, counts and std::size_t are natural numbers modulo 2^64, the std::uint32_t of the Bitcoin
-- protocol modulo 2^32; bytes are numbers below 256. Some parts run on fuel. The bencode decoder
-- takes a unit for each call and each turn of a loop, and more than twice the length of an encoded
-- value is enough; its recursion on the machine's stack has no bound here. The Merkle root takes a
-- unit for each layer, and one more than the number of transactions is enough. The loops that read
-- from a peer take a unit for each message, and one more than the bytes that the peer sends is
-- enough. The loops of the JSON scan take a unit for each character and get as many as the text has.
--
-- Not modelled: the sessions and engines of the peer-to-peer layer, which are asynchronous socket
-- code; HttpRpcTransport, the transport over a socket; random keys; the NAT traversal, which calls a
-- library outside the repository; src/Nova, a copy of another project's library;
-- the overflow of time points, which the code adds in std::chrono's 64 bits, when a service is to run
-- again.
pub mod Base
pub mod Codec
pub mod Crypto
pub mod Core
pub mod Bitcoin
pub mod Chain
pub mod Storage
pub mod P2P
pub mod Node
