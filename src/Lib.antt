-- ===== src/Lib.antt =====
-- A model of the IPFS shard node in `src/`, an IPFS node that keeps its blocks and its data in S3.
--
-- The program's parts, and where each is modelled:
--   * src/bitswap-codec.ts, the bytes of a bitswap message. Varint.antt has `appendVarint` and
--     `readVarint`; Codec/Fields.antt, Codec/Encode.antt and Codec/Decode.antt have the writers, the
--     encoders and the four decoders, function by function under their names in snake case.
--   * src/bitswap.ts, the class `SimpleBitswap`. Bitswap/State.antt has its fields;
--     Bitswap/Frames.antt the reading loop `_readLoop`, one chunk at a time; Bitswap/Streams.antt the
--     pool of streams, sending with its retry, and the broadcast of wants; Bitswap/Wants.antt `want`,
--     its abort listener and `stop`; Bitswap/Messages.antt `_handleMessage` with the serving of blocks,
--     and what becomes of a blockstore's async generator there.
--   * src/blockstore-cache.ts and src/blockstore-network.ts, two wrappers around the S3 blockstore:
--     Blockstores/Cache.antt and Blockstores/Network.antt. The second asks `SimpleBitswap.want`, whose
--     outcome is a value of the type that Bitswap/State.antt declares.
--   * src/ipfs-node.ts, the class `IPFSNode`: Node/Pins.antt has the error handling of the datastore and
--     the pins that are kept in it; Announce/Status.antt the announcement status.
--   * `announceContent` of src/api/dht.ts and the loop of src/reprovide.ts, which provide CIDs to the DHT
--     and record how that ends: Announce/Events.antt.
--   * src/api/dag-pb.ts, the decoder of DAG-PB blocks: DagPb.antt.
--   * src/backup-bootstrap/, the peers to dial when too few are connected: Backup/Selector.antt,
--     Backup/Storage.antt and Backup/Rounds.antt, one for each file of that folder.
--   * src/internal-api.ts with src/api/http-router.ts and src/api/helpers.ts, the HTTP API:
--     Api/Server.antt, Api/Router.antt and Api/Labels.antt, over the text operations of Api/Text.antt.
--   * src/api/, the handlers: Handlers/Answers.antt has what they share, the body of a request, the answer
--     and the state; Handlers/Pins.antt, Handlers/Dht.antt, Handlers/Blocks.antt with Handlers/Paths.antt,
--     Handlers/Stats.antt with Handlers/Counts.antt and Handlers/BlockStat.antt, Handlers/Peers.antt,
--     Handlers/Connections.antt and Handlers/Health.antt one handler each. Over the node of
--     Announce/Events.antt they pin and announce; over the blockstore of Blockstores/Network.antt and the
--     decoder of DagPb.antt they serve blocks. Handlers/Dispatch.antt is the router with the handlers.
--   * src/metrics.ts, what a pass over the connections sets: Metrics/Update.antt.
--   * src/index.ts, src/startup/, src/sharding-glashaus.ts and src/logger.ts, the start: Startup/Env.antt,
--     Startup/Storage.antt, Startup/Waiting.antt, Startup/Loops.antt, Startup/Main.antt with the steps of
--     `createIPFSNode`, Startup/Sharding.antt and Startup/Logging.antt. Startup/Loops.antt puts the
--     loops of Backup/Rounds.antt and Announce/Events.antt beside its own.
-- The other modules of these folders hold theorems, and the modules named Tests the runs and examples.
-- Shared.antt passes on the library's names, and has dictionaries, loops and bits. The packages that the
-- program calls are records of operations: Multiformats.antt (content identifiers and sha2-256),
-- Multiaddrs.antt, InterfaceBlockstore.antt, `LruCache` in Blockstores/Cache.antt and `Datastore` in
-- Node/Pins.antt. What a theorem relies on of them is a named hypothesis. Samples.antt has a small
-- instance of the first for the examples.
--
-- How the code is read:
--   * A method that changes `this` takes the state and gives the new one. A promise is a number, and
--     a record of how each number was settled is part of the state. What the network answers is an
--     argument. A method runs to its end before the next one starts; where the waiting between two
--     halves matters, as for wants and for `stop` during a dial, the halves are steps of their own.
--   * Numbers of `readVarint` are signed 32-bit results of JavaScript's bit operators, and offsets
--     of the decoders are integers, which a negative length can move back.
--   * The `while` loops of the decoders and of the reading loop take fuel. `none` stands for a loop
--     that has not ended within it; the theorems say which fuel is enough, or that none is.
--   * Random order, clocks, and the answers of S3, libp2p and the network are arguments. The loop that
--     waits for peers takes fuel too, and a theorem says how much is enough.
--
-- What is not modelled: logging but for its levels, the construction of clients of packages, timers as
-- such (only what they call), the details of an error answer that quote an exception, histograms of
-- durations and the registry of prom-client, whose text src/api/metrics.ts passes on,
-- src/api/ui.ts, a static page, and src/libp2p-config.ts, options of libp2p.
pub mod Shared
pub mod Multiformats
pub mod Samples
pub mod Varint
pub mod Codec
pub mod Bitswap
pub mod Multiaddrs
pub mod Backup
pub mod InterfaceBlockstore
pub mod Blockstores
pub mod Api
pub mod Node
pub mod Announce
pub mod Handlers
pub mod Metrics
pub mod Startup
pub mod DagPb
