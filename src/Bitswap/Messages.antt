-- ===== src/Bitswap/Messages.antt =====
-- `_handleMessage` and `_serveBlockOnStream` of src/bitswap.ts: what a peer does with a message.
-- Each `await` is followed by the rest of the method before anything else happens.
pub mod Exchange
pub mod Unserved
mod Tests
use ipfs_shard.Shared.{ℕ, List, [], ◌∷◌, Option, none, some, String, Bool, if◌then◌else◌}
use ipfs_shard.Shared.Assoc.{lookup}
use ipfs_shard.Multiformats.{Multiformats}
use ipfs_shard.InterfaceBlockstore.{Chunks}
use ipfs_shard.Codec.Fields.{encode_with_length_prefix}
use ipfs_shard.Codec.Encode.{encode_block, prefix_to_cid}
use ipfs_shard.Codec.Decode.{Block, DecodedMessage, decode_message}
use ipfs_shard.Bitswap.State.{World}
use ipfs_shard.Bitswap.Streams.{Network}
use ipfs_shard.Bitswap.Wants.{take_block, finish_store}
use mathlib.Core.Option

-- What `await this.blockstore.get(cid)` gives: the bytes that a promise is resolved with, an exception,
-- or, where `get` returns an async generator, as it does for a store in S3, that generator as it is.
pub data Fetched : Type 0 where
  fetched : List ℕ → Fetched
  throws : Fetched
  generating : Chunks → Fetched

module _ (m : Multiformats) where
  -- The peer's blockstore: what `get` returns, and whether a `put` succeeds.
  pub record Blocks : Type 0 where
    pub get : m.Cid → Fetched
    pub can_put : m.Cid → Bool

  -- A peer, with the blocks that it has put, the last first.
  pub record Peer : Type 0 where
    pub world : World m
    pub put : List (m.Cid × List ℕ)

  -- A received block whose want is found: it is stored, and the promise is resolved even if storing
  -- fails.
  unfoldable pub receive_for : Blocks → m.Cid → List ℕ → ℕ → Peer → Peer
  receive_for store cid content deferred a = record {
    world = finish_store m deferred content (take_block m cid content a.world);
    put = if store.can_put cid then (cid, content) ∷ a.put else a.put;
  }

  unfoldable pub receive_block : Blocks → Block → Peer → Peer
  unfolding receive_for
  receive_block store block a = elim (prefix_to_cid m block.prefix block.content) [
    | none ↦ a
    | some cid ↦ elim (lookup (m.to_string cid) a.world.node.pending_wants) [
      | none ↦ a
      | some p ↦ receive_for store cid block.content p.deferred a
    ]
  ]

  unfoldable pub receive_blocks : Blocks → List Block → Peer → Peer
  unfolding receive_block
  receive_blocks store [] a = a
  receive_blocks store (block ∷ blocks) a =
      receive_blocks store blocks (receive_block store block a)

  -- `encodeBlock(cid, result)`: `writeLenField` iterates over the bytes, and throws for an async
  -- generator, over which only `for await` iterates.
  unfoldable pub encode_fetched : m.Cid → Fetched → Option (List ℕ)
  encode_fetched cid (fetched content) = some (encode_block m cid content)
  encode_fetched cid throws = none
  encode_fetched cid (generating chunks) = none

  -- On the stream that the pool holds for the peer; every exception is swallowed.
  unfoldable pub serve_block : Network → Blocks → ℕ → m.Cid → World m → World m
  unfolding encode_fetched
  serve_block net store stream cid w = elim (encode_fetched cid (store.get cid)) [
    | none ↦ w
    | some block ↦
        let msg = encode_with_length_prefix block in
        if net.can_send stream then record w { sent = (stream, msg) ∷ w.sent } else w
  ]

  unfoldable pub serve_blocks : Network → Blocks → ℕ → List m.Cid → World m → World m
  unfolding serve_block
  serve_blocks net store stream [] w = w
  serve_blocks net store stream (cid ∷ cids) w =
      serve_blocks net store stream cids (serve_block net store stream cid w)

  unfoldable pub serve_wants : Network → Blocks → String → List m.Cid → Peer → Peer
  unfolding serve_blocks
  serve_wants net store peer cids a = elim (lookup peer a.world.node.stream_pool) [
    | none ↦ a
    | some info ↦ record a { world = serve_blocks net store info.stream cids a.world }
  ]

  -- `none` where decoding the message does not end.
  unfoldable pub handle_message : ℕ → Network → Blocks → String → List ℕ → Peer → Option Peer
  unfolding receive_blocks serve_wants
  handle_message fuel net store peer bytes a =
      Option.map (λ d. serve_wants net store peer d.want_blocks (receive_blocks store d.blocks a))
        (decode_message m fuel bytes)
