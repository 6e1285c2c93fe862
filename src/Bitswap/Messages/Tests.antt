-- ===== src/Bitswap/Messages/Tests.antt =====
-- The exchange of a want and a block at concrete peers.
use ipfs_shard.Shared.{ℕ, ◌≡◌, refl, List, [], ◌∷◌, arith, some, true, false}
use ipfs_shard.Shared.Assoc.{lookup}
use ipfs_shard.Samples.{samples, cid_one}
use ipfs_shard.Codec.Fields.{encode_with_length_prefix}
use ipfs_shard.Codec.Encode.{encode_want_block, encode_block}
use ipfs_shard.Bitswap.State.{outbound, StreamInfo, PendingWant, outcome_of}
use ipfs_shard.Bitswap.Streams.{opened, Network}
use ipfs_shard.Bitswap.Messages.{fetched, Blocks, Peer, handle_message}
use ipfs_shard.Bitswap.Messages.Exchange.{
  IsServed, handle_message-encode_block, handle_message-fetched,
}
use ipfs_shard.Bitswap.Messages.Unserved.{generators, handle_message_never_serves}
use ipfs_shard.InterfaceBlockstore.{whole}
use ipfs_shard.Codec.Decode.{decode_message}
use mathlib.Core.Option

abbrev network : Network
network = record { dial = λ n peer. opened n; can_send = λ stream. true }

abbrev content : List ℕ
content = 1 ∷ 7 ∷ 3 ∷ []

abbrev store : Blocks samples
store = record { get = λ cid. fetched content; can_put = λ cid. false }

abbrev waiting : PendingWant samples
waiting = record { deferred = 0; cid = cid_one; broadcasted_to = [] }

abbrev info : StreamInfo
info = record { stream = 3; direction = outbound; created_at = 0; last_used = 0; closed = false }

abbrev peer_a : Peer samples
peer_a = record {
  world = record {
    node = record {
      stream_pool = ("b", info) ∷ [];
      pending_wants = ("one", waiting) ∷ [];
      registrar_ids = [];
      unsupported_peers = [];
    };
    issued = 1;
    settled = [];
    storing = [];
    dials = 0;
    sent = [];
    hung_up = [];
  };
  put = [];
}

handle_message-encode_block_example :
    (b : Peer samples) × (handle_message samples 6 network store "b"
        (encode_block samples cid_one content)
        peer_a
      ≡ some b)
    × IsServed samples network store cid_one content waiting b
unfolding lookup outcome_of
handle_message-encode_block_example =
    handle_message-encode_block samples network store 6 "b" cid_one content waiting peer_a
      (omega arith, omega arith, omega arith, omega arith, omega arith)
      (record {
        version_lt = omega arith;
        code_lt = omega arith;
        hash_code_lt = omega arith;
        digest_lt = omega arith;
      })
      (record { hash_is = refl; digest_is = refl; made_by = refl }) refl refl (omega arith)

-- The block is in the store, and the stream takes what is sent, but nothing is sent.
handle_message_never_serves_example :
    let store = generators samples network (λ cid. whole content) (λ cid. false) in
    (Option.map
        (λ (a : Peer samples). a.world.sent)
        (handle_message samples 6 network store "b" (encode_want_block samples cid_one) peer_a)
      ≡ Option.map (λ _. []) (decode_message samples 6 (encode_want_block samples cid_one)))
    × (handle_message samples 6 network store "b" (encode_want_block samples cid_one) peer_a
        ≡ some peer_a)
handle_message_never_serves_example =
    handle_message_never_serves samples network (λ cid. whole content) (λ cid. false) 6 "b"
      (encode_want_block samples cid_one) cid_one peer_a (omega arith, refl) (omega arith)

handle_message-fetched_run :
    (b : Peer samples) × (handle_message samples 6 network store "b"
        (encode_want_block samples cid_one)
        peer_a
      ≡ some b)
    × (b.world.sent ≡ (3, encode_with_length_prefix (encode_block samples cid_one content)) ∷ [])
unfolding lookup
handle_message-fetched_run =
    handle_message-fetched samples network store 6 "b" cid_one content info peer_a
      (omega arith, refl) refl refl refl (omega arith)
