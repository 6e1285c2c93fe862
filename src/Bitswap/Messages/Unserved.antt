-- ===== src/Bitswap/Messages/Unserved.antt =====
-- What `_handleMessage` of src/bitswap.ts sends where `get` of the blockstore returns an async generator.
use ipfs_shard.Shared.{
  ℕ, ◌≤◌, List, [], ◌∷◌, ◌≡◌, refl, sym, ap, ◌∙◌, arith, Option, none, some, String, Bool,
  append-nil, inl, inr, Option-cases,
}
use ipfs_shard.Shared.Assoc.{lookup}
use ipfs_shard.Multiformats.{Multiformats}
use ipfs_shard.InterfaceBlockstore.{Chunks}
use ipfs_shard.Codec.Encode.{encode_want_block, prefix_to_cid}
use ipfs_shard.Codec.Decode.{Block, DecodedMessage, decode_message}
use ipfs_shard.Codec.Messages.{want, Fits, decode_message-encode}
use ipfs_shard.Bitswap.State.{World}
use ipfs_shard.Bitswap.Streams.{Network}
use ipfs_shard.Bitswap.Wants.{take_block, finish_store}
use ipfs_shard.Bitswap.Wants.Accounting.{take_block-none, take_block-some}
use ipfs_shard.Bitswap.Messages.{
  generating, Blocks, Peer, encode_fetched, receive_for, receive_block, receive_blocks, serve_block,
  serve_blocks, serve_wants, handle_message,
}
use mathlib.Core.Option

module _ (m : Multiformats) (net : Network) (gives : m.Cid → Chunks) (can_put : m.Cid → Bool) where
  abbrev pub generators : Blocks m
  generators = record { get = λ cid. generating (gives cid); can_put = can_put }

  abbrev sent : Peer m → List (ℕ × List ℕ)
  sent a = a.world.sent

  serve_blocks-generators :
      (stream : ℕ) (cids : List m.Cid) (w : World m)
      → serve_blocks m net generators stream cids w ≡ w
  unfolding serve_blocks serve_block encode_fetched
  serve_blocks-generators stream [] w = refl
  serve_blocks-generators stream (cid ∷ cids) w = serve_blocks-generators stream cids w

  serve_wants-generators :
      (peer : String) (cids : List m.Cid) (a : Peer m)
      → serve_wants m net generators peer cids a ≡ a
  unfolding serve_wants
  serve_wants-generators peer cids a = elim (Option-cases (lookup peer a.world.node.stream_pool)) [
    | inl e ↦ rw (e, serve_wants) refl
    | inr (info, e) ↦
        rw (e, serve_wants)
          (ap (λ (w : World m). record a { world = w })
            (serve_blocks-generators info.stream cids a.world))
  ]

  take_block-sent :
      (cid : m.Cid) (content : List ℕ) (w : World m) → (take_block m cid content w).sent ≡ w.sent
  take_block-sent cid content w =
      elim (Option-cases (lookup (m.to_string cid) w.node.pending_wants)) [
        | inl free ↦ rw (take_block-none m cid content w free) refl
        | inr (p, found) ↦ rw (take_block-some m cid content w p found) refl
      ]

  receive_block-sent :
      (store : Blocks m) (block : Block) (a : Peer m)
      → sent (receive_block m store block a) ≡ sent a
  unfolding receive_block receive_for finish_store
  receive_block-sent store block a =
      elim (Option-cases (prefix_to_cid m block.prefix block.content)) [
        | inl e ↦ rw (e, receive_block) refl
        | inr (cid, e) ↦ elim (Option-cases (lookup (m.to_string cid) a.world.node.pending_wants)) [
          | inl free ↦ rw (e, receive_block, free) refl
          | inr (p, found) ↦
              rw (e, receive_block, found) (take_block-sent cid block.content a.world)
        ]
      ]

  receive_blocks-sent :
      (store : Blocks m) (blocks : List Block) (a : Peer m)
      → sent (receive_blocks m store blocks a) ≡ sent a
  unfolding receive_blocks
  receive_blocks-sent store [] a = refl
  receive_blocks-sent store (block ∷ blocks) a =
      receive_blocks-sent store blocks (receive_block m store block a)
      ∙ receive_block-sent store block a

  -- With a blockstore whose `get` returns an async generator, as that of a store in S3 does, a peer
  -- serves no block: whatever message it gets, it has sent nothing more when it has handled the
  -- message, which it does whenever decoding ends; and the message that `encode_want_block` makes of a
  -- CID, if it fits and is read back, changes nothing at all, though the store may give the block.
  pub handle_message_never_serves :
      (fuel : ℕ) (peer : String) (bytes : List ℕ) (cid : m.Cid) (a : Peer m)
      → Fits m (want cid)
      → 6 ≤ fuel
      → (Option.map sent (handle_message m fuel net generators peer bytes a)
          ≡ Option.map (λ _. sent a) (decode_message m fuel bytes))
        × (handle_message m fuel net generators peer (encode_want_block m cid) a ≡ some a)
  unfolding handle_message receive_blocks
  handle_message_never_serves fuel peer bytes cid a fits h = (
    handled (decode_message m fuel bytes),
    rw one (ap some (serve_wants-generators peer (cid ∷ []) a)),
  )
    where
      handled :
          (o : Option (DecodedMessage m))
          → Option.map sent (
              Option.map
                (λ d.
                  serve_wants m net generators peer d.want_blocks
                    (receive_blocks m generators d.blocks a))
                o)
            ≡ Option.map (λ _. sent a) o
      handled none = refl
      handled (some d) = ap some (
          ap sent (serve_wants-generators peer d.want_blocks _)
          ∙ receive_blocks-sent generators d.blocks a)

      one :
          decode_message m fuel (encode_want_block m cid)
          ≡ some (record { want_blocks = cid ∷ []; blocks = [] })
      one =
          ap (decode_message m fuel) (sym (append-nil (encode_want_block m cid)))
          ∙ decode_message-encode m (want cid ∷ []) fuel (fits, tt) (omega arith)
