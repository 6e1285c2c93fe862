-- ===== src/Bitswap/Messages/Exchange.antt =====
-- A want and a block between two peers, end to end.
use ipfs_shard.Shared.{
  ℕ, ◌≤◌, List, [], ◌∷◌, ◌≡◌, refl, sym, ap, ◌∙◌, arith, none, some, String, true, ==_iff,
  append-nil, inl, inr, Option-cases,
}
use ipfs_shard.Shared.Assoc.{lookup, lookup-remove_self}
use ipfs_shard.Multiformats.{Multiformats}
use ipfs_shard.Codec.Fields.{encode_with_length_prefix}
use ipfs_shard.Codec.Encode.{encode_want_block, cid_prefix, encode_block}
use ipfs_shard.Codec.Decode.{decode_message}
use ipfs_shard.Codec.Messages.{want, block, Fits, decode_message-encode}
use ipfs_shard.Codec.CidPrefix.{HasSmallCodes, IsCidOf, prefix_to_cid-cid_prefix}
use ipfs_shard.Bitswap.State.{Outcome, resolved, outcome_of, settle, StreamInfo, PendingWant}
use ipfs_shard.Bitswap.Streams.{Network}
use ipfs_shard.Bitswap.Wants.{finish_store}
use ipfs_shard.Bitswap.Wants.Accounting.{take_block-some}
use ipfs_shard.Bitswap.Messages.{
  fetched, Blocks, Peer, encode_fetched, receive_for, receive_block, receive_blocks, serve_block,
  serve_blocks, serve_wants, handle_message,
}

settle_fresh :
    (d : ℕ) (o : Outcome) (s : List (ℕ × Outcome))
    → outcome_of d s ≡ none
    → outcome_of d (settle d o s) ≡ some o
unfolding settle outcome_of
settle_fresh d o s e = ground (arith, ==_iff d d)

module _ (m : Multiformats) (net : Network) (store : Blocks m) where
  serve_wants-nil : (peer : String) (a : Peer m) → serve_wants m net store peer [] a ≡ a
  unfolding serve_wants
  serve_wants-nil peer a = elim (Option-cases (lookup peer a.world.node.stream_pool)) [
    | inl e ↦ rw (e, serve_wants)
    | inr (info, e) ↦ rw (e, serve_wants)
  ]

  -- A message that decodes to one block.
  handle_message-block :
      (fuel : ℕ) (peer : String) (cid : m.Cid) (content : List ℕ) (a : Peer m)
      → Fits m (block cid content)
      → 6 ≤ fuel
      → handle_message m fuel net store peer (encode_block m cid content) a
        ≡ some (receive_block m store (record { prefix = cid_prefix m cid; content = content }) a)
  unfolding handle_message
  handle_message-block fuel peer cid content a fits h =
      let one : decode_message m fuel (encode_block m cid content)
          ≡ some (record {
            want_blocks = [];
            blocks = record { prefix = cid_prefix m cid; content = content } ∷ [];
          }) =
        ap (decode_message m fuel) (sym (append-nil (encode_block m cid content)))
        ∙ decode_message-encode m (block cid content ∷ []) fuel (fits, tt) (omega arith) in
      rw one (ap some (serve_wants-nil peer _))

  -- What the wanted peer holds when the block has come.
  pub record IsServed (cid : m.Cid) (content : List ℕ) (p : PendingWant m) (a : Peer m)
      : Type 0 where
    pub outcome : outcome_of p.deferred a.world.settled ≡ some (resolved content)
    pub done : lookup (m.to_string cid) a.world.node.pending_wants ≡ none

  receive_for-IsServed :
      (cid : m.Cid) (content : List ℕ) (p : PendingWant m) (a : Peer m)
      → lookup (m.to_string cid) a.world.node.pending_wants ≡ some p
      → outcome_of p.deferred a.world.settled ≡ none
      → IsServed cid content p (receive_for m store cid content p.deferred a)
  unfolding receive_for finish_store
  receive_for-IsServed cid content p a found fresh =
      rw (take_block-some m cid content a.world p found) (record {
        outcome = settle_fresh p.deferred (resolved content) a.world.settled fresh;
        done = lookup-remove_self (m.to_string cid) a.world.node.pending_wants;
      })

  receive_block_wanted :
      (cid : m.Cid) (content : List ℕ) (p : PendingWant m) (a : Peer m)
      → HasSmallCodes m cid
      → IsCidOf m cid content
      → lookup (m.to_string cid) a.world.node.pending_wants ≡ some p
      → receive_block m store (record { prefix = cid_prefix m cid; content = content }) a
        ≡ receive_for m store cid content p.deferred a
  unfolding receive_block
  receive_block_wanted cid content p a small is found =
      rw (receive_block, prefix_to_cid-cid_prefix m cid content small is, found)

  -- A peer that waits for a CID and gets the message that `encode_block` makes of it and of its
  -- content resolves the waiting promise with that content, and no longer waits. The codes and
  -- lengths are in the range of the format, the content has the CID's hash, and the promise was not
  -- settled before.
  pub handle_message-encode_block :
      (fuel : ℕ) (peer : String) (cid : m.Cid) (content : List ℕ) (p : PendingWant m) (a : Peer m)
      → Fits m (block cid content)
      → HasSmallCodes m cid
      → IsCidOf m cid content
      → lookup (m.to_string cid) a.world.node.pending_wants ≡ some p
      → outcome_of p.deferred a.world.settled ≡ none
      → 6 ≤ fuel
      → (b : Peer m) × (handle_message m fuel net store peer (encode_block m cid content) a
          ≡ some b)
        × IsServed cid content p b
  handle_message-encode_block fuel peer cid content p a fits small is found fresh h = (
    receive_for m store cid content p.deferred a,
    handle_message-block fuel peer cid content a fits h
        ∙ ap some (receive_block_wanted cid content p a small is found),
    receive_for-IsServed cid content p a found fresh,
  )

  -- Of a store whose `get` returns bytes, a block would be sent, framed, on the stream of the pool.
  pub handle_message-fetched :
      (fuel : ℕ) (peer : String) (cid : m.Cid) (content : List ℕ) (info : StreamInfo) (a : Peer m)
      → Fits m (want cid)
      → store.get cid ≡ fetched content
      → lookup peer a.world.node.stream_pool ≡ some info
      → net.can_send info.stream ≡ true
      → 6 ≤ fuel
      → (b : Peer m) × (handle_message m fuel net store peer (encode_want_block m cid) a ≡ some b)
        × (b.world.sent
            ≡ (info.stream, encode_with_length_prefix (encode_block m cid content)) ∷ a.world.sent)
  unfolding handle_message receive_blocks serve_wants serve_blocks serve_block encode_fetched
  handle_message-fetched fuel peer cid content info a fits stocked pooled takes h =
      let one : decode_message m fuel (encode_want_block m cid)
          ≡ some (record { want_blocks = cid ∷ []; blocks = [] }) =
        ap (decode_message m fuel) (sym (append-nil (encode_want_block m cid)))
        ∙ decode_message-encode m (want cid ∷ []) fuel (fits, tt) (omega arith) in
      let msg : List ℕ = encode_with_length_prefix (encode_block m cid content) in
      (
        record a { world = record a.world { sent = (info.stream, msg) ∷ a.world.sent } },
        rw (one, serve_wants, pooled, serve_block, stocked, encode_fetched, takes),
        refl,
      )
