-- ===== src/Bitswap/Streams.antt =====
-- The stream pool: `_getOrCreateStream`, `_dialPeer`, `_onInboundStream`, `_sendMessage`,
-- `_cleanupStream`, `_broadcastWant`, the topology callbacks and `clearUnsupportedPeers` of
-- src/bitswap.ts. Each method runs to its end before the next begins; the logging is left out.
pub mod Sending
pub mod Pool
pub mod Events
use ipfs_shard.Shared.{
  ℕ, ◌+◌, List, [], ◌∷◌, Option, none, some, String, Bool, true, false, not, if◌then◌else◌,
}
use ipfs_shard.Shared.Assoc.{lookup, insert, remove, has, add}
use ipfs_shard.Multiformats.{Multiformats}
use ipfs_shard.Codec.Fields.{encode_with_length_prefix}
use ipfs_shard.Codec.Encode.{encode_want_block}
use ipfs_shard.Bitswap.State.{Direction, outbound, inbound, StreamInfo, PendingWant, Bitswap, World}

-- What libp2p does: how the n-th dial ends, and whether a stream takes what is sent.
pub data Dialled : Type 0 where
  opened : ℕ → Dialled
  unsupported : Dialled
  failed : Dialled

pub record Network : Type 0 where
  pub dial : ℕ → String → Dialled
  pub can_send : ℕ → Bool

abbrev pub new_info : ℕ → Direction → ℕ → StreamInfo
new_info stream direction now = record {
  stream = stream;
  direction = direction;
  created_at = now;
  last_used = now;
  closed = false;
}

module _ (m : Multiformats) where
  abbrev pub set_pool : List (String × StreamInfo) → World m → World m
  set_pool pool w = record w { node = record w.node { stream_pool = pool } }

  unfoldable pub dial_peer : Network → ℕ → String → World m → World m × Option ℕ
  dial_peer net now peer w =
      let w' : World m = record w { dials = w.dials + 1 } in
      elim (net.dial w.dials peer) [
        | opened stream ↦ (
          set_pool (insert peer (new_info stream outbound now) w.node.stream_pool) w',
          some stream,
        )
        | unsupported ↦ (
          record w' {
            node = record w.node { unsupported_peers = add peer w.node.unsupported_peers };
          },
          none,
        )
        | failed ↦ (w', none)
      ]

  -- The entry is found, and not closed.
  abbrev pub healthy : Option StreamInfo → Option StreamInfo
  healthy none = none
  healthy (some info) = if info.closed then none else some info

  unfoldable pub get_or_create_stream : Network → ℕ → String → World m → World m × Option ℕ
  unfolding dial_peer
  get_or_create_stream net now peer w = elim (healthy (lookup peer w.node.stream_pool)) [
    | none ↦ dial_peer net now peer w
    | some info ↦ (
      set_pool (insert peer (record info { last_used = now }) w.node.stream_pool) w,
      some info.stream,
    )
  ]

  unfoldable pub on_inbound_stream : ℕ → ℕ → String → World m → World m
  on_inbound_stream stream now peer w =
      let joined = set_pool (insert peer (new_info stream inbound now) w.node.stream_pool) w in
      elim (lookup peer w.node.stream_pool) [
        | none ↦ joined
        | some info ↦ elim info.direction [ outbound ↦ w | inbound ↦ joined ]
      ]

  -- `closed` is set on the entry, which then leaves the pool.
  unfoldable pub cleanup_stream : String → World m → World m
  cleanup_stream peer w = elim (lookup peer w.node.stream_pool) [
    | none ↦ w
    | some info ↦
        let shut = set_pool (insert peer (record info { closed = true }) w.node.stream_pool) w in
        record (set_pool (remove peer shut.node.stream_pool) shut) {
          hung_up = info.stream ∷ w.hung_up;
        }
  ]

  -- `stream.send(encodeWithLengthPrefix(message))`, on a stream if there is one.
  abbrev pub try_send : Network → List ℕ → World m × Option ℕ → World m × Bool
  try_send net message (w, none) = (w, false)
  try_send net message (w, some stream) =
      if net.can_send stream
      then (record w { sent = (stream, encode_with_length_prefix message) ∷ w.sent }, true)
      else (w, false)

  -- Behind a failed first attempt: clean up, dial anew, send once more.
  unfoldable pub retry_send : Network → ℕ → String → List ℕ → World m × Bool → World m × Bool
  unfolding dial_peer cleanup_stream
  retry_send net now peer message (w, true) = (w, true)
  retry_send net now peer message (w, false) =
      try_send net message (dial_peer net now peer (cleanup_stream peer w))

  -- `false` is an exception to the caller.
  unfoldable pub send_message : Network → ℕ → String → List ℕ → World m → World m × Bool
  unfolding get_or_create_stream retry_send
  send_message net now peer message w =
      retry_send net now peer message (try_send net message (get_or_create_stream net now peer w))

  -- `pending.broadcastedTo.add(peerId)` in the entry of the want, if it is still there.
  unfoldable pub mark_broadcast : String → String → World m → World m
  mark_broadcast key peer w = elim (lookup key w.node.pending_wants) [
    | none ↦ w
    | some p ↦
        let p' : PendingWant m = record p { broadcasted_to = add peer p.broadcasted_to } in
        record w { node = record w.node { pending_wants = insert key p' w.node.pending_wants } }
  ]

  -- One connection of `_broadcastWant`.
  unfoldable pub broadcast_to : Network → ℕ → m.Cid → World m → String → World m
  unfolding send_message mark_broadcast
  broadcast_to net now cid w peer =
      let key = m.to_string cid in
      let done = send_message net now peer (encode_want_block m cid) w in
      elim (lookup key w.node.pending_wants) [
        | none ↦ w
        | some p ↦
            if has peer p.broadcasted_to
            then w
            else if has peer w.node.unsupported_peers
            then w
            else if done.1
            then mark_broadcast key peer done.0
            else done.0
      ]

  -- `_broadcastWant`, with the peers of `getConnections()`.
  unfoldable pub broadcast_want : Network → ℕ → m.Cid → List String → World m → World m
  unfolding broadcast_to
  broadcast_want net now cid [] w = w
  broadcast_want net now cid (peer ∷ peers) w =
      broadcast_want net now cid peers (broadcast_to net now cid w peer)

  -- `onConnect`: every pending want is sent; a failure is dropped.
  abbrev pub send_wants : Network → ℕ → String → List (String × PendingWant m) → World m → World m
  send_wants net now peer [] w = w
  send_wants net now peer ((key, p) ∷ wants) w =
      send_wants net now peer wants (send_message net now peer (encode_want_block m p.cid) w).0

  unfoldable pub on_connect : Network → ℕ → String → World m → World m
  unfolding send_message
  on_connect net now peer w =
      if has peer w.node.unsupported_peers
      then w
      else send_wants net now peer w.node.pending_wants w

  unfoldable pub on_disconnect : String → World m → World m
  unfolding cleanup_stream
  on_disconnect peer w = cleanup_stream peer w

  unfoldable pub clear_unsupported_peers : World m → World m
  clear_unsupported_peers w = record w { node = record w.node { unsupported_peers = [] } }
