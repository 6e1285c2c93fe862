-- ===== src/Bitswap/Streams/Pool.antt =====
-- Closed streams and the pool: each method of src/bitswap.ts that changes the pool.
use ipfs_shard.Shared.{
  ℕ, List, [], ◌∷◌, ◌≡◌, refl, arith, Option, none, some, String, Bool, true, false, Bool-cases,
  ◌⊎◌, Option-cases, inl, inr,
}
use ipfs_shard.Shared.Assoc.{
  lookup, insert, has, AllValues, AllValues-insert, AllValues-remove-insert,
}
use ipfs_shard.Multiformats.{Multiformats}
use ipfs_shard.Codec.Encode.{encode_want_block}
use ipfs_shard.Bitswap.State.{Direction, outbound, inbound, StreamInfo, PendingWant, World}
use ipfs_shard.Bitswap.Streams.{
  Network, new_info, set_pool, dial_peer, healthy, get_or_create_stream, on_inbound_stream,
  cleanup_stream, try_send, retry_send, send_message, mark_broadcast, broadcast_to, broadcast_want,
  send_wants, on_connect,
}
use ipfs_shard.Bitswap.Streams.Sending.{
  Dialled-cases, get_or_create_stream-none, get_or_create_stream-some,
}

abbrev pub IsOpen : StreamInfo → Type 0
IsOpen info = info.closed ≡ false

Direction-cases : (d : Direction) → (d ≡ outbound) ⊎ (d ≡ inbound)
Direction-cases outbound = inl refl
Direction-cases inbound = inr refl

module _ (m : Multiformats) where
  abbrev pub PoolIsOpen : World m → Type 0
  PoolIsOpen w = AllValues IsOpen w.node.stream_pool

  module _ (net : Network) (now : ℕ) (peer : String) where
    dial_peer-PoolIsOpen : (w : World m) → PoolIsOpen w → PoolIsOpen (dial_peer m net now peer w).0
    unfolding dial_peer
    dial_peer-PoolIsOpen w all = elim (Dialled-cases m net now peer w.dials) [
      | inl (s, e) ↦
          rw (e, dial_peer)
            (AllValues-insert IsOpen peer (new_info s outbound now) w.node.stream_pool refl all)
      | inr (inl e) ↦ rw (e, dial_peer) all
      | inr (inr e) ↦ rw (e, dial_peer) all
    ]

    healthy-IsOpen :
        (o : Option StreamInfo) (info : StreamInfo) → healthy m o ≡ some info → IsOpen info
    healthy-IsOpen none info e = absurd (cc)
    healthy-IsOpen (some x) info e = elim (Bool-cases x.closed) [
      | inl shut ↦ absurd (cc (rw shut at e))
      | inr fine ↦ let one : x ≡ info = cc (rw fine at e) in rw (← one) fine
    ]

    get_or_create_stream-PoolIsOpen :
        (w : World m) → PoolIsOpen w → PoolIsOpen (get_or_create_stream m net now peer w).0
    get_or_create_stream-PoolIsOpen w all =
        elim (Option-cases (healthy m (lookup peer w.node.stream_pool))) [
          | inl e ↦ rw (get_or_create_stream-none m net now peer w e) (dial_peer-PoolIsOpen w all)
          | inr (info, e) ↦ rw (get_or_create_stream-some m net now peer w info e) (
              AllValues-insert IsOpen peer (record info { last_used = now }) w.node.stream_pool
                (healthy-IsOpen (lookup peer w.node.stream_pool) info e) all)
        ]

    try_send-pool :
        (message : List ℕ) (r : World m × Option ℕ) → (try_send m net message r).0.node ≡ r.0.node
    try_send-pool message (w, none) = refl
    try_send-pool message (w, some stream) = ground arith

  pub cleanup_stream-PoolIsOpen :
      (peer : String) (w : World m) → PoolIsOpen w → PoolIsOpen (cleanup_stream m peer w)
  unfolding cleanup_stream
  cleanup_stream-PoolIsOpen peer w all = elim (Option-cases (lookup peer w.node.stream_pool)) [
    | inl e ↦ rw (e, cleanup_stream) all
    | inr (info, e) ↦
        rw (e, cleanup_stream)
          (AllValues-remove-insert IsOpen peer (record info { closed = true }) w.node.stream_pool
            all)
  ]

  pool_of_node : (w w' : World m) → w'.node ≡ w.node → PoolIsOpen w → PoolIsOpen w'
  pool_of_node w w' e all = rw e all

  module _ (net : Network) (now : ℕ) where
    try_send-PoolIsOpen :
        (message : List ℕ) (r : World m × Option ℕ)
        → PoolIsOpen r.0
        → PoolIsOpen (try_send m net message r).0
    try_send-PoolIsOpen message r all =
        pool_of_node r.0 (try_send m net message r).0 (try_send-pool net now "" message r) all

    retry_send-PoolIsOpen :
        (peer : String) (message : List ℕ) (r : World m × Bool)
        → PoolIsOpen r.0
        → PoolIsOpen (retry_send m net now peer message r).0
    unfolding retry_send
    retry_send-PoolIsOpen peer message (w, true) all = all
    retry_send-PoolIsOpen peer message (w, false) all =
        try_send-PoolIsOpen message (dial_peer m net now peer (cleanup_stream m peer w)) (
          dial_peer-PoolIsOpen net now peer (cleanup_stream m peer w)
            (cleanup_stream-PoolIsOpen peer w all))

    pub send_message-PoolIsOpen :
        (peer : String) (message : List ℕ) (w : World m)
        → PoolIsOpen w
        → PoolIsOpen (send_message m net now peer message w).0
    unfolding send_message
    send_message-PoolIsOpen peer message w all =
        let first = get_or_create_stream m net now peer w in
        retry_send-PoolIsOpen peer message (try_send m net message first)
          (try_send-PoolIsOpen message first (get_or_create_stream-PoolIsOpen net now peer w all))

    mark_broadcast-PoolIsOpen :
        (key peer : String) (w : World m) → PoolIsOpen w → PoolIsOpen (mark_broadcast m key peer w)
    unfolding mark_broadcast
    mark_broadcast-PoolIsOpen key peer w all =
        elim (Option-cases (lookup key w.node.pending_wants)) [
          | inl e ↦ rw (e, mark_broadcast) all
          | inr (p, e) ↦ rw (e, mark_broadcast) all
        ]

    broadcast_to-PoolIsOpen :
        (cid : m.Cid) (peer : String) (w : World m)
        → PoolIsOpen w
        → PoolIsOpen (broadcast_to m net now cid w peer)
    unfolding broadcast_to
    broadcast_to-PoolIsOpen cid peer w all = ground (
      arith,
      send_message-PoolIsOpen peer (encode_want_block m cid) w all,
      mark_broadcast-PoolIsOpen (m.to_string cid) peer
          (send_message m net now peer (encode_want_block m cid) w).0
          (send_message-PoolIsOpen peer (encode_want_block m cid) w all),
    )

    pub broadcast_want-PoolIsOpen :
        (cid : m.Cid) (peers : List String) (w : World m)
        → PoolIsOpen w
        → PoolIsOpen (broadcast_want m net now cid peers w)
    unfolding broadcast_want
    broadcast_want-PoolIsOpen cid [] w all = all
    broadcast_want-PoolIsOpen cid (peer ∷ peers) w all =
        broadcast_want-PoolIsOpen cid peers (broadcast_to m net now cid w peer)
          (broadcast_to-PoolIsOpen cid peer w all)

    send_wants-PoolIsOpen :
        (peer : String) (wants : List (String × PendingWant m)) (w : World m)
        → PoolIsOpen w
        → PoolIsOpen (send_wants m net now peer wants w)
    send_wants-PoolIsOpen peer [] w all = all
    send_wants-PoolIsOpen peer ((key, p) ∷ wants) w all =
        send_wants-PoolIsOpen peer wants
          (send_message m net now peer (encode_want_block m p.cid) w).0
          (send_message-PoolIsOpen peer (encode_want_block m p.cid) w all)

    pub on_connect-PoolIsOpen :
        (peer : String) (w : World m) → PoolIsOpen w → PoolIsOpen (on_connect m net now peer w)
    unfolding on_connect
    on_connect-PoolIsOpen peer w all = elim (Bool-cases (has peer w.node.unsupported_peers)) [
      | inl skip ↦ rw skip all
      | inr send ↦ rw send (send_wants-PoolIsOpen peer w.node.pending_wants w all)
    ]

  -- An inbound stream joins the pool, unless the peer has an outbound one there, which stays.
  pub on_inbound_stream_lem :
      (stream now : ℕ) (peer : String) (w : World m)
      → (((info : StreamInfo) × (lookup peer w.node.stream_pool ≡ some info)
          × (info.direction ≡ outbound)
          × (on_inbound_stream m stream now peer w ≡ w)))
        ⊎ (on_inbound_stream m stream now peer w
            ≡ set_pool m (insert peer (new_info stream inbound now) w.node.stream_pool) w)
  unfolding on_inbound_stream
  on_inbound_stream_lem stream now peer w = elim (Option-cases (lookup peer w.node.stream_pool)) [
    | inl e ↦ inr (rw (e, on_inbound_stream))
    | inr (info, e) ↦ elim (Direction-cases info.direction) [
      | inl out ↦ inl (info, e, out, rw (e, on_inbound_stream) (rw (out, on_inbound_stream)))
      | inr back ↦ inr (rw (e, on_inbound_stream) (rw (back, on_inbound_stream)))
    ]
  ]
