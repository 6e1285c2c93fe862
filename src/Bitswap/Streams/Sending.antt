-- ===== src/Bitswap/Streams/Sending.antt =====
-- What `send_message` does to the pool, the dials and the bytes sent.
use ipfs_shard.Shared.{
  ℕ, ◌+◌, ◌≤◌, List, ◌∷◌, ◌≡◌, refl, ◌∙◌, arith, Option, none, some, String, Bool, true, false, ◌⊎◌,
  Bool-cases, Option-cases, inl, inr,
}
use ipfs_shard.Shared.Assoc.{lookup, insert, lookup-insert_self}
use ipfs_shard.Multiformats.{Multiformats}
use ipfs_shard.Codec.Fields.{encode_with_length_prefix}
use ipfs_shard.Bitswap.State.{outbound, StreamInfo, World}
use ipfs_shard.Bitswap.Streams.{
  Dialled, opened, unsupported, failed, Network, new_info, set_pool, dial_peer, healthy,
  get_or_create_stream, cleanup_stream, try_send, retry_send, send_message,
}

module _ (m : Multiformats) (net : Network) (now : ℕ) (peer : String) where
  -- The stream handed out is in the pool under the peer, and nothing is sent; at most one dial.
  pub record IsPooled (w : World m) (r : World m × Option ℕ) : Type 0 where
    pub pooled :
        (stream : ℕ)
        → r.1 ≡ some stream
        → (info : StreamInfo) × (lookup peer r.0.node.stream_pool ≡ some info)
          × (info.stream ≡ stream)
    pub quiet : r.0.sent ≡ w.sent
    pub one_dial : r.0.dials ≤ w.dials + 1

  pub Dialled-cases :
      (n : ℕ)
      → ((s : ℕ) × (net.dial n peer ≡ opened s))
        ⊎ ((net.dial n peer ≡ unsupported) ⊎ (net.dial n peer ≡ failed))
  Dialled-cases n = split (net.dial n peer)
    where
      split : (d : Dialled) → ((s : ℕ) × (d ≡ opened s)) ⊎ ((d ≡ unsupported) ⊎ (d ≡ failed))
      split (opened s) = inl (s, refl)
      split unsupported = inr (inl refl)
      split failed = inr (inr refl)

  pub dial_peer-IsPooled : (w : World m) → IsPooled w (dial_peer m net now peer w)
  unfolding dial_peer
  dial_peer-IsPooled w = elim (Dialled-cases w.dials) [
    | inl (s, e) ↦
        rw (e, dial_peer)
          (record {
            pooled = λ stream is. (
              new_info s outbound now,
              lookup-insert_self peer (new_info s outbound now) w.node.stream_pool,
              ground arith,
            );
            quiet = refl;
            one_dial = omega arith;
          })
    | inr (inl e) ↦
        rw (e, dial_peer)
          (record { pooled = λ stream is. absurd (cc); quiet = refl; one_dial = omega arith })
    | inr (inr e) ↦
        rw (e, dial_peer)
          (record { pooled = λ stream is. absurd (cc); quiet = refl; one_dial = omega arith })
  ]

  pub get_or_create_stream-none :
      (w : World m)
      → healthy m (lookup peer w.node.stream_pool) ≡ none
      → get_or_create_stream m net now peer w ≡ dial_peer m net now peer w
  unfolding get_or_create_stream
  get_or_create_stream-none w e = rw (e, get_or_create_stream)

  pub get_or_create_stream-some :
      (w : World m) (info : StreamInfo)
      → healthy m (lookup peer w.node.stream_pool) ≡ some info
      → get_or_create_stream m net now peer w ≡ (
        set_pool m (insert peer (record info { last_used = now }) w.node.stream_pool) w,
        some info.stream,
      )
  unfolding get_or_create_stream
  get_or_create_stream-some w info e = rw (e, get_or_create_stream)

  pub get_or_create_stream-IsPooled :
      (w : World m) → IsPooled w (get_or_create_stream m net now peer w)
  get_or_create_stream-IsPooled w =
      elim (Option-cases (healthy m (lookup peer w.node.stream_pool))) [
        | inl e ↦ rw (get_or_create_stream-none w e) (dial_peer-IsPooled w)
        | inr (info, e) ↦
            let used : StreamInfo = record info { last_used = now } in
            rw (get_or_create_stream-some w info e) (record {
              pooled = λ stream is.
                  (used, lookup-insert_self peer used w.node.stream_pool, ground arith);
              quiet = refl;
              one_dial = omega arith;
            })
      ]

  -- A message that is taken goes out once, framed, on the stream that is then in the pool under
  -- the peer; one that is not leaves no bytes.
  pub record Sends (message : List ℕ) (w : World m) (r : World m × Bool) : Type 0 where
    pub delivered :
        r.1 ≡ true
        → (info : StreamInfo) × (lookup peer r.0.node.stream_pool ≡ some info)
          × (r.0.sent ≡ (info.stream, encode_with_length_prefix message) ∷ w.sent)
    pub silent : r.1 ≡ false → r.0.sent ≡ w.sent

  try_send-dials :
      (message : List ℕ) (r : World m × Option ℕ) → (try_send m net message r).0.dials ≡ r.0.dials
  try_send-dials message (w, none) = refl
  try_send-dials message (w, some stream) = ground arith

  try_send-Sends :
      (message : List ℕ) (w : World m) (r : World m × Option ℕ)
      → IsPooled w r
      → Sends message w (try_send m net message r)
  try_send-Sends message w (w', none) at = record {
    delivered = λ e. absurd (cc);
    silent = λ _. at.quiet;
  }
  try_send-Sends message w (w', some stream) at =
      let (info, found, is) = at.pooled stream refl in
      elim (Bool-cases (net.can_send stream)) [
        | inl takes ↦ rw takes (record {
          delivered = λ _. (info, found, rw (is, at.quiet));
          silent = λ e. absurd (cc);
        })
        | inr refuses ↦ rw refuses (record { delivered = λ e. absurd (cc); silent = λ _. at.quiet })
      ]

  cleanup_stream-quiet :
      (w : World m)
      → ((cleanup_stream m peer w).sent ≡ w.sent) × ((cleanup_stream m peer w).dials ≡ w.dials)
  unfolding cleanup_stream
  cleanup_stream-quiet w = elim (Option-cases (lookup peer w.node.stream_pool)) [
    | inl e ↦ rw (e, cleanup_stream) (refl, refl)
    | inr (info, e) ↦ rw (e, cleanup_stream) (refl, refl)
  ]

  retry_send-lem :
      (message : List ℕ) (w : World m) (r : World m × Bool)
      → r.0.dials ≤ w.dials + 1
      → Sends message w r
      → Sends message w (retry_send m net now peer message r)
        × ((retry_send m net now peer message r).0.dials ≤ w.dials + 2)
  unfolding retry_send
  retry_send-lem message w (w', true) few sends = (sends, omega arith)
  retry_send-lem message w (w', false) few sends =
      let clean : World m = cleanup_stream m peer w' in
      let quiet = cleanup_stream-quiet w' in
      let again = dial_peer-IsPooled clean in
      let same : clean.sent ≡ w.sent = quiet.0 ∙ sends.silent refl in
      let out = try_send-Sends message clean (dial_peer m net now peer clean) again in
      (
        record {
          delivered =
              λ e. let (info, found, sent) = out.delivered e in (info, found, rw same at sent);
          silent = λ e. out.silent e ∙ same;
        },
        omega (
          arith,
          try_send-dials message (dial_peer m net now peer clean),
          again.one_dial,
          quiet.1,
        ),
      )

  -- `send_message`, first attempt and retry together: if it succeeds, exactly one framed copy of
  -- the message was sent, on the stream that the pool then holds for the peer; if it fails, nothing
  -- was sent. It dials twice at most.
  pub send_message-Sends :
      (message : List ℕ) (w : World m)
      → Sends message w (send_message m net now peer message w)
        × ((send_message m net now peer message w).0.dials ≤ w.dials + 2)
  unfolding send_message
  send_message-Sends message w =
      let first = get_or_create_stream-IsPooled w in
      retry_send-lem message w (try_send m net message (get_or_create_stream m net now peer w))
        (omega
          (arith, first.one_dial, try_send-dials message (get_or_create_stream m net now peer w)))
        (try_send-Sends message w (get_or_create_stream m net now peer w) first)

  -- Over an open stream of the pool that takes the message, there is no dial.
  pub send_message_reuses :
      (message : List ℕ) (w : World m) (info : StreamInfo)
      → lookup peer w.node.stream_pool ≡ some info
      → info.closed ≡ false
      → net.can_send info.stream ≡ true
      → ((send_message m net now peer message w).1 ≡ true)
        × ((send_message m net now peer message w).0.dials ≡ w.dials)
        × ((send_message m net now peer message w).0.sent
            ≡ (info.stream, encode_with_length_prefix message) ∷ w.sent)
  unfolding send_message retry_send
  send_message_reuses message w info found is_open takes =
      let here : healthy m (lookup peer w.node.stream_pool) ≡ some info = rw (found, is_open) in
      rw (get_or_create_stream-some w info here, takes) (refl, refl, refl)
