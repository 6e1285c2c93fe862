-- ===== src/Handlers/Contacting.antt =====
-- Whom a request to `/connect` or `/ping` contacts: src/api/connections.ts.
use ipfs_shard.Shared.{
  ℕ, [], ◌∷◌, ◌++◌, Bool, true, false, Option, none, some, String, ◌≡◌, refl, ◌⊎◌, inl, inr,
  if◌then◌else◌,
}
use ipfs_shard.Multiaddrs.{Multiaddrs}
use ipfs_shard.Handlers.Answers.{
  Body, BodyField, throws, no_text, text, text_field, Answer, ok, refused, status_code,
}
use ipfs_shard.Handlers.Connections.{
  connect, ping, ConnectionsContent, connected, latency, Libp2p, Contacts, dial_to, ping_to,
  ping_answer, peer_parsed, peer_field, handle_connections,
}

module _ (m : Multiaddrs) where
  abbrev Served : Type 0
  Served = Contacts m × Answer ConnectionsContent

  -- A bad request is answered with 400 and contacts nobody; else the text of the body is an address,
  -- for which `Did` holds.
  abbrev pub Guarded : (m.Addr → Served → Type 0) → Body → Contacts m → Served → Type 0
  Guarded Did body w r =
      ((status_code r.1 ≡ 400) × (r.0 ≡ w))
      ⊎ ((peer_str : String) × ((ma : m.Addr) × ((text_field "peer" body ≡ text peer_str)
              × ((m.parse peer_str ≡ some ma) × Did ma r))))

  field-Guarded :
      (Did : m.Addr → Served → Type 0) (act : String → m.Addr → Contacts m → Served)
      → (body : Body) (w : Contacts m)
      → ((peer_str : String) (ma : m.Addr) → Did ma (act peer_str ma w))
      → Guarded Did body w (peer_field m act (text_field "peer" body) w)
  field-Guarded Did act body w did = go (text_field "peer" body) refl
    where
      parsed :
          (peer_str : String) (o : Option m.Addr)
          → text_field "peer" body ≡ text peer_str
          → m.parse peer_str ≡ o
          → Guarded Did body w (peer_parsed m act peer_str o w)
      parsed peer_str none f p = inl (refl, refl)
      parsed peer_str (some ma) f p = inr (peer_str, (ma, (f, (p, did peer_str ma))))

      go : (f : BodyField) → text_field "peer" body ≡ f → Guarded Did body w (peer_field m act f w)
      go throws f = inl (refl, refl)
      go no_text f = inl (refl, refl)
      go (text peer_str) f = parsed peer_str (m.parse peer_str) f refl

  abbrev pub Dialled : Libp2p m → Contacts m → m.Addr → Served → Type 0
  Dialled net w ma r =
      (r.0 ≡ record w { dialled = w.dialled ++ (ma ∷ []) })
      × (status_code r.1 ≡ (if net.dials ma then 200 else 503))

  abbrev pub answers_ping : Option ℕ → ℕ
  answers_ping none = 503
  answers_ping (some ms) = 200

  abbrev pub Pinged : Libp2p m → Contacts m → m.Addr → Served → Type 0
  Pinged net w ma r =
      (r.0 ≡ (if net.has_ping then record w { pinged = w.pinged ++ (ma ∷ []) } else w))
      × (status_code r.1 ≡ (if net.has_ping then answers_ping (net.pings ma) else 200))

  did_dial :
      (net : Libp2p m) (w : Contacts m) (peer_str : String) (ma : m.Addr)
      → Dialled net w ma (dial_to m net peer_str ma w)
  unfolding dial_to
  did_dial net w peer_str ma = (refl, status (net.dials ma))
    where
      status :
          (b : Bool)
          → status_code
              (if b then ok (connected peer_str) else refused 503 "Failed to connect to peer")
            ≡ (if b then 200 else 503)
      status true = refl
      status false = refl

  did_ping :
      (net : Libp2p m) (w : Contacts m) (peer_str : String) (ma : m.Addr)
      → Pinged net w ma (ping_to m net peer_str ma w)
  unfolding ping_to
  did_ping net w peer_str ma = served net.has_ping
    where
      status : (o : Option ℕ) → status_code (ping_answer m o) ≡ answers_ping o
      status none = refl
      status (some ms) = refl

      more : Contacts m
      more = record w { pinged = w.pinged ++ (ma ∷ []) }

      served :
          (b : Bool)
          → let r : Served =
              if b then (more, ping_answer m (net.pings ma)) else (w, ok (latency none)) in
            (r.0 ≡ (if b then more else w))
            × (status_code r.1 ≡ (if b then answers_ping (net.pings ma) else 200))
      served true = (refl, status (net.pings ma))
      served false = (refl, refl)

  -- Whatever the body: `/connect` and `/ping` either answer 400 and contact nobody, or they dial or ping
  -- the one address that stands under `peer`, and answer 200 if that succeeds and 503 if it throws;
  -- without a ping service `/ping` answers 200 and pings nobody.
  pub handle_connections-Guarded :
      (body : Body) (net : Libp2p m) (now : ℕ) (w : Contacts m)
      → Guarded (Dialled net w) body w (handle_connections m connect body net now w)
        × Guarded (Pinged net w) body w (handle_connections m ping body net now w)
  unfolding handle_connections
  handle_connections-Guarded body net now w = (
    field-Guarded (Dialled net w) (dial_to m net) body w (did_dial net w),
    field-Guarded (Pinged net w) (ping_to m net) body w (did_ping net w),
  )
