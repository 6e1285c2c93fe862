-- ===== src/Handlers/Connections.antt =====
-- `handleConnections` of src/api/connections.ts. An entry of the list is what `conn` shows; its
-- fields with a default are options. The clock for a missing `timeline.open` is an argument.
use ipfs_shard.Shared.{
  ℕ, List, [], ◌∷◌, ◌++◌, map, length, Bool, Option, none, some, String, str_eq, ◌==◌,
  if◌then◌else◌,
}
use ipfs_shard.Multiaddrs.{Multiaddrs}
use ipfs_shard.Handlers.Answers.{
  Body, BodyField, throws, no_text, text, text_field, Answer, ok, refused,
}
use ipfs_shard.Handlers.Stats.{ConnDirection}
use ipfs_shard.Handlers.Peers.{or_unknown}

pub record OpenConnection : Type 0 where
  pub id : String
  pub remote_peer : String
  pub remote_addr : Option String
  pub direction : ConnDirection
  pub status : Option String
  pub encryption : Option String
  pub multiplexer : Option String
  pub opened : Option ℕ

pub record ListedConnection : Type 0 where
  pub id : String
  pub remote_peer : String
  pub remote_addr : String
  pub direction : ConnDirection
  pub status : String
  pub encryption : Option String
  pub multiplexer : Option String
  pub opened : ℕ

pub data ConnectionsAction : Type 0 where
  list connect ping : ConnectionsAction

pub data ConnectionsContent : Type 0 where
  connections : List ListedConnection → ℕ → ConnectionsContent
  connected : String → ConnectionsContent
  latency : Option ℕ → ConnectionsContent

-- `conn.status || 'open'` and `timeline.open || Date.now()`
abbrev pub or_open : Option String → String
or_open none = "open"
or_open (some s) = if str_eq s "" then "open" else s

abbrev pub or_now : ℕ → Option ℕ → ℕ
or_now now none = now
or_now now (some t) = if t == 0 then now else t

abbrev pub listed_connection : ℕ → OpenConnection → ListedConnection
listed_connection now c = record {
  id = c.id;
  remote_peer = c.remote_peer;
  remote_addr = or_unknown c.remote_addr;
  direction = c.direction;
  status = or_open c.status;
  encryption = c.encryption;
  multiplexer = c.multiplexer;
  opened = or_now now c.opened;
}

module _ (m : Multiaddrs) where
  -- What libp2p answers: the open connections, whether a dial succeeds, whether there is a ping
  -- service, and the latency unless the ping throws.
  pub record Libp2p : Type 0 where
    pub open_connections : List OpenConnection
    pub dials : m.Addr → Bool
    pub has_ping : Bool
    pub pings : m.Addr → Option ℕ

  -- The addresses dialled, and those pinged.
  pub record Contacts : Type 0 where
    pub dialled : List m.Addr
    pub pinged : List m.Addr

  unfoldable pub dial_to :
      Libp2p → String → m.Addr → Contacts → Contacts × Answer ConnectionsContent
  dial_to net peer_str ma w = (
    record w { dialled = w.dialled ++ (ma ∷ []) },
    if net.dials ma then ok (connected peer_str) else refused 503 "Failed to connect to peer",
  )

  abbrev pub ping_answer : Option ℕ → Answer ConnectionsContent
  ping_answer none = refused 503 "Ping failed"
  ping_answer (some ms) = ok (latency (some ms))

  -- Without the service the answer has no latency.
  unfoldable pub ping_to :
      Libp2p → String → m.Addr → Contacts → Contacts × Answer ConnectionsContent
  ping_to net peer_str ma w =
      if net.has_ping
      then (record w { pinged = w.pinged ++ (ma ∷ []) }, ping_answer (net.pings ma))
      else (w, ok (latency none))

  -- The guards that `connect` and `ping` share.
  abbrev pub peer_parsed :
      (String → m.Addr → Contacts → Contacts × Answer ConnectionsContent)
      → String
      → Option m.Addr
      → Contacts
      → Contacts × Answer ConnectionsContent
  peer_parsed act peer_str none w = (w, refused 400 "Invalid multiaddr")
  peer_parsed act peer_str (some ma) w = act peer_str ma w

  abbrev pub peer_field :
      (String → m.Addr → Contacts → Contacts × Answer ConnectionsContent)
      → BodyField
      → Contacts
      → Contacts × Answer ConnectionsContent
  peer_field act throws w = (w, refused 400 "Invalid JSON body")
  peer_field act no_text w = (w, refused 400 "Missing or invalid peer field")
  peer_field act (text peer_str) w = peer_parsed act peer_str (m.parse peer_str) w

  unfoldable pub handle_connections :
      ConnectionsAction → Body → Libp2p → ℕ → Contacts → Contacts × Answer ConnectionsContent
  unfolding dial_to ping_to
  handle_connections list body net now w =
      let entries = map (listed_connection now) net.open_connections in
      (w, ok (connections entries (length entries)))
  handle_connections connect body net now w = peer_field (dial_to net) (text_field "peer" body) w
  handle_connections ping body net now w = peer_field (ping_to net) (text_field "peer" body) w
