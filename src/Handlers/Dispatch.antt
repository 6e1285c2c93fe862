-- ===== src/Handlers/Dispatch.antt =====
-- `createApiRouter` of src/api/http-router.ts with its handlers: what a request does to the program.
use ipfs_shard.Shared.{ℕ, List, Bool, Option, none, some, String}
use ipfs_shard.Multiformats.{Multiformats}
use ipfs_shard.Multiaddrs.{Multiaddrs}
use ipfs_shard.Node.Pins.{Datastore}
use ipfs_shard.Announce.Status.{Json}
use ipfs_shard.Api.Text.{chars}
use ipfs_shard.Api.Router.{
  Route, ui, metrics, health, peers_list, peers_detailed, peers_detailed_single, connections_list,
  connect, ping, pins_list, pins_add, pins_remove, blocks_check, blocks_cat, blocks_ls,
  dht_providers_get, dht_announce, dht_status, dht_providers_post, stats, dag_stat, block_stat,
  route,
}
use ipfs_shard.Handlers.Answers.{Body, Answer, status_code, ApiState}
use ipfs_shard.Handlers.Pins.{PinsAction, list, add, remove, handle_pins}
use ipfs_shard.Handlers.Dht.{
  Finding, DhtAction, providers_get, providers_post, announce, status, handle_dht,
}
use ipfs_shard.Handlers.Blocks.{BlockSource, BlocksAction, check, cat, ls, Serving, handle_blocks}
use ipfs_shard.Handlers.Counts.{Slot}
use ipfs_shard.Handlers.Stats.{StoredPeer, ConnDirection, StatsGauges, handle_stats}
use ipfs_shard.Handlers.BlockStat.{StatAction, StatContent, handle_stat}
use ipfs_shard.Handlers.BlockStat
use ipfs_shard.Handlers.Peers.{Connection, detailed, detailed_single, handle_peers}
use ipfs_shard.Handlers.Peers
use ipfs_shard.Handlers.Connections.{
  ConnectionsAction, ConnectionsContent, Libp2p, Contacts, handle_connections,
}
use ipfs_shard.Handlers.Connections

-- How a request ends: no route matched, an answer with a status, or a handler that never ends.
pub data Routed : Type 0 where
  not_handled : Routed
  answered : ℕ → Routed
  never_answered : Routed

abbrev pub ends_with {ℓ} : {A : Type ℓ} → Answer A → Routed
ends_with a = answered (status_code a)

abbrev pub may_end {ℓ} : {A : Type ℓ} → Option (Answer A) → Routed
may_end none = never_answered
may_end (some a) = ends_with a

module _ (m : Multiformats) (a : Multiaddrs) (d : Datastore) (json : Json) (b : BlockSource m) where
  -- What the handlers change.
  pub record Program : Type 0 where
    pub api : ApiState m d json
    pub serving : Serving m b
    pub contacts : Contacts a
    pub gauges : StatsGauges

  -- What a request brings, and what the network and the clock answer while it is served: its method
  -- and URL, its body, the parts of the URL that handlers read by themselves, and the status of the
  -- page of metrics.
  pub record Incoming : Type 0 where
    pub method : String
    pub url : String
    pub body : Body
    pub cid_in_path : String
    pub peer_in_path : String
    pub arg : Option String
    pub now : ℕ
    pub fuel : ℕ
    pub finds : m.Cid → Finding
    pub net : Libp2p a
    pub connections : List Connection
    pub directions : List ConnDirection
    pub known_peers : List StoredPeer
    pub accepts : Slot → Bool
    pub metrics_status : ℕ

  unfoldable pub by_pins : PinsAction → Incoming → Program → Program × Routed
  by_pins action q w =
      let r = handle_pins m d json action q.body q.now w.api in
      (record w { api = r.0 }, ends_with r.1)

  unfoldable pub by_dht : DhtAction → Incoming → Program → Program × Routed
  by_dht action q w =
      let r = handle_dht m d json action q.body q.finds q.now w.api in
      (record w { api = r.0 }, ends_with r.1)

  unfoldable pub by_blocks : BlocksAction → Incoming → Program → Program × Routed
  by_blocks action q w =
      let r = handle_blocks m b q.fuel action q.url w.serving in
      (record w { serving = r.0 }, may_end r.1)

  unfoldable pub by_stats : Incoming → Program → Program × Routed
  by_stats q w =
      let r = handle_stats m d json q.accepts q.known_peers q.directions w.api in
      (record w { api = r.0.0; gauges = r.0.1 }, ends_with r.1)

  unfoldable pub by_stat : StatAction → Incoming → Program → Program × Routed
  by_stat action q w =
      let r = handle_stat m b action q.arg w.serving in (record w { serving = r.0 }, ends_with r.1)

  unfoldable pub by_connections : ConnectionsAction → Incoming → Program → Program × Routed
  by_connections action q w =
      let r = handle_connections a action q.body q.net q.now w.contacts in
      (record w { contacts = r.0 }, ends_with r.1)

  unfoldable pub run_route : Route → Incoming → Program → Program × Routed
  unfolding by_pins by_dht by_blocks by_stats by_stat by_connections
  run_route ui q w = (w, answered 200)
  run_route metrics q w = (w, answered q.metrics_status)
  run_route health q w = (w, answered 200)
  run_route peers_list q w = (w, ends_with (handle_peers Peers.list q.connections))
  run_route peers_detailed q w = (w, ends_with (handle_peers detailed q.connections))
  run_route peers_detailed_single q w =
      (w, ends_with (handle_peers (detailed_single q.peer_in_path) q.connections))
  run_route connections_list q w = by_connections Connections.list q w
  run_route connect q w = by_connections Connections.connect q w
  run_route ping q w = by_connections Connections.ping q w
  run_route pins_list q w = by_pins list q w
  run_route pins_add q w = by_pins add q w
  run_route pins_remove q w = by_pins remove q w
  run_route blocks_check q w = by_blocks check q w
  run_route blocks_cat q w = by_blocks cat q w
  run_route blocks_ls q w = by_blocks ls q w
  run_route dht_providers_get q w = by_dht (providers_get q.cid_in_path) q w
  run_route dht_announce q w = by_dht announce q w
  run_route dht_status q w = by_dht (status q.cid_in_path) q w
  run_route dht_providers_post q w = by_dht providers_post q w
  run_route stats q w = by_stats q w
  run_route dag_stat q w = by_stat BlockStat.dag_stat q w
  run_route block_stat q w = by_stat BlockStat.block_stat q w

  abbrev pub run_matched : Option Route → Incoming → Program → Program × Routed
  run_matched none q w = (w, not_handled)
  run_matched (some r) q w = run_route r q w

  unfoldable pub create_api_router : Incoming → Program → Program × Routed
  unfolding run_route route
  create_api_router q w = run_matched (route (chars q.method) (chars q.url)) q w
