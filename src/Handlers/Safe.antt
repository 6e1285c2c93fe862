-- ===== src/Handlers/Safe.antt =====
-- Which requests can change the pins, the announcements and the connections: src/api/http-router.ts with
-- its handlers.
use ipfs_shard.Shared.{[], Option, none, some, ◌≡◌, ◌≢◌, refl, sym, ap, ◌∙◌}
use ipfs_shard.Multiformats.{Multiformats}
use ipfs_shard.Multiaddrs.{Multiaddrs}
use ipfs_shard.Node.Pins.{Datastore}
use ipfs_shard.Announce.Status.{Json}
use ipfs_shard.Api.Text.{chars}
use ipfs_shard.Api.Router.{
  Route, ui, metrics, health, peers_list, peers_detailed, peers_detailed_single, connections_list,
  connect, ping, pins_list, pins_add, pins_remove, blocks_check, blocks_cat, blocks_ls,
  dht_providers_get, dht_announce, dht_status, dht_providers_post, stats, dag_stat, block_stat,
  route,
}
use ipfs_shard.Api.Routing.{method_of, route-method_of}
use ipfs_shard.Handlers.Pins.{handle_pins}
use ipfs_shard.Handlers.Dht.{handle_dht}
use ipfs_shard.Handlers.Blocks.{BlockSource}
use ipfs_shard.Handlers.Stats.{handle_stats}
use ipfs_shard.Handlers.Connections.{handle_connections}
use ipfs_shard.Handlers.Dispatch.{
  Program, Incoming, by_pins, by_dht, by_blocks, by_stats, by_connections, run_route, run_matched,
  create_api_router,
}

other_method : chars "POST" ≢ chars "GET"
other_method e = cc

other_delete : chars "DELETE" ≢ chars "GET"
other_delete e = cc

module _ (m : Multiformats) (a : Multiaddrs) (d : Datastore) (json : Json) (b : BlockSource m) where
  -- The node with its pins and announcements, the dials and pings, and the counts of announcements are
  -- as before.
  abbrev pub Kept : Program m a d json b → Program m a d json b → Type 0
  Kept w w' =
      (w'.api.node ≡ w.api.node)
      × ((w'.contacts ≡ w.contacts)
          × ((w'.api.last_announced_at ≡ w.api.last_announced_at)
              × (w'.api.total_announced ≡ w.api.total_announced)))

  run_route-Kept :
      (r : Route) (q : Incoming m a d json b) (w : Program m a d json b)
      → method_of r ≡ chars "GET"
      → Kept w (run_route m a d json b r q w).0
  unfolding run_route by_pins by_dht by_blocks by_stats by_connections handle_pins handle_dht
      handle_stats handle_connections
  run_route-Kept ui q w e = (refl, (refl, (refl, refl)))
  run_route-Kept metrics q w e = (refl, (refl, (refl, refl)))
  run_route-Kept health q w e = (refl, (refl, (refl, refl)))
  run_route-Kept peers_list q w e = (refl, (refl, (refl, refl)))
  run_route-Kept peers_detailed q w e = (refl, (refl, (refl, refl)))
  run_route-Kept peers_detailed_single q w e = (refl, (refl, (refl, refl)))
  run_route-Kept connections_list q w e = (refl, (refl, (refl, refl)))
  run_route-Kept connect q w e = absurd (other_method e)
  run_route-Kept ping q w e = absurd (other_method e)
  run_route-Kept pins_list q w e = (refl, (refl, (refl, refl)))
  run_route-Kept pins_add q w e = absurd (other_method e)
  run_route-Kept pins_remove q w e = absurd (other_delete e)
  run_route-Kept blocks_check q w e = (refl, (refl, (refl, refl)))
  run_route-Kept blocks_cat q w e = (refl, (refl, (refl, refl)))
  run_route-Kept blocks_ls q w e = (refl, (refl, (refl, refl)))
  run_route-Kept dht_providers_get q w e = (refl, (refl, (refl, refl)))
  run_route-Kept dht_announce q w e = absurd (other_method e)
  run_route-Kept dht_status q w e = (refl, (refl, (refl, refl)))
  run_route-Kept dht_providers_post q w e = absurd (other_method e)
  run_route-Kept stats q w e = (refl, (refl, (refl, refl)))
  run_route-Kept dag_stat q w e = absurd (other_method e)
  run_route-Kept block_stat q w e = absurd (other_method e)

  -- A GET request, whatever its URL and however the network answers, changes no pin and no announcement,
  -- provides no CID, and neither dials nor pings an address that a client names. The blockstore and the
  -- gauges may change.
  pub create_api_router-Kept :
      (q : Incoming m a d json b) (w : Program m a d json b)
      → q.method ≡ "GET"
      → Kept w (create_api_router m a d json b q w).0
  unfolding create_api_router
  create_api_router-Kept q w get = matched (route (chars q.method) (chars q.url)) refl
    where
      matched :
          (o : Option Route)
          → route (chars q.method) (chars q.url) ≡ o
          → Kept w (run_matched m a d json b o q w).0
      matched none e = (refl, (refl, (refl, refl)))
      matched (some r) e =
          run_route-Kept r q w
            (sym (route-method_of (chars q.method) (chars q.url) [] r e).0.0 ∙ ap chars get)
