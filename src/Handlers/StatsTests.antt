-- ===== src/Handlers/StatsTests.antt =====
-- The handlers for the statistics and the peers at concrete inputs.
use ipfs_shard.Shared.{
  List, [], ◌∷◌, map, length, Bool, true, false, Option, none, some, String, ◌≡◌, refl,
}
use ipfs_shard.Shared.Int.{pos}
use ipfs_shard.Shared.Assoc.{has, add, lookup, insert, Distinct}
use ipfs_shard.Samples.{texts}
use ipfs_shard.Multiaddrs.{Multiaddrs}
use ipfs_shard.Node.Dictionary.{wrapped}
use ipfs_shard.Node.Pins.{is_no_such_key, convert_get, convert_has, pin_name, parse_keys, pin_ls}
use ipfs_shard.Announce.Encoding.{by_status, idle}
use ipfs_shard.Handlers.Answers.{Body, fields, ok, refused, ApiState}
use ipfs_shard.Handlers.Counts.{Slot, count, some_text, is_inherited, bump, total_of, add_unknown}
use ipfs_shard.Handlers.Stats.{
  StoredPeer, inbound, outbound, count_agents, count_keys, count_protocols, set_agents,
  stats_content, handle_stats,
}
use ipfs_shard.Handlers.Inherited.{handle_stats-inherited}
use ipfs_shard.Handlers.Agents.{Counted, handle_stats-Counted}
use ipfs_shard.Handlers.Peers.{
  Connection, Peer, peer_ids, detailed_peers, list, detailed, set_of, map_of, find, handle_peers,
}
use ipfs_shard.Handlers.PeerLists.{Single, handle_peers-Single}
use ipfs_shard.Handlers.Connections.{Libp2p, Contacts}

statistics : Unit {0}
unfolding has lookup insert is_no_such_key convert_get convert_has pin_name parse_keys pin_ls
    is_inherited bump total_of add_unknown count_agents count_keys count_protocols set_agents
    stats_content handle_stats
statistics = tt

abbrev fresh : ApiState texts wrapped by_status
fresh = record { node = idle []; pins_total = pos 0; last_announced_at = none; total_announced = 0 }

abbrev takes_numbers : Slot → Bool
takes_numbers (count n) = true
takes_numbers some_text = false

abbrev with_agent : Option String → StoredPeer
with_agent agent = record { agent = agent; protocols = "/ipfs/bitswap/1.2.0" ∷ [] }

abbrev three_peers : List StoredPeer
three_peers = with_agent (some "kubo") ∷ with_agent none ∷ with_agent (some "kubo") ∷ []

agents_shown :
    (stats_content texts wrapped by_status fresh three_peers (inbound ∷ outbound ∷ [])).agents
    ≡ ("kubo", count 2) ∷ ("unknown", count 1) ∷ []
unfolding statistics
agents_shown = refl

handle_stats-Counted_example :
    ((handle_stats texts wrapped by_status takes_numbers three_peers (inbound ∷ []) fresh).1
      ≡ ok (stats_content texts wrapped by_status fresh three_peers (inbound ∷ [])))
    × Counted three_peers
        (stats_content texts wrapped by_status fresh three_peers (inbound ∷ [])).agents
unfolding statistics
handle_stats-Counted_example =
    handle_stats-Counted texts wrapped by_status takes_numbers three_peers (inbound ∷ []) fresh
      (λ n. refl) ((refl, refl), (tt, ((refl, refl), tt)))

handle_stats-inherited_example :
    (handle_stats texts wrapped by_status takes_numbers
      (with_agent (some "kubo") ∷ with_agent (some "constructor") ∷ [])
      []
      fresh).1
    ≡ refused 500 "Internal server error"
unfolding statistics
handle_stats-inherited_example =
    handle_stats-inherited "constructor" refl texts wrapped by_status takes_numbers refl
      (with_agent (some "kubo") ∷ []) [] (with_agent (some "constructor")) [] fresh refl

abbrev three_connections : List Connection
three_connections =
    record { remote_peer = "a"; remote_addr = some "/ip4/1.1.1.1"; direction = inbound }
    ∷ record { remote_peer = "b"; remote_addr = none; direction = outbound }
    ∷ record { remote_peer = "a"; remote_addr = some "/ip4/2.2.2.2"; direction = outbound }
    ∷ []

abbrev text_addrs : Multiaddrs
text_addrs = record {
  Addr = String;
  peer_id = λ a. some a;
  to_string = λ a. a;
  parse = λ s. some s;
}

handle_peers-Single_example :
    (ids : List String) × ((peers : List Peer) × ((handle_peers list three_connections
          ≡ ok (peer_ids ids (length ids)))
        × ((handle_peers detailed three_connections ≡ ok (detailed_peers peers))
            × ((Distinct ids × (map (λ (p : Peer). p.peer) peers ≡ ids))
                × ((peer_id : String) → Single peer_id three_connections (has peer_id ids))))))
unfolding has add Distinct set_of map_of find handle_peers
handle_peers-Single_example = handle_peers-Single three_connections

abbrev text_addrs_net : Libp2p text_addrs
text_addrs_net = record {
  open_connections = [];
  dials = λ a. false;
  has_ping = true;
  pings = λ a. some 12;
}

abbrev no_contacts : Contacts text_addrs
no_contacts = record { dialled = []; pinged = [] }

abbrev peer_body : Body
peer_body = fields (λ name. some "/ip4/1.1.1.1/p2p/a")
