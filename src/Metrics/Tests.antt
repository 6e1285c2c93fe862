-- ===== src/Metrics/Tests.antt =====
-- Runs of `updateNodeMetrics` of src/metrics.ts.
use ipfs_shard.Shared.{[], ◌∷◌, false, some, String, str_eq, eq_iff, ◌≡◌, ◌≢◌, refl, ap, arith}
use ipfs_shard.Metrics.Update.{
  Labels, NodeConnection, NodeGauges, get_label, labels_of, update_node_metrics,
}
use ipfs_shard.Metrics.Stale.{Says, update_node_metrics-Shows}

abbrev connection : String → NodeConnection
connection peer = record {
  remote_peer = peer;
  remote_addr = some "/ip4/10.0.0.1/tcp/4001";
  direction = "inbound";
  status = "open";
}

abbrev label : String → Labels
label peer = labels_of (connection peer) "/ip4/10.0.0.1/tcp/4001"

abbrev no_gauges : NodeGauges
no_gauges = record {
  connected_peers = 0;
  connections = 0;
  inbound = 0;
  outbound = 0;
  connection_status = [];
  node_info = false;
  multiaddrs = 0;
  uptime = 0;
}

abbrev first_gauges : NodeGauges
first_gauges = update_node_metrics 2 1 30 (connection "a" ∷ connection "b" ∷ []) no_gauges

abbrev second_gauges : NodeGauges
second_gauges = update_node_metrics 1 1 60 (connection "b" ∷ []) first_gauges

-- The connection to `a` is closed; its label stays at 1 beside one counted connection.
second_gauges-a : get_label (label "a") second_gauges.connection_status ≡ some 1
unfolding update_node_metrics get_label
second_gauges-a = refl

second_gauges-connections : second_gauges.inbound ≡ 1
unfolding update_node_metrics
second_gauges-connections = refl

other_peer : (a b : String) → str_eq a b ≡ false → a ≢ b
other_peer a b other e = ground (arith, eq_iff a b)

update_node_metrics-Shows_example :
    Says "open" (get_label (label "b") second_gauges.connection_status)
    × (get_label (label "a") second_gauges.connection_status
        ≡ get_label (label "a") first_gauges.connection_status)
update_node_metrics-Shows_example =
    update_node_metrics-Shows 1 1 60 [] [] (connection "b") "/ip4/10.0.0.1/tcp/4001" (label "a")
      first_gauges tt refl tt ((λ addr _ e. other_peer "b" "a" refl (ap (λ l. l.peer_id) e)), tt)
