-- ===== src/Metrics/Update.antt =====
-- `updateNodeMetrics` of src/metrics.ts. A gauge with labels is a list of values, one for each
-- combination of labels that was ever set.
use ipfs_shard.Shared.{
  ℕ, suc, List, [], ◌∷◌, length, Bool, true, false, ◌&&◌, Option, none, some, String, str_eq,
  if◌then◌else◌,
}

pub record Labels : Type 0 where
  pub peer_id : String
  pub remote_addr : String
  pub direction : String

-- A connection as `getConnections` gives it. Without a remote address, `remoteAddr.toString()` throws.
pub record NodeConnection : Type 0 where
  pub remote_peer : String
  pub remote_addr : Option String
  pub direction : String
  pub status : String

-- `node_info` tells if the gauge with the node's own labels, which do not change, is set.
pub record NodeGauges : Type 0 where
  pub connected_peers : ℕ
  pub connections : ℕ
  pub inbound : ℕ
  pub outbound : ℕ
  pub connection_status : List (Labels × ℕ)
  pub node_info : Bool
  pub multiaddrs : ℕ
  pub uptime : ℕ

unfoldable pub labels_eq : Labels → Labels → Bool
labels_eq l k =
    str_eq l.peer_id k.peer_id
    && (str_eq l.remote_addr k.remote_addr && str_eq l.direction k.direction)

-- `gauge.set(labels, value)`
unfoldable pub set_label : Labels → ℕ → List (Labels × ℕ) → List (Labels × ℕ)
unfolding labels_eq
set_label l n [] = (l, n) ∷ []
set_label l n ((k, v) ∷ gauge) =
    let rest = set_label l n gauge in if labels_eq l k then (k, n) ∷ gauge else (k, v) ∷ rest

unfoldable pub get_label : Labels → List (Labels × ℕ) → Option ℕ
unfolding labels_eq
get_label l [] = none
get_label l ((k, v) ∷ gauge) =
    let rest = get_label l gauge in if labels_eq l k then some v else rest

unfoldable pub count_direction : String → List NodeConnection → ℕ
count_direction direction [] = 0
count_direction direction (c ∷ cs) =
    let rest = count_direction direction cs in
    if str_eq c.direction direction then suc rest else rest

abbrev pub labels_of : NodeConnection → String → Labels
labels_of c addr = record { peer_id = c.remote_peer; remote_addr = addr; direction = c.direction }

abbrev pub open_value : NodeConnection → ℕ
open_value c = if str_eq c.status "open" then 1 else 0

-- The loop over the connections; `false` in the end is an exception.
unfoldable pub set_statuses : List NodeConnection → List (Labels × ℕ) → List (Labels × ℕ) × Bool
unfolding set_label
set_statuses [] gauge = (gauge, true)
set_statuses (c ∷ cs) gauge = elim c.remote_addr [
  | none ↦ (gauge, false)
  | some addr ↦ set_statuses cs (set_label (labels_of c addr) (open_value c) gauge)
]

-- The last gauges are set only if the loop ends; the exception is logged.
unfoldable pub update_node_metrics :
    (peers multiaddrs uptime : ℕ) → List NodeConnection → NodeGauges → NodeGauges
unfolding count_direction set_statuses
update_node_metrics peers multiaddrs uptime cs g =
    let statuses = set_statuses cs g.connection_status in
    record {
      connected_peers = peers;
      connections = length cs;
      inbound = count_direction "inbound" cs;
      outbound = count_direction "outbound" cs;
      connection_status = statuses.0;
      node_info = if statuses.1 then true else g.node_info;
      multiaddrs = if statuses.1 then multiaddrs else g.multiaddrs;
      uptime = if statuses.1 then uptime else g.uptime;
    }
