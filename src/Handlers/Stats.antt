-- ===== src/Handlers/Stats.antt =====
-- `handleStats` of src/api/stats.ts, for `GET /stats`.
use ipfs_shard.Shared.{
  ℕ, suc, List, [], ◌∷◌, length, Bool, true, false, Option, none, some, String, ◌/◌, if◌then◌else◌,
}
use ipfs_shard.Shared.Int.{ℤ, pos, negsuc}
use ipfs_shard.Multiformats.{Multiformats}
use ipfs_shard.Node.Pins.{Tried, returned, threw, Datastore, pin_ls}
use ipfs_shard.Announce.Status.{Json}
use ipfs_shard.Handlers.Answers.{Answer, ok, refused, ApiState}
use ipfs_shard.Handlers.Counts.{Slot, bump, add_unknown}

-- What the peer store has of a peer (an exception of the peer store counts as no peers): `AgentVersion` as text, and the protocols.
pub record StoredPeer : Type 0 where
  pub agent : Option String
  pub protocols : List String

pub data ConnDirection : Type 0 where
  inbound outbound : ConnDirection

pub record StatsGauges : Type 0 where
  pub dht_last_announce : ℤ
  pub known_peers : ℕ
  pub agent_versions : List (String × Slot)

pub record StatsContent : Type 0 where
  pub pins : ℕ
  pub providers_announced : ℕ
  pub last_announced_at : Option ℕ
  pub last_announced_unix : ℤ
  pub peers : ℕ
  pub connected : ℕ
  pub inbound_count : ℕ
  pub outbound_count : ℕ
  pub agents : List (String × Slot)
  pub protocols : List (String × Slot)

abbrev pub count_agent : Option String → List (String × Slot) → List (String × Slot)
count_agent none counts = counts
count_agent (some agent) counts = bump agent counts

unfoldable pub count_agents : List StoredPeer → List (String × Slot) → List (String × Slot)
unfolding bump
count_agents [] counts = counts
count_agents (p ∷ peers) counts = count_agents peers (count_agent p.agent counts)

unfoldable pub count_keys : List String → List (String × Slot) → List (String × Slot)
unfolding bump
count_keys [] counts = counts
count_keys (key ∷ keys) counts = count_keys keys (bump key counts)

unfoldable pub count_protocols : List StoredPeer → List (String × Slot) → List (String × Slot)
unfolding count_keys
count_protocols [] counts = counts
count_protocols (p ∷ peers) counts = count_protocols peers (count_keys p.protocols counts)

abbrev pub is_inbound : ConnDirection → Bool
is_inbound inbound = true
is_inbound outbound = false

abbrev pub inbound_of : List ConnDirection → ℕ
inbound_of [] = 0
inbound_of (c ∷ cs) = if is_inbound c then suc (inbound_of cs) else inbound_of cs

abbrev pub outbound_of : List ConnDirection → ℕ
outbound_of [] = 0
outbound_of (c ∷ cs) = if is_inbound c then outbound_of cs else suc (outbound_of cs)

-- Of milliseconds; -1 is `negsuc 0`.
abbrev pub unix_of : Option ℕ → ℤ
unix_of none = negsuc 0
unix_of (some ms) = pos (ms / 1000)

abbrev pub pins_counted : {A : Type 0} → Tried (List A) → ℕ
pins_counted (returned cids) = length cids
pins_counted (threw err) = 0

-- The gauge per agent is emptied, then set entry by entry until `set` throws; `false` in the end says
-- that it did. What the package prom-client accepts as a value is an argument.
unfoldable pub set_agents :
    (Slot → Bool) → List (String × Slot) → List (String × Slot) → List (String × Slot) × Bool
set_agents accepts [] gauge = (gauge, true)
set_agents accepts ((agent, slot) ∷ entries) gauge = elim (accepts slot) [
  | true ↦ set_agents accepts entries ((agent, slot) ∷ gauge)
  | false ↦ (gauge, false)
]

module _ (m : Multiformats) (d : Datastore) (json : Json) where
  unfoldable pub stats_content :
      ApiState m d json → List StoredPeer → List ConnDirection → StatsContent
  unfolding count_agents count_protocols add_unknown
  stats_content w peers connections = record {
    pins = pins_counted (pin_ls m d w.node.store);
    providers_announced = w.total_announced;
    last_announced_at = w.last_announced_at;
    last_announced_unix = unix_of w.last_announced_at;
    peers = length peers;
    connected = length connections;
    inbound_count = inbound_of connections;
    outbound_count = outbound_of connections;
    agents = add_unknown (length peers) (count_agents peers []);
    protocols = count_protocols peers [];
  }

  -- The gauges before the loop over the agents are set also where that loop throws.
  unfoldable pub handle_stats :
      (Slot → Bool)
      → List StoredPeer
      → List ConnDirection
      → ApiState m d json
      → (ApiState m d json × StatsGauges) × Answer StatsContent
  unfolding stats_content set_agents
  handle_stats accepts peers connections w =
      let content = stats_content w peers connections in
      let agents = set_agents accepts content.agents [] in
      (
        (
          record w { pins_total = pos content.pins },
          record {
            dht_last_announce = content.last_announced_unix;
            known_peers = length peers;
            agent_versions = agents.0;
          },
        ),
        if agents.1 then ok content else refused 500 "Internal server error",
      )
