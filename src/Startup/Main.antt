-- ===== src/Startup/Main.antt =====
-- `main`, `setupIPFSNode` and `shutdown` of src/index.ts with `IPFSNode.stop` and `createIPFSNode` of
-- src/ipfs-node.ts: the order of the steps. What a step does inside is left to its own file, and how it
-- ends is an argument.
use ipfs_shard.Shared.{ℕ, List, [], ◌∷◌, ◌++◌, Bool, false, ltb, if◌then◌else◌}
use ipfs_shard.Node.Pins.{Tried, returned, threw}
use ipfs_shard.Startup.Env.{Env, is_memory_storage_enabled, validate_env}
use ipfs_shard.Startup.Storage.{S3Client, Store, setup_storage}

-- The blockstore that the API is given.
pub data Wrapped : Type 0 where
  network_aware : Store → Wrapped
  cached : ℕ → Wrapped → Wrapped

-- `cache_mb` is `parseInt(process.env.BLOCK_CACHE_MB || '0', 10)`.
unfoldable pub wrap_blockstore : ℕ → Store → Wrapped
wrap_blockstore cache_mb raw =
    if ltb 0 cache_mb then cached cache_mb (network_aware raw) else network_aware raw

-- How the calls that can throw end: `createLibp2pNode`, `bitswap.start`, the parsing of the bootstrap
-- addresses, and `startInternalAPI`.
pub record Ends : Type 0 where
  pub libp2p : Bool
  pub bitswap : Bool
  pub addresses : Bool
  pub api : Bool

pub data Step : Type 0 where
  creates_libp2p starts_bitswap waits_for_peers : Step
  starts_api : Wrapped → Step
  starts_loops : Step
  exits : ℕ → Step

-- The steps of `createIPFSNode`, and whether it returns.
unfoldable pub create_ipfs_node : Ends → List Step × Bool
create_ipfs_node ends =
    if ends.libp2p
    then (creates_libp2p ∷ starts_bitswap ∷ [], ends.bitswap)
    else (creates_libp2p ∷ [], false)

-- The rest of `main` behind the setup of the node.
unfoldable pub serve_api : Bool → Ends → Wrapped → List Step
serve_api memory ends blockstore =
    if ends.addresses
    then (if memory then [] else waits_for_peers ∷ [])
      ++ (starts_api blockstore ∷ (if ends.api then starts_loops ∷ [] else exits 1 ∷ []))
    else exits 1 ∷ []

module _ (s3 : S3Client) where
  abbrev pub after_storage : Env → ℕ → Ends → Tried (Store × Store) → List Step
  after_storage env cache_mb ends (threw err) = exits 1 ∷ []
  after_storage env cache_mb ends (returned (raw, datastore)) =
      let node = create_ipfs_node ends in
      node.0
      ++ (if node.1
          then serve_api (is_memory_storage_enabled env) ends (wrap_blockstore cache_mb raw)
          else exits 1 ∷ [])

  -- `process.exit(1)` in `validateEnv` ends the process at once.
  unfoldable pub run_main : Env → ℕ → Ends → s3.State → s3.State × List Step
  unfolding wrap_blockstore create_ipfs_node serve_api
  run_main env cache_mb ends s =
      if validate_env env
      then (let stores = setup_storage s3 env s in
          (stores.0, after_storage env cache_mb ends stores.1))
      else (s, exits 1 ∷ [])

-- The steps of `shutdown`; `bitswap` and `libp2p` say whether the two calls of `stop` return.
pub data StopStep : Type 0 where
  stops_loops closes_api stops_bitswap stops_libp2p : StopStep
  stop_exits : ℕ → StopStep

unfoldable pub stop_node : (bitswap libp2p : Bool) → List StopStep × Bool
stop_node bitswap libp2p =
    if bitswap then (stops_bitswap ∷ stops_libp2p ∷ [], libp2p) else (stops_bitswap ∷ [], false)

unfoldable pub shutdown : (bitswap libp2p : Bool) → List StopStep
unfolding stop_node
shutdown bitswap libp2p =
    let node = stop_node bitswap libp2p in
    stops_loops ∷ closes_api ∷ (node.0 ++ (stop_exits (if node.1 then 0 else 1) ∷ []))
