-- ===== src/Startup/Order.antt =====
-- `main` of src/index.ts either runs all its steps or exits with code 1.
use ipfs_shard.Shared.{
  ℕ, List, [], ◌∷◌, ◌++◌, Bool, true, false, String, ◌≡◌, refl, ◌⊎◌, inl, inr, ltb, str_eq, eq_iff,
  Bool-cases, if◌then◌else◌,
}
use ipfs_shard.Shared.Assoc.{has}
use ipfs_shard.Node.Pins.{returned}
use ipfs_shard.Node.Pinning.{Tried-cases}
use ipfs_shard.Startup.Env.{
  Env, is_memory_storage_enabled, is_falsy, required, missing_of, is_nil, validate_env,
}
use ipfs_shard.Startup.Storage.{S3Client, Store, setup_storage}
use ipfs_shard.Startup.Main.{
  Wrapped, wrap_blockstore, Ends, Step, creates_libp2p, starts_bitswap, waits_for_peers, starts_api,
  starts_loops, exits, create_ipfs_node, serve_api, after_storage, run_main,
}

-- The last step is the exit with code 1, and the background loops were not started.
abbrev pub is_failure : List Step → Bool
is_failure [] = false
is_failure (starts_loops ∷ steps) = false
is_failure (exits n ∷ []) = ltb 0 n
is_failure (exits n ∷ (s ∷ steps)) = false
is_failure (creates_libp2p ∷ steps) = is_failure steps
is_failure (starts_bitswap ∷ steps) = is_failure steps
is_failure (waits_for_peers ∷ steps) = is_failure steps
is_failure (starts_api w ∷ steps) = is_failure steps

abbrev pub complete : Bool → Wrapped → List Step
complete memory blockstore =
    creates_libp2p
    ∷ starts_bitswap
    ∷ ((if memory then [] else waits_for_peers ∷ []) ++ (starts_api blockstore ∷ starts_loops ∷ []))

-- All steps, or an exit.
abbrev Runs : Bool → Wrapped → List Step → Type 0
Runs memory blockstore steps = (steps ≡ complete memory blockstore) ⊎ (is_failure steps ≡ true)

serve_api-Runs :
    (memory : Bool) (ends : Ends) (b : Wrapped)
    → Runs memory b (creates_libp2p ∷ starts_bitswap ∷ serve_api memory ends b)
unfolding serve_api
serve_api-Runs memory ends b = go memory ends.addresses ends.api
  where
    go :
        (memory addresses api : Bool)
        → Runs memory b (
            creates_libp2p
            ∷ starts_bitswap
            ∷ (if addresses
                then (if memory then [] else waits_for_peers ∷ [])
                  ++ (starts_api b ∷ (if api then starts_loops ∷ [] else exits 1 ∷ []))
                else exits 1 ∷ []))
    go memory false api = inr refl
    go true true true = inl refl
    go false true true = inl refl
    go true true false = inr refl
    go false true false = inr refl

missing_of-has :
    (env : Env) (key : String) (keys : List String)
    → has key keys ≡ true
    → is_falsy (env key) ≡ true
    → is_nil (missing_of env keys) ≡ false
unfolding has missing_of
missing_of-has env key [] listed falsy = absurd (cc)
missing_of-has env key (j ∷ keys) listed falsy = elim (Bool-cases (str_eq j key)) [
  | inl here ↦ let same : j ≡ key = (eq_iff j key).0 here in rw (same, falsy) refl
  | inr away ↦ elim (Bool-cases (is_falsy (env j))) [
    | inl also ↦ rw also refl
    | inr there ↦ rw there (missing_of-has env key keys (rw away at listed) falsy)
  ]
]

module _ (s3 : S3Client) where
  node-Runs :
      (env : Env) (cache_mb : ℕ) (ends : Ends) (raw datastore : Store)
      → Runs
          (is_memory_storage_enabled env)
          (wrap_blockstore cache_mb raw)
          (after_storage s3 env cache_mb ends (returned (raw, datastore)))
  unfolding create_ipfs_node
  node-Runs env cache_mb ends raw datastore = go ends.libp2p ends.bitswap
    where
      rest : List Step
      rest = serve_api (is_memory_storage_enabled env) ends (wrap_blockstore cache_mb raw)

      go :
          (libp2p bitswap : Bool)
          → let node : List Step × Bool =
              if libp2p
              then (creates_libp2p ∷ starts_bitswap ∷ [], bitswap)
              else (creates_libp2p ∷ [], false) in
            Runs
              (is_memory_storage_enabled env)
              (wrap_blockstore cache_mb raw)
              (node.0 ++ (if node.1 then rest else exits 1 ∷ []))
      go false bitswap = inr refl
      go true false = inr refl
      go true true =
          serve_api-Runs (is_memory_storage_enabled env) ends (wrap_blockstore cache_mb raw)

  -- Either `main` exits with a code that is not 0 before the background loops start; or the environment
  -- is valid, the storage was set up, and the steps are all of `createIPFSNode`, then the wait for
  -- peers unless the storage is in memory, then the API over the wrapped raw blockstore, then the loops.
  pub run_main-complete :
      (env : Env) (cache_mb : ℕ) (ends : Ends) (s : s3.State)
      → (is_failure (run_main s3 env cache_mb ends s).1 ≡ true)
        ⊎ ((raw : Store) × ((datastore : Store) × (((validate_env env ≡ true)
                  × ((setup_storage s3 env s).1 ≡ returned (raw, datastore)))
                × ((run_main s3 env cache_mb ends s).1
                    ≡ complete (is_memory_storage_enabled env) (wrap_blockstore cache_mb raw)))))
  unfolding run_main
  run_main-complete env cache_mb ends s = elim (Bool-cases (validate_env env)) [
    | inr invalid ↦ inl (rw (invalid, run_main) refl)
    | inl valid ↦ elim (Tried-cases (setup_storage s3 env s).1) [
      | inr (err, f) ↦ inl (rw (valid, f, run_main) refl)
      | inl ((raw, datastore), f) ↦ elim (node-Runs env cache_mb ends raw datastore) [
        | inl all ↦ inr (raw, (datastore, ((valid, f), rw (valid, f, run_main) all)))
        | inr fails ↦ inl (rw (valid, f, run_main) fails)
      ]
    ]
  ]

  -- Without memory storage, if a required variable is missing or empty, then `main` exits at once: no
  -- request is sent to S3.
  pub run_main-missing :
      (env : Env) (cache_mb : ℕ) (ends : Ends) (s : s3.State) (key : String)
      → is_memory_storage_enabled env ≡ false
      → has key required ≡ true
      → is_falsy (env key) ≡ true
      → run_main s3 env cache_mb ends s ≡ (s, exits 1 ∷ [])
  unfolding run_main validate_env
  run_main-missing env cache_mb ends s key on_s3 listed falsy = rw (invalid, run_main) refl
    where
      invalid : validate_env env ≡ false
      invalid = rw on_s3 (missing_of-has env key required listed falsy)
