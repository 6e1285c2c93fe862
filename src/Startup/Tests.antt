-- ===== src/Startup/Tests.antt =====
-- The storage, the wait for peers and the loops at concrete inputs, and runs of the rest.
use ipfs_shard.Shared.{
  ℕ, ltb, if◌then◌else◌, ◌+◌, ◌*◌, List, [], ◌∷◌, Bool, true, false, Option, none, some, String,
  str_eq, ◌≡◌, ◌≢◌, refl, arith, eq_iff,
}
use ipfs_shard.Shared.Assoc.{has}
use ipfs_shard.Multiaddrs.{Multiaddrs}
use ipfs_shard.Samples.{texts}
use ipfs_shard.InterfaceBlockstore.{Failure}
use ipfs_shard.Node.Dictionary.{wrapped}
use ipfs_shard.Announce.Encoding.{by_status, idle}
use ipfs_shard.Backup.Rounds.{Dial, started}
use ipfs_shard.Startup.Env.{Env, is_memory_storage_enabled, missing_of, validate_env}
use ipfs_shard.Startup.Storage.{
  S3Client, in_bucket, ensure_bucket, create_s3_blockstore, create_s3_datastore, create_blockstore,
  create_datastore, setup_storage,
}
use ipfs_shard.Startup.Buckets.{BucketLaws, Opened, setup_storage-Opened}
use ipfs_shard.Startup.Waiting.{
  wait_for_peer_connections, Waiting, Ended, wait_for_peer_connections-Ended,
}
use ipfs_shard.Startup.Loops.{
  Bootstrap, dial_bootstrap_peers, Background, Callback, behind_provide, resumes, dials, discovers,
  clears,
}
use ipfs_shard.Startup.Dialling.{IsCandidate, before_stop, Dialled, dial_bootstrap_peers-Dialled}
use ipfs_shard.Shared.Picks.{Picks}
use ipfs_shard.Announce.Events.{Provide}
use ipfs_shard.Startup.Still.{Still}
use ipfs_shard.Startup.Main.{
  creates_libp2p, starts_bitswap, waits_for_peers, starts_api, starts_loops, network_aware, cached,
  wrap_blockstore, create_ipfs_node, serve_api, run_main, stops_loops, closes_api, stops_bitswap,
  stop_exits, stop_node, shutdown,
}

-- S3 with the names of its buckets, where a bucket that is missing is reported under a name.
abbrev head : String → Bool → Option Failure
head name true = none
head name false = some (record { name = name; code = ""; message = "" })

abbrev buckets : String → S3Client
buckets name = record {
  State = List String;
  head_bucket = λ bucket s. head name (has bucket s);
  create_bucket = λ bucket s. (bucket ∷ s, none);
}

abbrev Exists : String → List String → Type 0
Exists bucket s = has bucket s ≡ true

head-none : (name : String) (b : Bool) → head name b ≡ none → b ≡ true
head-none name true e = refl
head-none name false e = absurd (cc)

buckets-BucketLaws : (name : String) → BucketLaws (buckets name) Exists
unfolding has
buckets-BucketLaws name = record {
  head_finds = λ bucket s e. head-none name (has bucket s) e;
  create_makes = λ bucket s e. ground (arith, eq_iff bucket bucket);
  create_keeps = λ bucket other s h. ground (arith, h);
}

abbrev environment : Env
environment key =
    if str_eq key "S3_BUCKET"
    then some "blocks"
    else if str_eq key "S3_DATASTORE_BUCKET"
    then some "data"
    else if str_eq key "MEMORY_STORAGE"
    then none
    else some "x"

starting : Unit {0}
unfolding has is_memory_storage_enabled missing_of validate_env ensure_bucket create_s3_blockstore
    create_s3_datastore create_blockstore create_datastore setup_storage wrap_blockstore
    create_ipfs_node serve_api run_main stop_node shutdown
starting = tt

main_runs :
    (run_main
      (buckets "NoSuchBucket")
      environment
      64
      (record { libp2p = true; bitswap = true; addresses = true; api = true })
      ("data" ∷ [])).1
    ≡ creates_libp2p
      ∷ starts_bitswap
      ∷ waits_for_peers
      ∷ starts_api (cached 64 (network_aware (in_bucket "blocks")))
      ∷ starts_loops
      ∷ []
unfolding starting
main_runs = refl

shutdown_fails : shutdown false true ≡ stops_loops ∷ closes_api ∷ stops_bitswap ∷ stop_exits 1 ∷ []
unfolding starting
shutdown_fails = refl

setup_storage-Opened_example :
    Opened
      (buckets "NoSuchBucket")
      Exists
      (buckets-BucketLaws "NoSuchBucket")
      environment
      (in_bucket "blocks")
      (in_bucket "data")
      (setup_storage (buckets "NoSuchBucket") environment ("data" ∷ [])).0
unfolding starting
setup_storage-Opened_example =
    setup_storage-Opened (buckets "NoSuchBucket") Exists (buckets-BucketLaws "NoSuchBucket")
      environment ("data" ∷ []) (in_bucket "blocks") (in_bucket "data") refl refl

different : ◌≢◌ {A = String} "NotFound" "NoSuchBucket"
different e = ground (arith, eq_iff "NotFound" "NoSuchBucket")

-- Nobody at the first two looks, and a connection at the third.
abbrev third_look : ℕ → ℕ
third_look n = if ltb n 2 then 0 else 1

wait_for_peer_connections-Ended_example :
    (r : Waiting) × ((wait_for_peer_connections 5 (λ n. n) third_look 100 1200 ≡ some r)
      × Ended (λ n. n) third_look 100 1200 r)
wait_for_peer_connections-Ended_example =
    wait_for_peer_connections-Ended (λ n. n) third_look 100 1200 5 (omega arith)

wait_for_peer_connections-run :
    wait_for_peer_connections 5 (λ n. n) third_look 100 1200
    ≡ some (record { looks = 2; connected = true; clock = 1103 })
unfolding wait_for_peer_connections ipfs_shard.Shared.Loop.loop
wait_for_peer_connections-run = refl

abbrev text_addrs : Multiaddrs
text_addrs = record {
  Addr = String;
  peer_id = λ a. some a;
  to_string = λ a. a;
  parse = λ s. some s;
}

abbrev net : String → Dial
net addr = record { reached = str_eq addr "b"; stops = str_eq addr "c" }

abbrev nothing_dialled : Bootstrap text_addrs
nothing_dialled = record { stopped = false; dialled = []; dialed_count = 0 }

dial_bootstrap_peers-Dialled_example :
    (chosen : List String) × (Picks
        (IsCandidate text_addrs net ("a" ∷ []))
        ("a" ∷ "b" ∷ "c" ∷ "d" ∷ [])
        chosen
      × Dialled text_addrs net
          ("a" ∷ [])
          (before_stop text_addrs net ("a" ∷ []) chosen)
          nothing_dialled
          (dial_bootstrap_peers text_addrs net
            ("a" ∷ [])
            ("a" ∷ "b" ∷ "c" ∷ "d" ∷ [])
            nothing_dialled))
dial_bootstrap_peers-Dialled_example =
    dial_bootstrap_peers-Dialled text_addrs net ("a" ∷ []) ("a" ∷ "b" ∷ "c" ∷ "d" ∷ [])
      nothing_dialled refl

abbrev background : Background texts text_addrs wrapped by_status
background = record {
  bootstrap = nothing_dialled;
  discovery = record { stopped = false; announce_counter = 0; puts = [] };
  backups = started text_addrs 0 none;
  announcing = idle (("/local/pins/one", []) ∷ []);
  clearing = true;
  cleared = 0;
}

-- Behind the stop a provide that was called before ends well, and three callbacks begin.
abbrev late_callbacks : List (Callback texts text_addrs wrapped by_status)
late_callbacks =
    resumes (behind_provide ends_well "one" (λ n. ends_well) 1 ("two" ∷ []) 0 50)
    ∷ dials net []
    ∷ discovers (some (7 ∷ []))
    ∷ clears
    ∷ []
  where
    ends_well : Provide
    ends_well = record { error = none; stops = false; now = 40 }
