-- ===== src/Startup/Storage.antt =====
-- The storage: src/startup/storage.ts. The package `@aws-sdk/client-s3` is not part of the repository:
-- a client is an argument, with a state of its own.
use ipfs_shard.Shared.{Bool, true, false, Option, none, some, String, str_eq, if◌then◌else◌}
use ipfs_shard.InterfaceBlockstore.{Failure}
use ipfs_shard.Node.Pins.{Tried, returned, threw}
use ipfs_shard.Startup.Env.{Env, is_memory_storage_enabled}

-- What is sent: `HeadBucketCommand`, which changes nothing, and `CreateBucketCommand`, which ends with
-- an exception or without one, and perhaps another state.
pub record S3Client : Type 1 where
  pub State : Type 0
  pub head_bucket : String → State → Option Failure
  pub create_bucket : String → State → State × Option Failure

pub data Store : Type 0 where
  in_memory : Store
  in_bucket : String → Store

-- `process.env.X!`
abbrev pub or_undefined : Option String → String
or_undefined none = "undefined"
or_undefined (some s) = s

-- `if (!s3Client) throw …` behind the test for memory storage.
abbrev pub client_required : String → Failure
client_required message = record { name = "Error"; code = ""; message = message }

module _ (s3 : S3Client) where
  abbrev pub after_create : String → s3.State × Option Failure → s3.State × Tried Store
  after_create bucket (s, none) = (s, returned (in_bucket bucket))
  after_create bucket (s, some err) = (s, threw err)

  -- The `catch` around the look at the bucket.
  abbrev pub after_head : String → Option Failure → s3.State → s3.State × Tried Store
  after_head bucket none s = (s, returned (in_bucket bucket))
  after_head bucket (some err) s =
      if str_eq err.name "NoSuchBucket"
      then after_create bucket (s3.create_bucket bucket s)
      else (s, threw err)

  unfoldable pub ensure_bucket : String → s3.State → s3.State × Tried Store
  ensure_bucket bucket s = after_head bucket (s3.head_bucket bucket s) s

  unfoldable pub create_s3_blockstore : Env → s3.State → s3.State × Tried Store
  unfolding ensure_bucket
  create_s3_blockstore env s = ensure_bucket (or_undefined (env "S3_BUCKET")) s

  unfoldable pub create_s3_datastore : Env → s3.State → s3.State × Tried Store
  unfolding ensure_bucket
  create_s3_datastore env s = ensure_bucket (or_undefined (env "S3_DATASTORE_BUCKET")) s

  -- `client`: is there one?
  unfoldable pub create_blockstore : Env → Bool → s3.State → s3.State × Tried Store
  unfolding create_s3_blockstore
  create_blockstore env client s =
      if is_memory_storage_enabled env
      then (s, returned in_memory)
      else if client
      then create_s3_blockstore env s
      else (s, threw (client_required "S3Client required for S3Blockstore"))

  unfoldable pub create_datastore : Env → Bool → s3.State → s3.State × Tried Store
  unfolding create_s3_datastore
  create_datastore env client s =
      if is_memory_storage_enabled env
      then (s, returned in_memory)
      else if client
      then create_s3_datastore env s
      else (s, threw (client_required "S3Client required for S3Datastore"))

  abbrev pub both_stores : Store → s3.State × Tried Store → s3.State × Tried (Store × Store)
  both_stores blocks (s, returned store) = (s, returned (blocks, store))
  both_stores blocks (s, threw err) = (s, threw err)

  abbrev pub then_datastore : Env → Bool → s3.State × Tried Store → s3.State × Tried (Store × Store)
  then_datastore env client (s, returned blocks) =
      both_stores blocks (create_datastore env client s)
  then_datastore env client (s, threw err) = (s, threw err)

  -- The client is created unless the storage is in memory.
  unfoldable pub setup_storage : Env → s3.State → s3.State × Tried (Store × Store)
  unfolding create_blockstore create_datastore
  setup_storage env s =
      let client = if is_memory_storage_enabled env then false else true in
      then_datastore env client (create_blockstore env client s)

  abbrev pub is_none : Option Failure → Bool
  is_none none = true
  is_none (some err) = false

  -- The closure that `/health` asks.
  unfoldable pub check_s3_health : Env → s3.State → Bool
  check_s3_health env s =
      if is_memory_storage_enabled env
      then true
      else is_none (s3.head_bucket (or_undefined (env "S3_BUCKET")) s)
