-- ===== src/Startup/Buckets.antt =====
-- Which buckets there are when the storage is set up: `setupStorage` of src/startup/storage.ts.
use ipfs_shard.Shared.{
  Bool, true, false, Option, none, some, String, str_eq, ◌≡◌, refl, sym, ap, subst, ◌∙◌,
  if◌then◌else◌,
}
use ipfs_shard.InterfaceBlockstore.{Failure}
use ipfs_shard.Node.Pins.{Tried, returned, threw}
use ipfs_shard.Startup.Env.{Env, is_memory_storage_enabled}
use ipfs_shard.Startup.Storage.{
  S3Client, Store, in_bucket, or_undefined, after_create, after_head, ensure_bucket,
  create_s3_blockstore, create_s3_datastore, create_blockstore, create_datastore, both_stores,
  then_datastore, setup_storage,
}

module _ (s3 : S3Client) where
  -- What S3 documents: a bucket that `HeadBucket` finds is there, `CreateBucket` makes one, and it removes
  -- none.
  pub record BucketLaws (Exists : String → s3.State → Type 0) : Type 0 where
    pub head_finds :
        (bucket : String) (s : s3.State) → s3.head_bucket bucket s ≡ none → Exists bucket s
    pub create_makes :
        (bucket : String) (s : s3.State)
        → (s3.create_bucket bucket s).1 ≡ none
        → Exists bucket (s3.create_bucket bucket s).0
    pub create_keeps :
        (bucket other : String) (s : s3.State)
        → Exists other s
        → Exists other (s3.create_bucket bucket s).0

  abbrev pub block_bucket : Env → String
  block_bucket env = or_undefined (env "S3_BUCKET")

  abbrev pub data_bucket : Env → String
  data_bucket env = or_undefined (env "S3_DATASTORE_BUCKET")

  module _ (Exists : String → s3.State → Type 0) (laws : BucketLaws Exists) where
    -- A store that was opened is the bucket, which is there; no bucket is gone.
    abbrev Ensured : String → s3.State → s3.State × Tried Store → Type 0
    Ensured bucket s r =
        ((store : Store) → r.1 ≡ returned store → (store ≡ in_bucket bucket) × Exists bucket r.0)
        × ((other : String) → Exists other s → Exists other r.0)

    ensure_bucket-Ensured :
        (bucket : String) (s : s3.State) → Ensured bucket s (ensure_bucket s3 bucket s)
    unfolding ensure_bucket
    ensure_bucket-Ensured bucket s = headed (s3.head_bucket bucket s) refl
      where
        created :
            (r : s3.State × Option Failure)
            → r ≡ s3.create_bucket bucket s
            → Ensured bucket s (after_create s3 bucket r)
        created (t, none) e = (
          (λ store f. (
            sym cc,
            subst (λ (x : s3.State). Exists bucket x)
                (sym (ap (λ (x : s3.State × Option Failure). x.0) e))
                (laws.create_makes bucket s (sym (ap (λ (x : s3.State × Option Failure). x.1) e))),
          )),
          λ other h.
              subst (λ (x : s3.State). Exists other x)
                (sym (ap (λ (x : s3.State × Option Failure). x.0) e))
                (laws.create_keeps bucket other s h),
        )
        created (t, some err) e = (
          (λ store f. absurd (cc)),
          λ other h.
              subst (λ (x : s3.State). Exists other x)
                (sym (ap (λ (x : s3.State × Option Failure). x.0) e))
                (laws.create_keeps bucket other s h),
        )

        named :
            (err : Failure) (b : Bool)
            → Ensured bucket s
                (if b then after_create s3 bucket (s3.create_bucket bucket s) else (s, threw err))
        named err true = created (s3.create_bucket bucket s) refl
        named err false = ((λ store f. absurd (cc)), λ other h. h)

        headed :
            (o : Option Failure)
            → s3.head_bucket bucket s ≡ o
            → Ensured bucket s (after_head s3 bucket o s)
        headed none e = ((λ store f. (sym cc, laws.head_finds bucket s e)), λ other h. h)
        headed (some err) e = named err (str_eq err.name "NoSuchBucket")

    -- What holds when the two stores are there, in the state behind.
    abbrev pub Opened : Env → Store → Store → s3.State → Type 0
    Opened env blocks store s =
        ((blocks ≡ in_bucket (block_bucket env)) × (store ≡ in_bucket (data_bucket env)))
        × (Exists (block_bucket env) s × Exists (data_bucket env) s)

    second-Opened :
        (env : Env) (blocks b store : Store) (t : s3.State) (r : s3.State × Tried Store)
        → b ≡ in_bucket (block_bucket env)
        → Exists (block_bucket env) t
        → Ensured (data_bucket env) t r
        → (both_stores s3 b r).1 ≡ returned (blocks, store)
        → Opened env blocks store (both_stores s3 b r).0
    second-Opened env blocks b store t (u, threw err) same there (opens, keeps) e = absurd (cc)
    second-Opened env blocks b store t (u, returned x) same there (opens, keeps) e =
        let (is_data, data_there) = opens x refl in
        ((cc (same, e), cc (is_data, e)), (keeps (block_bucket env) there, data_there))

    module _ (env : Env) (on_s3 : is_memory_storage_enabled env ≡ false) where
      datastore-Ensured :
          (t : s3.State) → Ensured (data_bucket env) t (create_datastore s3 env true t)
      unfolding create_datastore create_s3_datastore
      datastore-Ensured t =
          subst (Ensured (data_bucket env) t) (sym (simp on_s3 refl))
            (ensure_bucket-Ensured (data_bucket env) t)

      first-Opened :
          (blocks store : Store) (s : s3.State) (r : s3.State × Tried Store)
          → Ensured (block_bucket env) s r
          → (then_datastore s3 env true r).1 ≡ returned (blocks, store)
          → Opened env blocks store (then_datastore s3 env true r).0
      first-Opened blocks store s (t, threw err) (opens, keeps) e = absurd (cc)
      first-Opened blocks store s (t, returned b) (opens, keeps) e =
          let (is_bucket, there) = opens b refl in
          second-Opened env blocks b store t (create_datastore s3 env true t) is_bucket there
            (datastore-Ensured t) e

      both_on_s3 :
          (s : s3.State)
          → setup_storage s3 env s
            ≡ then_datastore s3 env true (ensure_bucket s3 (block_bucket env) s)
      unfolding setup_storage create_blockstore create_s3_blockstore
      both_on_s3 s = simp on_s3 refl

    -- With S3, if the storage is set up, then the blockstore and the datastore are the two buckets that
    -- the environment names, and both are there.
    pub setup_storage-Opened :
        (env : Env) (s : s3.State) (blocks store : Store)
        → is_memory_storage_enabled env ≡ false
        → (setup_storage s3 env s).1 ≡ returned (blocks, store)
        → Opened env blocks store (setup_storage s3 env s).0
    setup_storage-Opened env s blocks store on_s3 e =
        let same = both_on_s3 env on_s3 s in
        subst (λ (r : s3.State × Tried (Store × Store)). Opened env blocks store r.0) (sym same)
          (first-Opened env on_s3 blocks store s (ensure_bucket s3 (block_bucket env) s)
            (ensure_bucket-Ensured (block_bucket env) s)
            (ap (λ (r : s3.State × Tried (Store × Store)). r.1) (sym same) ∙ e))
