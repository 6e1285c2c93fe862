-- ===== src/Blockstores/Network.antt =====
-- `NetworkAwareBlockstore` of src/blockstore-network.ts, over any S3 blockstore. What the network
-- answers during one call is an argument; timeouts and aborts show in the answers.
use Prim.Native.String.{◌++◌ as text_append}
use text.Mathlib.Text.{find?}
use ipfs_shard.Shared.{
  ℕ, List, [], ◌∷◌, ◌++◌, Bool, true, false, ◌||◌, Option, none, some, String, str_eq,
  if◌then◌else◌,
}
use ipfs_shard.Multiformats.{Multiformats}
use ipfs_shard.InterfaceBlockstore.{Failure, Chunks, Blockstore}
use ipfs_shard.Blockstores.Cache.{is_some}
use ipfs_shard.Bitswap.State.{Outcome, resolved, rejected}

abbrev pub includes : String → String → Bool
includes s t = is_some (find? s t)

-- Is the error a cache miss?
unfoldable pub is_miss : Failure → Bool
is_miss err =
    str_eq err.name "GetFailedError"
    || str_eq err.code "NoSuchKey"
    || includes err.message "NoSuchKey"
    || str_eq err.code "ERR_NOT_FOUND"
    || str_eq err.name "NotFoundError"

-- A provider: its addresses, each with whether the dial succeeds; whether the shared signal is
-- aborted when its turn comes; and how `bitswap.want` settles afterwards.
pub record Provider : Type 0 where
  pub addrs : List (String × Bool)
  pub aborted : Bool
  pub wanted : Outcome

-- `failed`: `fetch`, the timer or the parsing of the answer throws.
pub data Lookup : Type 0 where
  failed : Lookup
  not_ok : Lookup
  answered : Option (List Provider) → Lookup

pub data Gateway : Type 0 where
  unreachable : Gateway
  refused : Gateway
  served : List ℕ → Gateway

-- What the network answers in one call of `get`. `providers` is what `findProviders` yields until
-- it ends or throws; `bitswap_first` says which of the two raced promises settles first.
pub record Answers : Type 0 where
  pub bitswap : Outcome
  pub providers : List Provider
  pub bitswap_first : Bool
  pub ipni : Lookup
  pub gateway : Gateway

-- The addresses are dialled in turn until one succeeds.
unfoldable pub dial_addrs : List (String × Bool) → List String → List String
dial_addrs [] dialled = dialled
dial_addrs ((addr, ok) ∷ addrs) dialled = elim ok [
  | true ↦ dialled ++ (addr ∷ [])
  | false ↦ dial_addrs addrs (dialled ++ (addr ∷ []))
]

abbrev pub try_bitswap : Outcome → Option (List ℕ)
try_bitswap (resolved content) = some content
try_bitswap (rejected reason) = none

unfoldable pub try_dht_retrieval : List Provider → List String → List String × Option (List ℕ)
unfolding dial_addrs
try_dht_retrieval [] dialled = (dialled, none)
try_dht_retrieval (p ∷ providers) dialled =
    let dialled' = dial_addrs p.addrs dialled in
    elim p.wanted [
      | resolved content ↦ (dialled', some content)
      | rejected reason ↦ try_dht_retrieval providers dialled'
    ]

-- The loop over the providers that cid.contact names.
unfoldable pub try_ipni : List Provider → List String → List String × Option (List ℕ)
unfolding dial_addrs
try_ipni [] dialled = (dialled, none)
try_ipni (p ∷ providers) dialled = elim p.aborted [
  | true ↦ (dialled, none)
  | false ↦ elim p.wanted [
    | resolved content ↦ (dial_addrs p.addrs dialled, some content)
    | rejected reason ↦ try_ipni providers (dial_addrs p.addrs dialled)
  ]
]

unfoldable pub ask_ipni : Lookup → List String → List String × Option (List ℕ)
unfolding try_ipni
ask_ipni failed dialled = (dialled, none)
ask_ipni not_ok dialled = (dialled, none)
ask_ipni (answered none) dialled = (dialled, none)
ask_ipni (answered (some providers)) dialled = try_ipni providers dialled

abbrev pub ask_gateway : Gateway → Option (List ℕ)
ask_gateway unreachable = none
ask_gateway refused = none
ask_gateway (served content) = some content

module _ (m : Multiformats) (s3 : Blockstore m) where
  -- `dialled` is the sequence of the addresses dialled.
  pub record NetworkAware : Type 0 where
    pub store : s3.Store
    pub dialled : List String

  -- `s3Blockstore.put`; that it throws is not fatal.
  unfoldable pub persist : m.Cid → List ℕ → NetworkAware → NetworkAware
  persist cid block w = elim (s3.put cid block w.store) [
    | none ↦ w
    | some store ↦ record w { store = store }
  ]

  -- A block that was found is persisted, then yielded behind what was yielded before.
  unfoldable pub deliver : m.Cid → List (List ℕ) → List ℕ → NetworkAware → NetworkAware × Chunks
  unfolding persist
  deliver cid before block w =
      (persist cid block w, record { yielded = before ++ (block ∷ []); thrown = none })

  abbrev pub block_not_found : m.Cid → Failure
  block_not_found cid = record {
    name = "Error";
    code = "";
    message = text_append "Block not found: " (m.to_string cid);
  }

  -- The promise that settles first is taken, also where it is null.
  unfoldable pub race : Answers → List String → List String × Option (List ℕ)
  unfolding try_dht_retrieval
  race a dialled =
      let dht = try_dht_retrieval a.providers dialled in
      (dht.0, if a.bitswap_first then try_bitswap a.bitswap else dht.1)

  unfoldable pub fetch_block :
      m.Cid → Answers → List (List ℕ) → NetworkAware → NetworkAware × Chunks
  unfolding race ask_ipni deliver
  fetch_block cid a before w =
      let raced = race a w.dialled in
      let asked = ask_ipni a.ipni raced.0 in
      let lost : Chunks = record { yielded = before; thrown = some (block_not_found cid) } in
      elim raced.1 [
        | some block ↦ deliver cid before block (record w { dialled = raced.0 })
        | none ↦ elim asked.1 [
          | some block ↦ deliver cid before block (record w { dialled = asked.0 })
          | none ↦ elim (ask_gateway a.gateway) [
            | some block ↦ deliver cid before block (record w { dialled = asked.0 })
            | none ↦ (record w { dialled = asked.0 }, lost)
          ]
        ]
      ]

  -- What the `catch` around the S3 read does with the exception, if there is one.
  unfoldable pub after_s3 :
      m.Cid → Answers → NetworkAware → Chunks → Option Failure → NetworkAware × Chunks
  unfolding is_miss fetch_block
  after_s3 cid a w here none = (w, here)
  after_s3 cid a w here (some err) =
      if is_miss err then fetch_block cid a here.yielded w else (w, here)

  unfoldable pub get : m.Cid → Answers → NetworkAware → NetworkAware × Chunks
  unfolding after_s3
  get cid a w = let here = s3.get cid w.store in after_s3 cid a w here here.thrown

  -- An exception of the S3 store counts as `false`.
  unfoldable pub has : m.Cid → NetworkAware → Bool
  has cid w = elim (s3.has cid w.store) [ none ↦ false | some there ↦ there ]

  unfoldable pub put : m.Cid → List ℕ → NetworkAware → Option NetworkAware
  put cid block w = elim (s3.put cid block w.store) [
    | none ↦ none
    | some store ↦ some (record w { store = store })
  ]

  unfoldable pub delete : m.Cid → NetworkAware → Option NetworkAware
  delete cid w = elim (s3.delete cid w.store) [
    | none ↦ none
    | some store ↦ some (record w { store = store })
  ]

  unfoldable pub put_many : List (m.Cid × List ℕ) → NetworkAware → NetworkAware × List m.Cid
  put_many blocks w =
      let (store, cids) = s3.put_many blocks w.store in (record w { store = store }, cids)
