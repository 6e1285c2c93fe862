-- ===== src/Blockstores/Retrieval.antt =====
-- Which block `NetworkAwareBlockstore.get` of src/blockstore-network.ts gives, and what it keeps.
use ipfs_shard.Shared.{
  ℕ, List, [], ◌∷◌, ◌++◌, true, false, Option, none, some, ◌≡◌, refl, ◌∙◌, inl, inr, Option-cases,
  Bool-cases, if◌then◌else◌,
}
use ipfs_shard.Multiformats.{Multiformats}
use ipfs_shard.InterfaceBlockstore.{Failure, Chunks, whole, Blockstore}
use ipfs_shard.Bitswap.State.{resolved}
use ipfs_shard.Blockstores.Caching.{StoreLaws}
use ipfs_shard.Blockstores.Network.{
  is_miss, Answers, ask_gateway, NetworkAware, persist, deliver, block_not_found, fetch_block,
  after_s3, get,
}
use ipfs_shard.Blockstores.Stages.{
  first_wanted, first_before_abort, named_by, found_block, fetch_block-some, fetch_block-none,
}

module _ (m : Multiformats) (s3 : Blockstore m) where
  -- The block of the first stage that has one, behind the chunks that came before; or an exception.
  abbrev pub given : m.Cid → List (List ℕ) → Option (List ℕ) → Chunks
  given cid before none = record { yielded = before; thrown = some (block_not_found m s3 cid) }
  given cid before (some block) = record { yielded = before ++ (block ∷ []); thrown = none }

  -- What `get` must give: what S3 has; its exception, unless that is a miss; else a block from the
  -- network.
  abbrev pub expected : m.Cid → Answers → Chunks → Option Failure → Chunks
  expected cid a here none = here
  expected cid a here (some err) =
      if is_miss err then given cid here.yielded (found_block a) else here

  given_lem :
      (cid : m.Cid) (a : Answers) (before : List (List ℕ)) (w : NetworkAware m s3)
      → (fetch_block m s3 cid a before w).1 ≡ given cid before (found_block a)
  unfolding deliver
  given_lem cid a before w = elim (Option-cases (found_block a)) [
    | inl e ↦ rw (fetch_block-none m s3 cid a before w e, e) refl
    | inr (block, e) ↦
        let (dialled, same) = fetch_block-some m s3 cid a before w block e in rw (same, e) refl
  ]

  after_s3_lem :
      (cid : m.Cid) (a : Answers) (w : NetworkAware m s3) (here : Chunks) (t : Option Failure)
      → (after_s3 m s3 cid a w here t).1 ≡ expected cid a here t
  unfolding after_s3
  after_s3_lem cid a w here none = refl
  after_s3_lem cid a w here (some err) = elim (Bool-cases (is_miss err)) [
    | inl miss ↦ rw miss (given_lem cid a here.yielded w)
    | inr other ↦ rw other refl
  ]

  -- On every branch: a local hit is given as it is, an exception that is no cache miss is passed on,
  -- and a miss is answered by the first of these that has the block, behind what was yielded before:
  -- the raced promise that settles first, the providers that cid.contact names, the gateway; else
  -- by the exception `Block not found`.
  pub get-expected :
      (cid : m.Cid) (a : Answers) (w : NetworkAware m s3)
      → (get m s3 cid a w).1 ≡ expected cid a (s3.get cid w.store) (s3.get cid w.store).thrown
  unfolding get
  get-expected cid a w = after_s3_lem cid a w (s3.get cid w.store) (s3.get cid w.store).thrown

  persist_ok :
      (cid : m.Cid) (block : List ℕ) (w : NetworkAware m s3) (store : s3.Store)
      → s3.put cid block w.store ≡ some store
      → persist m s3 cid block w ≡ record w { store = store }
  unfolding persist
  persist_ok cid block w store e = rw (e, persist) refl

  -- A block that came from the network and that S3 took is local from then on: the next `get` gives
  -- the same block, dials nobody and writes nothing, whatever the network answers then.
  pub get-get :
      StoreLaws m s3
      → (cid : m.Cid) (a later : Answers) (w : NetworkAware m s3) (err : Failure) (block : List ℕ)
        (store : s3.Store)
      → s3.get cid w.store ≡ record { yielded = []; thrown = some err }
      → is_miss err ≡ true
      → found_block a ≡ some block
      → s3.put cid block w.store ≡ some store
      → let after = (get m s3 cid a w).0 in
        ((get m s3 cid a w).1 ≡ whole block) × (get m s3 cid later after ≡ (after, whole block))
  unfolding get after_s3 deliver
  get-get laws cid a later w err block store here miss found ok =
      let (dialled, same) = fetch_block-some m s3 cid a [] w block found in
      let read = laws.get_after_put cid block w.store store cid ok refl in
      rw (here, miss, same, persist_ok cid block (record w { dialled = dialled }) store ok, read)
        (refl, refl)

  -- The race is lost to a null: on a miss, with a broadcast want that is resolved with the block, and
  -- none from the providers, cid.contact and the gateway, `get` gives the block if the want settles
  -- first, but throws `Block not found` if the lookup of providers ends first.
  pub get_gives_up :
      (cid : m.Cid) (a : Answers) (w : NetworkAware m s3) (err : Failure) (content : List ℕ)
      → s3.get cid w.store ≡ record { yielded = []; thrown = some err }
      → is_miss err ≡ true
      → a.bitswap ≡ resolved content
      → first_wanted a.providers ≡ none
      → first_before_abort (named_by a.ipni) ≡ none
      → ask_gateway a.gateway ≡ none
      → ((get m s3 cid (record a { bitswap_first = true }) w).1 ≡ whole content)
        × ((get m s3 cid (record a { bitswap_first = false }) w).1
            ≡ record { yielded = []; thrown = some (block_not_found m s3 cid) })
  get_gives_up cid a w err content here miss wanted no_provider no_ipni no_gateway =
      let early = record a { bitswap_first = true } in
      let late = record a { bitswap_first = false } in
      let found : found_block early ≡ some content = rw wanted refl in
      let nothing : found_block late ≡ none = rw (no_provider, no_ipni, no_gateway) refl in
      (
        get-expected cid early w ∙ rw (here, miss, found) refl,
        get-expected cid late w ∙ rw (here, miss, nothing) refl,
      )
