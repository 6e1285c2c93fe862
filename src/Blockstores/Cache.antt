-- ===== src/Blockstores/Cache.antt =====
-- `LRUBlockstore` of src/blockstore-cache.ts over any inner store and any cache of the package
-- `lru-cache`. A generator is consumed to its end.
use ipfs_shard.Shared.{
  ℕ, List, [], ◌∷◌, Bool, true, false, Option, none, some, String, ◌⊎◌, inl, inr, if◌then◌else◌,
}
use ipfs_shard.Multiformats.{Multiformats}
use ipfs_shard.InterfaceBlockstore.{Failure, Chunks, whole, Blockstore}

-- What `LRUBlockstore` uses of `LRUCache<string, Uint8Array>` with its size bound: `get` also marks the
-- entry as used, and `set` may throw, as it does where the size that `sizeCalculation` gives is 0.
pub record LruCache : Type 1 where
  pub Cache : Type 0
  pub peek : String → Cache → Option (List ℕ)
  pub touch : String → Cache → Cache
  pub set : String → List ℕ → Cache → Cache ⊎ Failure
  pub delete : String → Cache → Cache

abbrev pub is_some {ℓ} : {A : Type ℓ} → Option A → Bool
is_some none = false
is_some (some a) = true

module _ (m : Multiformats) (inner : Blockstore m) (lru : LruCache) where
  pub record LruBlockstore : Type 0 where
    pub cache : lru.Cache
    pub store : inner.Store

  -- The Boolean says if it throws: the inner `put` does, or the cache refuses what is stored by then.
  unfoldable pub put : m.Cid → List ℕ → LruBlockstore → LruBlockstore × Bool
  put cid val b = elim (inner.put cid val b.store) [
    | none ↦ (b, true)
    | some store ↦ elim (lru.set (m.to_string cid) val b.cache) [
      | inl cache ↦ (record { cache = cache; store = store }, false)
      | inr err ↦ (record { cache = b.cache; store = store }, true)
    ]
  ]

  -- Each chunk is cached under the same key and then passed on. A chunk that the cache refuses is not
  -- passed on, and its exception ends the generator.
  unfoldable pub cache_chunks :
      String → List (List ℕ) → Option Failure → lru.Cache → lru.Cache × Chunks
  cache_chunks key [] thrown cache = (cache, record { yielded = []; thrown = thrown })
  cache_chunks key (chunk ∷ chunks) thrown cache = elim (lru.set key chunk cache) [
    | inr err ↦ (cache, record { yielded = []; thrown = some err })
    | inl cache' ↦
        let (filled, passed) = cache_chunks key chunks thrown cache' in
        (filled, record passed { yielded = chunk ∷ passed.yielded })
  ]

  unfoldable pub get : m.Cid → LruBlockstore → LruBlockstore × Chunks
  unfolding cache_chunks
  get cid b =
      let key = m.to_string cid in
      let marked = record b { cache = lru.touch key b.cache } in
      let found = inner.get cid b.store in
      elim (lru.peek key b.cache) [
        | some cached ↦ (marked, whole cached)
        | none ↦
            let (cache, passed) = cache_chunks key found.yielded found.thrown marked.cache in
            (record marked { cache = cache }, passed)
      ]

  -- `none`: the inner `has` throws.
  unfoldable pub has : m.Cid → LruBlockstore → Option Bool
  has cid b =
      if is_some (lru.peek (m.to_string cid) b.cache) then some true else inner.has cid b.store

  -- The entry is evicted first, also where the inner `delete` throws; the Boolean says if it does.
  unfoldable pub delete : m.Cid → LruBlockstore → LruBlockstore × Bool
  delete cid b =
      let cache = lru.delete (m.to_string cid) b.cache in
      elim (inner.delete cid b.store) [
        | none ↦ (record { cache = cache; store = b.store }, true)
        | some store ↦ (record { cache = cache; store = store }, false)
      ]

  unfoldable pub get_many : List m.Cid → LruBlockstore → List (m.Cid × List ℕ)
  get_many cids b = inner.get_many cids b.store

  unfoldable pub put_many : List (m.Cid × List ℕ) → LruBlockstore → LruBlockstore × List m.Cid
  put_many blocks b =
      let (store, cids) = inner.put_many blocks b.store in (record b { store = store }, cids)
