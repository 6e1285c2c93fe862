-- ===== src/Blockstores/Truncation.antt =====
-- A block that the inner store gives in several chunks: `get` of src/blockstore-cache.ts.
use ipfs_shard.Shared.{
  ℕ, ◌<◌, All, inl, List, [], ◌∷◌, ◌++◌, none, some, String, ◌≡◌, ◌≢◌, refl, sym, ap, ◌∙◌, arith,
  length, length-append,
}
use ipfs_shard.Multiformats.{Multiformats}
use ipfs_shard.InterfaceBlockstore.{Chunks, whole, Blockstore}
use ipfs_shard.Blockstores.Cache.{LruCache, LruBlockstore, cache_chunks, get}
use ipfs_shard.Blockstores.Caching.{get_cached, get_missed}

module _ (m : Multiformats) (inner : Blockstore m) (lru : LruCache) where
  -- Every chunk is taken by the cache, which holds the last one at the end.
  abbrev Held : String → List ℕ → lru.Cache × Chunks → List (List ℕ) → Type 0
  Held key last (cache, passed) chunks =
      (lru.peek key cache ≡ some last) × (passed ≡ record { yielded = chunks; thrown = none })

  cache_chunks-Held :
      (key : String) (last : List ℕ) (chunks : List (List ℕ)) (cache : lru.Cache)
      → ((v : List ℕ) (c : lru.Cache)
          → 0 < length v
          → (c' : lru.Cache) × (lru.set key v c ≡ inl c'))
      → All (λ v. 0 < length v) (chunks ++ (last ∷ []))
      → ((c c' : lru.Cache) → lru.set key last c ≡ inl c' → lru.peek key c' ≡ some last)
      → Held key last
          (cache_chunks m inner lru key (chunks ++ (last ∷ [])) none cache)
          (chunks ++ (last ∷ []))
  unfolding cache_chunks
  cache_chunks-Held key last [] cache takes (some_bytes, _) keeps =
      let (c', e) = takes last cache some_bytes in rw (e, cache_chunks) (keeps cache c' e, refl)
  cache_chunks-Held key last (chunk ∷ chunks) cache takes (some_bytes, rest) keeps =
      let (c', e) = takes chunk cache some_bytes in
      let (held, passed) = cache_chunks-Held key last chunks c' takes rest keeps in
      rw (e, cache_chunks)
        (held, ap (λ (p : Chunks). record p { yielded = chunk ∷ p.yielded }) passed)

  -- If a block that is not cached comes in several chunks, none of them empty, and the cache takes such
  -- contents and still holds the last chunk when it was set, then a second `get` gives the last chunk
  -- alone, as if it were the whole block.
  pub get_truncates :
      (cid : m.Cid) (b : LruBlockstore m inner lru) (first last : List ℕ) (chunks : List (List ℕ))
      → lru.peek (m.to_string cid) b.cache ≡ none
      → inner.get cid b.store ≡ record { yielded = first ∷ (chunks ++ (last ∷ [])); thrown = none }
      → All (λ v. 0 < length v) (first ∷ (chunks ++ (last ∷ [])))
      → ((v : List ℕ) (c : lru.Cache)
          → 0 < length v
          → (c' : lru.Cache) × (lru.set (m.to_string cid) v c ≡ inl c'))
      → ((c c' : lru.Cache)
          → lru.set (m.to_string cid) last c ≡ inl c'
          → lru.peek (m.to_string cid) c' ≡ some last)
      → let again = get m inner lru cid (get m inner lru cid b).0 in
        ((get m inner lru cid b).1 ≡ inner.get cid b.store)
        × ((again.1 ≡ whole last) × (again.1 ≢ inner.get cid b.store))
  get_truncates cid b first last chunks missed found bytes takes keeps =
      let key = m.to_string cid in
      let filled : lru.Cache × Chunks =
        cache_chunks m inner lru key (inner.get cid b.store).yielded (inner.get cid b.store).thrown
          (lru.touch key b.cache) in
      let held : Held key last filled (first ∷ (chunks ++ (last ∷ []))) =
        rw found
          (cache_chunks-Held key last (first ∷ chunks) (lru.touch key b.cache) takes bytes keeps) in
      let after : LruBlockstore m inner lru = record b { cache = filled.0 } in
      rw (get_missed m inner lru cid b missed, get_cached m inner lru cid after last held.0)
        (
          held.1 ∙ sym found,
          (
            refl,
            λ same. omega (
              arith,
              ap (λ (c : Chunks). length c.yielded) (same ∙ found),
              length-append chunks (last ∷ []),
            ),
          ),
        )
