-- ===== src/Blockstores/Caching.antt =====
-- The cache of src/blockstore-cache.ts and the inner store: when they agree.
use ipfs_shard.Shared.{
  ℕ, ◌<◌, List, [], length, true, false, none, some, String, ◌≡◌, ◌≢◌, refl, sym, ap, subst, ◌∙◌,
  ◌⊎◌, inl, inr, arith, Option-cases, Bool-cases, str_eq, eq_iff,
}
use ipfs_shard.Multiformats.{Multiformats}
use ipfs_shard.InterfaceBlockstore.{Chunks, whole, Blockstore}
use ipfs_shard.Blockstores.Cache.{LruCache, LruBlockstore, put, cache_chunks, get, delete}

-- What the cache is relied on for: it may drop any entry at any time, but gives only what was set
-- last under the key, a deleted entry is gone, and a content that is not empty is not refused.
pub record CacheLaws (lru : LruCache) : Type 0 where
  pub peek-set :
      (k : String) (v : List ℕ) (c c' : lru.Cache) (w : List ℕ)
      → lru.set k v c ≡ inl c'
      → lru.peek k c' ≡ some w
      → w ≡ v
  pub peek-set_ne :
      (k j : String) (v : List ℕ) (c c' : lru.Cache) (w : List ℕ)
      → lru.set k v c ≡ inl c'
      → k ≢ j
      → lru.peek j c' ≡ some w
      → lru.peek j c ≡ some w
  pub set_takes :
      (k : String) (v : List ℕ) (c : lru.Cache)
      → 0 < length v
      → (c' : lru.Cache) × (lru.set k v c ≡ inl c')
  pub peek-touch :
      (k j : String) (c : lru.Cache) (w : List ℕ)
      → lru.peek j (lru.touch k c) ≡ some w
      → lru.peek j c ≡ some w
  pub peek-delete : (k : String) (c : lru.Cache) → lru.peek k (lru.delete k c) ≡ none
  pub peek-delete_ne :
      (k j : String) (c : lru.Cache) (w : List ℕ)
      → k ≢ j
      → lru.peek j (lru.delete k c) ≡ some w
      → lru.peek j c ≡ some w

-- What the inner store is relied on for: a block that was put is read back, and a write changes no
-- block of another key.
pub record StoreLaws (m : Multiformats) (inner : Blockstore m) : Type 0 where
  pub get_after_put :
      (cid : m.Cid) (val : List ℕ) (s s' : inner.Store) (other : m.Cid)
      → inner.put cid val s ≡ some s'
      → m.to_string other ≡ m.to_string cid
      → inner.get other s' ≡ whole val
  pub get_after_put_ne :
      (cid other : m.Cid) (val : List ℕ) (s s' : inner.Store)
      → inner.put cid val s ≡ some s'
      → m.to_string cid ≢ m.to_string other
      → inner.get other s' ≡ inner.get other s
  pub get-delete_ne :
      (cid other : m.Cid) (s s' : inner.Store)
      → inner.delete cid s ≡ some s'
      → m.to_string cid ≢ m.to_string other
      → inner.get other s' ≡ inner.get other s
  pub get_by_key :
      (cid other : m.Cid) (s : inner.Store)
      → m.to_string cid ≡ m.to_string other
      → inner.get cid s ≡ inner.get other s

same_or_ne : (k j : String) → (k ≡ j) ⊎ (k ≢ j)
same_or_ne k j = elim (Bool-cases (str_eq k j)) [
  | inl same ↦ inl ((eq_iff k j).0 same)
  | inr other ↦ inr (λ e. ground (arith, eq_iff k j))
]

module _ (m : Multiformats) (inner : Blockstore m) (lru : LruCache) where
  -- Every cached content is the one chunk that the inner store gives for the CID.
  abbrev pub Coherent : LruBlockstore m inner lru → Type 0
  Coherent b =
      (cid : m.Cid) (v : List ℕ)
      → lru.peek (m.to_string cid) b.cache ≡ some v
      → inner.get cid b.store ≡ whole v

  -- The inner store gives a block that is not empty as one chunk, or no chunk, as with an exception.
  abbrev pub Whole : Chunks → Type 0
  Whole c = ((v : List ℕ) × ((0 < length v) × (c ≡ whole v))) ⊎ (c.yielded ≡ [])

  pub get_cached :
      (cid : m.Cid) (b : LruBlockstore m inner lru) (v : List ℕ)
      → lru.peek (m.to_string cid) b.cache ≡ some v
      → get m inner lru cid b ≡ (record b { cache = lru.touch (m.to_string cid) b.cache }, whole v)
  unfolding get
  get_cached cid b v e = rw (e, get) refl

  pub get_missed :
      (cid : m.Cid) (b : LruBlockstore m inner lru)
      → lru.peek (m.to_string cid) b.cache ≡ none
      → let key = m.to_string cid in
        let found = inner.get cid b.store in
        let filled =
          cache_chunks m inner lru key found.yielded found.thrown (lru.touch key b.cache) in
        get m inner lru cid b ≡ (record b { cache = filled.0 }, filled.1)
  unfolding get
  get_missed cid b e = rw (e, get) refl

  module _ (laws : CacheLaws lru) where
    touch-Coherent :
        (key : String) (b : LruBlockstore m inner lru)
        → Coherent b
        → Coherent (record b { cache = lru.touch key b.cache })
    touch-Coherent key b coherent cid v e =
        coherent cid v (laws.peek-touch key (m.to_string cid) b.cache v e)

    set-Coherent :
        (cid : m.Cid) (v : List ℕ) (b : LruBlockstore m inner lru) (c' : lru.Cache)
        → lru.set (m.to_string cid) v b.cache ≡ inl c'
        → ((other : m.Cid)
            → m.to_string other ≡ m.to_string cid
            → inner.get other b.store ≡ whole v)
        → Coherent b
        → Coherent (record b { cache = c' })
    set-Coherent cid v b c' takes there coherent other w e =
        elim (same_or_ne (m.to_string cid) (m.to_string other)) [
          | inl same ↦
              let shown : lru.peek (m.to_string cid) c' ≡ some w =
                subst (λ (k : String). lru.peek k c' ≡ some w) (sym same) e in
              rw (laws.peek-set (m.to_string cid) v b.cache c' w takes shown)
                (there other (sym same))
          | inr differ ↦
              coherent other w (
                laws.peek-set_ne (m.to_string cid) (m.to_string other) v b.cache c' w takes differ
                  e)
        ]

    -- Whatever the cache holds and drops, `get` gives exactly what the inner store gives, and keeps
    -- the cache coherent, if the inner store gives the block as one chunk that is not empty, or no chunk.
    pub get-Coherent :
        StoreLaws m inner
        → (cid : m.Cid) (b : LruBlockstore m inner lru) → Whole (inner.get cid b.store)
        → Coherent b
        → ((get m inner lru cid b).1 ≡ inner.get cid b.store) × Coherent (get m inner lru cid b).0
    unfolding cache_chunks
    get-Coherent store cid b shape coherent =
        elim (Option-cases (lru.peek (m.to_string cid) b.cache)) [
          | inr (v, e) ↦
              rw (get_cached cid b v e)
                (sym (coherent cid v e), touch-Coherent (m.to_string cid) b coherent)
          | inl e ↦ rw (get_missed cid b e) (fill shape)
        ]
      where
        marked : LruBlockstore m inner lru
        marked = record b { cache = lru.touch (m.to_string cid) b.cache }

        filled : Chunks → lru.Cache × Chunks
        filled found =
            cache_chunks m inner lru (m.to_string cid) found.yielded found.thrown marked.cache

        fill :
            Whole (inner.get cid b.store)
            → ((filled (inner.get cid b.store)).1 ≡ inner.get cid b.store)
              × Coherent (record marked { cache = (filled (inner.get cid b.store)).0 })
        fill (inl (v, (some_bytes, e))) =
            let (c', takes) = laws.set_takes (m.to_string cid) v marked.cache some_bytes in
            let done : filled (inner.get cid b.store) ≡ (c', whole v) =
              ap filled e ∙ rw (takes, cache_chunks) refl in
            rw done (
              sym e,
              set-Coherent cid v marked c' takes
                  (λ other same. store.get_by_key other cid b.store same ∙ e)
                  (touch-Coherent (m.to_string cid) b coherent),
            )
        fill (inr e) = rw e (refl, touch-Coherent (m.to_string cid) b coherent)

    put_ok :
        (cid : m.Cid) (val : List ℕ) (b : LruBlockstore m inner lru) (s' : inner.Store)
        (c' : lru.Cache)
        → inner.put cid val b.store ≡ some s'
        → lru.set (m.to_string cid) val b.cache ≡ inl c'
        → put m inner lru cid val b ≡ (record { cache = c'; store = s' }, false)
    unfolding put
    put_ok cid val b s' c' e takes = rw (e, put, takes) refl

    put_throws :
        (cid : m.Cid) (val : List ℕ) (b : LruBlockstore m inner lru)
        → inner.put cid val b.store ≡ none
        → put m inner lru cid val b ≡ (b, true)
    unfolding put
    put_throws cid val b e = rw (e, put) refl

    stored-Coherent :
        StoreLaws m inner
        → (cid : m.Cid) (val : List ℕ) (b : LruBlockstore m inner lru) (s' : inner.Store)
          (c' : lru.Cache)
        → inner.put cid val b.store ≡ some s'
        → lru.set (m.to_string cid) val b.cache ≡ inl c'
        → Coherent b
        → Coherent (record { cache = c'; store = s' })
    stored-Coherent store cid val b s' c' ok takes coherent other w e =
        elim (same_or_ne (m.to_string cid) (m.to_string other)) [
          | inl same ↦
              let shown : lru.peek (m.to_string cid) c' ≡ some w =
                subst (λ (k : String). lru.peek k c' ≡ some w) (sym same) e in
              rw (laws.peek-set (m.to_string cid) val b.cache c' w takes shown)
                (store.get_after_put cid val b.store s' other ok (sym same))
          | inr differ ↦
              store.get_after_put_ne cid other val b.store s' ok differ
              ∙ coherent other w (
                  laws.peek-set_ne (m.to_string cid) (m.to_string other) val b.cache c' w takes
                    differ e)
        ]

    -- A block that was put and is not empty is read back from the wrapper, and the cache stays
    -- coherent; if the inner `put` throws, so does the wrapper's, and nothing changes.
    pub get-put :
        StoreLaws m inner
        → (cid : m.Cid) (val : List ℕ) (b : LruBlockstore m inner lru) → 0 < length val
        → Coherent b
        → ((put m inner lru cid val b ≡ (b, true)) × (inner.put cid val b.store ≡ none))
          ⊎ ((b' : LruBlockstore m inner lru) × ((put m inner lru cid val b ≡ (b', false))
                × (((get m inner lru cid b').1 ≡ whole val) × Coherent b')))
    get-put store cid val b some_bytes coherent = elim (Option-cases (inner.put cid val b.store)) [
      | inl e ↦ inl (put_throws cid val b e, e)
      | inr (s', e) ↦
          let (c', takes) = laws.set_takes (m.to_string cid) val b.cache some_bytes in
          let b' : LruBlockstore m inner lru = record { cache = c'; store = s' } in
          let read = store.get_after_put cid val b.store s' cid e refl in
          let kept = stored-Coherent store cid val b s' c' e takes coherent in
          inr (
            b',
            (
              put_ok cid val b s' c' e takes,
              ((get-Coherent store cid b' (inl (val, (some_bytes, read))) kept).0 ∙ read, kept),
            ),
          )
    ]

    -- `delete` evicts the key and keeps the cache coherent, also if the inner `delete` throws.
    pub delete_lem :
        StoreLaws m inner
        → (cid : m.Cid) (b : LruBlockstore m inner lru) → Coherent b
        → (lru.peek (m.to_string cid) (delete m inner lru cid b).0.cache ≡ none)
          × Coherent (delete m inner lru cid b).0
    unfolding delete
    delete_lem store cid b coherent = elim (Option-cases (inner.delete cid b.store)) [
      | inl e ↦
          rw (e, delete)
            (laws.peek-delete (m.to_string cid) b.cache, rest b.store (λ other differ. refl))
      | inr (s', e) ↦
          rw (e, delete)
            (
              laws.peek-delete (m.to_string cid) b.cache,
              rest s' (λ other differ. store.get-delete_ne cid other b.store s' e differ),
            )
    ]
      where
        rest :
            (s' : inner.Store)
            → ((other : m.Cid)
                → m.to_string cid ≢ m.to_string other
                → inner.get other s' ≡ inner.get other b.store)
            → Coherent (record { cache = lru.delete (m.to_string cid) b.cache; store = s' })
        rest s' frame other w e = elim (same_or_ne (m.to_string cid) (m.to_string other)) [
          | inl same ↦ cc (laws.peek-delete (m.to_string cid) b.cache, same, e)
          | inr differ ↦
              frame other differ
              ∙ coherent other w
                  (laws.peek-delete_ne (m.to_string cid) (m.to_string other) b.cache w differ e)
        ]
