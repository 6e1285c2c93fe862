-- ===== src/Blockstores/Tests.antt =====
-- Runs of the two blockstores over a store and a cache that are dictionaries, and the theorems at
-- concrete inputs.
use ipfs_shard.Shared.{
  ℕ, List, [], ◌∷◌, false, Option, none, some, String, ◌≡◌, ◌≢◌, refl, sym, ap, ◌∙◌, inl, inr, ◌⊎◌,
  ◌<◌, length, arith, if◌then◌else◌, str_eq,
}
use ipfs_shard.Shared.Assoc.{
  lookup, insert, remove, lookup-insert_self, lookup-insert_ne, lookup-remove_self,
  lookup-remove_ne,
}
use ipfs_shard.Samples.{samples, sample_text, cid_one}
use ipfs_shard.InterfaceBlockstore.{Failure, whole, Blockstore}
use ipfs_shard.Bitswap.State.{rejected}
use ipfs_shard.Blockstores.Cache.{LruCache, LruBlockstore, cache_chunks}
use ipfs_shard.Blockstores.Cache
use ipfs_shard.Blockstores.Caching.{CacheLaws, StoreLaws, Coherent, get-Coherent}
use ipfs_shard.Blockstores.Truncation.{get_truncates}
use ipfs_shard.Blockstores.Network.{is_miss, block_not_found, get}
use ipfs_shard.Blockstores.Retrieval
use ipfs_shard.Blockstores.Dictionary.{Dictionary, missing, read, dictionary, answers, empty_node}

-- `lru-cache` refuses a content of size 0.
abbrev invalid_size : Failure
invalid_size = record { name = "TypeError"; code = ""; message = "invalid size" }

abbrev unless_empty : {C : Type 0} → List ℕ → C → C ⊎ Failure
unless_empty [] c = inr invalid_size
unless_empty (x ∷ xs) c = inl c

taken : {C : Type 0} → (v : List ℕ) (c c' : C) → unless_empty v c ≡ inl c' → c ≡ c'
taken [] c c' e = absurd (cc)
taken (x ∷ xs) c c' e = cc

takes : {C : Type 0} → (v : List ℕ) (c : C) → 0 < length v → (c' : C) × (unless_empty v c ≡ inl c')
takes [] c h = absurd (omega arith)
takes (x ∷ xs) c h = (c, refl)

abbrev unbounded : LruCache
unbounded = record {
  Cache = Dictionary;
  peek = λ k c. lookup k c;
  touch = λ k c. c;
  set = λ k v c. unless_empty v (insert k v c);
  delete = λ k c. remove k c;
}

unbounded-CacheLaws : CacheLaws unbounded
unbounded-CacheLaws = record {
  peek-set = λ k v c c' w t e.
      cc (lookup-insert_self k v c, ap (lookup k) (taken v (insert k v c) c' t), e);
  peek-set_ne = λ k j v c c' w t d e.
      sym (lookup-insert_ne k j v c d) ∙ ap (lookup j) (taken v (insert k v c) c' t) ∙ e;
  set_takes = λ k v c h. takes v (insert k v c) h;
  peek-touch = λ k j c w e. e;
  peek-delete = λ k c. lookup-remove_self k c;
  peek-delete_ne = λ k j c w d e. sym (lookup-remove_ne k j c d) ∙ e;
}

lookup_put :
    (k j : String) (v : List ℕ) (s s' : Dictionary)
    → ◌≡◌ {A = Option Dictionary} (some (insert k v s)) (some s')
    → j ≡ k
    → lookup j s' ≡ some v
lookup_put k j v s s' e same = cc (lookup-insert_self k v s, e, same)

lookup_put_ne :
    (k j : String) (v : List ℕ) (s s' : Dictionary)
    → ◌≡◌ {A = Option Dictionary} (some (insert k v s)) (some s')
    → k ≢ j
    → lookup j s' ≡ lookup j s
lookup_put_ne k j v s s' e d = cc (lookup-insert_ne k j v s d, e)

lookup_delete_ne :
    (k j : String) (s s' : Dictionary)
    → ◌≡◌ {A = Option Dictionary} (some (remove k s)) (some s')
    → k ≢ j
    → lookup j s' ≡ lookup j s
lookup_delete_ne k j s s' e d = cc (lookup-remove_ne k j s d, e)

dictionary-StoreLaws : StoreLaws samples dictionary
dictionary-StoreLaws = record {
  get_after_put = λ cid v s s' other e same.
      ap read (lookup_put (sample_text cid.digest) (sample_text other.digest) v s s' e same);
  get_after_put_ne = λ cid other v s s' e d.
      ap read (lookup_put_ne (sample_text cid.digest) (sample_text other.digest) v s s' e d);
  get-delete_ne = λ cid other s s' e d.
      ap read (lookup_delete_ne (sample_text cid.digest) (sample_text other.digest) s s' e d);
  get_by_key = λ cid other s same. ap (λ (k : String). read (lookup k s)) same;
}

abbrev holding : LruBlockstore samples dictionary unbounded
holding = record { cache = []; store = ("one", 4 ∷ 2 ∷ []) ∷ [] }

holding-Coherent : Coherent samples dictionary unbounded holding
unfolding lookup
holding-Coherent cid v e = absurd (cc)

get-Coherent_example :
    ((Cache.get samples dictionary unbounded cid_one holding).1 ≡ whole (4 ∷ 2 ∷ []))
    × Coherent samples dictionary unbounded
        (Cache.get samples dictionary unbounded cid_one holding).0
unfolding lookup
get-Coherent_example =
    get-Coherent samples dictionary unbounded unbounded-CacheLaws dictionary-StoreLaws cid_one
      holding (inl (4 ∷ 2 ∷ [], (omega arith, refl))) holding-Coherent

-- A store that gives the one block in two chunks.
abbrev two_chunks : Blockstore samples
two_chunks = record dictionary {
  get = λ cid s. record { yielded = (4 ∷ []) ∷ (2 ∷ []) ∷ []; thrown = none };
}

-- A cache of one entry.
abbrev single : LruCache
single = record {
  Cache = Option (String × List ℕ);
  peek = λ k c. peek_single k c;
  touch = λ k c. c;
  set = λ k v c. unless_empty v (some (k, v));
  delete = λ k c. none;
}
  where
    peek_single : String → Option (String × List ℕ) → Option (List ℕ)
    peek_single k none = none
    peek_single k (some (j, v)) = if str_eq j k then some v else none

get_truncates_example :
    let b : LruBlockstore samples two_chunks single = record { cache = none; store = [] } in
    let second =
      Cache.get samples two_chunks single cid_one
        (Cache.get samples two_chunks single cid_one b).0 in
    ((Cache.get samples two_chunks single cid_one b).1 ≡ two_chunks.get cid_one [])
    × ((second.1 ≡ whole (2 ∷ [])) × (second.1 ≢ two_chunks.get cid_one []))
get_truncates_example =
    get_truncates samples two_chunks single cid_one (record { cache = none; store = [] }) (4 ∷ [])
      (2 ∷ []) [] refl refl (omega arith, (omega arith, tt)) (λ v c h. takes v (some ("one", v)) h)
      (λ c c' t. cc (ap (single.peek "one") (taken (2 ∷ []) (some ("one", 2 ∷ [])) c' t)))

get-expected_example : (get samples dictionary cid_one answers empty_node).1 ≡ whole (9 ∷ 9 ∷ [])
unfolding is_miss lookup
get-expected_example = Retrieval.get-expected samples dictionary cid_one answers empty_node

get-get_example :
    let after = (get samples dictionary cid_one answers empty_node).0 in
    ((get samples dictionary cid_one answers empty_node).1 ≡ whole (9 ∷ 9 ∷ []))
    × (get samples dictionary cid_one (record answers { bitswap = rejected "Aborted" }) after
        ≡ (after, whole (9 ∷ 9 ∷ [])))
unfolding is_miss lookup
get-get_example =
    Retrieval.get-get samples dictionary dictionary-StoreLaws cid_one answers
      (record answers { bitswap = rejected "Aborted" }) empty_node missing (9 ∷ 9 ∷ [])
      (insert "one" (9 ∷ 9 ∷ []) []) refl refl refl refl

get_gives_up_example :
    ((get samples dictionary cid_one answers empty_node).1 ≡ whole (9 ∷ 9 ∷ []))
    × ((get samples dictionary cid_one (record answers { bitswap_first = false }) empty_node).1
        ≡ record { yielded = []; thrown = some (block_not_found samples dictionary cid_one) })
unfolding is_miss lookup
get_gives_up_example =
    Retrieval.get_gives_up samples dictionary cid_one answers empty_node missing (9 ∷ 9 ∷ []) refl
      refl refl refl refl refl
