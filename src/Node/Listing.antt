-- ===== src/Node/Listing.antt =====
-- `pins.ls` of src/ipfs-node.ts.
use Prim.Native.String.{◌++◌ as text_append}
use ipfs_shard.Shared.{List, [], ◌∷◌, ◌++◌, map, none, some, String, All, ◌≡◌, refl, ap}
use ipfs_shard.Multiformats.{Multiformats}
use ipfs_shard.Node.Pins.{returned, Datastore, pin_key, pin_name, parse_keys, pin_ls}
use ipfs_shard.Node.Pinning.{after_prefix}

module _ (m : Multiformats) (d : Datastore) where
  listed :
      (cids : List m.Cid)
      → All (λ c. m.parse (m.to_string c) ≡ some c) cids
      → parse_keys m d (map (pin_key m d) cids) ≡ cids
  unfolding parse_keys pin_name pin_key
  listed [] p = refl
  listed (cid ∷ cids) (h, p) =
      rw (after_prefix "/local/pins/" (m.to_string cid), h, listed cids p) refl

  listed_behind :
      (after : List m.Cid) (junk : String)
      → m.parse junk ≡ none
      → All (λ c. m.parse (m.to_string c) ≡ some c) after
      → (before : List m.Cid) → All (λ c. m.parse (m.to_string c) ≡ some c) before
      → parse_keys m d
          (map (pin_key m d) before ++ (text_append "/local/pins/" junk ∷ map (pin_key m d) after))
        ≡ before ++ after
  unfolding parse_keys pin_name pin_key
  listed_behind after junk bad q [] p = rw (after_prefix "/local/pins/" junk, bad) (listed after q)
  listed_behind after junk bad q (cid ∷ before) (h, p) =
      rw (after_prefix "/local/pins/" (m.to_string cid), h)
        (ap (◌∷◌ cid) (listed_behind after junk bad q before p))

  -- If the datastore lists the keys of some pinned CIDs, then `pins.ls` yields these CIDs in that
  -- order, if each is read back from its text; a key between them whose name is no CID is skipped.
  pub pin_ls-pin_key :
      (s : d.Store) (before after : List m.Cid) (junk : String)
      → d.query "/local/pins/" s
        ≡ returned (
            map (pin_key m d) before ++ (text_append "/local/pins/" junk ∷ map (pin_key m d) after))
      → m.parse junk ≡ none
      → All (λ c. m.parse (m.to_string c) ≡ some c) before
      → All (λ c. m.parse (m.to_string c) ≡ some c) after
      → pin_ls m d s ≡ returned (before ++ after)
  unfolding pin_ls
  pin_ls-pin_key s before after junk lists bad p q =
      rw lists (ap (λ (cids : List m.Cid). returned cids) (listed_behind after junk bad q before p))
