-- ===== src/Startup/Sharding.antt =====
-- `GlashausShardingStrategy` of src/sharding-glashaus.ts: the key of a block in the bucket.
use Prim.Native.String.{len, slice, ◌++◌ as text_append}
use text.Mathlib.Text.{starts_with}
use text.Mathlib.TextPositions.{starts_with-append}
use ipfs_shard.Shared.{Bool, Option, some, String, ◌≡◌, ap, ◌∙◌, if◌then◌else◌}
use ipfs_shard.Multiformats.{Multiformats}
use ipfs_shard.Node.Pinning.{after_prefix, text_append_inj}

-- `path.replace(/^blocks\//, '')`
unfoldable pub without_blocks : String → String
without_blocks path =
    if starts_with path "blocks/" then slice path (len "blocks/") (len path) else path

module _ (m : Multiformats) where
  unfoldable pub encode : m.Cid → String
  encode cid = text_append "blocks/" (m.to_string cid)

  unfoldable pub decode : String → Option m.Cid
  unfolding without_blocks
  decode path = m.parse (without_blocks path)

  -- If the text of each CID is parsed as that CID, then a key that was made of a CID is read back as
  -- that CID, so two CIDs never have the same key.
  pub decode-encode :
      ((cid : m.Cid) → m.parse (m.to_string cid) ≡ some cid)
      → (cid other : m.Cid)
      → (decode (encode cid) ≡ some cid) × (encode cid ≡ encode other → cid ≡ other)
  unfolding decode encode without_blocks
  decode-encode parses cid other = (
    read cid,
    λ same.
        let texts = text_append_inj "blocks/" (m.to_string cid) (m.to_string other) same in
        cc (parses cid, parses other, ap m.parse texts),
  )
    where
      read : (cid : m.Cid) → decode (encode cid) ≡ some cid
      read cid =
          ap
            (λ (b : Bool).
              m.parse
                (if b then slice (encode cid) (len "blocks/") (len (encode cid)) else encode cid))
            (starts_with-append "blocks/" (m.to_string cid))
          ∙ ap m.parse (after_prefix "blocks/" (m.to_string cid))
          ∙ parses cid
