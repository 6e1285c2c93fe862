-- ===== src/Codec/CidPrefix.antt =====
-- `prefixToCID` on the prefix that `encodeBlock` sends.
use ipfs_shard.Shared.{
  ℕ, ◌+◌, ◌<◌, ◌^◌, List, ◌++◌, ◌≡◌, ◌≢◌, refl, ap, ◌∙◌, arith, length, drop, drop_past, none, some,
  ◌==◌, lt→ltb, if◌then◌else◌, ==_iff, Bool-cases, inl, inr,
}
use ipfs_shard.Shared.Int.{pos}
use ipfs_shard.Multiformats.{Multiformats}
use ipfs_shard.Varint.{read_varint}
use ipfs_shard.Varint.Encoding.{groups}
use ipfs_shard.Varint.RoundTrip.{read_varint-at}
use ipfs_shard.Codec.Encode.{cid_prefix, prefix_to_cid}
use ipfs_shard.Codec.Messages.{cid_prefix-groups}

module _ (m : Multiformats) where
  open m use {Cid, version, code, hash_code, digest, sha256_code, sha256, create_v0, create_v1}

  -- The numbers of the prefix are in the range of the signed 32-bit results of `readVarint`.
  pub record HasSmallCodes (cid : Cid) : Type 0 where
    pub version_lt : version cid < 2 ^ 31
    pub code_lt : code cid < 2 ^ 31
    pub hash_code_lt : hash_code cid < 2 ^ 31
    pub digest_lt : length (digest cid) < 2 ^ 32

  module _ (cid : Cid) (small : HasSmallCodes cid) where
    -- The three reads of `prefixToCID`, at the offsets that it adds up.
    abbrev v_len : ℕ
    v_len = length (groups 4 (version cid))

    abbrev c_len : ℕ
    c_len = length (groups 4 (code cid))

    abbrev after_version : List ℕ
    after_version =
        groups 4 (code cid) ++ (groups 4 (hash_code cid) ++ groups 4 (length (digest cid)))

    shape : cid_prefix m cid ≡ groups 4 (version cid) ++ after_version
    shape =
        cid_prefix-groups m cid (omega (arith, small.version_lt)) (omega (arith, small.code_lt))
          (omega (arith, small.hash_code_lt)) small.digest_lt

    at_code : drop (0 + v_len) (cid_prefix m cid) ≡ after_version
    at_code = drop_past 0 (cid_prefix m cid) (groups 4 (version cid)) after_version shape

    at_hash :
        drop (v_len + c_len) (cid_prefix m cid)
        ≡ groups 4 (hash_code cid) ++ groups 4 (length (digest cid))
    at_hash =
        drop_past v_len (cid_prefix m cid) (groups 4 (code cid)) _
          (ap (λ (t : ℕ). drop t (cid_prefix m cid)) (omega arith) ∙ at_code)

    read_version : read_varint (cid_prefix m cid) (pos 0) ≡ (version cid, v_len)
    read_version =
        read_varint-at (version cid) 0 _ after_version (omega (arith, small.version_lt)) shape

    read_code : read_varint (cid_prefix m cid) (pos v_len) ≡ (code cid, c_len)
    read_code =
        read_varint-at (code cid) v_len _ _ (omega (arith, small.code_lt))
          (ap (λ (t : ℕ). drop t (cid_prefix m cid)) (omega arith) ∙ at_code)

    read_hash :
        read_varint (cid_prefix m cid) (pos (v_len + c_len))
        ≡ (hash_code cid, length (groups 4 (hash_code cid)))
    read_hash =
        read_varint-at (hash_code cid) (v_len + c_len) _ _ (omega (arith, small.hash_code_lt))
          at_hash

  -- The CID is the one of the content, in the sense of the CID library: version 0 or 1 over the
  -- sha2-256 digest of the content.
  pub record IsCidOf (cid : Cid) (content : List ℕ) : Type 0 where
    pub hash_is : hash_code cid ≡ sha256_code
    pub digest_is : sha256 content ≡ some (digest cid)
    pub made_by :
        (if version cid == 0
          then create_v0 (digest cid)
          else create_v1 (pos (code cid)) (digest cid))
        ≡ some cid

  -- `prefix_to_cid` gives back the CID that a block was sent for, from its prefix and content.
  pub prefix_to_cid-cid_prefix :
      (cid : Cid) (content : List ℕ)
      → HasSmallCodes cid
      → IsCidOf cid content
      → prefix_to_cid m (cid_prefix m cid) content ≡ some cid
  unfolding prefix_to_cid
  prefix_to_cid-cid_prefix cid content small is =
      rw
        (
          read_version cid small,
          read_code cid small,
          read_hash cid small,
          lt→ltb (hash_code cid) (2 ^ 31) small.hash_code_lt,
          is.hash_is,
          (==_iff sha256_code sha256_code).1 refl,
          is.digest_is,
          read_version cid small,
          read_code cid small,
          lt→ltb (code cid) (2 ^ 31) small.code_lt,
        )
        is.made_by

  -- It refuses every CID with another hash than sha2-256.
  pub prefix_to_cid-other_hash :
      (cid : Cid) (content : List ℕ)
      → HasSmallCodes cid
      → hash_code cid ≢ sha256_code
      → prefix_to_cid m (cid_prefix m cid) content ≡ none
  unfolding prefix_to_cid
  prefix_to_cid-other_hash cid content small other =
      elim (Bool-cases (hash_code cid == sha256_code)) [
        | inl same ↦ absurd (other ((==_iff _ _).0 same))
        | inr differs ↦ rw (
          read_version cid small,
          read_code cid small,
          read_hash cid small,
          differs,
          lt→ltb (hash_code cid) (2 ^ 31) small.hash_code_lt,
        )
      ]
