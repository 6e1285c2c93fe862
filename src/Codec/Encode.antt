-- ===== src/Codec/Encode.antt =====
-- `encodeWantBlock`, `encodeBlock` and `prefixToCID` of src/bitswap-codec.ts.
use ipfs_shard.Shared.{
  ℕ, ◌+◌, List, [], ◌∷◌, length, Option, none, some, ◌==◌, not, ltb, ◌&&◌, ◌^◌, if◌then◌else◌,
}
use ipfs_shard.Shared.Int.{pos, signed32}
use ipfs_shard.Multiformats.{Multiformats}
use ipfs_shard.Varint.{append_varint, read_varint}
use ipfs_shard.Codec.Fields.{write_varint_field, write_len_field, concat_bytes}

module _ (m : Multiformats) where
  open m use {
    Cid, bytes, version, code, hash_code, digest, sha256_code, sha256, create_v0, create_v1,
  }

  -- block = field 1, priority = field 2 (1), wantType = field 4 (0), sendDontHave = field 5 (1).
  unfoldable pub want_entry : Cid → List ℕ
  want_entry cid = concat_bytes (
      write_len_field 1 (bytes cid)
      ∷ write_varint_field 2 1
      ∷ write_varint_field 4 0
      ∷ write_varint_field 5 1
      ∷ [])

  unfoldable pub encode_want_block : Cid → List ℕ
  unfolding want_entry
  encode_want_block cid =
      let wantlist =
        concat_bytes (write_len_field 1 (want_entry cid) ∷ write_varint_field 2 0 ∷ []) in
      write_len_field 1 wantlist

  -- The prefix: version, codec, hash algorithm and digest length as varints.
  unfoldable pub cid_prefix : Cid → List ℕ
  cid_prefix cid =
      append_varint
        (append_varint (append_varint (append_varint [] (version cid)) (code cid)) (hash_code cid))
        (length (digest cid))

  unfoldable pub encode_block : Cid → List ℕ → List ℕ
  unfolding cid_prefix
  encode_block cid content =
      let block =
        concat_bytes (write_len_field 1 (cid_prefix cid) ∷ write_len_field 2 content ∷ []) in
      write_len_field 3 block

  -- `sha256.digest` and the constructors of a CID may throw, which gives `null` like the guard.
  -- The numbers read are signed: a code above 2^31 is negative, and never that of sha2-256.
  unfoldable pub prefix_to_cid : List ℕ → List ℕ → Option Cid
  prefix_to_cid prefix content =
      let (found_version, v_len0) = read_varint prefix (pos 0) in
      let (codec, v_len1) = read_varint prefix (pos v_len0) in
      let (hash_alg, _) = read_varint prefix (pos (v_len0 + v_len1)) in
      if not (ltb hash_alg (2 ^ 31) && hash_alg == sha256_code)
      then none
      else elim (sha256 content) [
        | none ↦ none
        | some d ↦ if found_version == 0 then create_v0 d else create_v1 (signed32 codec) d
      ]
