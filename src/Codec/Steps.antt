-- ===== src/Codec/Steps.antt =====
-- One round of each decoder at the start of a written field, and at the end of the bytes.
use ipfs_shard.Shared.{
  ℕ, ◌+◌, List, [], ◌≡◌, ap, arith, length, drop, length-drop, some, false, ltb-false,
}
use ipfs_shard.Shared.Int.{pos, is_below}
use ipfs_shard.Shared.Loop.{next, stop}
use ipfs_shard.Multiformats.{Multiformats}
use ipfs_shard.Codec.Fields.{write_varint_field, write_len_field}
use ipfs_shard.Codec.Decode.{
  PayloadState, payload_field, payload_body, EntryState, entry_field, entry_varint, entry_body,
  decode_want_entry, push_want, wantlist_body, DecodedMessage, message_field, message_body,
}
use ipfs_shard.Codec.Layout.{LenField, VarintField}

at_end : (k : ℕ) (bytes : List ℕ) → drop k bytes ≡ [] → is_below (pos k) (length bytes) ≡ false
at_end k bytes e = ltb-false k (length bytes) (omega (arith, length-drop k bytes, ap length e))

module _ {f k : ℕ} {bytes b : List ℕ} (at : LenField f k bytes b) where
  pub payload_body-field :
      (s : PayloadState)
      → payload_body bytes (record s { offset = pos k })
        ≡ next (payload_field f b (record s { offset = pos (k + length (write_len_field f b)) }))
  unfolding payload_body
  payload_body-field s = rw (at.below, at.wire_is, at.field_is, at.read)

  pub entry_body-field :
      (s : EntryState)
      → entry_body bytes (record s { offset = pos k })
        ≡ next (entry_field f b (record s { offset = pos (k + length (write_len_field f b)) }))
  unfolding entry_body
  entry_body-field s = rw (at.below, at.wire_is, at.field_is, at.read)

module _ {f k : ℕ} {bytes : List ℕ} {v : ℕ} (at : VarintField f k bytes v) where
  pub entry_body-varint :
      (s : EntryState)
      → entry_body bytes (record s { offset = pos k })
        ≡ next (entry_varint f v (record s { offset = pos (k + length (write_varint_field f v)) }))
  unfolding entry_body
  entry_body-varint s = rw (at.below, at.wire_is, at.field_is, at.read, at.after_is)

module _ (k : ℕ) (bytes : List ℕ) (e : drop k bytes ≡ []) where
  pub payload_body-end :
      (s : PayloadState)
      → payload_body bytes (record s { offset = pos k }) ≡ stop (record s { offset = pos k })
  unfolding payload_body
  payload_body-end s = rw (at_end k bytes e)

  pub entry_body-end :
      (s : EntryState)
      → entry_body bytes (record s { offset = pos k }) ≡ stop (record s { offset = pos k })
  unfolding entry_body
  entry_body-end s = rw (at_end k bytes e)

module _ (m : Multiformats) (fuel : ℕ) where
  pub wantlist_body-entry :
      {k : ℕ} {bytes b : List ℕ} (out : List m.Cid) (entry : EntryState)
      → LenField 1 k bytes b
      → decode_want_entry fuel b ≡ some entry
      → wantlist_body m fuel bytes (record { offset = pos k; out = out })
        ≡ next (record {
          offset = pos (k + length (write_len_field 1 b));
          out = push_want m entry out;
        })
  unfolding wantlist_body
  wantlist_body-entry out entry at e = rw (at.below, at.wire_is, at.field_is, at.read, e, at.read)

  pub wantlist_body-varint :
      {f k : ℕ} {bytes : List ℕ} {v : ℕ} (out : List m.Cid)
      → VarintField f k bytes v
      → wantlist_body m fuel bytes (record { offset = pos k; out = out })
        ≡ next (record { offset = pos (k + length (write_varint_field f v)); out = out })
  unfolding wantlist_body
  wantlist_body-varint out at = rw (at.below, at.wire_is, at.after_is)

  pub wantlist_body-end :
      (k : ℕ) (bytes : List ℕ) (out : List m.Cid)
      → drop k bytes ≡ []
      → wantlist_body m fuel bytes (record { offset = pos k; out = out })
        ≡ stop (record { offset = pos k; out = out })
  unfolding wantlist_body
  wantlist_body-end k bytes out e = rw (at_end k bytes e)

  pub message_body-field :
      {f k : ℕ} {bytes b : List ℕ} (found found' : DecodedMessage m)
      → LenField f k bytes b
      → message_field m fuel f b found ≡ some found'
      → message_body m fuel bytes (record { offset = pos k; found = found })
        ≡ next (record { offset = pos (k + length (write_len_field f b)); found = found' })
  unfolding message_body
  message_body-field found found' at e = rw (at.below, at.wire_is, at.field_is, at.read, e, at.read)

  pub message_body-end :
      (k : ℕ) (bytes : List ℕ) (found : DecodedMessage m)
      → drop k bytes ≡ []
      → message_body m fuel bytes (record { offset = pos k; found = found })
        ≡ stop (record { offset = pos k; found = found })
  unfolding message_body
  message_body-end k bytes found e = rw (at_end k bytes e)
