-- ===== src/Codec/Ending.antt =====
-- The end of `decodeMessage` in src/bitswap-codec.ts on bytes in which no four continuation bytes
-- stand in a row.
use ipfs_shard.Shared.{
  ℕ, suc, ◌+◌, ◌-◌, ◌≤◌, ◌<◌, ◌^◌, List, [], ◌≡◌, ◌≢◌, ap, arith, length, Option, some, true,
  Option-cases, inl, inr, lt→ltb,
}
use ipfs_shard.Shared.Int.{ℤ, pos, negsuc, ◌+ℤ◌, is_below, signed32}
use ipfs_shard.Shared.Loop.{next, hang, loop_ends}
use ipfs_shard.Multiformats.{Multiformats}
use ipfs_shard.Varint.{read_varint}
use ipfs_shard.Varint.Reading.{read_varint_takes}
use ipfs_shard.Codec.Fields.{read_header, read_field}
use ipfs_shard.Codec.Decode.{
  Block, PayloadState, payload_body, payload_start, payload_block, decode_payload_block, EntryState,
  entry_body, entry_start, decode_want_entry, WantlistState, wantlist_body, decode_wantlist,
  DecodedMessage, MessageState, message_field, message_body, decode_message,
}
use ipfs_shard.Codec.Short.{IsShort, IsShort-slice, length-slice-le, read_varint-lt}
use mathlib.Core.Option

-- How many bytes lie before the end.
abbrev left : ℕ → ℤ → ℕ
left len (pos k) = len - k
left len (negsuc k) = len + suc k

left-add : (len : ℕ) (offset : ℤ) (n : ℕ) → left len (offset +ℤ pos n) ≤ left len offset
left-add len (pos k) n = omega arith
left-add len (negsuc k) n = ground arith

left-add_lt :
    (len : ℕ) (offset : ℤ) (n : ℕ)
    → is_below offset len ≡ true
    → 1 ≤ n
    → left len (offset +ℤ pos n) < left len offset
left-add_lt len (pos k) n b h = ground arith
left-add_lt len (negsuc k) n b h = ground arith

module _ (bytes : List ℕ) (short : IsShort bytes) where
  abbrev rest : ℤ → ℕ
  rest = left (length bytes)

  header_falls :
      (offset : ℤ)
      → is_below offset (length bytes) ≡ true
      → rest (read_header bytes offset).after < rest offset
  unfolding read_header
  header_falls offset b =
      left-add_lt (length bytes) offset (read_varint bytes offset).1 b
        (read_varint_takes bytes offset)

  field_stays : (offset : ℤ) → rest (read_field bytes offset).after ≤ rest offset
  unfolding read_field
  field_stays offset =
      let v = read_varint bytes offset in
      let start : ℤ = offset +ℤ pos v.1 in
      let positive : signed32 v.0 ≡ pos v.0 =
        rw (lt→ltb v.0 (2 ^ 31) (omega (arith, read_varint-lt bytes offset short))) in
      rw positive
        (omega (arith, left-add (length bytes) start v.0, left-add (length bytes) offset v.1))

  varint_stays : (offset : ℤ) → rest (offset +ℤ pos (read_varint bytes offset).1) ≤ rest offset
  varint_stays offset = left-add (length bytes) offset (read_varint bytes offset).1

  content-IsShort : (offset : ℤ) → IsShort (read_field bytes offset).content
  unfolding read_field
  content-IsShort offset = IsShort-slice bytes _ _ short

  length-content-le : (offset : ℤ) → length (read_field bytes offset).content ≤ length bytes
  unfolding read_field
  length-content-le offset = length-slice-le bytes _ _

  payload_body_falls :
      (s s' : PayloadState) → payload_body bytes s ≡ next s' → rest s'.offset < rest s.offset
  unfolding payload_body
  payload_body_falls s s' e =
      ground (arith, header_falls s.offset, field_stays (read_header bytes s.offset).after)

  entry_body_falls :
      (s s' : EntryState) → entry_body bytes s ≡ next s' → rest s'.offset < rest s.offset
  unfolding entry_body
  entry_body_falls s s' e =
      let h = read_header bytes s.offset in
      ground (arith, header_falls s.offset, field_stays h.after, varint_stays h.after)

  payload_body-goes : (s : PayloadState) → payload_body bytes s ≢ hang
  unfolding payload_body
  payload_body-goes s = λ e. ground arith

  entry_body-goes : (s : EntryState) → entry_body bytes s ≢ hang
  unfolding entry_body
  entry_body-goes s = λ e. ground arith

  decode_payload_block_ends :
      (fuel : ℕ)
      → length bytes < fuel
      → (r : Option Block) × (decode_payload_block fuel bytes ≡ some r)
  unfolding decode_payload_block
  decode_payload_block_ends fuel h =
      let (s, e) =
        loop_ends (payload_body bytes) (λ (s : PayloadState). rest s.offset) payload_body_falls
          payload_body-goes fuel payload_start (omega arith) in
      (payload_block s, ap (Option.map payload_block) e)

  decode_want_entry_ends :
      (fuel : ℕ) → length bytes < fuel → (r : EntryState) × (decode_want_entry fuel bytes ≡ some r)
  unfolding decode_want_entry
  decode_want_entry_ends fuel h =
      loop_ends (entry_body bytes) (λ (s : EntryState). rest s.offset) entry_body_falls
        entry_body-goes fuel entry_start (omega arith)

module _ (m : Multiformats) (fuel : ℕ) (bytes : List ℕ) (short : IsShort bytes)
    (enough : length bytes < fuel) where
  wantlist_body-lem :
      (s : WantlistState m)
      → (wantlist_body m fuel bytes s ≢ hang)
        × ((s' : WantlistState m)
            → wantlist_body m fuel bytes s ≡ next s'
            → rest bytes short s'.offset < rest bytes short s.offset)
  unfolding wantlist_body
  wantlist_body-lem s =
      let h = read_header bytes s.offset in
      let f = read_field bytes h.after in
      let (entry, decoded) =
        decode_want_entry_ends f.content (content-IsShort bytes short h.after) fuel
          (omega (arith, length-content-le bytes short h.after)) in
      (
        λ e. ground arith,
        λ s' e. ground (
          arith,
          header_falls bytes short s.offset,
          field_stays bytes short h.after,
          varint_stays bytes short h.after,
        ),
      )

  decode_wantlist_ends :
      (out : List m.Cid) → (r : List m.Cid) × (decode_wantlist m fuel bytes out ≡ some r)
  unfolding decode_wantlist
  decode_wantlist_ends out =
      let (s, e) =
        loop_ends (wantlist_body m fuel bytes) (λ (s : WantlistState m). rest bytes short s.offset)
          (λ s. (wantlist_body-lem s).1) (λ s. (wantlist_body-lem s).0) fuel
          (record { offset = pos 0; out = out }) (omega arith) in
      (s.out, ap (Option.map (λ s. s.out)) e)

  message_field_ends :
      (field : ℕ) (found : DecodedMessage m)
      → (r : DecodedMessage m) × (message_field m fuel field bytes found ≡ some r)
  unfolding message_field
  message_field_ends field found =
      let (wants, e) = decode_wantlist_ends found.want_blocks in
      let (block, d) = decode_payload_block_ends bytes short fuel enough in
      elim (Option-cases (message_field m fuel field bytes found)) [
        | inl lost ↦ absurd (ground arith)
        | inr (r, got) ↦ (r, got)
      ]

module _ (m : Multiformats) (fuel : ℕ) (bytes : List ℕ) (short : IsShort bytes)
    (enough : length bytes < fuel) where
  message_body-lem :
      (s : MessageState m)
      → (message_body m fuel bytes s ≢ hang)
        × ((s' : MessageState m)
            → message_body m fuel bytes s ≡ next s'
            → rest bytes short s'.offset < rest bytes short s.offset)
  unfolding message_body
  message_body-lem s =
      let h = read_header bytes s.offset in
      let f = read_field bytes h.after in
      let (found, decoded) =
        message_field_ends m fuel f.content (content-IsShort bytes short h.after)
          (omega (arith, length-content-le bytes short h.after)) h.field s.found in
      (
        λ e. ground arith,
        λ s' e. ground (arith, header_falls bytes short s.offset, field_stays bytes short h.after),
      )

  -- On bytes in which no four continuation bytes stand in a row, `decode_message` ends with a
  -- result, truncated or malformed as they may be; as much fuel as there are bytes, and one more,
  -- is enough for it and for all the decoders that it calls.
  pub decode_message_ends : (r : DecodedMessage m) × (decode_message m fuel bytes ≡ some r)
  unfolding decode_message
  decode_message_ends =
      let (s, e) =
        loop_ends (message_body m fuel bytes) (λ (s : MessageState m). rest bytes short s.offset)
          (λ s. (message_body-lem s).1) (λ s. (message_body-lem s).0) fuel
          (record { offset = pos 0; found = record { want_blocks = []; blocks = [] } })
          (omega arith) in
      (s.found, ap (Option.map (λ s. s.found)) e)
