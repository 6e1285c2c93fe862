-- ===== src/Codec/Tests.antt =====
-- Runs of the codec, and its theorems at concrete inputs.
use ipfs_shard.Shared.{◌≡◌, refl, List, [], ◌∷◌, ◌++◌, arith, none, some, map, flatten}
use ipfs_shard.Samples.{samples, cid_one, cid_two}
use ipfs_shard.Varint.{append_varint, read_varint}
use ipfs_shard.Shared.Loop.{loop}
use ipfs_shard.Codec.Fields.{
  write_varint_field, write_len_field, concat_bytes, read_header, read_field,
}
use ipfs_shard.Codec.Encode.{encode_want_block, encode_block}
use ipfs_shard.Codec.Decode.{
  DecodedMessage, decode_want_entry, push_want, message_field, decode_message,
}
use ipfs_shard.Codec.Messages.{Item, want, block, encode, wants, blocks, decode_message-encode}
use ipfs_shard.Codec.CidPrefix.{HasSmallCodes}
use ipfs_shard.Codec.Hanging.{looping, decode_message-looping}
use ipfs_shard.Codec.Ending.{decode_message_ends}

codec : Unit {0}
unfolding write_varint_field write_len_field concat_bytes encode_want_block encode_block
    append_varint read_varint read_header read_field decode_message message_field decode_want_entry
    push_want loop
codec = tt

want_bytes :
    encode_want_block samples cid_one
    ≡ 0x0a ∷ 0x10 ∷ 0x0a ∷ 0x0c ∷ 0x0a ∷ 4 ∷ 1 ∷ 85 ∷ 1 ∷ 7 ∷ 0x10 ∷ 1 ∷ 0x20 ∷ 0 ∷ 0x28 ∷ 1 ∷ 0x10
      ∷ 0 ∷ []
unfolding codec
want_bytes = refl

-- A cancel entry is not a want.
cancelled :
    decode_message samples 20 (
      write_len_field 1
        (write_len_field 1 (write_len_field 1 (1 ∷ 85 ∷ 1 ∷ 7 ∷ []) ++ write_varint_field 3 1)))
    ≡ some (record { want_blocks = []; blocks = [] })
unfolding codec
cancelled = refl

abbrev items : List (Item samples)
items = want cid_one ∷ block cid_two (2 ∷ 9 ∷ 5 ∷ []) ∷ want cid_two ∷ []

decode_message-encode_example :
    decode_message samples 8 (flatten (map (encode samples) items))
    ≡ some (record { want_blocks = wants samples items; blocks = blocks samples items })
decode_message-encode_example =
    decode_message-encode samples items 8
      (
        (omega arith, refl),
        (
          (omega arith, omega arith, omega arith, omega arith, omega arith),
          ((omega arith, refl), tt),
        ),
      )
      (omega arith)

decode_message-looping_example : decode_message samples 9 (looping (1 ∷ [])) ≡ none
decode_message-looping_example = decode_message-looping samples 9 (1 ∷ [])

-- A message cut off inside a length.
decode_message_ends_example :
    (r : DecodedMessage samples) × (decode_message samples 4 (0x0a ∷ 0x90 ∷ 1 ∷ []) ≡ some r)
decode_message_ends_example =
    decode_message_ends samples 4 (0x0a ∷ 0x90 ∷ 1 ∷ []) (omega arith) (omega arith)

abbrev small_two : HasSmallCodes samples cid_two
small_two = record {
  version_lt = omega arith;
  code_lt = omega arith;
  hash_code_lt = omega arith;
  digest_lt = omega arith;
}
