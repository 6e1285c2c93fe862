-- ===== src/Codec/Fields.antt =====
-- Protobuf fields: the writers, `concatBytes`, and what the four decoders share (the `tag` with its
-- two parts, and the length-delimited field read with `slice`). An offset is a JavaScript number,
-- which a negative length can move below 0.
use ipfs_shard.Shared.{
  ℕ, suc, ◌+◌, ◌-◌, ◌*◌, ◌/◌, ◌%◌, ◌^◌, min, bit_and, bit_or, List, [], ◌∷◌, ◌++◌, length, take,
  drop, replicate, ltb, if◌then◌else◌,
}
use ipfs_shard.Shared.Int.{ℤ, pos, negsuc, ◌+ℤ◌, signed32}
use ipfs_shard.Varint.{append_varint, read_varint}

-- `(fieldNum << 3) | wireType`, as a 32-bit pattern.
abbrev pub make_tag : ℕ → ℕ → ℕ
make_tag field_num wire_type = bit_or (field_num * 8 % 2 ^ 32) wire_type

unfoldable pub write_varint_field : ℕ → ℕ → List ℕ
write_varint_field field_num value = append_varint (append_varint [] (make_tag field_num 0)) value

unfoldable pub write_len_field : ℕ → List ℕ → List ℕ
write_len_field field_num bytes =
    append_varint (append_varint [] (make_tag field_num 2)) (length bytes) ++ bytes

-- `out.set(part, off)`
abbrev pub set_bytes : List ℕ → List ℕ → ℕ → List ℕ
set_bytes out part off = take off out ++ (part ++ drop (off + length part) out)

abbrev pub total_length : List (List ℕ) → ℕ
total_length [] = 0
total_length (p ∷ ps) = length p + total_length ps

unfoldable pub place : List (List ℕ) → List ℕ → ℕ → List ℕ
place [] out off = out
place (p ∷ ps) out off = place ps (set_bytes out p off) (off + length p)

unfoldable pub concat_bytes : List (List ℕ) → List ℕ
unfolding place
concat_bytes parts = place parts (replicate (total_length parts) 0) 0

unfoldable pub encode_with_length_prefix : List ℕ → List ℕ
unfolding concat_bytes
encode_with_length_prefix msg = concat_bytes (append_varint [] (length msg) ∷ msg ∷ [])

-- `tag >> 3`, which keeps the sign, and `tag & 7`.
abbrev pub field_num : ℕ → ℕ
field_num tag = if ltb tag (2 ^ 31) then tag / 8 else tag / 8 + 7 * 2 ^ 29

abbrev pub wire_type : ℕ → ℕ
wire_type tag = bit_and tag 7

-- `Uint8Array.slice`: a negative index counts from the end.
abbrev pub clamp : ℕ → ℤ → ℕ
clamp len (pos k) = min k len
clamp len (negsuc k) = len - suc k

abbrev pub slice : List ℕ → ℤ → ℤ → List ℕ
slice bytes start end =
    let from = clamp (length bytes) start in
    take (clamp (length bytes) end - from) (drop from bytes)

pub record Header : Type 0 where
  pub field : ℕ
  pub wire : ℕ
  pub after : ℤ

unfoldable pub read_header : List ℕ → ℤ → Header
read_header bytes offset =
    let (tag, tag_len) = read_varint bytes offset in
    record { field = field_num tag; wire = wire_type tag; after = offset +ℤ pos tag_len }

pub record Field : Type 0 where
  pub content : List ℕ
  pub after : ℤ

unfoldable pub read_field : List ℕ → ℤ → Field
read_field bytes offset =
    let (len, len_len) = read_varint bytes offset in
    let start = offset +ℤ pos len_len in
    record { content = slice bytes start (start +ℤ signed32 len); after = start +ℤ signed32 len }
