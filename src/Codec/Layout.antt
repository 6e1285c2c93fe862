-- ===== src/Codec/Layout.antt =====
-- What the header and field reads find where a written field stands.
use ipfs_shard.Shared.{
  ℕ, ◌+◌, ◌-◌, ◌*◌, ◌/◌, ◌%◌, ◌^◌, ◌<◌, min, List, [], ◌∷◌, ◌++◌, ◌≡◌, refl, ap, ◌∙◌, arith, length,
  drop, true, length-append, take-append, append_assoc, length-drop, drop_past, lt→ltb, dec_lt,
}
use ipfs_shard.Shared.Int.{pos, is_below, ◌+ℤ◌}
use ipfs_shard.Shared.Bits.{bit_and_seven}
use ipfs_shard.Varint.{read_varint}
use ipfs_shard.Varint.Encoding.{groups, append_varint-groups, length-groups}
use ipfs_shard.Varint.RoundTrip.{read_varint-at}
use ipfs_shard.Codec.Fields.{
  make_tag, write_varint_field, write_len_field, slice, read_header, read_field,
}

nil_of_length : (b : List ℕ) → length b ≡ 0 → b ≡ []
nil_of_length [] e = refl
nil_of_length (x ∷ b) e = absurd (omega arith)

pub slice-at :
    (j : ℕ) (bytes b rest : List ℕ)
    → drop j bytes ≡ b ++ rest
    → slice bytes (pos j) (pos (j + length b)) ≡ b
slice-at j bytes b rest at = elim (dec_lt (length bytes) j) [
  | yes past ↦
      let ends : length b ≡ 0 =
        omega (arith, ap length at, length-drop j bytes, length-append b rest) in
      let width : min (j + length b) (length bytes) - min j (length bytes) ≡ 0 = omega arith in
      rw (width, nil_of_length b ends)
  | no inside ↦
      let width : min (j + length b) (length bytes) - min j (length bytes) ≡ length b =
        omega (arith, ap length at, length-drop j bytes, length-append b rest) in
      let from : min j (length bytes) ≡ j = omega arith in rw (width, from, at) (take-append b rest)
]

-- A tag below 2 ^ 31 splits into its field number and wire type.
pub read_header-at :
    (tag k : ℕ) (bytes rest : List ℕ)
    → tag < 2 ^ 31
    → drop k bytes ≡ groups 4 tag ++ rest
    → read_header bytes (pos k)
      ≡ record { field = tag / 8; wire = tag % 8; after = pos (k + length (groups 4 tag)) }
unfolding read_header
read_header-at tag k bytes rest h at =
    rw (read_varint-at tag k bytes rest (omega arith) at, bit_and_seven tag, lt→ltb tag (2 ^ 31) h)

pub read_field-at :
    (k : ℕ) (bytes b rest : List ℕ)
    → length b < 2 ^ 31
    → drop k bytes ≡ groups 4 (length b) ++ (b ++ rest)
    → read_field bytes (pos k)
      ≡ record { content = b; after = pos (k + length (groups 4 (length b)) + length b) }
unfolding read_field
read_field-at k bytes b rest h at = rw (
  read_varint-at (length b) k bytes (b ++ rest) (omega arith) at,
  lt→ltb (length b) (2 ^ 31) h,
  slice-at (k + length (groups 4 (length b))) bytes b rest
      (drop_past k bytes (groups 4 (length b)) (b ++ rest) at),
)

pub write_len_field-groups :
    (f : ℕ) (b : List ℕ)
    → make_tag f 2 ≡ f * 8 + 2
    → f < 16
    → length b < 2 ^ 31
    → write_len_field f b ≡ groups 4 (f * 8 + 2) ++ (groups 4 (length b) ++ b)
unfolding write_len_field
write_len_field-groups f b tag hf hb =
    rw
      (
        tag,
        append_varint-groups [] (f * 8 + 2) (omega arith),
        append_varint-groups (groups 4 (f * 8 + 2)) (length b) (omega arith),
      )
      (append_assoc (groups 4 (f * 8 + 2)) (groups 4 (length b)) b)

pub write_varint_field-groups :
    (f v : ℕ)
    → make_tag f 0 ≡ f * 8
    → f < 16
    → v < 2 ^ 32
    → write_varint_field f v ≡ groups 4 (f * 8) ++ groups 4 v
unfolding write_varint_field
write_varint_field-groups f v tag hf hv = rw (
  tag,
  append_varint-groups [] (f * 8) (omega arith),
  append_varint-groups (groups 4 (f * 8)) v (omega arith),
)

inside :
    (k n : ℕ) (bytes rest : List ℕ)
    → drop k bytes ≡ groups 4 n ++ rest
    → is_below (pos k) (length bytes) ≡ true
inside k n bytes rest at = lt→ltb k (length bytes) (
    omega (
      arith,
      length-groups 4 n,
      length-drop k bytes,
      ap length at,
      length-append (groups 4 n) rest,
    ))

-- What the decoders find at the start `k` of a length-delimited field.
pub record LenField (f k : ℕ) (bytes b : List ℕ) : Type 0 where
  pub below : is_below (pos k) (length bytes) ≡ true
  pub field_is : (read_header bytes (pos k)).field ≡ f
  pub wire_is : (read_header bytes (pos k)).wire ≡ 2
  pub read :
      read_field bytes (read_header bytes (pos k)).after
      ≡ record { content = b; after = pos (k + length (write_len_field f b)) }

pub LenField-at :
    (f k : ℕ) (bytes b rest : List ℕ)
    → make_tag f 2 ≡ f * 8 + 2
    → f < 16
    → length b < 2 ^ 31
    → drop k bytes ≡ write_len_field f b ++ rest
    → LenField f k bytes b
LenField-at f k bytes b rest tag hf hb at =
    let shape = write_len_field-groups f b tag hf hb in
    let body : List ℕ = groups 4 (length b) ++ (b ++ rest) in
    let here : drop k bytes ≡ groups 4 (f * 8 + 2) ++ body =
      at
      ∙ rw (
        shape,
        append_assoc (groups 4 (f * 8 + 2)) (groups 4 (length b) ++ b) rest,
        append_assoc (groups 4 (length b)) b rest,
      ) in
    let header = read_header-at (f * 8 + 2) k bytes body (omega arith) here in
    let width : k + length (groups 4 (f * 8 + 2)) + length (groups 4 (length b)) + length b
        ≡ k + length (write_len_field f b) =
      rw shape (
        omega (
          arith,
          length-append (groups 4 (f * 8 + 2)) (groups 4 (length b) ++ b),
          length-append (groups 4 (length b)) b,
        )) in
    record {
      below = inside k (f * 8 + 2) bytes body here;
      field_is = rw header (omega arith);
      wire_is = rw header (omega arith);
      read = rw header (
          read_field-at (k + length (groups 4 (f * 8 + 2))) bytes b rest hb
            (drop_past k bytes (groups 4 (f * 8 + 2)) body here)
          ∙ rw width);
    }

-- And at the start of a varint field.
pub record VarintField (f k : ℕ) (bytes : List ℕ) (v : ℕ) : Type 0 where
  pub below : is_below (pos k) (length bytes) ≡ true
  pub field_is : (read_header bytes (pos k)).field ≡ f
  pub wire_is : (read_header bytes (pos k)).wire ≡ 0
  pub read : (read_varint bytes (read_header bytes (pos k)).after).0 ≡ v
  pub after_is :
      (read_header bytes (pos k)).after
        +ℤ pos (read_varint bytes (read_header bytes (pos k)).after).1
      ≡ pos (k + length (write_varint_field f v))

pub VarintField-at :
    (f k : ℕ) (bytes : List ℕ) (v : ℕ) (rest : List ℕ)
    → make_tag f 0 ≡ f * 8
    → f < 16
    → v < 2 ^ 32
    → drop k bytes ≡ write_varint_field f v ++ rest
    → VarintField f k bytes v
VarintField-at f k bytes v rest tag hf hv at =
    let shape = write_varint_field-groups f v tag hf hv in
    let body : List ℕ = groups 4 v ++ rest in
    let here : drop k bytes ≡ groups 4 (f * 8) ++ body =
      at ∙ rw (shape, append_assoc (groups 4 (f * 8)) (groups 4 v) rest) in
    let header = read_header-at (f * 8) k bytes body (omega arith) here in
    let value =
      read_varint-at v (k + length (groups 4 (f * 8))) bytes rest hv
        (drop_past k bytes (groups 4 (f * 8)) body here) in
    let width : k + length (groups 4 (f * 8)) + length (groups 4 v)
        ≡ k + length (write_varint_field f v) =
      rw shape (omega (arith, length-append (groups 4 (f * 8)) (groups 4 v))) in
    record {
      below = inside k (f * 8) bytes body here;
      field_is = rw header (omega arith);
      wire_is = rw header (omega arith);
      read = rw (header, value) refl;
      after_is = rw (header, value, width) refl;
    }
