-- ===== src/DagPb.antt =====
-- `decodeDagPB`, its varint reader, and `unixFSType` of src/api/dag-pb.ts. Each `while` loop is a
-- `loop` over its variables on the given fuel; `none` means that the fuel ran out in this loop or in
-- one that it calls. The name of a link is kept as the bytes that the source decodes as UTF-8, and a
-- size as its 32-bit pattern.
pub mod Hanging
mod Tests
use ipfs_shard.Shared.{
  ℕ, zero, suc, ◌+◌, List, [], ◌∷◌, ◌++◌, length, drop, Option, none, some, ◌==◌, bit_and, bit_or,
  if◌then◌else◌, Bool, not,
}
use ipfs_shard.Shared.Int.{ℤ, pos, negsuc, ◌+ℤ◌, is_below, signed32}
use ipfs_shard.Shared.Loop.{Round, next, stop, hang, loop}
use ipfs_shard.Varint.{shift_group}
use ipfs_shard.Codec.Fields.{field_num, wire_type, slice}
use mathlib.Core.Option

-- At most `left` bytes are read. Behind the last byte, `undefined` counts as 0.
unfoldable pub read_at_most : ℕ → List ℕ → (value shift n : ℕ) → ℕ × ℕ
read_at_most zero bytes value shift n = (value, n)
read_at_most (suc left) [] value shift n = (bit_or value 0, suc n)
read_at_most (suc left) (byte ∷ rest) value shift n =
    let joined = bit_or value (shift_group byte shift) in
    let more = read_at_most left rest joined (shift + 7) (suc n) in
    if bit_and byte 0x80 == 0 then (joined, suc n) else more

-- The value, as a 32-bit pattern, and the number of bytes read.
unfoldable pub read_short_varint : List ℕ → ℤ → ℕ × ℕ
unfolding read_at_most
read_short_varint buf (pos k) = read_at_most 10 (drop k buf) 0 0 0
read_short_varint buf (negsuc k) = read_at_most 10 [] 0 0 0

pub record PbLink : Type 0 where
  pub hash : Option (List ℕ)
  pub name : List ℕ
  pub size : ℕ

pub record PbNode : Type 0 where
  pub links : List PbLink
  pub content : Option (List ℕ)

-- A tag, and what both kinds of field would give behind it.
pub record Part : Type 0 where
  pub field : ℕ
  pub wire : ℕ
  pub bytes : List ℕ
  pub behind_bytes : ℤ
  pub value : ℕ
  pub behind_value : ℤ

unfoldable pub read_part : List ℕ → ℤ → Part
read_part block offset =
    let (tag, tn) = read_short_varint block offset in
    let at = offset +ℤ pos tn in
    let (value, n) = read_short_varint block at in
    let start = at +ℤ pos n in
    record {
      field = field_num tag;
      wire = wire_type tag;
      bytes = slice block start (start +ℤ signed32 value);
      behind_bytes = start +ℤ signed32 value;
      value = value;
      behind_value = start;
    }

-- The variables of the inner loop.
pub record LinkState : Type 0 where
  pub offset : ℤ
  pub link : PbLink

abbrev pub link_bytes : ℕ → List ℕ → PbLink → PbLink
link_bytes field bytes link =
    if field == 1
    then record link { hash = some bytes }
    else if field == 2
    then record link { name = bytes }
    else link

unfoldable pub link_body : List ℕ → LinkState → Round LinkState
unfolding read_part
link_body block s =
    let p = read_part block s.offset in
    let sized = if p.field == 3 then record s.link { size = p.value } else s.link in
    if is_below s.offset (length block)
    then if p.wire == 2
      then next (record { offset = p.behind_bytes; link = link_bytes p.field p.bytes s.link })
      else if p.wire == 0
      then next (record { offset = p.behind_value; link = sized })
      else stop s
    else stop s

abbrev pub link_start : LinkState
link_start = record { offset = pos 0; link = record { hash = none; name = []; size = 0 } }

unfoldable pub decode_link : ℕ → List ℕ → Option PbLink
unfolding link_body
decode_link fuel block = Option.map (λ s. s.link) (loop fuel (link_body block) link_start)

-- The variables of the outer loop.
pub record NodeState : Type 0 where
  pub offset : ℤ
  pub node : PbNode

abbrev pub push_link : Option PbLink → NodeState → Round NodeState
push_link none s = hang
push_link (some link) s =
    next (record s { node = record s.node { links = s.node.links ++ (link ∷ []) } })

abbrev pub node_bytes : ℕ → ℕ → List ℕ → NodeState → Round NodeState
node_bytes fuel field bytes s =
    if field == 1
    then next (record s { node = record s.node { content = some bytes } })
    else if field == 2
    then push_link (decode_link fuel bytes) s
    else next s

unfoldable pub node_body : ℕ → List ℕ → NodeState → Round NodeState
unfolding read_part decode_link
node_body fuel block s =
    let p = read_part block s.offset in
    if is_below s.offset (length block)
    then if p.wire == 2
      then node_bytes fuel p.field p.bytes (record s { offset = p.behind_bytes })
      else if p.wire == 0
      then next (record s { offset = p.behind_value })
      else stop s
    else stop s

abbrev pub node_start : NodeState
node_start = record { offset = pos 0; node = record { links = []; content = none } }

unfoldable pub decode_dag_pb : ℕ → List ℕ → Option PbNode
unfolding node_body
decode_dag_pb fuel block = Option.map (λ s. s.node) (loop fuel (node_body fuel block) node_start)

-- -1 is `negsuc 0`.
unfoldable pub unix_fs_type : Option (List ℕ) → ℤ
unix_fs_type none = negsuc 0
unix_fs_type (some []) = negsuc 0
unix_fs_type (some (a ∷ [])) = negsuc 0
unix_fs_type (some (a ∷ b ∷ rest)) = if a == 0x08 then pos b else negsuc 0
