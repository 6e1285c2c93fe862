-- ===== src/Codec/Decode.antt =====
-- `decodeMessage`, `decodeWantlist`, `decodeWantEntry` and `decodePayloadBlock` of
-- src/bitswap-codec.ts. Each `while` loop is a `loop` over its variables on the given fuel; `none`
-- means that the fuel ran out in this loop or in one that it calls.
use ipfs_shard.Shared.{
  ℕ, List, [], ◌∷◌, ◌++◌, length, Option, none, some, Bool, false, not, ◌&&◌, ◌==◌, if◌then◌else◌,
}
use ipfs_shard.Shared.Int.{ℤ, pos, ◌+ℤ◌, is_below}
use ipfs_shard.Shared.Loop.{Round, next, stop, hang, loop}
use ipfs_shard.Multiformats.{Multiformats}
use ipfs_shard.Varint.{read_varint}
use ipfs_shard.Codec.Fields.{read_header, read_field}
use mathlib.Core.Option

pub record Block : Type 0 where
  pub prefix : List ℕ
  pub content : List ℕ

-- The variables of `decodePayloadBlock`.
pub record PayloadState : Type 0 where
  pub offset : ℤ
  pub prefix : Option (List ℕ)
  pub content : Option (List ℕ)

abbrev pub payload_field : ℕ → List ℕ → PayloadState → PayloadState
payload_field field bytes s =
    if field == 1
    then record s { prefix = some bytes }
    else if field == 2
    then record s { content = some bytes }
    else s

unfoldable pub payload_body : List ℕ → PayloadState → Round PayloadState
payload_body bytes s =
    let h = read_header bytes s.offset in
    let f = read_field bytes h.after in
    if is_below s.offset (length bytes)
    then if h.wire == 2
      then next (payload_field h.field f.content (record s { offset = f.after }))
      else next (record s { offset = h.after })
    else stop s

abbrev pub payload_start : PayloadState
payload_start = record { offset = pos 0; prefix = none; content = none }

-- `prefix && data ? { prefix, data } : null`
abbrev pub payload_block : PayloadState → Option Block
payload_block s = elim s.prefix [
  | none ↦ none
  | some p ↦ elim s.content [ none ↦ none | some c ↦ some (record { prefix = p; content = c }) ]
]

unfoldable pub decode_payload_block : ℕ → List ℕ → Option (Option Block)
unfolding payload_body
decode_payload_block fuel bytes =
    Option.map payload_block (loop fuel (payload_body bytes) payload_start)

-- The variables of `decodeWantEntry`.
pub record EntryState : Type 0 where
  pub offset : ℤ
  pub cid_bytes : Option (List ℕ)
  pub want_type : ℕ
  pub cancel : Bool

abbrev pub entry_field : ℕ → List ℕ → EntryState → EntryState
entry_field field bytes s = if field == 1 then record s { cid_bytes = some bytes } else s

abbrev pub entry_varint : ℕ → ℕ → EntryState → EntryState
entry_varint field value s =
    if field == 3
    then record s { cancel = not (value == 0) }
    else if field == 4
    then record s { want_type = value }
    else s

unfoldable pub entry_body : List ℕ → EntryState → Round EntryState
entry_body bytes s =
    let h = read_header bytes s.offset in
    let f = read_field bytes h.after in
    let (value, var_len) = read_varint bytes h.after in
    if is_below s.offset (length bytes)
    then if h.wire == 2
      then next (entry_field h.field f.content (record s { offset = f.after }))
      else if h.wire == 0
      then next (entry_varint h.field value (record s { offset = h.after +ℤ pos var_len }))
      else next (record s { offset = h.after })
    else stop s

abbrev pub entry_start : EntryState
entry_start = record { offset = pos 0; cid_bytes = none; want_type = 0; cancel = false }

unfoldable pub decode_want_entry : ℕ → List ℕ → Option EntryState
unfolding entry_body
decode_want_entry fuel bytes = loop fuel (entry_body bytes) entry_start

module _ (m : Multiformats) where
  open m use {Cid, decode}

  -- The variables of `decodeWantlist`; `out` is the caller's array.
  pub record WantlistState : Type 0 where
    pub offset : ℤ
    pub out : List Cid

  -- `out.push(CID.decode(…))` for an entry that is a want for a block; bad bytes are skipped.
  unfoldable pub push_want : EntryState → List Cid → List Cid
  push_want entry out =
      if not entry.cancel && entry.want_type == 0
      then elim entry.cid_bytes [
        | none ↦ out
        | some bytes ↦ elim (decode bytes) [ none ↦ out | some cid ↦ out ++ (cid ∷ []) ]
      ]
      else out

  unfoldable pub wantlist_body : ℕ → List ℕ → WantlistState → Round WantlistState
  wantlist_body fuel bytes s =
      let h = read_header bytes s.offset in
      let f = read_field bytes h.after in
      if is_below s.offset (length bytes)
      then if h.wire == 2 && h.field == 1
        then elim (decode_want_entry fuel f.content) [
          | none ↦ hang
          | some entry ↦ next (record { offset = f.after; out = push_want entry s.out })
        ]
        else if h.wire == 0
        then next (record s { offset = h.after +ℤ pos (read_varint bytes h.after).1 })
        else next (record s { offset = h.after })
      else stop s

  unfoldable pub decode_wantlist : ℕ → List ℕ → List Cid → Option (List Cid)
  unfolding wantlist_body
  decode_wantlist fuel bytes out =
      Option.map (λ s. s.out)
        (loop fuel (wantlist_body fuel bytes) (record { offset = pos 0; out = out }))

  pub record DecodedMessage : Type 0 where
    pub want_blocks : List Cid
    pub blocks : List Block

  -- The variables of `decodeMessage`.
  pub record MessageState : Type 0 where
    pub offset : ℤ
    pub found : DecodedMessage

  abbrev pub push_block : Option Block → List Block → List Block
  push_block none blocks = blocks
  push_block (some b) blocks = blocks ++ (b ∷ [])

  unfoldable pub message_field : ℕ → ℕ → List ℕ → DecodedMessage → Option DecodedMessage
  unfolding decode_wantlist decode_payload_block
  message_field fuel field bytes found =
      if field == 1
      then Option.map (λ wants. record found { want_blocks = wants })
          (decode_wantlist fuel bytes found.want_blocks)
      else if field == 3
      then Option.map (λ block. record found { blocks = push_block block found.blocks })
          (decode_payload_block fuel bytes)
      else some found

  unfoldable pub message_body : ℕ → List ℕ → MessageState → Round MessageState
  message_body fuel bytes s =
      let h = read_header bytes s.offset in
      let f = read_field bytes h.after in
      if is_below s.offset (length bytes)
      then if h.wire == 2
        then elim (message_field fuel h.field f.content s.found) [
          | none ↦ hang
          | some found ↦ next (record { offset = f.after; found = found })
        ]
        else stop (record s { offset = h.after })
      else stop s

  unfoldable pub decode_message : ℕ → List ℕ → Option DecodedMessage
  unfolding message_body
  decode_message fuel bytes =
      Option.map (λ s. s.found)
        (loop fuel (message_body fuel bytes)
          (record { offset = pos 0; found = record { want_blocks = []; blocks = [] } }))
