-- ===== src/Codec/Messages.antt =====
-- Whole messages: `decodeMessage` on what `encodeWantBlock` and `encodeBlock` wrote.
use ipfs_shard.Shared.{
  ℕ, zero, suc, ◌+◌, ◌-◌, ◌≤◌, ◌<◌, ◌^◌, List, [], ◌∷◌, ◌++◌, ◌≡◌, refl, ap, ◌∙◌, arith, length,
  drop, some, drop_past, append-nil, append_assoc, flatten, All, map, length-append,
}
use ipfs_shard.Shared.Int.{pos}
use ipfs_shard.Shared.Loop.{next, loop, loop-next, loop-stop}
use ipfs_shard.Multiformats.{Multiformats}
use ipfs_shard.Varint.Encoding.{groups, length-groups, append_varint-groups}
use ipfs_shard.Codec.Fields.{write_len_field}
use ipfs_shard.Codec.Encode.{encode_want_block, cid_prefix, encode_block}
use ipfs_shard.Codec.Decode.{
  Block, DecodedMessage, MessageState, message_field, message_body, decode_message,
}
use ipfs_shard.Codec.Concat.{concat_bytes-flatten}
use ipfs_shard.Codec.Layout.{LenField-at}
use ipfs_shard.Codec.Steps
use ipfs_shard.Codec.Parts.{
  decode_payload_block-fields, length-write_len_field, wantlist, length-wantlist,
  encode_want_block-wantlist, decode_wantlist-wantlist,
}
use mathlib.Core.Option

module _ (m : Multiformats) where
  open m use {Cid, bytes, version, code, hash_code, digest, decode}

  -- What one peer tells another.
  pub data Item : Type 0 where
    want : Cid → Item
    block : Cid → List ℕ → Item

  abbrev pub encode : Item → List ℕ
  encode (want cid) = encode_want_block m cid
  encode (block cid content) = encode_block m cid content

  abbrev pub wants : List Item → List Cid
  wants [] = []
  wants (want cid ∷ items) = cid ∷ wants items
  wants (block cid content ∷ items) = wants items

  abbrev pub blocks : List Item → List Block
  blocks [] = []
  blocks (want cid ∷ items) = blocks items
  blocks (block cid content ∷ items) =
      record { prefix = cid_prefix m cid; content = content } ∷ blocks items

  -- Lengths and codes are in the range of the format's 32-bit varints, and the CID library reads
  -- back the bytes of a CID.
  abbrev pub Fits : Item → Type 0
  Fits (want cid) = (length (bytes cid) < 2 ^ 30) × (decode (bytes cid) ≡ some cid)
  Fits (block cid content) =
      (version cid < 2 ^ 32)
      × (code cid < 2 ^ 32)
      × (hash_code cid < 2 ^ 32)
      × (length (digest cid) < 2 ^ 32)
      × (length content < 2 ^ 30)

  pub cid_prefix-groups :
      (cid : Cid)
      → version cid < 2 ^ 32
      → code cid < 2 ^ 32
      → hash_code cid < 2 ^ 32
      → length (digest cid) < 2 ^ 32
      → cid_prefix m cid
        ≡ groups 4 (version cid)
          ++ (groups 4 (code cid) ++ (groups 4 (hash_code cid) ++ groups 4 (length (digest cid))))
  unfolding cid_prefix
  cid_prefix-groups cid hv hc hh hd =
      let v : List ℕ = groups 4 (version cid) in
      let c : List ℕ = groups 4 (code cid) in
      let h : List ℕ = groups 4 (hash_code cid) in
      rw
        (
          append_varint-groups [] (version cid) hv,
          append_varint-groups v (code cid) hc,
          append_varint-groups (v ++ c) (hash_code cid) hh,
          append_varint-groups ((v ++ c) ++ h) (length (digest cid)) hd,
        )
        (simp append_assoc)

  length-cid_prefix :
      (cid : Cid)
      → version cid < 2 ^ 32
      → code cid < 2 ^ 32
      → hash_code cid < 2 ^ 32
      → length (digest cid) < 2 ^ 32
      → length (cid_prefix m cid) ≤ 20
  length-cid_prefix cid hv hc hh hd =
      let c : List ℕ = groups 4 (code cid) in
      let h : List ℕ = groups 4 (hash_code cid) in
      let d : List ℕ = groups 4 (length (digest cid)) in
      rw (cid_prefix-groups cid hv hc hh hd) (
        omega (
          arith,
          length-append (groups 4 (version cid)) (c ++ (h ++ d)),
          length-append c (h ++ d),
          length-append h d,
          length-groups 4 (version cid),
          length-groups 4 (code cid),
          length-groups 4 (hash_code cid),
          length-groups 4 (length (digest cid)),
        ))

  abbrev payload : Cid → List ℕ → List ℕ
  payload cid content = write_len_field 1 (cid_prefix m cid) ++ (write_len_field 2 content ++ [])

  encode_block-payload :
      (cid : Cid) (content : List ℕ)
      → encode_block m cid content ≡ write_len_field 3 (payload cid content)
  unfolding encode_block
  encode_block-payload cid content =
      ap (write_len_field 3) (
        concat_bytes-flatten
          (write_len_field 1 (cid_prefix m cid) ∷ write_len_field 2 content ∷ []))

  length-payload :
      (cid : Cid) (content : List ℕ)
      → Fits (block cid content)
      → length (payload cid content) < 2 ^ 31
  length-payload cid content (hv, hc, hh, hd, hl) =
      let short = length-cid_prefix cid hv hc hh hd in
      omega (
        arith,
        length-append (write_len_field 1 (cid_prefix m cid)) (write_len_field 2 content ++ []),
        length-append (write_len_field 2 content) [],
        length-write_len_field 1 (cid_prefix m cid) refl (omega arith) (omega arith),
        length-write_len_field 2 content refl (omega arith) (omega arith),
      )

  -- What a message decodes to behind what was found before.
  abbrev add_items : DecodedMessage m → List Item → DecodedMessage m
  add_items found items = record {
    want_blocks = found.want_blocks ++ wants items;
    blocks = found.blocks ++ blocks items;
  }

  module _ (fuel : ℕ) where
    abbrev inner : ℕ
    inner = suc (suc (suc (suc (suc fuel))))

    message_field-want :
        (cid : Cid) (found : DecodedMessage m)
        → Fits (want cid)
        → message_field m inner 1 (wantlist m cid) found ≡ some (add_items found (want cid ∷ []))
    unfolding message_field
    message_field-want cid found (h, known) =
        rw (decode_wantlist-wantlist m fuel cid found.want_blocks h known, append-nil found.blocks)

    message_field-block :
        (cid : Cid) (content : List ℕ) (found : DecodedMessage m)
        → Fits (block cid content)
        → message_field m inner 3 (payload cid content) found
          ≡ some (add_items found (block cid content ∷ []))
    unfolding message_field
    message_field-block cid content found (hv, hc, hh, hd, hl) =
        let short = length-cid_prefix cid hv hc hh hd in
        rw (
          decode_payload_block-fields (suc (suc fuel)) (cid_prefix m cid) content (omega arith)
              (omega arith),
          append-nil found.want_blocks,
        )

    message_round :
        (item : Item) (k : ℕ) (all rest : List ℕ) (found : DecodedMessage m)
        → Fits item
        → drop k all ≡ encode item ++ rest
        → message_body m inner all (record { offset = pos k; found = found })
          ≡ next (record {
            offset = pos (k + length (encode item));
            found = add_items found (item ∷ []);
          })
    message_round (want cid) k all rest found fits at =
        let shape = encode_want_block-wantlist m cid in
        rw shape (
          Steps.message_body-field m inner found (add_items found (want cid ∷ []))
            (LenField-at 1 k all (wantlist m cid) rest refl (omega arith)
              (length-wantlist m cid fits.0) (rw shape at at))
            (message_field-want cid found fits))
    message_round (block cid content) k all rest found fits at =
        let shape = encode_block-payload cid content in
        rw shape (
          Steps.message_body-field m inner found (add_items found (block cid content ∷ []))
            (LenField-at 3 k all (payload cid content) rest refl (omega arith)
              (length-payload cid content fits) (rw shape at at))
            (message_field-block cid content found fits))

    add_items-cons :
        (found : DecodedMessage m) (item : Item) (items : List Item)
        → add_items (add_items found (item ∷ [])) items ≡ add_items found (item ∷ items)
    add_items-cons found (want cid) items =
        rw (append_assoc found.want_blocks (cid ∷ []) (wants items), append-nil found.blocks)
    add_items-cons found (block cid content) items = rw (
      append_assoc found.blocks (blocks (block cid content ∷ [])) (blocks items),
      append-nil found.want_blocks,
    )

    message_rounds :
        (items : List Item) (n k : ℕ) (all : List ℕ) (found : DecodedMessage m)
        → All Fits items
        → drop k all ≡ flatten (map encode items)
        → length items < n
        → Option.map
            (λ s. s.found)
            (loop n (message_body m inner all) (record { offset = pos k; found = found }))
          ≡ some (add_items found items)
    message_rounds items zero k all found fits at h = absurd (omega arith)
    message_rounds [] (suc n) k all found fits at h =
        let s : MessageState m = record { offset = pos k; found = found } in
        ap (Option.map (λ s. s.found)) (
          loop-stop n (message_body m inner all) s s
            (Steps.message_body-end m inner k all found at))
        ∙ rw (append-nil found.want_blocks, append-nil found.blocks)
    message_rounds (item ∷ items) (suc n) k all found (fit, fits) at h =
        let later : DecodedMessage m = add_items found (item ∷ []) in
        let rest : List ℕ = flatten (map encode items) in
        ap (Option.map (λ s. s.found)) (
          loop-next n (message_body m inner all) (record { offset = pos k; found = found })
            (record { offset = pos (k + length (encode item)); found = later })
            (message_round item k all rest found fit at))
        ∙ message_rounds items n (k + length (encode item)) all later fits
            (drop_past k all (encode item) rest at) (omega arith)
        ∙ ap some (add_items-cons found item items)

  -- `decode_message` on any sequence of encoded wants and blocks, whose lengths fit and whose CIDs
  -- the library reads back, returns exactly those wants and those blocks, each in order, and it
  -- ends: fuel for one round more than there are items, and for the five of an entry, is enough.
  pub decode_message-encode :
      (items : List Item) (fuel : ℕ)
      → All Fits items
      → length items + 5 ≤ fuel
      → decode_message m fuel (flatten (map encode items))
        ≡ some (record { want_blocks = wants items; blocks = blocks items })
  unfolding decode_message
  decode_message-encode items fuel fits h =
      let f : ℕ = fuel - 5 in
      let enough : fuel ≡ inner f = omega arith in
      rw enough (
        message_rounds f items (inner f) 0 (flatten (map encode items))
          (record { want_blocks = []; blocks = [] }) fits refl (omega arith))
