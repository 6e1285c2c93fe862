-- ===== src/Codec/Parts.antt =====
-- Decoding the parts of a message that the encoders wrote: payload blocks, entries, wantlists.
use ipfs_shard.Shared.{
  ℕ, suc, ◌+◌, ◌*◌, ◌≤◌, ◌<◌, ◌^◌, List, [], ◌∷◌, ◌++◌, ◌≡◌, refl, ap, ◌∙◌, arith, length, drop,
  none, some, false, drop_past, length-append,
}
use ipfs_shard.Shared.Int.{pos}
use ipfs_shard.Shared.Loop.{loop-next, loop-stop}
use ipfs_shard.Multiformats.{Multiformats}
use ipfs_shard.Codec.Fields.{make_tag, write_varint_field, write_len_field}
use ipfs_shard.Varint.Encoding.{groups, length-groups}
use ipfs_shard.Codec.Encode.{want_entry, encode_want_block}
use ipfs_shard.Codec.Decode.{
  PayloadState, payload_body, payload_start, payload_block, decode_payload_block, EntryState,
  entry_body, entry_start, decode_want_entry, push_want, WantlistState, wantlist_body,
  decode_wantlist,
}
use ipfs_shard.Codec.Concat.{concat_bytes-flatten}
use ipfs_shard.Codec.Layout.{
  LenField-at, VarintField-at, write_len_field-groups, write_varint_field-groups,
}
use ipfs_shard.Codec.Steps
use mathlib.Core.Option

-- Three rounds of the payload loop: the prefix, the data, the end.
pub decode_payload_block-fields :
    (fuel : ℕ) (p c : List ℕ)
    → length p < 2 ^ 31
    → length c < 2 ^ 31
    → decode_payload_block
        (suc (suc (suc fuel)))
        (write_len_field 1 p ++ (write_len_field 2 c ++ []))
      ≡ some (some (record { prefix = p; content = c }))
unfolding decode_payload_block
decode_payload_block-fields fuel p c hp hc =
    let a : List ℕ = write_len_field 1 p in
    let b : List ℕ = write_len_field 2 c in
    let bytes : List ℕ = a ++ (b ++ []) in
    let k1 : ℕ = 0 + length a in
    let k2 : ℕ = k1 + length b in
    let second : drop k1 bytes ≡ b ++ [] = drop_past 0 bytes a (b ++ []) refl in
    let ended : drop k2 bytes ≡ [] = drop_past k1 bytes b [] second in
    let s1 : PayloadState = record { offset = pos k1; prefix = some p; content = none } in
    let s2 : PayloadState = record { offset = pos k2; prefix = some p; content = some c } in
    let body = payload_body bytes in
    ap (Option.map payload_block) (
      loop-next (suc (suc fuel)) body payload_start s1 (
        Steps.payload_body-field (LenField-at 1 0 bytes p (b ++ []) refl (omega arith) hp refl)
          payload_start)
      ∙ loop-next (suc fuel) body s1 s2
          (Steps.payload_body-field (LenField-at 2 k1 bytes c [] refl (omega arith) hc second) s1)
      ∙ loop-stop fuel body s2 s2 (Steps.payload_body-end k2 bytes ended s2))

-- Five rounds of the entry loop: the block, three numbers, the end.
decode_want_entry-fields :
    (fuel : ℕ) (c : List ℕ)
    → length c < 2 ^ 31
    → (k : ℕ) × (decode_want_entry (suc (suc (suc (suc (suc fuel))))) (
          write_len_field 1 c
          ++ (write_varint_field 2 1 ++ (write_varint_field 4 0 ++ (write_varint_field 5 1 ++ []))))
        ≡ some (record { offset = pos k; cid_bytes = some c; want_type = 0; cancel = false }))
unfolding decode_want_entry
decode_want_entry-fields fuel c hc =
    let a : List ℕ = write_len_field 1 c in
    let v2 : List ℕ = write_varint_field 2 1 in
    let v4 : List ℕ = write_varint_field 4 0 in
    let v5 : List ℕ = write_varint_field 5 1 in
    let bytes : List ℕ = a ++ (v2 ++ (v4 ++ (v5 ++ []))) in
    let k1 : ℕ = 0 + length a in
    let k2 : ℕ = k1 + length v2 in
    let k3 : ℕ = k2 + length v4 in
    let k4 : ℕ = k3 + length v5 in
    let at1 : drop k1 bytes ≡ v2 ++ (v4 ++ (v5 ++ [])) = drop_past 0 bytes a _ refl in
    let at2 : drop k2 bytes ≡ v4 ++ (v5 ++ []) = drop_past k1 bytes v2 _ at1 in
    let at3 : drop k3 bytes ≡ v5 ++ [] = drop_past k2 bytes v4 _ at2 in
    let at4 : drop k4 bytes ≡ [] = drop_past k3 bytes v5 [] at3 in
    let after = λ (k : ℕ).
      let s : EntryState = record {
        offset = pos k;
        cid_bytes = some c;
        want_type = 0;
        cancel = false;
      } in
      s in
    let body = entry_body bytes in
    (
      k4,
      loop-next (suc (suc (suc (suc fuel)))) body entry_start (after k1) (
            Steps.entry_body-field
              (LenField-at 1 0 bytes c (v2 ++ (v4 ++ (v5 ++ []))) refl (omega arith) hc refl)
              entry_start)
          ∙ loop-next (suc (suc (suc fuel))) body (after k1) (after k2) (
              Steps.entry_body-varint
                (VarintField-at 2 k1 bytes 1 (v4 ++ (v5 ++ [])) refl (omega arith) (omega arith)
                  at1)
                (after k1))
          ∙ loop-next (suc (suc fuel)) body (after k2) (after k3) (
              Steps.entry_body-varint
                (VarintField-at 4 k2 bytes 0 (v5 ++ []) refl (omega arith) (omega arith) at2)
                (after k2))
          ∙ loop-next (suc fuel) body (after k3) (after k4) (
              Steps.entry_body-varint
                (VarintField-at 5 k3 bytes 1 [] refl (omega arith) (omega arith) at3) (after k3))
          ∙ loop-stop fuel body (after k4) (after k4)
              (Steps.entry_body-end k4 bytes at4 (after k4)),
    )

pub length-write_len_field :
    (f : ℕ) (b : List ℕ)
    → make_tag f 2 ≡ f * 8 + 2
    → f < 16
    → length b < 2 ^ 31
    → length (write_len_field f b) ≤ length b + 10
length-write_len_field f b tag hf hb = rw (write_len_field-groups f b tag hf hb) (
    omega (
      arith,
      length-append (groups 4 (f * 8 + 2)) (groups 4 (length b) ++ b),
      length-append (groups 4 (length b)) b,
      length-groups 4 (f * 8 + 2),
      length-groups 4 (length b),
    ))

length-write_varint_field :
    (f v : ℕ) → make_tag f 0 ≡ f * 8 → f < 16 → v < 2 ^ 32 → length (write_varint_field f v) ≤ 10
length-write_varint_field f v tag hf hv = rw (write_varint_field-groups f v tag hf hv) (
    omega (
      arith,
      length-append (groups 4 (f * 8)) (groups 4 v),
      length-groups 4 (f * 8),
      length-groups 4 v,
    ))

length-fields :
    (a v2 v4 v5 : List ℕ)
    → length (a ++ (v2 ++ (v4 ++ (v5 ++ [])))) ≡ length a + length v2 + length v4 + length v5
length-fields a v2 v4 v5 = omega (
  arith,
  length-append a (v2 ++ (v4 ++ (v5 ++ []))),
  length-append v2 (v4 ++ (v5 ++ [])),
  length-append v4 (v5 ++ []),
  length-append v5 [],
)

module _ (m : Multiformats) where
  open m use {Cid, bytes, digest, decode}

  want_entry-fields :
      (cid : Cid)
      → want_entry m cid
        ≡ write_len_field 1 (bytes cid)
          ++ (write_varint_field 2 1 ++ (write_varint_field 4 0 ++ (write_varint_field 5 1 ++ [])))
  unfolding want_entry
  want_entry-fields cid = concat_bytes-flatten (
      write_len_field 1 (bytes cid)
      ∷ write_varint_field 2 1
      ∷ write_varint_field 4 0
      ∷ write_varint_field 5 1
      ∷ [])

  length-want_entry :
      (cid : Cid) → length (bytes cid) < 2 ^ 30 → length (want_entry m cid) < 2 ^ 30 + 40
  length-want_entry cid h =
      rw
        (
          want_entry-fields cid,
          length-fields (write_len_field 1 (bytes cid)) (write_varint_field 2 1)
              (write_varint_field 4 0) (write_varint_field 5 1),
        )
        (omega (
          arith,
          length-write_len_field 1 (bytes cid) refl (omega arith) (omega arith),
          length-write_varint_field 2 1 refl (omega arith) (omega arith),
          length-write_varint_field 4 0 refl (omega arith) (omega arith),
          length-write_varint_field 5 1 refl (omega arith) (omega arith),
        ))

  push_want-some :
      (k : ℕ) (cid : Cid) (out : List Cid)
      → decode (bytes cid) ≡ some cid
      → push_want m
          (record { offset = pos k; cid_bytes = some (bytes cid); want_type = 0; cancel = false })
          out
        ≡ out ++ (cid ∷ [])
  unfolding push_want
  push_want-some k cid out e = rw e

  -- The wantlist that `encode_want_block` sends.
  abbrev pub wantlist : Cid → List ℕ
  wantlist cid = write_len_field 1 (want_entry m cid) ++ (write_varint_field 2 0 ++ [])

  pub length-wantlist : (cid : Cid) → length (bytes cid) < 2 ^ 30 → length (wantlist cid) < 2 ^ 31
  length-wantlist cid h =
      let e : List ℕ = want_entry m cid in
      omega (
        arith,
        length-append (write_len_field 1 e) (write_varint_field 2 0 ++ []),
        length-append (write_varint_field 2 0) [],
        length-want_entry cid h,
        length-write_len_field 1 e refl (omega arith) (omega (arith, length-want_entry cid h)),
        length-write_varint_field 2 0 refl (omega arith) (omega arith),
      )

  pub encode_want_block-wantlist :
      (cid : Cid) → encode_want_block m cid ≡ write_len_field 1 (wantlist cid)
  unfolding encode_want_block
  encode_want_block-wantlist cid =
      ap (write_len_field 1)
        (concat_bytes-flatten (write_len_field 1 (want_entry m cid) ∷ write_varint_field 2 0 ∷ []))

  -- Three rounds of the wantlist loop: the entry, `full`, the end.
  pub decode_wantlist-wantlist :
      (fuel : ℕ) (cid : Cid) (out : List Cid)
      → length (bytes cid) < 2 ^ 30
      → decode (bytes cid) ≡ some cid
      → decode_wantlist m (suc (suc (suc (suc (suc fuel))))) (wantlist cid) out
        ≡ some (out ++ (cid ∷ []))
  unfolding decode_wantlist
  decode_wantlist-wantlist fuel cid out h known =
      let e : List ℕ = want_entry m cid in
      let fits = length-want_entry cid h in
      let a : List ℕ = write_len_field 1 e in
      let v : List ℕ = write_varint_field 2 0 in
      let all : List ℕ = a ++ (v ++ []) in
      let k1 : ℕ = 0 + length a in
      let k2 : ℕ = k1 + length v in
      let at1 : drop k1 all ≡ v ++ [] = drop_past 0 all a (v ++ []) refl in
      let at2 : drop k2 all ≡ [] = drop_past k1 all v [] at1 in
      let f : ℕ = suc (suc (suc (suc (suc fuel)))) in
      let (k, entry) = decode_want_entry-fields fuel (bytes cid) (omega arith) in
      let found : EntryState = record {
        offset = pos k;
        cid_bytes = some (bytes cid);
        want_type = 0;
        cancel = false;
      } in
      let body = wantlist_body m f all in
      let after = λ (k : ℕ).
        let s : WantlistState m = record { offset = pos k; out = push_want m found out } in s in
      ap (Option.map (λ s. s.out)) (
        loop-next (suc (suc (suc (suc fuel)))) body (record { offset = pos 0; out = out })
          (after k1)
          (Steps.wantlist_body-entry m f out found
            (LenField-at 1 0 all e (v ++ []) refl (omega arith) (omega arith) refl)
            (rw (want_entry-fields cid) entry))
        ∙ loop-next (suc (suc (suc fuel))) body (after k1) (after k2) (
            Steps.wantlist_body-varint m f (push_want m found out)
              (VarintField-at 2 k1 all 0 [] refl (omega arith) (omega arith) at1))
        ∙ loop-stop (suc (suc fuel)) body (after k2) (after k2)
            (Steps.wantlist_body-end m f k2 all (push_want m found out) at2))
      ∙ ap some (push_want-some k cid out known)
