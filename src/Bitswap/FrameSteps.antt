-- ===== src/Bitswap/FrameSteps.antt =====
-- One round of the read loop of src/bitswap.ts, at a whole frame and at a frame that is cut off.
use ipfs_shard.Shared.{
  ℕ, ◌+◌, ◌-◌, ◌≤◌, ◌<◌, ◌^◌, List, [], ◌∷◌, ◌++◌, ◌≡◌, refl, sym, ap, ◌∙◌, arith, length, drop,
  lt→ltb, ltb-false, drop_past, take_of_length-le, drop_of_length-le, length-drop, length-append,
  append_assoc, min, dec_lt,
}
use ipfs_shard.Shared.Int.{pos}
use ipfs_shard.Shared.Loop.{next, stop}
use ipfs_shard.Varint.{read_varint}
use ipfs_shard.Varint.Encoding.{groups, append_varint-groups, length-groups}
use ipfs_shard.Varint.RoundTrip.{read_varint-at}
use ipfs_shard.Codec.Fields.{encode_with_length_prefix}
use ipfs_shard.Codec.Concat.{encode_with_length_prefix_lem}
use ipfs_shard.Codec.Layout.{slice-at}
use ipfs_shard.Bitswap.Frames.{frame_body, unparsed, slice_rest}

abbrev pub frame : List ℕ → List ℕ
frame msg = encode_with_length_prefix msg

pub frame-groups : (msg : List ℕ) → length msg < 2 ^ 31 → frame msg ≡ groups 4 (length msg) ++ msg
frame-groups msg h =
    rw (encode_with_length_prefix_lem msg, append_varint-groups [] (length msg) (omega arith))

-- The start of a frame that is not there to its end: with the length read, which is not negative,
-- more bytes are wanted than there are.
pub record IsIncomplete (tail : List ℕ) : Type 0 where
  pub some_bytes : 0 < length tail
  pub positive : (read_varint tail (pos 0)).0 < 2 ^ 31
  pub cut : length tail < (read_varint tail (pos 0)).1 + (read_varint tail (pos 0)).0

slice_rest-drop :
    (k : ℕ) (buffer : List ℕ) → k ≤ length buffer → slice_rest buffer (pos k) ≡ drop k buffer
slice_rest-drop k buffer h =
    let from : min k (length buffer) ≡ k = omega arith in
    rw from (take_of_length-le _ (drop k buffer) (omega (arith, length-drop k buffer)))

read_from_drop :
    (k : ℕ) (buffer : List ℕ) → read_varint buffer (pos k) ≡ read_varint (drop k buffer) (pos 0)
unfolding read_varint
read_from_drop k buffer = refl

pub frame_round :
    (k : ℕ) (buffer msg rest : List ℕ) (messages : List (List ℕ))
    → length msg < 2 ^ 31
    → drop k buffer ≡ frame msg ++ rest
    → frame_body (record { buffer = buffer; offset = pos k; messages = messages })
      ≡ next (record {
        buffer = buffer;
        offset = pos (k + length (frame msg));
        messages = messages ++ (msg ∷ []);
      })
unfolding frame_body
frame_round k buffer msg rest messages h at =
    let g : List ℕ = groups 4 (length msg) in
    let shape = frame-groups msg h in
    let here : drop k buffer ≡ g ++ (msg ++ rest) = at ∙ rw shape (append_assoc g msg rest) in
    let wide : length buffer - k ≡ length g + (length msg + length rest) = omega (
      arith,
      length-drop k buffer,
      ap length here,
      length-append g (msg ++ rest),
      length-append msg rest,
    ) in
    let inside : k < length buffer = omega (arith, length-groups 4 (length msg)) in
    let ends : k + length (frame msg) ≡ k + length g + length msg =
      rw shape (omega (arith, length-append g msg)) in
    rw
      (
        read_varint-at (length msg) k buffer (msg ++ rest) (omega arith) here,
        lt→ltb k (length buffer) inside,
        lt→ltb (length msg) (2 ^ 31) h,
        ltb-false (length buffer) (k + length g + length msg) (omega arith),
        slice-at (k + length g) buffer msg rest (drop_past k buffer g (msg ++ rest) here),
        ends,
      )
      refl

pub frame_round_cut :
    (k : ℕ) (buffer tail : List ℕ) (messages : List (List ℕ))
    → IsIncomplete tail
    → drop k buffer ≡ tail
    → frame_body (record { buffer = buffer; offset = pos k; messages = messages })
      ≡ stop (record { buffer = tail; offset = pos k; messages = messages })
unfolding frame_body
frame_round_cut k buffer tail messages cut at =
    let r = read_varint tail (pos 0) in
    let read : read_varint buffer (pos k) ≡ r =
      read_from_drop k buffer ∙ ap (λ (t : List ℕ). read_varint t (pos 0)) at in
    let inside : k < length buffer =
      omega (arith, cut.some_bytes, length-drop k buffer, ap length at) in
    let beyond : length buffer < k + r.1 + r.0 =
      omega (arith, cut.cut, length-drop k buffer, ap length at) in
    rw
      (
        read,
        lt→ltb k (length buffer) inside,
        lt→ltb r.0 (2 ^ 31) cut.positive,
        lt→ltb (length buffer) (k + r.1 + r.0) beyond,
        slice_rest-drop k buffer (omega arith),
        at,
      )
      refl

pub unparsed-drop :
    (k : ℕ) (buffer : List ℕ) (messages : List (List ℕ))
    → unparsed (record { buffer = buffer; offset = pos k; messages = messages }) ≡ drop k buffer
unparsed-drop k buffer messages = elim (dec_lt k (length buffer)) [
  | yes inside ↦ rw (lt→ltb k (length buffer) inside) (slice_rest-drop k buffer (omega arith))
  | no past ↦
      rw (ltb-false k (length buffer) (omega arith))
        (sym (drop_of_length-le k buffer (omega arith)))
]
