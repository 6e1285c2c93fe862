-- ===== src/Bitswap/Frames.antt =====
-- The part of `_readLoop` (src/bitswap.ts) that works on one chunk: `buffer` and `offset`, and the
-- messages that it hands to `_handleMessage`.
use ipfs_shard.Shared.{ℕ, List, [], ◌∷◌, ◌++◌, length, Option, Bool, false, ltb, if◌then◌else◌}
use ipfs_shard.Shared.Int.{ℤ, pos, negsuc, ◌+ℤ◌, is_below, signed32}
use ipfs_shard.Shared.Loop.{Round, next, stop, loop}
use ipfs_shard.Varint.{read_varint}
use ipfs_shard.Codec.Fields.{slice, concat_bytes}
use mathlib.Core.Option

pub record FrameState : Type 0 where
  pub buffer : List ℕ
  pub offset : ℤ
  pub messages : List (List ℕ)

-- `end > length`
abbrev pub is_above : ℤ → ℕ → Bool
is_above (pos k) n = ltb n k
is_above (negsuc k) n = false

-- `buffer.slice(offset)`
abbrev pub slice_rest : List ℕ → ℤ → List ℕ
slice_rest buffer offset = slice buffer offset (pos (length buffer))

-- One round of the inner `while` loop. On an incomplete message the buffer is cut at `offset`, and
-- `offset` stays as it is.
unfoldable pub frame_body : FrameState → Round FrameState
frame_body s =
    let (msg_len, len_bytes) = read_varint s.buffer s.offset in
    let start = s.offset +ℤ pos len_bytes in
    let end = start +ℤ signed32 msg_len in
    if is_below s.offset (length s.buffer)
    then if is_above end (length s.buffer)
      then stop (record s { buffer = slice_rest s.buffer s.offset })
      else next
          (record s { offset = end; messages = s.messages ++ (slice s.buffer start end ∷ []) })
    else stop s

-- `Keep only unparsed bytes`, behind the loop.
abbrev pub unparsed : FrameState → List ℕ
unparsed s = if is_below s.offset (length s.buffer) then slice_rest s.buffer s.offset else []

-- What one chunk leaves in the buffer, and the messages that it completes.
unfoldable pub read_chunk : ℕ → List ℕ → List ℕ → Option (List ℕ × List (List ℕ))
unfolding frame_body
read_chunk fuel buffer chunk =
    Option.map (λ s. (unparsed s, s.messages))
      (loop fuel frame_body
        (record { buffer = concat_bytes (buffer ∷ chunk ∷ []); offset = pos 0; messages = [] }))
