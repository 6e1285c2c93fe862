-- ===== src/Bitswap/Framing.antt =====
-- What the read loop makes of a chunk that holds whole frames and then part of one.
use ipfs_shard.Shared.{
  ℕ, suc, ◌+◌, ◌-◌, ◌<◌, ◌^◌, List, [], ◌∷◌, ◌++◌, ◌≡◌, ◌≢◌, refl, sym, ap, ◌∙◌, arith, length,
  drop, Option, some, map, flatten, All, ltb-false, drop_past, length-drop, length-append,
  append-nil, append_assoc,
}
use ipfs_shard.Shared.Int.{pos}
use ipfs_shard.Shared.Loop.{stop, loop, loop-next, loop-stop}
use ipfs_shard.Varint.Encoding.{groups, length-groups}
use ipfs_shard.Codec.Concat.{concat_bytes-flatten}
use ipfs_shard.Bitswap.Frames.{FrameState, frame_body, unparsed, read_chunk}
use mathlib.Core.Option
use ipfs_shard.Bitswap.FrameSteps.{
  IsIncomplete, frame, frame-groups, frame_round, frame_round_cut, unparsed-drop,
}

abbrev pub frames : List (List ℕ) → List ℕ
frames msgs = flatten (map frame msgs)

abbrev IsMessage : List ℕ → Type 0
IsMessage msg = length msg < 2 ^ 31

-- What the loop and the code behind it come to: the bytes kept, and the messages.
abbrev outcome : ℕ → FrameState → Option (List ℕ × List (List ℕ))
outcome fuel s = Option.map (λ s. (unparsed s, s.messages)) (loop fuel frame_body s)

-- The loop over whole frames, up to what follows them at `end`.
frame_rounds :
    (msgs : List (List ℕ)) (fuel k : ℕ) (buffer rest : List ℕ) (before : List (List ℕ))
    → All IsMessage msgs
    → drop k buffer ≡ frames msgs ++ rest
    → outcome (length msgs + fuel) (record { buffer = buffer; offset = pos k; messages = before })
      ≡ outcome fuel (record {
        buffer = buffer;
        offset = pos (k + length (frames msgs));
        messages = before ++ msgs;
      })
frame_rounds [] fuel k buffer rest before fits at =
    let same : 0 + fuel ≡ fuel = omega arith in
    let stay : k + 0 ≡ k = omega arith in rw (same, stay, append-nil before)
frame_rounds (msg ∷ msgs) fuel k buffer rest before (fit, fits) at =
    let tail : List ℕ = frames msgs ++ rest in
    let here : drop k buffer ≡ frame msg ++ tail =
      at ∙ append_assoc (frame msg) (frames msgs) rest in
    let k' : ℕ = k + length (frame msg) in
    let count : suc (length msgs) + fuel ≡ suc (length msgs + fuel) = omega arith in
    let ends : k + length (frame msg ++ frames msgs) ≡ k' + length (frames msgs) =
      omega (arith, length-append (frame msg) (frames msgs)) in
    rw
      (
        count,
        ends,
        loop-next (length msgs + fuel) frame_body
            (record { buffer = buffer; offset = pos k; messages = before })
            (record { buffer = buffer; offset = pos k'; messages = before ++ (msg ∷ []) })
            (frame_round k buffer msg tail before fit here),
      )
      (frame_rounds msgs fuel k' buffer rest (before ++ (msg ∷ [])) fits
          (drop_past k buffer (frame msg) tail here)
        ∙ rw (append_assoc before (msg ∷ []) msgs))

-- The end of the loop at an incomplete frame.
outcome_cut :
    (fuel k : ℕ) (buffer tail : List ℕ) (messages : List (List ℕ))
    → IsIncomplete tail
    → drop k buffer ≡ tail
    → outcome (suc fuel) (record { buffer = buffer; offset = pos k; messages = messages })
      ≡ some (drop k tail, messages)
outcome_cut fuel k buffer tail messages cut at =
    let s : FrameState = record { buffer = tail; offset = pos k; messages = messages } in
    ap (Option.map (λ s. (unparsed s, s.messages))) (
      loop-stop fuel frame_body (record { buffer = buffer; offset = pos k; messages = messages }) s
        (frame_round_cut k buffer tail messages cut at))
    ∙ rw (unparsed-drop k tail messages)

frame_body-end :
    (k : ℕ) (buffer : List ℕ) (messages : List (List ℕ))
    → drop k buffer ≡ []
    → frame_body (record { buffer = buffer; offset = pos k; messages = messages })
      ≡ stop (record { buffer = buffer; offset = pos k; messages = messages })
unfolding frame_body
frame_body-end k buffer messages at =
    rw (ltb-false k (length buffer) (omega (arith, length-drop k buffer, ap length at)))

outcome_end :
    (fuel k : ℕ) (buffer : List ℕ) (messages : List (List ℕ))
    → drop k buffer ≡ []
    → outcome (suc fuel) (record { buffer = buffer; offset = pos k; messages = messages })
      ≡ some ([], messages)
outcome_end fuel k buffer messages at =
    let s : FrameState = record { buffer = buffer; offset = pos k; messages = messages } in
    ap (Option.map (λ s. (unparsed s, s.messages)))
      (loop-stop fuel frame_body s s (frame_body-end k buffer messages at))
    ∙ rw (unparsed-drop k buffer messages, at)

abbrev start_state : List ℕ → FrameState
start_state whole = record { buffer = whole; offset = pos 0; messages = [] }

read_chunk-buffer :
    (fuel : ℕ) (buffer chunk whole : List ℕ)
    → buffer ++ chunk ≡ whole
    → read_chunk fuel buffer chunk ≡ outcome fuel (start_state whole)
unfolding read_chunk
read_chunk-buffer fuel buffer chunk whole e =
    rw (concat_bytes-flatten (buffer ∷ chunk ∷ []), append-nil chunk, e)

frames-pos : (msgs : List (List ℕ)) → All IsMessage msgs → msgs ≢ [] → 0 < length (frames msgs)
frames-pos [] fits more = absurd (more refl)
frames-pos (msg ∷ msgs) (fit, fits) more = rw (frame-groups msg fit) (
    omega (
      arith,
      length-append (groups 4 (length msg) ++ msg) (frames msgs),
      length-append (groups 4 (length msg)) msg,
      length-groups 4 (length msg),
    ))

module _ (msgs : List (List ℕ)) (fuel : ℕ) (buffer chunk : List ℕ) (fits : All IsMessage msgs)
    (enough : length msgs < fuel) where
  -- Where the buffer and the new chunk together are whole frames of messages below 2^31 bytes,
  -- `read_chunk` hands on exactly their messages, in order, and keeps nothing; fuel for one round
  -- more than there are messages is enough.
  pub read_chunk-frames :
      buffer ++ chunk ≡ frames msgs → read_chunk fuel buffer chunk ≡ some ([], msgs)
  read_chunk-frames e =
      let f : ℕ = fuel - length msgs - 1 in
      let split : fuel ≡ length msgs + suc f = omega arith in
      let all : drop 0 (buffer ++ chunk) ≡ frames msgs ++ [] = e ∙ sym (append-nil (frames msgs)) in
      read_chunk-buffer fuel buffer chunk (buffer ++ chunk) refl
      ∙ ap (λ (t : ℕ). outcome t (start_state (buffer ++ chunk))) split
      ∙ frame_rounds msgs (suc f) 0 (buffer ++ chunk) [] [] fits all
      ∙ outcome_end f (0 + length (frames msgs)) (buffer ++ chunk) msgs
          (drop_past 0 (buffer ++ chunk) (frames msgs) [] all)

  -- Where they are whole frames and then an incomplete one, the messages are handed on, but of the
  -- incomplete frame only what lies behind as many bytes as the whole frames took is kept: the
  -- buffer is cut twice.
  pub read_chunk-cut :
      (tail : List ℕ)
      → IsIncomplete tail
      → buffer ++ chunk ≡ frames msgs ++ tail
      → read_chunk fuel buffer chunk ≡ some (drop (length (frames msgs)) tail, msgs)
  read_chunk-cut tail cut e =
      let f : ℕ = fuel - length msgs - 1 in
      let split : fuel ≡ length msgs + suc f = omega arith in
      let start : 0 + length (frames msgs) ≡ length (frames msgs) = omega arith in
      read_chunk-buffer fuel buffer chunk (buffer ++ chunk) refl
      ∙ ap (λ (t : ℕ). outcome t (start_state (buffer ++ chunk))) split
      ∙ frame_rounds msgs (suc f) 0 (buffer ++ chunk) tail [] fits e
      ∙ outcome_cut f (0 + length (frames msgs)) (buffer ++ chunk) tail msgs cut
          (drop_past 0 (buffer ++ chunk) (frames msgs) tail e)
      ∙ rw start

  -- Where the buffer and the new chunk together are whole frames of messages below 2^31 bytes, one at
  -- least, and then the start of a frame with its length, the messages of the whole frames are handed
  -- on, on fuel for one round more than there are, but less is kept than that start: bytes are lost.
  pub read_chunk_loses :
      (tail : List ℕ)
      → IsIncomplete tail
      → buffer ++ chunk ≡ frames msgs ++ tail
      → msgs ≢ []
      → (kept : List ℕ) × (read_chunk fuel buffer chunk ≡ some (kept, msgs))
        × (length kept < length tail)
  read_chunk_loses tail cut e more =
      let kept : List ℕ = drop (length (frames msgs)) tail in
      (
        kept,
        read_chunk-cut tail cut e,
        omega (
          arith,
          length-drop (length (frames msgs)) tail,
          cut.some_bytes,
          frames-pos msgs fits more,
        ),
      )

-- A frame that two chunks bring is put together: the first chunk hands on nothing and is kept, and
-- with the second the message is handed on and nothing is kept. The read loop begins with an empty
-- buffer; the first chunk is an incomplete start of the frame.
pub read_chunk-two_chunks :
    (msg first second : List ℕ) (fuel : ℕ)
    → length msg < 2 ^ 31
    → IsIncomplete first
    → first ++ second ≡ frame msg
    → 1 < fuel
    → (read_chunk fuel [] first ≡ some (first, []))
      × (read_chunk fuel first second ≡ some ([], msg ∷ []))
read_chunk-two_chunks msg first second fuel fits cut e enough = (
  read_chunk-cut [] fuel [] first tt (omega arith) first cut refl,
  read_chunk-frames (msg ∷ []) fuel first second (fits, tt) (omega arith)
      (e ∙ sym (append-nil (frame msg))),
)
