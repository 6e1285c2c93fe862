-- ===== src/Codec/Hanging.antt =====
-- `decodeMessage` of src/bitswap-codec.ts on a message with the length -6, which moves the offset
-- back.
use ipfs_shard.Shared.{ℕ, List, ◌∷◌, ◌≡◌, refl, ap, none, length, lt→ltb, arith}
use ipfs_shard.Shared.Int.{pos}
use ipfs_shard.Shared.Loop.{next, loop_stuck}
use ipfs_shard.Multiformats.{Multiformats}
use ipfs_shard.Varint.{read_varint}
use ipfs_shard.Codec.Fields.{read_header, read_field}
use ipfs_shard.Codec.Decode.{DecodedMessage, message_field, message_body, decode_message}
use mathlib.Core.Option

-- Field 7, which no decoder knows, of the length -6.
abbrev pub looping : List ℕ → List ℕ
looping rest = 0x3a ∷ 0xfa ∷ 0xff ∷ 0xff ∷ 0xff ∷ 0x0f ∷ rest

module _ (m : Multiformats) where
  looping_round :
      (fuel : ℕ) (rest : List ℕ) (found : DecodedMessage m)
      → message_body m fuel (looping rest) (record { offset = pos 0; found = found })
        ≡ next (record { offset = pos 0; found = found })
  unfolding message_body message_field read_header read_field read_varint
  looping_round fuel rest found = rw (lt→ltb 0 (length (looping rest)) (omega arith)) refl

  -- Whatever follows the six bytes, `decode_message` runs out of every amount of fuel: the program's
  -- loop does not end.
  pub decode_message-looping :
      (fuel : ℕ) (rest : List ℕ) → decode_message m fuel (looping rest) ≡ none
  unfolding decode_message
  decode_message-looping fuel rest =
      ap (Option.map (λ s. s.found))
        (loop_stuck (message_body m fuel (looping rest)) _ (looping_round fuel rest _) fuel)
