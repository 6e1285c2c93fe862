-- ===== src/DagPb/Hanging.antt =====
-- `decodeDagPB` of src/api/dag-pb.ts on a block with the length -6, which moves the offset back.
use ipfs_shard.Shared.{ℕ, List, ◌∷◌, ◌≡◌, refl, ap, none, length, lt→ltb, arith}
use ipfs_shard.Shared.Loop.{next, loop_stuck}
use ipfs_shard.DagPb.{read_short_varint, read_part, node_body, node_start, decode_dag_pb}
use mathlib.Core.Option

-- Field 3, which no node has, of the length -6.
abbrev pub endless : List ℕ → List ℕ
endless rest = 0x1a ∷ 0xfa ∷ 0xff ∷ 0xff ∷ 0xff ∷ 0x0f ∷ rest

endless_round :
    (fuel : ℕ) (rest : List ℕ) → node_body fuel (endless rest) node_start ≡ next node_start
unfolding node_body read_part read_short_varint
endless_round fuel rest = rw (lt→ltb 0 (length (endless rest)) (omega arith)) refl

-- Whatever follows the six bytes, decoding such a block runs out of every amount of fuel: the
-- program's loop does not end.
pub decode_dag_pb-endless : (fuel : ℕ) (rest : List ℕ) → decode_dag_pb fuel (endless rest) ≡ none
unfolding decode_dag_pb
decode_dag_pb-endless fuel rest =
    ap (Option.map (λ s. s.node))
      (loop_stuck (node_body fuel (endless rest)) _ (endless_round fuel rest) fuel)
