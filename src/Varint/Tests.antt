-- ===== src/Varint/Tests.antt =====
-- Runs of the varint routines, and the theorems at concrete inputs.
use ipfs_shard.Shared.{◌≡◌, refl, [], ◌∷◌}
use ipfs_shard.Shared.Int.{pos, negsuc, signed32}
use ipfs_shard.Varint.{append_varint, read_varint}

append_300 : append_varint (7 ∷ []) 300 ≡ 7 ∷ 0xac ∷ 2 ∷ []
unfolding append_varint
append_300 = refl

-- The five bytes that stand for -6.
read_minus_six : signed32 (read_varint (0xfa ∷ 0xff ∷ 0xff ∷ 0xff ∷ 0x0f ∷ []) (pos 0)).0 ≡ negsuc 5
unfolding read_varint
read_minus_six = refl

read_cut_off : read_varint (0xac ∷ []) (pos 0) ≡ (44, 2)
unfolding read_varint
read_cut_off = refl

read_before_start : read_varint (1 ∷ 2 ∷ []) (negsuc 4) ≡ (0, 1)
unfolding read_varint
read_before_start = refl
