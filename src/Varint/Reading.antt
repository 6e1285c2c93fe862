-- ===== src/Varint/Reading.antt =====
-- How far `read_varint` reads on any bytes, well formed or not.
use ipfs_shard.Shared.{ℕ, ◌+◌, ◌≤◌, List, [], ◌∷◌, arith, length, drop, length-drop}
use ipfs_shard.Shared.Int.{ℤ, pos, negsuc}
use ipfs_shard.Varint.{shift_group, read_from, read_varint}
use Prim.Native.Nat.{bit_or}

read_from_count :
    (bytes : List ℕ) (result shift count : ℕ)
    → (count + 1 ≤ (read_from bytes result shift count).1)
      × ((read_from bytes result shift count).1 ≤ count + length bytes + 1)
unfolding read_from
read_from_count [] result shift count = omega arith
read_from_count (b ∷ rest) result shift count =
    ground
      (arith, read_from_count rest (bit_or result (shift_group b shift)) (shift + 7) (count + 1))

-- A read counts at least one byte, at any offset.
pub read_varint_takes : (bytes : List ℕ) (offset : ℤ) → 1 ≤ (read_varint bytes offset).1
unfolding read_varint
read_varint_takes bytes (pos k) = omega (arith, read_from_count (drop k bytes) 0 0 0)
read_varint_takes bytes (negsuc k) = omega arith

-- A read counts at most one byte behind the last, whatever the bytes.
pub read_varint_stays :
    (bytes : List ℕ) (k : ℕ)
    → k ≤ length bytes
    → k + (read_varint bytes (pos k)).1 ≤ length bytes + 1
unfolding read_varint
read_varint_stays bytes k h =
    omega (arith, read_from_count (drop k bytes) 0 0 0, length-drop k bytes)
