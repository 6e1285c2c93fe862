-- ===== src/Varint.antt =====
-- `appendVarint` and `readVarint` of src/bitswap-codec.ts. A `Uint8Array` or a `number[]` is a list
-- of numbers; a 32-bit integer is its bit pattern, below 2 ^ 32.
pub mod Encoding
pub mod RoundTrip
pub mod Reading
mod Tests
use ipfs_shard.Shared.{
  ℕ, zero, suc, ◌+◌, ◌*◌, ◌/◌, ◌%◌, ◌^◌, ◌<◌, bit_and, bit_or, List, [], ◌∷◌, ◌++◌, arith, ◌==◌,
  if◌then◌else◌, drop, length, dec_lt,
}
use ipfs_shard.Shared.Int.{ℤ, pos, negsuc}
use ipfs_shard.Shared.Order.{lt_wf}
use mathlib.Core.Logic.{dite}
use mathlib.Core.WellFounded.{Acc}

-- `n >>> 7`: the number is first cut to 32 bits.
abbrev pub shr_seven : ℕ → ℕ
shr_seven n = n % 2 ^ 32 / 128

pub shr_seven-lt : (n : ℕ) → 0x7f < n → shr_seven n < n
shr_seven-lt n h = omega arith

-- The `while` loop, by recursion on the number that is still to be written.
append_loop : List ℕ → (n : ℕ) → Acc ◌<◌ n → List ℕ
append_loop buf n (Acc.intro _ smaller) =
    dite (dec_lt 0x7f n)
      (λ more.
        append_loop (buf ++ (bit_or (bit_and n 0x7f) 0x80 ∷ [])) (shr_seven n)
          (smaller _ (shr_seven-lt n more)))
      (λ _. buf ++ (n ∷ []))

unfoldable pub append_varint : List ℕ → ℕ → List ℕ
unfolding append_loop lt_wf dec_lt
append_varint buf n = append_loop buf n (lt_wf.apply n)

-- `(b & 0x7f) << shift`: the count is taken modulo 32, and bits above the 32nd are lost.
abbrev pub shift_group : ℕ → ℕ → ℕ
shift_group b shift = bit_and b 0x7f * 2 ^ (shift % 32) % 2 ^ 32

-- The loop of `readVarint` over the bytes from `pos` on. Behind the last one `buf[pos++]` is
-- `undefined`, of which `&` makes 0: the loop ends there, and counts one byte more.
unfoldable pub read_from : List ℕ → (result shift count : ℕ) → ℕ × ℕ
read_from [] result shift count = (bit_or result 0, count + 1)
read_from (b ∷ rest) result shift count =
    let joined = bit_or result (shift_group b shift) in
    let more = read_from rest joined (shift + 7) (count + 1) in
    if bit_and b 0x80 == 0 then (joined, count + 1) else more

-- The value read, as a 32-bit pattern, and the number of bytes read. At a negative offset
-- `buf[offset]` is `undefined`.
unfoldable pub read_varint : List ℕ → ℤ → ℕ × ℕ
unfolding read_from
read_varint buf (pos k) = read_from (drop k buf) 0 0 0
read_varint buf (negsuc k) = read_from [] 0 0 0
