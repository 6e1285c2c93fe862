-- ===== src/Varint/Encoding.antt =====
-- What `append_varint` writes, in plain arithmetic: groups of seven bits, lowest first.
use ipfs_shard.Shared.{
  ℕ, zero, suc, ◌+◌, ◌/◌, ◌%◌, ◌^◌, ◌≤◌, ◌<◌, bit_and, bit_or, List, [], ◌∷◌, ◌++◌, ◌≡◌, arith, ltb,
  if◌then◌else◌, length, All, append_assoc,
}
use ipfs_shard.Shared.Bits.{bit_and_low_seven, set_top_bit}
use ipfs_shard.Varint.{append_loop, append_varint, shr_seven}
use mathlib.Core.WellFounded.{Acc}
use ipfs_shard.Shared.Order.{lt_wf}

-- At most `k + 1` groups.
unfoldable pub groups : ℕ → ℕ → List ℕ
groups zero n = n ∷ []
groups (suc k) n =
    let more = groups k (n / 128) in if ltb 0x7f n then (n % 128 + 128) ∷ more else n ∷ []

inner_group : (n : ℕ) → bit_or (bit_and n 0x7f) 0x80 ≡ n % 128 + 128
inner_group n = omega (arith, bit_and_low_seven n, set_top_bit (bit_and n 0x7f))

append_loop-groups :
    (k : ℕ) (buf : List ℕ) (n : ℕ) (w : Acc ◌<◌ n)
    → n < 2 ^ 32
    → n < 128 ^ suc k
    → append_loop buf n w ≡ buf ++ groups k n
unfolding append_loop groups
append_loop-groups zero buf n (Acc.intro _ smaller) h lt = ground arith
append_loop-groups (suc k) buf n (Acc.intro _ smaller) h lt =
    let cut : shr_seven n ≡ n / 128 = omega arith in
    let first : List ℕ = (n % 128 + 128) ∷ [] in
    grind (
      arith,
      inner_group n,
      λ (w : Acc ◌<◌ (shr_seven n)).
          append_loop-groups k (buf ++ first) (shr_seven n) w (omega arith) (omega arith),
      append_assoc buf first (groups k (n / 128)),
    )

-- On every 32-bit number, `append_varint` keeps the buffer and appends the groups.
pub append_varint-groups :
    (buf : List ℕ) (n : ℕ) → n < 2 ^ 32 → append_varint buf n ≡ buf ++ groups 4 n
unfolding append_varint
append_varint-groups buf n h = append_loop-groups 4 buf n (lt_wf.apply n) h (omega arith)

pub groups-IsByte : (k n : ℕ) → n < 128 ^ suc k → All (λ b. b < 256) (groups k n)
unfolding groups
groups-IsByte zero n h = omega arith
groups-IsByte (suc k) n h = ground (arith, groups-IsByte k (n / 128) (omega arith))

pub length-groups : (k n : ℕ) → (1 ≤ length (groups k n)) × (length (groups k n) ≤ k + 1)
unfolding groups
length-groups zero n = omega arith
length-groups (suc k) n = ground (arith, length-groups k (n / 128))
