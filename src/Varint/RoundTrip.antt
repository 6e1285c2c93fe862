-- ===== src/Varint/RoundTrip.antt =====
-- `read_varint` on what `append_varint` wrote.
use ipfs_shard.Shared.{
  ℕ, zero, suc, ◌+◌, ◌*◌, ◌/◌, ◌%◌, ◌^◌, ◌≤◌, ◌<◌, List, [], ◌∷◌, ◌++◌, ◌≡◌, ap, ◌∙◌, arith, length,
  drop, drop-append, append_assoc, ltb, Bool-cases, inl, inr,
}
use ipfs_shard.Shared.Int.{pos}
use ipfs_shard.Shared.Bits.{low_seven, top_bit, bit_or_above}
use ipfs_shard.Varint.{append_varint, shift_group, read_from, read_varint}
use ipfs_shard.Varint.Encoding.{groups, append_varint-groups}
use native.Mathlib.Nat.{div-add-mod}
use native.Mathlib.Numerals.{towards_suc}

shift_group_lem :
    (b shift : ℕ)
    → b < 256
    → shift < 32
    → b % 128 * 2 ^ shift < 2 ^ 32
    → shift_group b shift ≡ b % 128 * 2 ^ shift
shift_group_lem b shift hb hs fits =
    let small : shift % 32 ≡ shift = omega arith in rw (low_seven b hb, small) (omega arith)

pub seven_more : (s : ℕ) → 2 ^ (s + 7) ≡ 128 * 2 ^ s
seven_more s = simp towards_suc (omega arith)

split_low : (n s : ℕ) → n * 2 ^ s ≡ n % 128 * 2 ^ s + n / 128 * 2 ^ (s + 7)
split_low n s = omega (
  arith,
  ap (λ (t : ℕ). t * 2 ^ s) (div-add-mod n 128),
  ap (λ (t : ℕ). n / 128 * t) (seven_more s),
)

pub last_group :
    (n result shift count : ℕ) (rest : List ℕ)
    → n < 128
    → shift < 32
    → result < 2 ^ shift
    → result + n * 2 ^ shift < 2 ^ 32
    → read_from (n ∷ rest) result shift count ≡ (result + n * 2 ^ shift, count + 1)
unfolding read_from
last_group n result shift count rest hn hs hr fits =
    let low : n % 128 ≡ n = omega arith in
    let shifted : shift_group n shift ≡ n * 2 ^ shift =
      shift_group_lem n shift (omega arith) hs (rw low (omega arith)) ∙ rw low in
    ground (arith, top_bit n, bit_or_above shift result n hr)

pub inner_byte :
    (g result shift count : ℕ) (rest : List ℕ)
    → g < 128
    → shift < 32
    → result < 2 ^ shift
    → result + g * 2 ^ shift < 2 ^ 32
    → read_from ((g + 128) ∷ rest) result shift count
      ≡ read_from rest (result + g * 2 ^ shift) (shift + 7) (count + 1)
unfolding read_from
inner_byte g result shift count rest hg hs hr fits =
    let low : (g + 128) % 128 ≡ g = omega arith in
    let shifted : shift_group (g + 128) shift ≡ g * 2 ^ shift =
      shift_group_lem (g + 128) shift (omega arith) hs (rw low (omega arith)) ∙ rw low in
    ground (arith, top_bit (g + 128), bit_or_above shift result g hr)

pub group_fits : (g r p : ℕ) → g < 128 → r < p → r + g * p < 128 * p
group_fits g r p hg hr = grind arith

read_from-groups :
    (k n result shift count : ℕ) (rest : List ℕ)
    → shift + 7 * k ≤ 28
    → n < 128 ^ suc k
    → result < 2 ^ shift
    → result + n * 2 ^ shift < 2 ^ 32
    → read_from (groups k n ++ rest) result shift count
      ≡ (result + n * 2 ^ shift, count + length (groups k n))
unfolding groups
read_from-groups zero n result shift count rest hs hn hr fits =
    last_group n result shift count rest (omega arith) (omega arith) hr fits
read_from-groups (suc k) n result shift count rest hs hn hr fits =
    let split = split_low n shift in
    let room = group_fits (n % 128) result (2 ^ shift) in
    elim (Bool-cases (ltb 0x7f n)) [
      | inl more ↦ rw more (
          inner_byte (n % 128) result shift count (groups k (n / 128) ++ rest) (omega arith)
            (omega arith) hr (omega arith)
          ∙ read_from-groups k (n / 128) (result + n % 128 * 2 ^ shift) (shift + 7) (count + 1) rest
              (omega arith) (omega arith) (omega (arith, seven_more shift, room)) (omega arith)
          ∙ ground (arith, split))
      | inr done ↦
          rw done (last_group n result shift count rest (ground arith) (omega arith) hr fits)
    ]

-- At any offset where the groups of a 32-bit number stand, whatever follows them.
pub read_varint-at :
    (n k : ℕ) (bytes rest : List ℕ)
    → n < 2 ^ 32
    → drop k bytes ≡ groups 4 n ++ rest
    → read_varint bytes (pos k) ≡ (n, length (groups 4 n))
unfolding read_varint
read_varint-at n k bytes rest h at = rw at (
    read_from-groups 4 n 0 0 0 rest (omega arith) (omega arith) (omega arith) (omega arith)
    ∙ ground arith)

-- For every 32-bit number, `read_varint` at the end of `buf` reads back what `append_varint` wrote
-- there, whatever follows, and counts exactly the bytes written.
pub read_varint-append_varint :
    (buf rest : List ℕ) (n : ℕ)
    → n < 2 ^ 32
    → read_varint (append_varint buf n ++ rest) (pos (length buf))
      ≡ (n, length (append_varint [] n))
read_varint-append_varint buf rest n h =
    let whole : append_varint buf n ++ rest ≡ buf ++ (groups 4 n ++ rest) =
      rw (append_varint-groups buf n h) (append_assoc buf (groups 4 n) rest) in
    let there : drop (length buf) (append_varint buf n ++ rest) ≡ groups 4 n ++ rest =
      rw whole (drop-append buf (groups 4 n ++ rest)) in
    rw (append_varint-groups [] n h)
      (read_varint-at n (length buf) (append_varint buf n ++ rest) rest h there)
