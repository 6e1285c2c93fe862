-- ===== src/Codec/Short.antt =====
-- Bytes in which no four continuation bytes stand in a row, and what the decoders of
-- src/bitswap-codec.ts read from them.
use ipfs_shard.Shared.{
  ℕ, zero, suc, ◌+◌, ◌-◌, ◌*◌, ◌^◌, ◌≤◌, ◌<◌, List, [], ◌∷◌, ◌≡◌, ◌∙◌, ap, arith, length, take,
  drop, length-drop, dec_lt,
}
use ipfs_shard.Shared.Int.{ℤ, pos, negsuc}
use ipfs_shard.Shared.Bits.{bit_or-zero}
use ipfs_shard.Varint.{read_from, read_varint}
use ipfs_shard.Varint.RoundTrip.{last_group, inner_byte, group_fits, seven_more}
use ipfs_shard.Codec.Fields.{slice, clamp}

-- `budget` more continuation bytes may stand here.
abbrev pub IsShortFrom : ℕ → List ℕ → Type 0
IsShortFrom budget [] = Unit {0}
IsShortFrom zero (b ∷ bytes) = (b < 128) × IsShortFrom 3 bytes
IsShortFrom (suc budget) (b ∷ bytes) =
    (b < 256) × (b < 128 → IsShortFrom 3 bytes) × (128 ≤ b → IsShortFrom budget bytes)

abbrev pub IsShort : List ℕ → Type 0
IsShort = IsShortFrom 3

IsShortFrom-raise : (n k : ℕ) (bytes : List ℕ) → n ≤ k → IsShortFrom n bytes → IsShortFrom k bytes
IsShortFrom-raise n k [] h s = tt
IsShortFrom-raise zero zero (b ∷ bytes) h s = s
IsShortFrom-raise zero (suc k) (b ∷ bytes) h (small, s) =
    (omega arith, λ _. s, λ large. absurd (omega arith))
IsShortFrom-raise (suc n) zero (b ∷ bytes) h s = absurd (omega arith)
IsShortFrom-raise (suc n) (suc k) (b ∷ bytes) h (byte, last, more) =
    (byte, last, λ large. IsShortFrom-raise n k bytes (omega arith) (more large))

IsShort-tail : (n b : ℕ) (bytes : List ℕ) → n ≤ 3 → IsShortFrom n (b ∷ bytes) → IsShort bytes
IsShort-tail zero b bytes h (small, s) = s
IsShort-tail (suc n) b bytes h (byte, last, more) = elim (dec_lt b 128) [
  | yes small ↦ last small
  | no large ↦ IsShortFrom-raise n 3 bytes (omega arith) (more (omega arith))
]

IsShort-drop : (k : ℕ) (bytes : List ℕ) → IsShort bytes → IsShort (drop k bytes)
IsShort-drop zero bytes s = s
IsShort-drop (suc k) [] s = tt
IsShort-drop (suc k) (b ∷ bytes) s = IsShort-drop k bytes (IsShort-tail 3 b bytes (omega arith) s)

IsShortFrom-take : (k n : ℕ) (bytes : List ℕ) → IsShortFrom n bytes → IsShortFrom n (take k bytes)
IsShortFrom-take zero n bytes s = unit n
  where
    unit : (n : ℕ) → IsShortFrom n []
    unit n = tt
IsShortFrom-take (suc k) n [] s = tt
IsShortFrom-take (suc k) zero (b ∷ bytes) (small, s) = (small, IsShortFrom-take k 3 bytes s)
IsShortFrom-take (suc k) (suc n) (b ∷ bytes) (byte, last, more) = (
  byte,
  λ small. IsShortFrom-take k 3 bytes (last small),
  λ large. IsShortFrom-take k n bytes (more large),
)

-- A slice of such bytes is such bytes, and no longer than they are.
pub IsShort-slice :
    (bytes : List ℕ) (start end : ℤ) → IsShort bytes → IsShort (slice bytes start end)
IsShort-slice bytes start end s =
    IsShortFrom-take _ 3 _ (IsShort-drop (clamp (length bytes) start) bytes s)

length-take-le_length : (n : ℕ) (xs : List ℕ) → length (take n xs) ≤ length xs
length-take-le_length zero xs = omega arith
length-take-le_length (suc n) [] = omega arith
length-take-le_length (suc n) (x ∷ xs) = omega (arith, length-take-le_length n xs)

pub length-slice-le :
    (bytes : List ℕ) (start end : ℤ) → length (slice bytes start end) ≤ length bytes
length-slice-le bytes start end =
    let from : ℕ = clamp (length bytes) start in
    omega (
      arith,
      length-take-le_length (clamp (length bytes) end - from) (drop from bytes),
      length-drop from bytes,
    )

pow_mono : (s t : ℕ) → s ≤ t → 2 ^ s ≤ 2 ^ t
pow_mono zero zero h = omega arith
pow_mono zero (suc t) h = omega (arith, pow_mono zero t (omega arith))
pow_mono (suc s) zero h = absurd (omega arith)
pow_mono (suc s) (suc t) h = omega (arith, pow_mono s t (omega arith))

last_small :
    (b result shift count : ℕ) (bytes : List ℕ)
    → b < 128
    → shift ≤ 21
    → result < 2 ^ shift
    → (read_from (b ∷ bytes) result shift count).0 < 2 ^ 28
last_small b result shift count bytes hb hs hr =
    let fits : result + b * 2 ^ shift < 2 ^ 28 =
      omega (arith, group_fits b result (2 ^ shift), pow_mono shift 21 hs) in
    rw (last_group b result shift count bytes hb (omega arith) hr (omega arith)) fits

read_from_small :
    (budget : ℕ) (bytes : List ℕ) (result shift count : ℕ)
    → IsShortFrom budget bytes
    → shift + 7 * budget ≤ 21
    → result < 2 ^ shift
    → (read_from bytes result shift count).0 < 2 ^ 28
read_from_small budget [] result shift count s hs hr =
    unfold read_from in rw (bit_or-zero result) (omega (arith, pow_mono shift 21 (omega arith)))
read_from_small zero (b ∷ bytes) result shift count (small, s) hs hr =
    last_small b result shift count bytes small (omega arith) hr
read_from_small (suc budget) (b ∷ bytes) result shift count (byte, last, more) hs hr =
    elim (dec_lt b 128) [
      | yes small ↦ last_small b result shift count bytes small (omega arith) hr
      | no large ↦
          let g : ℕ = b - 128 in
          let split : b ≡ g + 128 = omega arith in
          let room = group_fits g result (2 ^ shift) (omega arith) hr in
          let fits : result + g * 2 ^ shift < 2 ^ 32 =
            omega (arith, room, pow_mono shift 21 (omega arith)) in
          rw
            (ap (λ (t : ℕ). read_from (t ∷ bytes) result shift count) split
              ∙ inner_byte g result shift count bytes (omega arith) (omega arith) hr fits)
            (read_from_small budget bytes (result + g * 2 ^ shift) (shift + 7) (count + 1)
              (more (omega arith)) (omega arith) (omega (arith, room, seven_more shift)))
    ]

-- So every value read is below 2 ^ 28, at any offset.
pub read_varint-lt :
    (bytes : List ℕ) (offset : ℤ) → IsShort bytes → (read_varint bytes offset).0 < 2 ^ 28
unfolding read_varint
read_varint-lt bytes (pos k) s =
    read_from_small 3 (drop k bytes) 0 0 0 (IsShort-drop k bytes s) (omega arith) (omega arith)
read_varint-lt bytes (negsuc k) s = read_from_small 3 [] 0 0 0 tt (omega arith) (omega arith)
