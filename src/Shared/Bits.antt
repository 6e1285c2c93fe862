-- ===== src/Shared/Bits.antt =====
-- The bitwise operators on bytes and on disjoint groups of bits, as plain arithmetic.
use Prim.Native.Nat.{
  ℕ, zero, suc, ◌+◌, ◌*◌, ◌/◌, ◌%◌, ◌^◌, ◌≤◌, ◌<◌, min, max, bit_and, bit_or, digits,
  bit_and-bitwise, bit_or-bitwise,
}
use mathlib.Core.Path.{◌≡◌, refl, ap}
use mathlib.Core.Bool.{Bool, true, ◌&&◌}
use native.Mathlib.Omega.{arith}
use ipfs_shard.Shared.Tests.{◌==◌}

module _ (f g : ℕ → ℕ) where
  agree : ℕ → Bool
  agree zero = true
  agree (suc n) = f n == g n && agree n

  agree_sound : (n : ℕ) → agree n ≡ true → (i : ℕ) → i < n → f i ≡ g i
  unfolding agree
  agree_sound zero e i h = absurd (omega arith)
  agree_sound (suc n) e i h = ground (arith, agree_sound n (ground arith) i)

pub low_seven : (b : ℕ) → b < 256 → bit_and b 0x7f ≡ b % 128
unfolding agree
low_seven = agree_sound _ _ 256 refl

pub top_bit : (b : ℕ) → b < 256 → bit_and b 0x80 ≡ b / 128 * 128
unfolding agree
top_bit = agree_sound _ _ 256 refl

pub set_top_bit : (b : ℕ) → b < 128 → bit_or b 0x80 ≡ b + 128
unfolding agree
set_top_bit = agree_sound _ _ 128 refl

-- The digit recursion of the native operators, for any digit rule `f`.
module _ (z : ℕ → ℕ) (f : ℕ → ℕ → ℕ) where
  digits_enough : (x y j k : ℕ) → x ≤ j → x ≤ k → digits z f j x y ≡ digits z f k x y
  digits_enough zero y zero zero _ _ = refl
  digits_enough zero y (suc j) zero _ _ = refl
  digits_enough zero y zero (suc k) _ _ = refl
  digits_enough zero y (suc j) (suc k) _ _ = refl
  digits_enough (suc x) y zero k hj _ = absurd (omega arith)
  digits_enough (suc x) y (suc j) zero _ hk = absurd (omega arith)
  digits_enough (suc x) y (suc j) (suc k) hj hk =
      let half = suc x / 2 in
      omega (arith, digits_enough half (y / 2) j k (omega arith) (omega arith))

bit_or_step :
    (a b : ℕ) → bit_or (suc a) b ≡ bit_or (suc a / 2) (b / 2) * 2 + max (suc a % 2) (b % 2)
bit_or_step a b = omega (
  arith,
  bit_or-bitwise (suc a) b,
  bit_or-bitwise (suc a / 2) (b / 2),
  digits_enough (λ b. b) max (suc a / 2) (b / 2) a (suc a / 2) (omega arith) (omega arith),
)

bit_and_step : (a b : ℕ) → bit_and a b ≡ bit_and (a / 2) (b / 2) * 2 + min (a % 2) (b % 2)
bit_and_step zero b = omega (arith, bit_and-bitwise 0 b, bit_and-bitwise 0 (b / 2))
bit_and_step (suc a) b = omega (
  arith,
  bit_and-bitwise (suc a) b,
  bit_and-bitwise (suc a / 2) (b / 2),
  digits_enough (λ b. 0) min (suc a / 2) (b / 2) a (suc a / 2) (omega arith) (omega arith),
)

zero-bit_or : (b : ℕ) → bit_or 0 b ≡ b
zero-bit_or b = bit_or-bitwise 0 b

-- A group of bits above all bits of `a` joins it by addition.
pub bit_or_above : (s a g : ℕ) → a < 2 ^ s → bit_or a (g * 2 ^ s) ≡ a + g * 2 ^ s
bit_or_above s zero g h = omega (arith, zero-bit_or (g * 2 ^ s))
bit_or_above zero (suc a) g h = absurd (omega arith)
bit_or_above (suc s) (suc a) g h =
    let twice : 2 ^ suc s ≡ 2 * 2 ^ s = omega arith in
    let shifted : g * 2 ^ suc s ≡ 2 * (g * 2 ^ s) = omega (arith, ap (λ (t : ℕ). g * t) twice) in
    let halved : g * 2 ^ suc s / 2 ≡ g * 2 ^ s = omega arith in
    let step : bit_or (suc a / 2) (g * 2 ^ suc s / 2) ≡ suc a / 2 + g * 2 ^ s =
      rw halved (bit_or_above s (suc a / 2) g (omega arith)) in
    omega (arith, bit_or_step a (g * 2 ^ suc s))

bit_and-zero_below : (n a : ℕ) → a ≤ n → bit_and a 0 ≡ 0
bit_and-zero_below n zero h = refl
bit_and-zero_below zero (suc a) h = absurd (omega arith)
bit_and-zero_below (suc n) (suc a) h =
    omega (arith, bit_and_step (suc a) 0, bit_and-zero_below n (suc a / 2) (omega arith))

bit_and-zero : (a : ℕ) → bit_and a 0 ≡ 0
bit_and-zero a = bit_and-zero_below a a (omega arith)

pub bit_and_seven : (a : ℕ) → bit_and a 7 ≡ a % 8
bit_and_seven a = omega (
  arith,
  bit_and_step a 7,
  bit_and_step (a / 2) 3,
  bit_and_step (a / 2 / 2) 1,
  bit_and-zero (a / 2 / 2 / 2),
)

pub bit_and_low_seven : (a : ℕ) → bit_and a 0x7f ≡ a % 128
bit_and_low_seven a = omega (
  arith,
  bit_and_step a 127,
  bit_and_step (a / 2) 63,
  bit_and_step (a / 2 / 2) 31,
  bit_and_step (a / 2 / 2 / 2) 15,
  bit_and_seven (a / 2 / 2 / 2 / 2),
)

pub bit_or-zero : (a : ℕ) → bit_or a 0 ≡ a
bit_or-zero zero = refl
bit_or-zero (suc a) = below (suc a) (suc a) (omega arith)
  where
    below : (n a : ℕ) → a ≤ n → bit_or a 0 ≡ a
    below n zero h = refl
    below zero (suc a) h = absurd (omega arith)
    below (suc n) (suc a) h = omega (arith, bit_or_step a 0, below n (suc a / 2) (omega arith))
