-- ===== src/Base/Masks.antt =====
-- The digits of the masks that set and clear a single bit.
use native.Mathlib.Nat.{pow-suc, one-le-pow, zero-div, pow-le-pow_right}
use Prim.Native.Nat.{ℕ, ◌*◌, zero, suc, ◌-◌, ◌/◌, ◌^◌, ◌<◌, ◌≤◌, bit_and, bit_or}
use mathlib.Core.Path.{◌≡◌, refl}
use native.Mathlib.Omega.{arith}
use hexos.Base.Tests.{◌==◌, if◌then◌else◌}
use hexos.Base.Bits.{
  bit, bit-halve, bit-bit_and, bit-bit_or, bit_le_one, bit_and-halves, bit_and_mask,
}

pub bit-zero : (j : ℕ) → bit 0 j ≡ 0
bit-zero j = omega (arith, zero-div (2 ^ j))

pub bit-ones : (n l : ℕ) → l < n → bit (2 ^ n - 1) l ≡ 1
bit-ones zero l h = absurd (omega arith)
bit-ones (suc n) zero h = omega (arith, pow-suc 2 n, one-le-pow n 2)
bit-ones (suc n) (suc l) h = rw (bit-halve, half) (bit-ones n l (omega arith))
  where
    half : (2 ^ suc n - 1) / 2 ≡ 2 ^ n - 1
    half = omega (arith, pow-suc 2 n, one-le-pow n 2)

bit-mask : (n j l : ℕ) → j < n → l < n → bit (2 ^ n - 1 - 2 ^ j) l ≡ (if l == j then 0 else 1)
bit-mask zero j l h g = absurd (omega arith)
bit-mask (suc n) zero zero h g = omega (arith, pow-suc 2 n, one-le-pow n 2)
bit-mask (suc n) zero (suc l) h g =
    rw (bit-halve, half) (ground (arith, bit-ones n l (omega arith)))
  where
    half : (2 ^ suc n - 1 - 1) / 2 ≡ 2 ^ n - 1
    half = omega (arith, pow-suc 2 n, one-le-pow n 2)
bit-mask (suc n) (suc j) zero h g = ground (arith, pow-suc 2 n, pow-suc 2 j, below, one-le-pow n 2)
  where
    below : 2 ^ suc j ≤ 2 ^ n
    below = pow-le-pow_right (omega arith) (omega arith)
bit-mask (suc n) (suc j) (suc l) h g =
    rw (bit-halve, half) (ground (arith, bit-mask n j l (omega arith) (omega arith)))
  where
    half : (2 ^ suc n - 1 - 2 ^ suc j) / 2 ≡ 2 ^ n - 1 - 2 ^ j
    half = omega (arith, pow-suc 2 n, pow-suc 2 j, one-le-pow n 2)

bit-pow : (j l : ℕ) → bit (2 ^ j) l ≡ (if l == j then 1 else 0)
bit-pow zero zero = refl
bit-pow zero (suc l) = rw bit-halve (ground (arith, bit-zero l))
bit-pow (suc j) zero = ground (arith, pow-suc 2 j)
bit-pow (suc j) (suc l) = rw (bit-halve, half) (ground (arith, bit-pow j l))
  where
    half : 2 ^ suc j / 2 ≡ 2 ^ j
    half = omega (arith, pow-suc 2 j)

-- Clearing and setting digit `j`.
pub bit-clear :
    (x j l : ℕ)
    → j < 32
    → l < 32
    → bit (bit_and x (2 ^ 32 - 1 - 2 ^ j)) l ≡ (if l == j then 0 else bit x l)
bit-clear x j l h g =
    ground (arith, bit-bit_and x (2 ^ 32 - 1 - 2 ^ j) l, bit-mask 32 j l, bit_le_one x l)

pub bit-set : (x j l : ℕ) → bit (bit_or x (2 ^ j)) l ≡ (if l == j then 1 else bit x l)
bit-set x j l = ground (arith, bit-bit_or x (2 ^ j) l, bit-pow j l, bit_le_one x l)

-- `x & 0xF0` at a byte.
pub high_nibble : (x : ℕ) → x < 256 → bit_and x 240 ≡ x / 16 * 16
high_nibble x h = omega (
  arith,
  bit_and-halves x 240,
  bit_and-halves (x / 2) 120,
  bit_and-halves (x / 2 / 2) 60,
  bit_and-halves (x / 2 / 2 / 2) 30,
  bit_and_mask 4 (x / 2 / 2 / 2 / 2),
)
