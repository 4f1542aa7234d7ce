-- ===== src/Base/Bits.antt =====
-- `&` and `|` at variables: masks, single bits and disjoint fields, as arithmetic.
use Prim.Native.Nat.{
  ℕ, zero, suc, ◌+◌, ◌-◌, ◌*◌, ◌/◌, ◌%◌, ◌^◌, ◌≤◌, ◌<◌, min, max, bit_and, bit_or, digits, bitwise,
  bit_and-bitwise, bit_or-bitwise,
}
use mathlib.Core.Path.{◌≡◌, refl, ap, ◌∙◌}
use native.Mathlib.Nat.{
  pow-suc, one-le-pow, pow-le-pow_right, div-div-eq-div-mul, div-add-mod, add-mul-mod_self_left,
  mod-eq_of_lt, mod-lt,
}
use native.Mathlib.Omega.{arith}

module _ (z : ℕ → ℕ) (f : ℕ → ℕ → ℕ) where
  -- Any two amounts of fuel that cover the first operand give the same digits.
  same_digits : (k l x y : ℕ) → x ≤ k → x ≤ l → digits z f k x y ≡ digits z f l x y
  same_digits zero zero x y h g = refl
  same_digits zero (suc l) zero y h g = refl
  same_digits (suc k) zero zero y h g = refl
  same_digits (suc k) (suc l) zero y h g = refl
  same_digits zero (suc l) (suc x) y h g = absurd (omega arith)
  same_digits (suc k) zero (suc x) y h g = absurd (omega arith)
  same_digits (suc k) (suc l) (suc x) y h g =
      rw (same_digits k l (suc x / 2) (y / 2) (omega arith) (omega arith))

  lowest_digit :
      (x y : ℕ)
      → bitwise z f (suc x) y ≡ bitwise z f (suc x / 2) (y / 2) * 2 + f (suc x % 2) (y % 2)
  lowest_digit x y = rw (same_digits x (suc x / 2) (suc x / 2) (y / 2) (omega arith) (omega arith))

pub bit_and-halves : (x y : ℕ) → bit_and x y ≡ bit_and (x / 2) (y / 2) * 2 + min (x % 2) (y % 2)
bit_and-halves zero y = simp bit_and-bitwise (omega arith)
bit_and-halves (suc x) y = simp bit_and-bitwise (lowest_digit (λ _. 0) min x y)

pub bit_or-halves : (x y : ℕ) → bit_or x y ≡ bit_or (x / 2) (y / 2) * 2 + max (x % 2) (y % 2)
bit_or-halves zero y = simp bit_or-bitwise (omega arith)
bit_or-halves (suc x) y = simp bit_or-bitwise (lowest_digit (λ t. t) max x y)

-- Digit `j` of `x`.
abbrev pub bit : ℕ → ℕ → ℕ
bit x j = x / 2 ^ j % 2

pub bit-halve : (x j : ℕ) → bit x (suc j) ≡ bit (x / 2) j
bit-halve x j =
    omega (arith, ap (λ (t : ℕ). x / t) (pow_double j), ap (λ (t : ℕ). t % 2) (quotients j))
  where
    pow_double : (j : ℕ) → 2 ^ suc j ≡ 2 * 2 ^ j
    pow_double j = omega (arith, pow-suc 2 j)

    quotients : (j : ℕ) → x / 2 / 2 ^ j ≡ x / (2 * 2 ^ j)
    quotients j = div-div-eq-div-mul x 2 (2 ^ j)

pub bit_le_one : (x j : ℕ) → bit x j ≤ 1
bit_le_one x j = omega arith

pub bit_and_half : (x y : ℕ) → bit_and x y / 2 ≡ bit_and (x / 2) (y / 2)
bit_and_half x y = omega (arith, bit_and-halves x y)

pub bit_or_half : (x y : ℕ) → bit_or x y / 2 ≡ bit_or (x / 2) (y / 2)
bit_or_half x y = omega (arith, bit_or-halves x y)

pub bit-bit_and : (x y j : ℕ) → bit (bit_and x y) j ≡ min (bit x j) (bit y j)
bit-bit_and x y zero = omega (arith, bit_and-halves x y)
bit-bit_and x y (suc j) = simp (bit-halve, bit_and_half) (bit-bit_and (x / 2) (y / 2) j)

pub bit-bit_or : (x y j : ℕ) → bit (bit_or x y) j ≡ max (bit x j) (bit y j)
bit-bit_or x y zero = omega (arith, bit_or-halves x y)
bit-bit_or x y (suc j) = simp (bit-halve, bit_or_half) (bit-bit_or (x / 2) (y / 2) j)

pub bit_and-zero : (x : ℕ) → bit_and x 0 ≡ 0
bit_and-zero x = by_fuel x x (omega arith)
  where
    by_fuel : (k x : ℕ) → x ≤ k → bit_and x 0 ≡ 0
    by_fuel k zero h = refl
    by_fuel zero (suc x) h = absurd (omega arith)
    by_fuel (suc k) (suc x) h =
        omega (arith, bit_and-halves (suc x) 0, by_fuel k (suc x / 2) (omega arith))

pub bit_or-zero : (x : ℕ) → bit_or x 0 ≡ x
bit_or-zero x = by_fuel x x (omega arith)
  where
    by_fuel : (k x : ℕ) → x ≤ k → bit_or x 0 ≡ x
    by_fuel k zero h = refl
    by_fuel zero (suc x) h = absurd (omega arith)
    by_fuel (suc k) (suc x) h =
        omega (arith, bit_or-halves (suc x) 0, by_fuel k (suc x / 2) (omega arith))

-- `x & (1 << j)` tests digit `j`.
pub bit_and-pow : (x j : ℕ) → bit_and x (2 ^ j) ≡ bit x j * 2 ^ j
bit_and-pow x zero = omega (arith, bit_and-halves x 1, bit_and-zero (x / 2))
bit_and-pow x (suc j) = omega (
  arith,
  bit_and-halves x (2 ^ suc j),
  ap (λ (t : ℕ). bit_and (x / 2) t) (half_pow j),
  bit_and-pow (x / 2) j,
  pow-suc 2 j,
  bit-halve x j,
  ap (λ (t : ℕ). bit x (suc j) * t) (pow-suc 2 j),
  ap (λ (t : ℕ). t * 2 ^ j) (bit-halve x j),
)
  where
    half_pow : (j : ℕ) → 2 ^ suc j / 2 ≡ 2 ^ j
    half_pow j = omega (arith, pow-suc 2 j)

-- The remainder by `2 * m`, a digit at a time.
mod-double : (x m : ℕ) → 0 < m → x % (2 * m) ≡ x / 2 % m * 2 + x % 2
mod-double x m h =
    let r : ℕ = x / 2 % m * 2 + x % 2 in
    let whole : x ≡ r + 2 * m * (x / 2 / m) = omega (arith, div-add-mod (x / 2) m) in
    ap (λ t. t % (2 * m)) whole
    ∙ add-mul-mod_self_left r (2 * m) (x / 2 / m)
    ∙ mod-eq_of_lt (omega (arith, mod-lt (x / 2) h))

-- `x & (2 ^ k - 1)` is the remainder by `2 ^ k`.
pub bit_and_mask : (k x : ℕ) → bit_and x (2 ^ k - 1) ≡ x % 2 ^ k
bit_and_mask zero x = omega (arith, bit_and-zero x)
bit_and_mask (suc k) x = omega (
  arith,
  bit_and-halves x (2 ^ suc k - 1),
  ap (λ (t : ℕ). bit_and (x / 2) t) half_mask,
  bit_and_mask k (x / 2),
  pow-suc 2 k,
  one-le-pow k 2,
  ap (λ (t : ℕ). x % t) double,
  mod-double x (2 ^ k) (one-le-pow k 2 (omega arith)),
)
  where
    double : 2 ^ suc k ≡ 2 * 2 ^ k
    double = omega (arith, pow-suc 2 k)

    half_mask : (2 ^ suc k - 1) / 2 ≡ 2 ^ k - 1
    half_mask = omega (arith, pow-suc 2 k, one-le-pow k 2)

-- `(q << k) | r` is a sum when `r` fits below.
pub bit_or_fields : (k q r : ℕ) → r < 2 ^ k → bit_or (q * 2 ^ k) r ≡ q * 2 ^ k + r
bit_or_fields zero q r h =
    let none_left : r ≡ 0 = omega arith in rw none_left (omega (arith, bit_or-zero (q * 2 ^ 0)))
bit_or_fields (suc k) q r h = omega (
  arith,
  bit_or-halves (q * 2 ^ suc k) r,
  ap (λ (t : ℕ). bit_or t (r / 2)) halve,
  double,
  bit_or_fields k q (r / 2) (omega (arith, pow-suc 2 k)),
)
  where
    double : q * 2 ^ suc k ≡ 2 * (q * 2 ^ k)
    double = omega (arith, ap (λ (t : ℕ). q * t) (pow-suc 2 k))

    halve : q * 2 ^ suc k / 2 ≡ q * 2 ^ k
    halve = omega (arith, double)

-- `x | (1 << j)` sets digit `j` and no other.
pub bit_or-pow : (x j : ℕ) → bit_or x (2 ^ j) + bit x j * 2 ^ j ≡ x + 2 ^ j
bit_or-pow x zero = omega (arith, bit_or-halves x 1, bit_or-zero (x / 2))
bit_or-pow x (suc j) = omega (
  arith,
  bit_or-halves x (2 ^ suc j),
  ap (λ (t : ℕ). bit_or (x / 2) t) half_pow,
  bit_or-pow (x / 2) j,
  pow-suc 2 j,
  ap (λ (t : ℕ). bit x (suc j) * t) (pow-suc 2 j),
  ap (λ (t : ℕ). t * 2 ^ j) (bit-halve x j),
)
  where
    half_pow : 2 ^ suc j / 2 ≡ 2 ^ j
    half_pow = omega (arith, pow-suc 2 j)

-- `x & ~(1 << j)` at a width of `n` digits clears digit `j` and no other.
pub bit_and-unmask :
    (n j x : ℕ) → j < n → x < 2 ^ n → bit_and x (2 ^ n - 1 - 2 ^ j) + bit x j * 2 ^ j ≡ x
bit_and-unmask zero j x h g = absurd (omega arith)
bit_and-unmask (suc n) zero x h g = omega (
  arith,
  bit_and-halves x (2 ^ suc n - 1 - 1),
  ap (λ (t : ℕ). bit_and (x / 2) t) half_mask,
  bit_and_mask n (x / 2),
  mod-eq_of_lt {n = x / 2} {m = 2 ^ n} (omega (arith, pow-suc 2 n)),
  pow-suc 2 n,
)
  where
    half_mask : (2 ^ suc n - 1 - 1) / 2 ≡ 2 ^ n - 1
    half_mask = omega (arith, pow-suc 2 n, one-le-pow n 2)
bit_and-unmask (suc n) (suc j) x h g = omega (
  arith,
  bit_and-halves x (2 ^ suc n - 1 - 2 ^ suc j),
  ap (λ (t : ℕ). bit_and (x / 2) t) half_mask,
  bit_and-unmask n j (x / 2) (omega arith) (omega (arith, pow-suc 2 n)),
  pow-suc 2 n,
  pow-suc 2 j,
  below,
  ap (λ (t : ℕ). bit x (suc j) * t) (pow-suc 2 j),
  ap (λ (t : ℕ). t * 2 ^ j) (bit-halve x j),
)
  where
    below : 2 ^ suc j ≤ 2 ^ n
    below = pow-le-pow_right (omega arith) (omega arith)

    half_mask : (2 ^ suc n - 1 - 2 ^ suc j) / 2 ≡ 2 ^ n - 1 - 2 ^ j
    half_mask = omega (arith, pow-suc 2 n, pow-suc 2 j, below)

zero_or : (y : ℕ) → bit_or 0 y ≡ y
zero_or y = simp bit_or-bitwise refl

pub bit_or_comm : (x y : ℕ) → bit_or x y ≡ bit_or y x
bit_or_comm x y = by_fuel (x + y) x y (omega arith)
  where
    by_fuel : (k x y : ℕ) → x + y ≤ k → bit_or x y ≡ bit_or y x
    by_fuel k zero y h = omega (arith, bit_or-zero y, zero_or y)
    by_fuel zero (suc x) y h = absurd (omega arith)
    by_fuel (suc k) (suc x) y h = omega (
      arith,
      bit_or-halves (suc x) y,
      bit_or-halves y (suc x),
      by_fuel k (suc x / 2) (y / 2) (omega arith),
    )
