-- ===== src/Libc/Number/Digits.antt =====
-- The strings of digits that `itoa` and `printf_hex` produce, read as numbers.
use hexos.Base.{
  ℕ, zero, suc, ◌+◌, ◌-◌, ◌*◌, ◌^◌, ◌<◌, ◌≤◌, ◌≡◌, refl, arith, List, [], ◌∷◌, if◌then◌else◌, ltb,
  ◌>>◌, bit_and,
}
use hexos.Base.Bits.{bit_and_mask}
use hexos.Libc.Number.{Text, hexdigit, hex_loop, printf_hex}

-- The digit that a character stands for: `0` to `9`, and from `a` on; 36 for what lies between.
abbrev pub digit_value : ℕ → ℕ
digit_value c = if ltb c 58 then c - 48 else if ltb c 97 then 36 else c - 87

-- The number that the first `n` characters stand for.
unfoldable pub value : ℕ → ℕ → Text → ℕ
value zero base str = 0
value (suc n) base str = value n base str * base + digit_value (str n)

-- The number that `n` characters from `i` on stand for, the lowest digit first.
unfoldable pub low_first : ℕ → ℕ → ℕ → Text → ℕ
low_first zero base i str = 0
low_first (suc n) base i str = low_first n base (i + 1) str * base + digit_value (str i)

low_first-frame :
    (n base i : ℕ) (str str' : Text)
    → ((k : ℕ) → i ≤ k → str' k ≡ str k)
    → low_first n base i str' ≡ low_first n base i str
unfolding low_first
low_first-frame zero base i str str' h = refl
low_first-frame (suc n) base i str str' h =
    rw (low_first-frame n base (i + 1) str str' (λ k le. h k (omega arith)), h i (omega arith)) refl

-- What the loop leaves: `n` digits from `i` on, the lowest first, that stand for the number.
record Written (num base i : ℕ) (str : Text) (n : ℕ) (str' : Text) : Type 0 where
  number : low_first n base i str' ≡ num
  below : (k : ℕ) → k < i → str' k ≡ str k
  digits : (k : ℕ) → i ≤ k → k < i + n → digit_value (str' k) < base

-- The string is the number's digits in the base, and a zero behind them.
pub record Printed (num base n : ℕ) (str : Text) : Type 0 where
  pub some_digit : 0 < n
  pub number : value n base str ≡ num
  pub digits : (k : ℕ) → k < n → digit_value (str k) < base
  pub terminator : str n ≡ 0

-- The number that a list of hexadecimal digits stands for, behind `acc`.
abbrev pub hex_value : ℕ → List ℕ → ℕ
hex_value acc [] = acc
hex_value acc (c ∷ text) = hex_value (acc * 16 + digit_value c) text

hexdigit-value : (d : ℕ) → d < 16 → digit_value (hexdigit d) ≡ d
unfolding hexdigit
hexdigit-value d h = ground arith

-- `printf_hex` prints eight digits that stand for the number.
pub printf_hex-value : (i : ℕ) → i < 2 ^ 32 → hex_value 0 (printf_hex i) ≡ i
unfolding printf_hex hex_loop
printf_hex-value i h =
    rw
      (
        hexdigit-value (bit_and (i >> 28) 15) (digit_lt (i >> 28)),
        hexdigit-value (bit_and (i >> 24) 15) (digit_lt (i >> 24)),
        hexdigit-value (bit_and (i >> 20) 15) (digit_lt (i >> 20)),
        hexdigit-value (bit_and (i >> 16) 15) (digit_lt (i >> 16)),
        hexdigit-value (bit_and (i >> 12) 15) (digit_lt (i >> 12)),
        hexdigit-value (bit_and (i >> 8) 15) (digit_lt (i >> 8)),
        hexdigit-value (bit_and (i >> 4) 15) (digit_lt (i >> 4)),
        hexdigit-value (bit_and (i >> 0) 15) (digit_lt (i >> 0)),
        bit_and_mask 4 (i >> 28),
        bit_and_mask 4 (i >> 24),
        bit_and_mask 4 (i >> 20),
        bit_and_mask 4 (i >> 16),
        bit_and_mask 4 (i >> 12),
        bit_and_mask 4 (i >> 8),
        bit_and_mask 4 (i >> 4),
        bit_and_mask 4 (i >> 0),
      )
      (omega arith)
  where
    digit_lt : (x : ℕ) → bit_and x 15 < 16
    digit_lt x = omega (arith, bit_and_mask 4 x)
