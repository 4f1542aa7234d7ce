-- ===== src/Libc/Printf/Numbers.antt =====
-- The digits that `printf_int` and `printf_hex` print, against the usual notation of numbers.
use native.Mathlib.Nat.{
  pow-suc, one-le-pow, pow-le-pow_right, le-div_iff_mul-le, div-add-mod, mod-lt,
}
use hexos.Base.{
  ℕ, zero, suc, ◌+◌, ◌-◌, ◌*◌, ◌/◌, ◌%◌, ◌^◌, ◌<◌, ◌≤◌, ◌≡◌, refl, ap, sym, ◌∙◌, arith, Bool, true,
  false, ◌&&◌, some, List, [], ◌∷◌, if◌then◌else◌, Bool-cases, inl, inr, ◌==◌, ltb, leb, u8, u32,
  ◌>>◌, bit_and,
}
use hexos.Base.Bits.{bit_and_mask}
use hexos.Libc.Number.{hexdigit, hex_loop, printf_hex}
use hexos.Libc.Printf.{grow, digits_down, digits_from, printf_int}

-- The decimal digits of a number below 10^(k + 1), k + 1 of them.
unfoldable pub decimal : ℕ → ℕ → List ℕ
decimal zero v = (48 + v) ∷ []
decimal (suc k) v = (48 + v / 10 ^ suc k) ∷ decimal k (v % 10 ^ suc k)

-- The exponent of the highest power of ten up to 10^k that is no greater than the number.
unfoldable pub order : ℕ → ℕ → ℕ
order zero v = 0
order (suc k) v = let lower = order k v in if leb (10 ^ suc k) v then suc k else lower

-- A number below 10^9 in decimal notation, without leading zeros.
abbrev pub decimal_text : ℕ → List ℕ
decimal_text v = decimal (order 8 v) v

-- The last `n` hexadecimal digits of a number.
abbrev pub hex_digit : ℕ → ℕ
hex_digit d = if ltb d 10 then d + 48 else d + 87

unfoldable pub hex_text : ℕ → ℕ → List ℕ
hex_text zero v = []
hex_text (suc n) v = hex_digit (v / 16 ^ n % 16) ∷ hex_text n v

grow-step :
    (fuel v f : ℕ) → 0 < f → f < 2 ^ 31 → f ≤ v → grow (suc fuel) v f ≡ grow fuel v (u32 (f * 10))
unfolding grow
grow-step fuel v f pos small le =
    let some_left : 1 ≤ v / f = (le-div_iff_mul-le pos).1 (omega arith) in
    let there : (f == 0) ≡ false = ground arith in
    let goes_on : (ltb f (2 ^ 31) && ltb 0 (v / f)) ≡ true = ground arith in
    rw (there, goes_on) refl

grow-stop : (fuel v f : ℕ) → 0 < f → f < 2 ^ 31 → v < f → grow (suc fuel) v f ≡ some f
unfolding grow
grow-stop fuel v f pos small lt =
    let none_left : v / f ≡ 0 = elim (Bool-cases (v / f == 0)) [
      | inl none_left ↦ ground arith
      | inr some_left ↦
          let le : 1 * f ≤ v = (le-div_iff_mul-le pos).0 (ground arith) in absurd (omega arith)
    ] in
    let there : (f == 0) ≡ false = ground arith in
    let ends : (ltb f (2 ^ 31) && ltb 0 (v / f)) ≡ false = ground arith in rw (there, ends) refl

ten-lt : (k : ℕ) → k ≤ 9 → 10 ^ k < 2 ^ 31
ten-lt k le = let below : 10 ^ k ≤ 10 ^ 9 = pow-le-pow_right (omega arith) le in omega arith

-- The power of ten above a number is reached.
grow-power :
    (d fuel k v : ℕ)
    → k + d ≤ 9
    → (j : ℕ) → suc j ≡ k + d
    → 10 ^ j ≤ v
    → v < 10 ^ (k + d)
    → d < fuel
    → grow fuel v (10 ^ k) ≡ some (10 ^ (k + d))
grow-power d zero k v small j at low high enough = absurd (omega arith)
grow-power zero (suc fuel) k v small j at low high enough =
    let same : k + 0 ≡ k = omega arith in
    rw same (
      grow-stop fuel v (10 ^ k) (omega (arith, one-le-pow k 10)) (ten-lt k (omega arith))
        (rw same at high))
grow-power (suc d) (suc fuel) k v small j at low high enough =
    let le : 10 ^ k ≤ 10 ^ j = pow-le-pow_right (omega arith) (omega arith) in
    let next : u32 (10 ^ k * 10) ≡ 10 ^ (k + 1) =
      omega (arith, pow-suc 10 k, ten-lt (suc k) (omega arith), ap (λ e. 10 ^ e) (plus k)) in
    let on : k + 1 + d ≡ k + suc d = omega arith in
    grow-step fuel v (10 ^ k) (omega (arith, one-le-pow k 10)) (ten-lt k (omega arith))
      (omega arith)
    ∙ ap (grow fuel v) next
    ∙ grow-power d fuel (k + 1) v (omega arith) j (omega arith) low (rw on high) (omega arith)
    ∙ ap (λ e. some (10 ^ e)) on
  where
    plus : (k : ℕ) → k + 1 ≡ suc k
    plus k = omega arith

digits_down-zero : (n v : ℕ) → digits_down n v 0 ≡ []
unfolding digits_down
digits_down-zero zero v = refl
digits_down-zero (suc n) v = refl

-- From a power of ten the digits come in decimal notation.
digits_down-decimal : (k n v : ℕ) → v < 10 ^ suc k → k < n → digits_down n v (10 ^ k) ≡ decimal k v
unfolding digits_down decimal
digits_down-decimal k zero v small enough = absurd (omega arith)
digits_down-decimal zero (suc n) v small enough =
    let digit : u8 (48 + v / 1) ≡ 48 + v = omega arith in
    rw digit (ap (λ l. (48 + v) ∷ l) (digits_down-zero n (v - v / 1 * 1)))
digits_down-decimal (suc k) (suc n) v small enough =
    let f = 10 ^ suc k in
    let pos : 0 < f = omega (arith, one-le-pow (suc k) 10) in
    let there : (f == 0) ≡ false = ground arith in
    let few : v / f < 10 = elim (Bool-cases (ltb (v / f) 10)) [
      | inl less ↦ ground arith
      | inr many ↦
          let le : 10 * f ≤ v = (le-div_iff_mul-le pos).0 (ground arith) in
          absurd (omega (arith, pow-suc 10 (suc k)))
    ] in
    let digit : u8 (48 + v / f) ≡ 48 + v / f = omega arith in
    let left : v - v / f * f ≡ v % f = omega (arith, div-add-mod v f) in
    let next : f / 10 ≡ 10 ^ k = omega (arith, pow-suc 10 k) in
    rw (there, digit, left, next)
      (ap (λ l. (48 + v / f) ∷ l) (digits_down-decimal k n (v % f) (mod-lt v pos) (omega arith)))

order-bounds :
    (k v : ℕ)
    → v < 10 ^ suc k
    → (order k v ≤ k) × (v < 10 ^ suc (order k v)) × (0 < v → 10 ^ order k v ≤ v)
unfolding order
order-bounds zero v small = (omega arith, small, λ pos. omega arith)
order-bounds (suc k) v small = elim (Bool-cases (leb (10 ^ suc k) v)) [
  | inl reached ↦ rw reached (omega arith, small, λ pos. ground arith)
  | inr below ↦
      let (le, high, low) = order-bounds k v (ground arith) in rw below (omega arith, high, low)
]

printf_int-zero :
    (negative : Bool)
    → printf_int negative 0 ≡ some (if negative then 45 ∷ decimal_text 0 else decimal_text 0)
unfolding printf_int grow digits_down order decimal
printf_int-zero negative = refl

digits_from-decimal : (m v : ℕ) → m ≤ 8 → v < 10 ^ suc m → digits_from v (10 ^ suc m) ≡ decimal m v
digits_from-decimal m v le small =
    let in_range : ltb (10 ^ suc m) (2 ^ 31) ≡ true =
      ground (arith, ten-lt (suc m) (omega arith)) in
    let first : 10 ^ suc m / 10 ≡ 10 ^ m = omega (arith, pow-suc 10 m) in
    let there : (10 ^ m == 0) ≡ false = ground (arith, one-le-pow m 10) in
    rw (in_range, first, there) (digits_down-decimal m 10 v small (omega arith))

-- An `int` of fewer than ten digits is printed in decimal notation behind its sign.
pub printf_int-decimal :
    (negative : Bool) (v : ℕ)
    → v < 10 ^ 9
    → printf_int negative v ≡ some (if negative then 45 ∷ decimal_text v else decimal_text v)
unfolding printf_int
printf_int-decimal negative v small = elim (Bool-cases (v == 0)) [
  | inl none_left ↦ let same : v ≡ 0 = ground arith in rw same (printf_int-zero negative)
  | inr some_left ↦
      let (le, high, low) = order-bounds 8 v small in
      let m = order 8 v in
      let plus : 0 + suc m ≡ suc m = omega arith in
      let grown : grow 13 v 1 ≡ some (10 ^ suc m) =
        grow-power (suc m) 13 0 v (omega arith) m (sym plus) (low (ground arith)) (rw plus high)
          (omega arith)
        ∙ ap (λ e. some (10 ^ e)) plus in
      rw (grown, digits_from-decimal m v le high) refl
]

hexdigit-hex_digit : (d : ℕ) → hexdigit d ≡ hex_digit d
unfolding hexdigit
hexdigit-hex_digit d = ground arith

-- A number of 32 bits is printed as its eight hexadecimal digits.
pub printf_hex-text : (v : ℕ) → printf_hex v ≡ hex_text 8 v
unfolding printf_hex hex_loop hex_text
printf_hex-text v =
    rw
      (
        digit (v >> 28),
        digit (v >> 24),
        digit (v >> 20),
        digit (v >> 16),
        digit (v >> 12),
        digit (v >> 8),
        digit (v >> 4),
        digit (v >> 0),
      )
      refl
  where
    digit : (x : ℕ) → hexdigit (bit_and x 15) ≡ hex_digit (x % 16)
    digit x = ap hexdigit (bit_and_mask 4 x) ∙ hexdigit-hex_digit (x % 16)
