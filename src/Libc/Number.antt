-- ===== src/Libc/Number.antt =====
-- libc/stdlib/itoa.c and the hexadecimal output of libc/stdio/printf.c. A string is a function from the
-- index to the character; an `int` is a sign and a magnitude, up to 2^31 - 1.
pub mod Reverse
pub mod Digits
pub mod Tests
use mathlib.Core.Option
use hexos.Base.{
  put, ℕ, zero, suc, ◌+◌, ◌-◌, ◌*◌, ◌/◌, ◌%◌, ◌^◌, Bool, true, false, ◌&&◌, not, Option, none, some,
  List, [], ◌∷◌, if◌then◌else◌, ◌==◌, ltb, ◌>>◌, bit_and,
}

abbrev pub Text : Type 0
Text = ℕ → ℕ

-- The loop of `reverse`, by the rounds left.
unfoldable pub reverse_loop : ℕ → ℕ → ℕ → Text → Text
reverse_loop zero start end str = str
reverse_loop (suc n) start end str =
    let swapped = put end (str start) (put start (str end) str) in
    let rest = reverse_loop n (start + 1) (end - 1) swapped in if ltb start end then rest else str

-- Every round brings `start` and `end` nearer, so `length` rounds are enough.
unfoldable pub reverse : ℕ → Text → Text
reverse length str = reverse_loop length 0 (length - 1) str

-- `(rem > 9)? (rem-10) + 'a' : rem + '0'`, where the remainder has the sign of the number.
abbrev pub digit_char : Bool → ℕ → ℕ
digit_char negative rem =
    if negative then 48 - rem else if ltb 9 rem then rem - 10 + 97 else rem + 48

-- `while (num != 0)`, on fuel: the index and the string behind the digits.
unfoldable pub digit_loop : ℕ → Bool → ℕ → ℕ → ℕ → Text → Option (ℕ × Text)
digit_loop zero negative num base i str = if num == 0 then some (i, str) else none
digit_loop (suc fuel) negative num base i str =
    let rest =
      digit_loop fuel negative (num / base) base (i + 1)
        (put i (digit_char negative (num % base)) str) in
    if num == 0 then some (i, str) else rest

-- The sign, the terminator and the reversal.
unfoldable pub finish : Bool → ℕ × Text → Text
finish minus (i, str) =
    let n = if minus then i + 1 else i in
    let signed = if minus then put i 45 str else str in reverse n (put n 0 signed)

-- `negative` and `num` are the sign and the magnitude; 31 digits in base 2 are enough.
unfoldable pub itoa : Bool → ℕ → ℕ → Text → Option Text
itoa negative num base str =
    let minus = negative && (base == 10) in
    if num == 0
    then some (put 1 0 (put 0 48 str))
    else Option.map (finish minus) (digit_loop 31 (negative && not minus) num base 0 str)

unfoldable pub hexdigit : ℕ → ℕ
hexdigit i = if ltb i 10 then 48 + i else 97 + i - 10

-- The loop over `j`, from 4 * (n - 1) down to 0.
unfoldable pub hex_loop : ℕ → ℕ → List ℕ
hex_loop zero i = []
hex_loop (suc n) i = hexdigit (bit_and (i >> 4 * n) 15) ∷ hex_loop n i

unfoldable pub printf_hex : ℕ → List ℕ
printf_hex i = hex_loop 8 i
