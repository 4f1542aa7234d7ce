-- ===== src/Libc/Printf.antt =====
-- libc/stdio/printf.c: `printf` as the text that it prints. A format and a string argument are lists of
-- characters other than 0; an `int` argument is a sign and a magnitude up to 2^31 - 1.
pub mod Pieces
pub mod Numbers
pub mod Tests
use hexos.Base.{
  ℕ, zero, suc, ◌+◌, ◌-◌, ◌*◌, ◌/◌, ◌%◌, ◌^◌, Bool, true, false, ◌&&◌, not, Option, none, some,
  ◌>>=◌, List, [], ◌∷◌, ◌++◌, if◌then◌else◌, ◌==◌, ltb, u8, u32, length,
}
use hexos.Libc.Number.{printf_hex}

-- `while((i/f)>0) f *= 10;` on fuel; `f` is a 32-bit pattern, negative from 2^31 on, and a division by 0
-- does not return.
unfoldable pub grow : ℕ → ℕ → ℕ → Option ℕ
grow zero i f = none
grow (suc fuel) i f =
    let rest = grow fuel i (u32 (f * 10)) in
    if f == 0 then none else if ltb f (2 ^ 31) && ltb 0 (i / f) then rest else some f

-- `while (f>0)`, by the rounds left.
unfoldable pub digits_down : ℕ → ℕ → ℕ → List ℕ
digits_down zero i f = []
digits_down (suc n) i f =
    let rest = digits_down n (i - i / f * f) (f / 10) in
    if f == 0 then [] else u8 (48 + i / f) ∷ rest

-- The digits, when the first loop ends with `f`; below 0 nothing is printed.
abbrev pub digits_from : ℕ → ℕ → List ℕ
digits_from i f =
    if ltb f (2 ^ 31) then digits_down 10 i (if f / 10 == 0 then 1 else f / 10) else []

-- The first loop takes at most 12 rounds on an `int`.
unfoldable pub printf_int : Bool → ℕ → Option (List ℕ)
printf_int negative i =
    grow 13 i 1 >>= λ f. some (if negative then 45 ∷ digits_from i f else digits_from i f)

-- What `va_arg` takes next.
pub data Arg : Type 0 where
  char_arg : ℕ → Arg
  string_arg : List ℕ → Arg
  int_arg : Bool → ℕ → Arg
  hex_arg : ℕ → Arg

-- The run of characters other than `%`, and what follows it.
unfoldable pub plain_run : List ℕ → List ℕ
plain_run [] = []
plain_run (c ∷ format) = let rest = plain_run format in if c == 37 then [] else c ∷ rest

unfoldable pub behind_run : List ℕ → List ℕ
behind_run [] = []
behind_run (c ∷ format) = let rest = behind_run format in if c == 37 then c ∷ format else rest

-- The text of an argument, by the conversion; `int_text` is `printf_int`. No text means
-- that the argument is not of the conversion's type, which C leaves undefined.
abbrev pub conversion : (Bool → ℕ → Option (List ℕ)) → ℕ → Arg → Option (List ℕ)
conversion int_text c (char_arg v) = if c == 99 then some (u8 v ∷ []) else none
conversion int_text c (string_arg text) = if c == 115 then some text else none
conversion int_text c (int_arg negative v) = if c == 100 then int_text negative v else none
conversion int_text c (hex_arg v) = if c == 120 then some (printf_hex v) else none

abbrev pub is_specifier : ℕ → Bool
is_specifier c =
    if c == 99 then true else if c == 115 then true else if c == 100 then true else c == 120

-- The text behind what is printed first.
abbrev pub after : List ℕ → Option (List ℕ) → Option (List ℕ)
after text none = none
after text (some rest) = some (text ++ rest)

-- Taking the next argument for conversion `c`, and going on with `next`.
abbrev pub convert :
    (Bool → ℕ → Option (List ℕ)) → ℕ → (List Arg → Option (List ℕ)) → List Arg → Option (List ℕ)
convert int_text c next [] = none
convert int_text c next (a ∷ args) = conversion int_text c a >>= λ text. after text (next args)

-- The loop of `printf`, on fuel; `rejected` is rejected_bad_specifier.
unfoldable pub printf_loop :
    (Bool → ℕ → Option (List ℕ)) → ℕ → Bool → List ℕ → List Arg → Option (List ℕ)
printf_loop int_text zero rejected format args = none
printf_loop int_text (suc fuel) rejected [] args = some []
printf_loop int_text (suc fuel) rejected (c ∷ []) args =
    after (c ∷ []) (printf_loop int_text fuel (if c == 37 then true else rejected) [] args)
printf_loop int_text (suc fuel) rejected (c ∷ d ∷ format) args =
    let plain =
      after (c ∷ plain_run (d ∷ format))
        (printf_loop int_text fuel rejected (behind_run (d ∷ format)) args) in
    let percent =
      after (d ∷ plain_run format) (printf_loop int_text fuel rejected (behind_run format) args) in
    let bad =
      after (c ∷ plain_run (d ∷ format))
        (printf_loop int_text fuel true (behind_run (d ∷ format)) args) in
    let converted =
      convert int_text d (λ rest. printf_loop int_text fuel rejected format rest) args in
    if c == 37
    then if d == 37
      then percent
      else if rejected
      then bad
      else if is_specifier d
      then converted
      else bad
    else plain

-- The rounds are at most as many as the characters.
unfoldable pub printf : List ℕ → List Arg → Option (List ℕ)
printf format args = printf_loop printf_int (length format + 1) false format args
