-- ===== src/Libc/Printf/Pieces.antt =====
-- What a format means, a character at a time, and that `printf` prints it.
use hexos.Base.{
  ℕ, zero, suc, ◌+◌, ◌<◌, ◌≤◌, ◌≡◌, refl, ap, sym, ◌∙◌, arith, true, false, Option, none, some,
  ◌>>=◌, List, [], ◌∷◌, ◌++◌, if◌then◌else◌, if-cases, Bool-cases, inl, inr, ◌==◌, length, ltb, ◌%◌,
  ◌^◌,
}
use hexos.Libc.Printf.{
  Arg, plain_run, behind_run, conversion, is_specifier, after, convert, printf_loop, printf_int,
  printf, char_arg, string_arg, int_arg, hex_arg,
}
use hexos.Libc.Printf.Numbers.{decimal_text, hex_text, printf_int-decimal, printf_hex-text}

-- The text of an argument under a conversion: a character, a string, a number in decimal notation
-- behind its sign, or in eight hexadecimal digits. No text: the argument is not of the conversion's
-- type, or the `int` has ten digits or more.
abbrev pub argument_text : ℕ → Arg → Option (List ℕ)
argument_text c (char_arg v) = if c == 99 then some (v % 2 ^ 8 ∷ []) else none
argument_text c (string_arg text) = if c == 115 then some text else none
argument_text c (int_arg negative v) =
    if c == 100
    then if ltb v (10 ^ 9)
      then some (if negative then 45 ∷ decimal_text v else decimal_text v)
      else none
    else none
argument_text c (hex_arg v) = if c == 120 then some (hex_text 8 v) else none

-- A text in front of another.
abbrev pub joined : List ℕ → Option (List ℕ) → Option (List ℕ)
joined text none = none
joined text (some rest) = some (text ++ rest)

-- An argument's text, and what the rest of the arguments makes.
abbrev pub argument_first : ℕ → (List Arg → Option (List ℕ)) → List Arg → Option (List ℕ)
argument_first c next [] = none
argument_first c next (a ∷ args) = argument_text c a >>= λ text. joined text (next args)

-- The text that a format stands for: no text, if a directive is unknown, an argument is missing or has
-- no text.
unfoldable pub render : List ℕ → List Arg → Option (List ℕ)
render [] args = some []
render (c ∷ []) args = if c == 37 then none else some (c ∷ [])
render (c ∷ d ∷ format) args =
    let plain = joined (c ∷ []) (render (d ∷ format) args) in
    let percent = joined (37 ∷ []) (render format args) in
    let converted = argument_first d (render format) args in
    if c == 37 then if d == 37 then percent else converted else plain

-- What has a text is a known conversion, and is printed as this text.
argument_text-conversion :
    (c : ℕ) (a : Arg) (text : List ℕ)
    → argument_text c a ≡ some text
    → (is_specifier c ≡ true) × (conversion printf_int c a ≡ some text)
argument_text-conversion c (char_arg v) text e = elim (Bool-cases (c == 99)) [
  | inl here ↦ let same : c ≡ 99 = ground arith in rw same (refl, rw here at e)
  | inr other ↦ absurd (cc (rw other at e))
]
argument_text-conversion c (string_arg t) text e = elim (Bool-cases (c == 115)) [
  | inl here ↦ let same : c ≡ 115 = ground arith in rw same (refl, rw here at e)
  | inr other ↦ absurd (cc (rw other at e))
]
argument_text-conversion c (int_arg negative v) text e = elim (Bool-cases (c == 100)) [
  | inl here ↦ elim (Bool-cases (ltb v (10 ^ 9))) [
    | inl small ↦
        let same : c ≡ 100 = ground arith in
        rw same (refl, printf_int-decimal negative v (ground arith) ∙ rw (here, small) at e)
    | inr large ↦ absurd (cc (rw (here, large) at e))
  ]
  | inr other ↦ absurd (cc (rw other at e))
]
argument_text-conversion c (hex_arg v) text e = elim (Bool-cases (c == 120)) [
  | inl here ↦
      let same : c ≡ 120 = ground arith in
      rw same (refl, ap some (printf_hex-text v) ∙ rw here at e)
  | inr other ↦ absurd (cc (rw other at e))
]

joined-joined :
    (c : ℕ) (text : List ℕ) (o : Option (List ℕ))
    → joined (c ∷ []) (joined text o) ≡ joined (c ∷ text) o
joined-joined c text none = refl
joined-joined c text (some rest) = refl

joined-nil : (o : Option (List ℕ)) → joined [] o ≡ o
joined-nil none = refl
joined-nil (some rest) = refl

run-percent :
    (c : ℕ) (format : List ℕ)
    → (c == 37) ≡ true
    → (plain_run (c ∷ format) ≡ []) × (behind_run (c ∷ format) ≡ c ∷ format)
unfolding plain_run behind_run
run-percent c format percent = rw percent (refl, refl)

run-plain :
    (c : ℕ) (format : List ℕ)
    → (c == 37) ≡ false
    → (plain_run (c ∷ format) ≡ c ∷ plain_run format)
      × (behind_run (c ∷ format) ≡ behind_run format)
unfolding plain_run behind_run
run-plain c format plain = rw plain (refl, refl)

render-plain :
    (c : ℕ) (format : List ℕ) (args : List Arg)
    → (c == 37) ≡ false
    → render (c ∷ format) args ≡ joined (c ∷ []) (render format args)
unfolding render
render-plain c [] args plain = rw plain refl
render-plain c (d ∷ format) args plain = rw plain refl

run-nil : (args : List Arg) → render [] args ≡ joined (plain_run []) (render (behind_run []) args)
unfolding render plain_run behind_run
run-nil args = refl

-- The text behind a run of plain characters is rendered on its own.
render-run :
    (format : List ℕ) (args : List Arg)
    → render format args ≡ joined (plain_run format) (render (behind_run format) args)
render-run [] args = run-nil args
render-run (c ∷ format) args = elim (Bool-cases (c == 37)) [
  | inl percent ↦
      let (none_first, all_left) = run-percent c format percent in
      rw (none_first, all_left) (sym (joined-nil (render (c ∷ format) args)))
  | inr plain ↦
      let (first, rest) = run-plain c format plain in
      rw (first, rest)
        (render-plain c format args plain
          ∙ ap (joined (c ∷ [])) (render-run format args)
          ∙ joined-joined c (plain_run format) (render (behind_run format) args))
]

behind_run-le : (format : List ℕ) → length (behind_run format) ≤ length format
unfolding behind_run
behind_run-le [] = omega arith
behind_run-le (c ∷ format) =
    if-cases (λ (l : List ℕ). length l ≤ length (c ∷ format)) (c == 37) (λ percent. omega arith)
      (λ plain. omega (arith, behind_run-le format))

joined-inv :
    (text : List ℕ) (o : Option (List ℕ)) (out : List ℕ)
    → joined text o ≡ some out
    → (rest : List ℕ) × (o ≡ some rest) × (text ++ rest ≡ out)
joined-inv text none out e = cc
joined-inv text (some rest) out e = (rest, refl, cc)

module _ (fuel : ℕ) (args : List Arg) where
  -- The loop prints what is rendered, for every shorter format.
  abbrev Prints : List ℕ → List Arg → Type 0
  Prints format args =
      (out : List ℕ)
      → render format args ≡ some out
      → printf_loop printf_int fuel false format args ≡ some out

  -- So it does behind a first character that is printed with the run that follows it.
  print_run :
      (c : ℕ) (format out : List ℕ)
      → Prints (behind_run format) args
      → joined (c ∷ []) (render format args) ≡ some out
      → after (c ∷ plain_run format) (printf_loop printf_int fuel false (behind_run format) args)
        ≡ some out
  print_run c format out induct e =
      let whole : joined (c ∷ plain_run format) (render (behind_run format) args) ≡ some out =
        sym (joined-joined c (plain_run format) (render (behind_run format) args))
        ∙ ap (joined (c ∷ [])) (sym (render-run format args))
        ∙ e in
      let (rest, rendered, whole_text) =
        joined-inv (c ∷ plain_run format) (render (behind_run format) args) out whole in
      rw (induct rest rendered) (ap some whole_text)

convert-Prints :
    (d fuel : ℕ) (format : List ℕ) (args : List Arg) (out : List ℕ)
    → ((args : List Arg) → Prints fuel args format args)
    → argument_first d (render format) args ≡ some out
    → convert printf_int d (λ rest. printf_loop printf_int fuel false format rest) args ≡ some out
convert-Prints d fuel format [] out induct e = cc
convert-Prints d fuel format (a ∷ args) out induct e = go (argument_text d a) refl e
  where
    go :
        (o : Option (List ℕ))
        → argument_text d a ≡ o
        → (o >>= λ text. joined text (render format args)) ≡ some out
        → (conversion printf_int d a >>= λ text.
            after text (printf_loop printf_int fuel false format args))
          ≡ some out
    go none at e = cc
    go (some text) at e =
        let (rest, rendered, whole_text) = joined-inv text (render format args) out e in
        rw ((argument_text-conversion d a text at).1, induct args rest rendered)
          (ap some whole_text)

argument_first-known :
    (d : ℕ) (next : List Arg → Option (List ℕ)) (args : List Arg) (out : List ℕ)
    → argument_first d next args ≡ some out
    → is_specifier d ≡ true
argument_first-known d next [] out e = cc
argument_first-known d next (a ∷ args) out e = go (argument_text d a) refl e
  where
    go :
        (o : Option (List ℕ))
        → argument_text d a ≡ o
        → (o >>= λ text. joined text (next args)) ≡ some out
        → is_specifier d ≡ true
    go none at e = cc
    go (some text) at e = (argument_text-conversion d a text at).0

printf_loop-render :
    (fuel : ℕ) (format : List ℕ) (args : List Arg) (out : List ℕ)
    → length format < fuel
    → render format args ≡ some out
    → printf_loop printf_int fuel false format args ≡ some out
unfolding render printf_loop
printf_loop-render zero format args out lt e = absurd (omega arith)
printf_loop-render (suc fuel) [] args out lt e = e
printf_loop-render (suc zero) (c ∷ []) args out lt e = absurd (omega arith)
printf_loop-render (suc (suc fuel)) (c ∷ []) args out lt e = elim (Bool-cases (c == 37)) [
  | inl percent ↦ absurd (cc (rw percent at e))
  | inr plain ↦ rw plain at e
]
printf_loop-render (suc fuel) (c ∷ d ∷ format) args out lt e = elim (Bool-cases (c == 37)) [
  | inl percent ↦ elim (Bool-cases (d == 37)) [
    | inl twice ↦
        let same : d ≡ 37 = ground arith in
        let e' : joined (37 ∷ []) (render format args) ≡ some out = rw (percent, twice) at e in
        rw (percent, twice)
          (rw same (
            print_run fuel args 37 format out
              (λ out' e''.
                printf_loop-render fuel (behind_run format) args out'
                  (omega (arith, behind_run-le format)) e'')
              e'))
    | inr other ↦
        let e' : argument_first d (render format) args ≡ some out = rw (percent, other) at e in
        rw (percent, other, argument_first-known d (render format) args out e')
          (convert-Prints d fuel format args out
            (λ args' out' e''. printf_loop-render fuel format args' out' (omega arith) e'') e')
  ]
  | inr plain ↦
      let e' : joined (c ∷ []) (render (d ∷ format) args) ≡ some out = rw plain at e in
      rw plain (
        print_run fuel args c (d ∷ format) out
          (λ out' e''.
            printf_loop-render fuel (behind_run (d ∷ format)) args out'
              (omega (arith, behind_run-le (d ∷ format))) e'')
          e')
]

-- For every format whose directives are all known, with arguments of their types, each `int` of fewer
-- than ten digits, `printf` ends and prints the text that the format stands for: its other characters,
-- `%` for `%%`, and each argument as a character, a string, in decimal notation or in eight
-- hexadecimal digits.
pub printf-render :
    (format : List ℕ) (args : List Arg) (out : List ℕ)
    → render format args ≡ some out
    → printf format args ≡ some out
unfolding printf
printf-render format args out e =
    printf_loop-render (length format + 1) format args out (omega arith) e
