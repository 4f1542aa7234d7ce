-- ===== src/Kernel/Shell/Editor.antt =====
-- The line editor as an editor of a text.
use hexos.Base.{
  put, ℕ, zero, suc, ◌+◌, ◌-◌, ◌<◌, ◌≤◌, ◌≡◌, refl, ◌≢◌, arith, true, false, List, [], ◌∷◌, ◌++◌,
  Bool-cases, inl, inr, ◌==◌, ltb, leb, length, get_or, length-append,
}
use hexos.Kernel.Shell.{Shell, buffer_size, shell_putchar, enter, rub_out, type_char}

-- The buffer holds the text that was typed, with a zero behind it.
pub record Holds (text : List ℕ) (s : Shell) : Type 0 where
  pub len : s.buffer_len ≡ length text
  pub bytes : (i : ℕ) → i < length text → s.buffer i ≡ get_or text i 0
  pub end : s.buffer (length text) ≡ 0

-- Nothing behind the buffer differs.
abbrev pub SameBehind : Shell → Shell → Type 0
SameBehind s t = (i : ℕ) → buffer_size ≤ i → t.buffer i ≡ s.buffer i

get_or-append_left :
    (xs ys : List ℕ) (i : ℕ) → i < length xs → get_or (xs ++ ys) i 0 ≡ get_or xs i 0
get_or-append_left [] ys i h = absurd (omega arith)
get_or-append_left (x ∷ xs) ys zero h = refl
get_or-append_left (x ∷ xs) ys (suc i) h = get_or-append_left xs ys i (omega arith)

get_or-snoc : (xs : List ℕ) (c : ℕ) → get_or (xs ++ c ∷ []) (length xs) 0 ≡ c
get_or-snoc [] c = refl
get_or-snoc (x ∷ xs) c = get_or-snoc xs c

length-snoc : (xs : List ℕ) (c : ℕ) → length (xs ++ c ∷ []) ≡ length xs + 1
length-snoc xs c = length-append xs (c ∷ [])

-- Typing a character, other than a line end or a backspace, into a buffer with room for it and the
-- zero appends it to the text.
pub shell_putchar-type :
    (runcmd : Shell → Shell) (c : ℕ) (s : Shell) (text : List ℕ)
    → Holds text s
    → c ≢ 10
    → c ≢ 8
    → length text + 1 < buffer_size
    → Holds (text ++ c ∷ []) (shell_putchar runcmd c s) × SameBehind s (shell_putchar runcmd c s)
unfolding shell_putchar type_char
shell_putchar-type runcmd c s text v ne_lf ne_bs room =
    let not_lf : (c == 10) ≡ false = ground arith in
    let not_bs : (c == 8) ≡ false = ground arith in
    let fits : ltb 254 s.buffer_len ≡ false = ground (arith, v.len) in
    rw (not_lf, not_bs, fits)
      (
        record {
          len = rw (length-snoc text c) (omega (arith, v.len));
          bytes = λ i lt. stored i lt;
          end = rw (length-snoc text c) (ground (arith, v.len));
        },
        λ i le. ground (arith, v.len),
      )
  where
    stored :
        (i : ℕ)
        → i < length (text ++ c ∷ [])
        → put (s.buffer_len + 1) 0 (put s.buffer_len c s.buffer) i ≡ get_or (text ++ c ∷ []) i 0
    stored i lt = elim (Bool-cases (i == length text)) [
      | inl last ↦
          let same : i ≡ length text = ground arith in
          rw same (ground (arith, v.len, get_or-snoc text c))
      | inr before ↦
          let inside : i < length text = ground (arith, length-snoc text c) in
          ground (arith, v.len, v.bytes i inside, get_or-append_left text (c ∷ []) i inside)
    ]

-- A backspace takes the last character off the text, and leaves an empty text empty.
pub shell_putchar-backspace :
    (runcmd : Shell → Shell) (c : ℕ) (s : Shell) (text : List ℕ)
    → (Holds (text ++ c ∷ []) s → Holds text (shell_putchar runcmd 8 s))
      × (Holds [] s → shell_putchar runcmd 8 s ≡ s)
unfolding shell_putchar rub_out
shell_putchar-backspace runcmd c s text = (shorter, λ v. nothing_left v)
  where
    nothing_left : Holds [] s → shell_putchar runcmd 8 s ≡ s
    nothing_left v =
        unfold shell_putchar rub_out in
        let none_left : leb s.buffer_len 0 ≡ true = ground (arith, v.len) in rw none_left refl

    shorter : Holds (text ++ c ∷ []) s → Holds text (shell_putchar runcmd 8 s)
    shorter v =
        unfold shell_putchar rub_out in
        let some_left : leb s.buffer_len 0 ≡ false = ground (arith, v.len, length-snoc text c) in
        let last : s.buffer_len - 1 ≡ length text = omega (arith, v.len, length-snoc text c) in
        rw (some_left, last)
          record {
            len = refl;
            bytes = λ i lt. ground (
              arith,
              v.bytes i (omega (arith, length-snoc text c)),
              get_or-append_left text (c ∷ []) i lt,
            );
            end = ground arith;
          }

-- A line end empties the text, whatever the command did.
pub shell_putchar-enter :
    (runcmd : Shell → Shell) (s : Shell) → Holds [] (shell_putchar runcmd 10 s)
unfolding shell_putchar enter
shell_putchar-enter runcmd s = record {
  len = refl;
  bytes = λ i lt. absurd (omega arith);
  end = refl;
}

-- The test for a full buffer lets the length grow to 255: a character typed behind a text of 127 or
-- more characters is not refused, and its zero is written behind the buffer.
pub type_char-overflow :
    (runcmd : Shell → Shell) (c : ℕ) (s : Shell)
    → c ≢ 10
    → c ≢ 8
    → 127 ≤ s.buffer_len
    → s.buffer_len < 255
    → buffer_size ≤ s.buffer_len + 1
      × ((shell_putchar runcmd c s).buffer (s.buffer_len + 1) ≡ 0)
      × ((shell_putchar runcmd c s).buffer s.buffer_len ≡ c)
      × ((shell_putchar runcmd c s).buffer_len ≡ s.buffer_len + 1)
unfolding shell_putchar type_char
type_char-overflow runcmd c s ne_lf ne_bs le lt =
    let not_lf : (c == 10) ≡ false = ground arith in
    let not_bs : (c == 8) ≡ false = ground arith in
    let fits : ltb 254 s.buffer_len ≡ false = ground arith in
    (
      omega arith,
      rw (not_lf, not_bs, fits) (ground arith),
      rw (not_lf, not_bs, fits) (ground arith),
      rw (not_lf, not_bs, fits) (omega arith),
    )
