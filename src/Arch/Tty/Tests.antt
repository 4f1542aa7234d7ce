-- ===== src/Arch/Tty/Tests.antt =====
-- The terminal with the cursor on the last line, in the columns 78 and 0.
use hexos.Base.{ℕ, ◌<◌, ◌≡◌, refl, [], ◌∷◌, arith}
use hexos.Arch.Tty.{Tty, make_color, write, make_vgaentry}
use hexos.Arch.Tty.Cursor.{IsTty, Kept, write-Kept}
use hexos.Arch.Tty.Text.{Shown, write-Shown}

abbrev screen : ℕ → ℕ → Tty
screen row column = record { row = row; column = column; color = 7; buffer = λ i. i }

screen-IsTty : (row column : ℕ) → row < 25 → column < 80 → IsTty (screen row column)
screen-IsTty row column h g = record { row_lt = h; column_lt = g }

grey_on_black : make_color 7 0 ≡ 7
unfolding make_color
grey_on_black = refl

letter : make_vgaentry 65 7 ≡ 1857
unfolding make_vgaentry
letter = refl

umlaut : make_vgaentry 228 7 ≡ 65508
unfolding make_vgaentry
umlaut = refl

write-Kept_example : Kept (screen 24 79) (write (65 ∷ 10 ∷ []) (screen 24 79))
write-Kept_example =
    write-Kept (65 ∷ 10 ∷ []) (screen 24 79) (screen-IsTty 24 79 (omega arith) (omega arith))

write-Shown_example :
    Shown (72 ∷ 101 ∷ 120 ∷ []) (screen 3 78) (write (72 ∷ 101 ∷ 120 ∷ []) (screen 3 78))
write-Shown_example =
    write-Shown (72 ∷ 101 ∷ 120 ∷ []) (screen 3 78) (screen-IsTty 3 78 (omega arith) (omega arith))
      (
        (λ e. omega arith, λ e. omega arith),
        omega arith,
        (
          (λ e. omega arith, λ e. omega arith),
          omega arith,
          ((λ e. omega arith, λ e. omega arith), omega arith, tt),
        ),
      )
      (omega arith) (omega arith)
