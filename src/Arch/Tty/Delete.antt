-- ===== src/Arch/Tty/Delete.antt =====
-- `terminal_deletechar`, behind a character and at the start of a line.
use hexos.Base.{
  ℕ, ◌+◌, ◌-◌, ◌^◌, ◌<◌, ◌≡◌, refl, ap, ◌∙◌, arith, false, ltb, ◌==◌, if◌then◌else◌, if-cases,
  sub32,
}
use hexos.Arch.Tty.{Tty, vga_width, blank, make_vgaentry, putentryat, putchar, deletechar}
use hexos.Arch.Tty.Cursor.{IsTty, put_down, putentryat_lem, putentryat-same}
use hexos.Arch.Tty.Text.{IsPrintable, position}

abbrev back : Tty → Tty
back t = record t { column = sub32 t.column 1 }

-- The test `terminal_column < 0` never holds.
deletechar_lem : (t : Tty) → deletechar t ≡ putentryat 32 t.color (back t).column t.row (back t)
unfolding deletechar
deletechar_lem t = let never : ltb (sub32 t.column 1) 0 ≡ false = ground arith in rw never refl

-- The character before the cursor is gone.
pub record Deleted (t t' : Tty) : Type 0 where
  pub row : t'.row ≡ t.row
  pub column : t'.column + 1 ≡ t.column
  pub cells : (i : ℕ) → t'.buffer i ≡ (if i == position t - 1 then blank t.color else t.buffer i)

-- Behind the start of a line the cursor goes back by one cell and blanks it, and nothing else.
pub deletechar-Deleted : (t : Tty) → IsTty t → 0 < t.column → Deleted t (deletechar t)
deletechar-Deleted t v h =
    let (same_row, same_column, _) = putentryat-same 32 t.color (back t).column t.row (back t) in
    let moved : IsTty (back t) = record {
      row_lt = v.row_lt;
      column_lt = omega (arith, v.column_lt);
    } in
    rw (deletechar_lem t) record {
      row = same_row;
      column = omega (arith, same_column, v.column_lt);
      cells = λ i.
          putentryat_lem 32 t.color (back t) i moved
          ∙ ap (λ p. if i == p then blank t.color else t.buffer i) (omega (arith, v.column_lt));
    }

putchar-in_line :
    (c : ℕ) (t : Tty) → IsPrintable c → t.column + 1 < vga_width → putchar c t ≡ put_down c t
unfolding putchar
putchar-in_line c t p h =
    let (_, same_column, _) = putentryat-same c t.color t.column t.row t in
    if-cases (λ (t' : Tty). t' ≡ put_down c t) (c == 13) (λ cr. absurd (p.0 (ground arith)))
      λ not_cr.
        if-cases (λ (t' : Tty). t' ≡ put_down c t) (c == 10) (λ lf. absurd (p.1 (ground arith)))
          λ not_lf.
            if-cases (λ (t' : Tty). t' ≡ put_down c t) ((put_down c t).column == vga_width)
              (λ end. absurd (ground (arith, same_column))) (λ on. refl)

-- Deleting a printable character that `terminal_putchar` has shown, not in the last column, brings
-- the cursor back, and leaves a blank where the character was.
pub putchar-deletechar :
    (c : ℕ) (t : Tty)
    → IsTty t
    → IsPrintable c
    → t.column + 1 < vga_width
    → ((deletechar (putchar c t)).row ≡ t.row)
      × ((deletechar (putchar c t)).column ≡ t.column)
      × ((i : ℕ)
          → (deletechar (putchar c t)).buffer i
            ≡ (if i == position t then blank t.color else t.buffer i))
putchar-deletechar c t v p h =
    let (same_row, same_column, same_color) = putentryat-same c t.color t.column t.row t in
    let shown : IsTty (put_down c t) = record {
      row_lt = omega (arith, v.row_lt, same_row);
      column_lt = omega (arith, same_column);
    } in
    let d : Deleted (put_down c t) (deletechar (put_down c t)) =
      deletechar-Deleted (put_down c t) shown (omega (arith, same_column)) in
    let place : position (put_down c t) - 1 ≡ position t = omega (arith, same_row, same_column) in
    rw (putchar-in_line c t p h) (
      d.row ∙ same_row,
      omega (arith, d.column, same_column),
      λ i.
          d.cells i
          ∙ rw (place, same_color)
              (twice (position t) i (make_vgaentry c t.color) (blank t.color) (t.buffer i)
                ((put_down c t).buffer i) (putentryat_lem c t.color t i v)),
    )
  where
    twice :
        (p i e b old new : ℕ)
        → new ≡ (if i == p then e else old)
        → (if i == p then b else new) ≡ (if i == p then b else old)
    twice p i e b old new h = ground arith

-- At the start of a line the test `terminal_column < 0` fails, since the column is unsigned: the row
-- stays, and the column becomes 2^32 - 1, which is not on the screen.
pub deletechar-column_0 :
    (t : Tty) → t.column ≡ 0 → ((deletechar t).row ≡ t.row) × ((deletechar t).column ≡ 2 ^ 32 - 1)
deletechar-column_0 t h =
    let (same_row, same_column, _) = putentryat-same 32 t.color (back t).column t.row (back t) in
    rw (deletechar_lem t) (same_row, omega (arith, same_column))
