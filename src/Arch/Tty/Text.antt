-- ===== src/Arch/Tty/Text.antt =====
-- A text on the terminal.
use hexos.Base.{
  within, ℕ, suc, ◌+◌, ◌-◌, ◌*◌, ◌<◌, ◌≡◌, refl, ◌≢◌, ◌∙◌, arith, true, false, List, [], ◌∷◌, ◌==◌,
  if◌then◌else◌, if-cases, add32, length, get_or, ltb, ◌<<◌, ◌^◌, sym,
}
use hexos.Base.Bits.{bit_or_fields, bit_or_comm}
use hexos.Arch.Tty.{Tty, vga_width, vga_height, make_vgaentry, next_row, putchar, write}
use hexos.Arch.Tty.Cursor.{IsTty, put_down, putentryat_lem, putentryat-same, putchar-Kept}

-- The cell at which the cursor stands.
abbrev pub position : Tty → ℕ
position t = t.row * vga_width + t.column

-- Neither `\r` nor `\n`.
abbrev pub IsPrintable : ℕ → Type 0
IsPrintable c = (c ≢ 13) × (c ≢ 10)

-- A text of ASCII characters other than those two.
abbrev pub AllPrintable : List ℕ → Type 0
AllPrintable [] = Unit
AllPrintable (c ∷ text) = IsPrintable c × (c < 128) × AllPrintable text

-- A cell of the screen, as the display adapter reads it: the character in the low byte, and its
-- attribute in the high byte.
abbrev pub cell_of : ℕ → ℕ → ℕ
cell_of c color = c + 256 * color

make_vgaentry-cell_of :
    (c color : ℕ) → c < 128 → color < 256 → make_vgaentry c color ≡ cell_of c color
unfolding make_vgaentry
make_vgaentry-cell_of c color ascii byte =
    let narrow : ltb c 128 ≡ true = ground arith in
    let shifted : color << 8 ≡ color * 2 ^ 8 = omega arith in
    rw (narrow, shifted, bit_or_comm c (color * 2 ^ 8), bit_or_fields 8 color c (omega arith))
      (omega arith)

-- The text `text` stands from the old cursor on, and the new cursor behind it.
pub record Shown (text : List ℕ) (t t' : Tty) : Type 0 where
  pub cells :
      (i : ℕ)
      → t'.buffer i ≡ (
          if within (position t) (length text) i
          then cell_of (get_or text (i - position t) 0) t.color
          else t.buffer i)
  pub cursor : position t' ≡ position t + length text
  pub same_color : t'.color ≡ t.color

next_row-lem :
    (t : Tty)
    → t.row + 1 < vga_height
    → ((next_row t).row ≡ t.row + 1)
      × ((next_row t).column ≡ t.column)
      × ((next_row t).color ≡ t.color)
      × ((i : ℕ) → (next_row t).buffer i ≡ t.buffer i)
unfolding next_row
next_row-lem t h =
    if-cases
      (λ (t' : Tty).
        (t'.row ≡ t.row + 1)
        × (t'.column ≡ t.column)
        × (t'.color ≡ t.color)
        × ((i : ℕ) → t'.buffer i ≡ t.buffer i))
      (add32 t.row 1 == vga_height) (λ end. absurd (ground arith))
      (λ on. (omega arith, refl, refl, λ i. refl))

pub one_cell :
    (p i c color old : ℕ)
    → (if i == p then cell_of c color else old)
      ≡ (if within p 1 i then cell_of (get_or (c ∷ []) (i - p) 0) color else old)
one_cell p i c color old =
    if-cases (λ x. x ≡ (if within p 1 i then cell_of (get_or (c ∷ []) (i - p) 0) color else old))
      (i == p)
      (λ here.
        let first : i - p ≡ 0 = ground arith in
        let in_range : within p 1 i ≡ true = ground arith in rw (in_range, first) refl)
      (λ away. let out_of_range : within p 1 i ≡ false = ground arith in rw out_of_range refl)

pub putchar-Shown :
    (c : ℕ) (t : Tty)
    → IsTty t
    → IsPrintable c
    → c < 128
    → t.color < 256
    → position t + 1 < 2000
    → Shown (c ∷ []) t (putchar c t)
unfolding putchar
putchar-Shown c t v p ascii byte fits =
    let (same_row, same_column, same_color) = putentryat-same c t.color t.column t.row t in
    let cells : (i : ℕ)
        → (put_down c t).buffer i ≡ (
            if within (position t) 1 i
            then cell_of (get_or (c ∷ []) (i - position t) 0) t.color
            else t.buffer i) =
      λ i.
        putentryat_lem c t.color t i v
        ∙ rw (make_vgaentry-cell_of c t.color ascii byte) refl
        ∙ one_cell (position t) i c t.color (t.buffer i) in
    if-cases (Shown (c ∷ []) t) (c == 13) (λ cr. absurd (p.0 (ground arith)))
      λ not_cr.
        if-cases (Shown (c ∷ []) t) (c == 10) (λ lf. absurd (p.1 (ground arith)))
          λ not_lf.
            if-cases (Shown (c ∷ []) t) ((put_down c t).column == vga_width)
              (λ end.
                let last : t.column ≡ 79 = ground (arith, v.column_lt, same_column) in
                let (row, column, color, buffer) =
                  next_row-lem (record (put_down c t) { column = 0 }) (omega (arith, same_row)) in
                record {
                  cells = λ i. buffer i ∙ cells i;
                  cursor = omega (arith, row, column, same_row);
                  same_color = color ∙ same_color;
                })
              (λ on. record {
                cells = cells;
                cursor = omega (arith, same_row, same_column, v.column_lt);
                same_color = same_color;
              })

Shown-nil : (t : Tty) → Shown [] t t
Shown-nil t = record { cells = λ i. ground arith; cursor = omega arith; same_color = refl }

Shown-cons :
    {t t1 t2 : Tty} (c : ℕ) (text : List ℕ)
    → Shown (c ∷ []) t t1
    → Shown text t1 t2
    → Shown (c ∷ text) t t2
Shown-cons {t} {t1} {t2} c text s r = record {
  cells = λ i. r.cells i ∙ cell i;
  cursor = omega (arith, r.cursor, s.cursor);
  same_color = r.same_color ∙ s.same_color;
}
  where
    next : position t1 ≡ position t + 1
    next = s.cursor

    cell :
        (i : ℕ)
        → (if within (position t1) (length text) i
            then cell_of (get_or text (i - position t1) 0) t1.color
            else t1.buffer i)
          ≡ (if within (position t) (length (c ∷ text)) i
              then cell_of (get_or (c ∷ text) (i - position t) 0) t.color
              else t.buffer i)
    cell i =
        if-cases
          (λ x. x ≡ (
            if within (position t) (length (c ∷ text)) i
            then cell_of (get_or (c ∷ text) (i - position t) 0) t.color
            else t.buffer i))
          (within (position t1) (length text) i)
          (λ later.
            let all : within (position t) (length (c ∷ text)) i ≡ true = ground (arith, next) in
            let shift : i - position t ≡ suc (i - position t1) = ground (arith, next) in
            rw (all, shift, s.same_color) refl)
          (λ other.
            s.cells i
            ∙ if-cases
                (λ x. x ≡ (
                  if within (position t) (length (c ∷ text)) i
                  then cell_of (get_or (c ∷ text) (i - position t) 0) t.color
                  else t.buffer i))
                (within (position t) 1 i)
                (λ here.
                  let all : within (position t) (length (c ∷ text)) i ≡ true = ground arith in
                  let first : i - position t ≡ 0 = ground arith in rw (all, first) refl)
                (λ away.
                  let none_of : within (position t) (length (c ∷ text)) i ≡ false =
                    ground (arith, next) in
                  rw none_of refl))

-- A text of ASCII characters other than `\r` and `\n` that ends in front of the last cell of the screen is shown from the
-- cursor on in the current color, a byte, over as many lines as it takes, nothing else changes, and the cursor stands behind it.
pub write-Shown :
    (text : List ℕ) (t : Tty)
    → IsTty t
    → AllPrintable text
    → t.color < 256
    → position t + length text < 2000
    → Shown text t (write text t)
unfolding write
write-Shown [] t v p byte fits = Shown-nil t
write-Shown (c ∷ text) t v p byte fits =
    let first : Shown (c ∷ []) t (putchar c t) = putchar-Shown c t v p.0 p.1 byte (omega arith) in
    Shown-cons c text first (
      write-Shown text (putchar c t) (putchar-Kept c t v).cursor p.2
        (rw (sym first.same_color) at byte) (omega (arith, first.cursor)))
