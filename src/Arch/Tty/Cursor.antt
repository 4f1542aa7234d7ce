-- ===== src/Arch/Tty/Cursor.antt =====
-- Where the cursor of the terminal is, and which cells `terminal_putchar` writes.
use hexos.Base.{
  ℕ, ◌+◌, ◌*◌, ◌<◌, ◌≤◌, ◌≡◌, refl, ◌∙◌, arith, List, [], ◌∷◌, ◌==◌, if◌then◌else◌, if-cases, u32,
  add32,
}
use hexos.Arch.Tty.{
  Tty, vga_width, vga_height, make_vgaentry, putentryat, scrollup, next_row, putchar, write,
}
use hexos.Arch.Tty.Scroll.{scrollup_lem}

-- The cursor is on the screen.
pub record IsTty (t : Tty) : Type 0 where
  pub row_lt : t.row < vga_height
  pub column_lt : t.column < vga_width

abbrev pub cell_count : ℕ
cell_count = 2000

-- Nothing behind the screen differs.
abbrev pub SameBehind : Tty → Tty → Type 0
SameBehind t t' = (i : ℕ) → cell_count ≤ i → t'.buffer i ≡ t.buffer i

pub putentryat_lem :
    (c color : ℕ) (t : Tty) (i : ℕ)
    → IsTty t
    → (putentryat c color t.column t.row t).buffer i
      ≡ (if i == t.row * vga_width + t.column then make_vgaentry c color else t.buffer i)
unfolding putentryat
putentryat_lem c color t i v =
    let exact : u32 (t.row * vga_width + t.column) ≡ t.row * vga_width + t.column =
      omega (arith, v.row_lt, v.column_lt) in
    rw exact refl

scrollup-same : (t : Tty) → ((scrollup t).column ≡ t.column) × ((scrollup t).color ≡ t.color)
unfolding scrollup
scrollup-same t = (refl, refl)

next_row-IsTty : (t : Tty) → IsTty t → IsTty (next_row t)
unfolding next_row
next_row-IsTty t v =
    if-cases IsTty (add32 t.row 1 == vga_height)
      (λ end. record {
        row_lt = ground (arith, v.row_lt);
        column_lt = rw (scrollup-same (record t { row = add32 t.row 1 })).0 v.column_lt;
      })
      (λ on. record { row_lt = ground (arith, v.row_lt); column_lt = v.column_lt })

next_row-SameBehind : (t : Tty) → SameBehind t (next_row t)
unfolding next_row
next_row-SameBehind t i h =
    if-cases (λ (t' : Tty). t'.buffer i ≡ t.buffer i) (add32 t.row 1 == vga_height)
      (λ end. scrollup_lem (record t { row = add32 t.row 1 }) i ∙ ground arith) (λ on. refl)

pub putentryat-same :
    (c color x y : ℕ) (t : Tty)
    → ((putentryat c color x y t).row ≡ t.row)
      × ((putentryat c color x y t).column ≡ t.column)
      × ((putentryat c color x y t).color ≡ t.color)
unfolding putentryat
putentryat-same c color x y t = (refl, refl, refl)

putentryat-SameBehind :
    (c color : ℕ) (t : Tty) → IsTty t → SameBehind t (putentryat c color t.column t.row t)
putentryat-SameBehind c color t v i h =
    putentryat_lem c color t i v ∙ ground (arith, v.row_lt, v.column_lt)

-- Where a printable character goes, and the cursor behind it.
abbrev pub put_down : ℕ → Tty → Tty
put_down c t = record (putentryat c t.color t.column t.row t) {
  column = add32 (putentryat c t.color t.column t.row t).column 1;
}

-- A step of the terminal that keeps the cursor on the screen and writes only there.
pub record Kept (t t' : Tty) : Type 0 where
  pub cursor : IsTty t'
  pub behind : SameBehind t t'

next_row-Kept : (t0 t : Tty) → IsTty t → SameBehind t0 t → Kept t0 (next_row t)
next_row-Kept t0 t v s = record {
  cursor = next_row-IsTty t v;
  behind = λ i h. next_row-SameBehind t i h ∙ s i h;
}

-- `terminal_putchar` keeps the cursor on the screen, and writes no cell behind the screen, for every
-- character.
pub putchar-Kept : (c : ℕ) (t : Tty) → IsTty t → Kept t (putchar c t)
unfolding putchar
putchar-Kept c t v =
    if-cases (Kept t) (c == 13)
      (λ cr. record {
        cursor = record { row_lt = v.row_lt; column_lt = omega arith };
        behind = λ i h. refl;
      })
      (λ not_cr.
        if-cases (Kept t) (c == 10)
          (λ lf.
            next_row-Kept t (record t { column = 0 })
              (record { row_lt = v.row_lt; column_lt = omega arith }) (λ i h. refl))
          (λ not_lf.
            if-cases (Kept t) ((put_down c t).column == vga_width)
              (λ end.
                next_row-Kept t (record (put_down c t) { column = 0 })
                  (record {
                    row_lt = rw (putentryat-same c t.color t.column t.row t).0 v.row_lt;
                    column_lt = omega arith;
                  })
                  (putentryat-SameBehind c t.color t v))
              (λ on. record {
                cursor = record {
                  row_lt = rw (putentryat-same c t.color t.column t.row t).0 v.row_lt;
                  column_lt =
                      ground (arith, v.column_lt, (putentryat-same c t.color t.column t.row t).1);
                };
                behind = putentryat-SameBehind c t.color t v;
              })))

-- From a cursor on the screen, `terminal_write` of any text leaves the cursor on the screen, and no
-- cell behind the screen's 2000 changes.
pub write-Kept : (text : List ℕ) (t : Tty) → IsTty t → Kept t (write text t)
unfolding write
write-Kept [] t v = record { cursor = v; behind = λ i h. refl }
write-Kept (c ∷ text) t v =
    let first : Kept t (putchar c t) = putchar-Kept c t v in
    let rest : Kept (putchar c t) (write text (putchar c t)) =
      write-Kept text (putchar c t) first.cursor in
    record { cursor = rest.cursor; behind = λ i h. rest.behind i h ∙ first.behind i h }
