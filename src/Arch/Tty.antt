-- ===== src/Arch/Tty.antt =====
-- kernel/arch/i386/tty.c and kernel/include/kernel/vga.h: the text terminal. A `size_t` is 32 bits
-- wide; a `char` is given as its byte, and is signed.
pub mod Scroll
pub mod Cursor
pub mod Text
pub mod Delete
pub mod Tests
use hexos.Base.{
  put, ℕ, zero, suc, ◌+◌, ◌-◌, ◌*◌, ◌^◌, List, [], ◌∷◌, if◌then◌else◌, ◌==◌, ltb, u8, u16, u32,
  add32, sub32, ◌<<◌, bit_or,
}

abbrev pub vga_width : ℕ
vga_width = 80

abbrev pub vga_height : ℕ
vga_height = 25

abbrev pub color_black : ℕ
color_black = 0

abbrev pub color_light_grey : ℕ
color_light_grey = 7

unfoldable pub make_color : ℕ → ℕ → ℕ
make_color fg bg = u8 (bit_or fg (bg << 4))

-- `uint16_t c16 = c;` extends the sign of the `char`.
abbrev pub char16 : ℕ → ℕ
char16 c = if ltb c 128 then c else c + 65280

unfoldable pub make_vgaentry : ℕ → ℕ → ℕ
make_vgaentry c color = u16 (bit_or (char16 c) (color << 8))

-- `terminal_buffer[i]` is `buffer i`.
pub record Tty : Type 0 where
  pub row : ℕ
  pub column : ℕ
  pub color : ℕ
  pub buffer : ℕ → ℕ

abbrev pub blank : ℕ → ℕ
blank color = make_vgaentry 32 color

-- The loop over `x`, from `x` on, by the rounds left.
unfoldable pub clear_line : ℕ → ℕ → ℕ → ℕ → (ℕ → ℕ) → ℕ → ℕ
clear_line zero x y color buffer = buffer
clear_line (suc n) x y color buffer =
    clear_line n (x + 1) y color (put (y * vga_width + x) (blank color) buffer)

unfoldable pub clear_lines : ℕ → ℕ → ℕ → (ℕ → ℕ) → ℕ → ℕ
clear_lines zero y color buffer = buffer
clear_lines (suc n) y color buffer =
    clear_lines n (y + 1) color (clear_line vga_width 0 y color buffer)

unfoldable pub initialize : Tty → Tty
initialize t =
    let color = make_color color_light_grey color_black in
    record { row = 0; column = 0; color = color; buffer = clear_lines vga_height 0 color t.buffer }

unfoldable pub copy_line : ℕ → ℕ → ℕ → (ℕ → ℕ) → ℕ → ℕ
copy_line zero x y buffer = buffer
copy_line (suc n) x y buffer =
    let index = y * vga_width + x in
    copy_line n (x + 1) y (if y == 0 then buffer else put (index - vga_width) (buffer index) buffer)

unfoldable pub copy_lines : ℕ → ℕ → (ℕ → ℕ) → ℕ → ℕ
copy_lines zero y buffer = buffer
copy_lines (suc n) y buffer = copy_lines n (y + 1) (copy_line vga_width 0 y buffer)

unfoldable pub scrollup : Tty → Tty
scrollup t = record t {
  buffer = clear_line vga_width 0 (vga_height - 1) t.color (copy_lines vga_height 0 t.buffer);
}

unfoldable pub setcolor : ℕ → Tty → Tty
setcolor color t = record t { color = color }

unfoldable pub putentryat : ℕ → ℕ → ℕ → ℕ → Tty → Tty
putentryat c color x y t = record t {
  buffer = put (u32 (y * vga_width + x)) (make_vgaentry c color) t.buffer;
}

-- `if (++terminal_row == VGA_HEIGHT) { terminal_scrollup(); terminal_row--; }`
unfoldable pub next_row : Tty → Tty
next_row t =
    let down = record t { row = add32 t.row 1 } in
    if down.row == vga_height then record (scrollup down) { row = sub32 down.row 1 } else down

unfoldable pub putchar : ℕ → Tty → Tty
putchar c t =
    let put_down = putentryat c t.color t.column t.row t in
    let on = record put_down { column = add32 put_down.column 1 } in
    if c == 13
    then record t { column = 0 }
    else if c == 10
    then next_row (record t { column = 0 })
    else if on.column == vga_width
    then next_row (record on { column = 0 })
    else on

-- `data` up to `size` bytes.
unfoldable pub write : List ℕ → Tty → Tty
write [] t = t
write (c ∷ text) t = write text (putchar c t)

-- `terminal_column` is unsigned.
unfoldable pub deletechar : Tty → Tty
deletechar t =
    let back = record t { column = sub32 t.column 1 } in
    let up =
      if ltb back.column 0
      then record back { row = sub32 back.row 1; column = vga_width - 1 }
      else back in
    putentryat 32 up.color up.column up.row up
