-- ===== src/Arch/Tty/Scroll.antt =====
-- The loops of `terminal_initialize` and `terminal_scrollup`.
use hexos.Base.{
  put, within, ℕ, zero, suc, ◌+◌, ◌-◌, ◌*◌, ◌≡◌, refl, ap, ◌∙◌, arith, ltb, if◌then◌else◌,
}
use hexos.Arch.Tty.{
  Tty, vga_width, vga_height, blank, clear_line, clear_lines, copy_line, copy_lines, scrollup,
  initialize,
}

within_join :
    (a n m i x y : ℕ)
    → (if within (a + n) m i then x else if within a n i then x else y)
      ≡ (if within a (n + m) i then x else y)
within_join a n m i x y = ground arith

within_shift :
    (a n m i : ℕ) (f : ℕ → ℕ)
    → (if within (a + n) m i
        then if within a n (i + n) then f (i + n + n) else f (i + n)
        else if within a n i
        then f (i + n)
        else f i)
      ≡ (if within a (n + m) i then f (i + n) else f i)
within_shift a n m i f = ground arith

clear_line_lem :
    (n x y color : ℕ) (buffer : ℕ → ℕ) (i : ℕ)
    → clear_line n x y color buffer i
      ≡ (if within (y * vga_width + x) n i then blank color else buffer i)
unfolding clear_line
clear_line_lem zero x y color buffer i = ground arith
clear_line_lem (suc n) x y color buffer i =
    ground
      (arith, clear_line_lem n (x + 1) y color (put (y * vga_width + x) (blank color) buffer) i)

clear_lines_lem :
    (n y color : ℕ) (buffer : ℕ → ℕ) (i : ℕ)
    → clear_lines n y color buffer i
      ≡ (if within (y * vga_width) (n * vga_width) i then blank color else buffer i)
unfolding clear_lines
clear_lines_lem zero y color buffer i = ground arith
clear_lines_lem (suc n) y color buffer i =
    rw
      (
        clear_lines_lem n (y + 1) color (clear_line vga_width 0 y color buffer) i,
        clear_line_lem vga_width 0 y color buffer i,
        next_start,
        start,
        more,
      )
      (within_join (y * vga_width) vga_width (n * vga_width) i (blank color) (buffer i))
  where
    start : y * vga_width + 0 ≡ y * vga_width
    start = omega arith

    next_start : (y + 1) * vga_width ≡ y * vga_width + vga_width
    next_start = omega arith

    more : suc n * vga_width ≡ vga_width + n * vga_width
    more = omega arith

copy_line_lem :
    (n x y : ℕ) (buffer : ℕ → ℕ) (i : ℕ)
    → copy_line n x (suc y) buffer i
      ≡ (if within (y * vga_width + x) n i then buffer (i + vga_width) else buffer i)
unfolding copy_line
copy_line_lem zero x y buffer i = ground arith
copy_line_lem (suc n) x y buffer i = ground (
  arith,
  copy_line_lem n (x + 1) y
      (put (suc y * vga_width + x - vga_width) (buffer (suc y * vga_width + x)) buffer) i,
)

copy_line_first : (n x : ℕ) (buffer : ℕ → ℕ) → copy_line n x 0 buffer ≡ buffer
unfolding copy_line
copy_line_first zero x buffer = refl
copy_line_first (suc n) x buffer = copy_line_first n (x + 1) buffer

copy_lines_lem :
    (n y : ℕ) (buffer : ℕ → ℕ) (i : ℕ)
    → copy_lines n (suc y) buffer i
      ≡ (if within (y * vga_width) (n * vga_width) i then buffer (i + vga_width) else buffer i)
unfolding copy_lines
copy_lines_lem zero y buffer i = ground arith
copy_lines_lem (suc n) y buffer i =
    rw
      (
        second,
        copy_lines_lem n (suc y) (copy_line vga_width 0 (suc y) buffer) i,
        copy_line_lem vga_width 0 y buffer i,
        copy_line_lem vga_width 0 y buffer (i + vga_width),
        next_start,
        start,
        more,
      )
      (within_shift (y * vga_width) vga_width (n * vga_width) i buffer)
  where
    second : suc y + 1 ≡ suc (suc y)
    second = omega arith

    start : y * vga_width + 0 ≡ y * vga_width
    start = omega arith

    next_start : suc y * vga_width ≡ y * vga_width + vga_width
    next_start = omega arith

    more : suc n * vga_width ≡ vga_width + n * vga_width
    more = omega arith

-- Scrolling moves every line up by one, blanks the last line, and writes nothing behind the screen.
pub scrollup_lem :
    (t : Tty) (i : ℕ)
    → (scrollup t).buffer i ≡ (
        if ltb i ((vga_height - 1) * vga_width)
        then t.buffer (i + vga_width)
        else if ltb i (vga_height * vga_width)
        then blank t.color
        else t.buffer i)
unfolding scrollup
scrollup_lem t i =
    rw
      (
        clear_line_lem vga_width 0 (vga_height - 1) t.color (copy_lines vga_height 0 t.buffer) i,
        first,
        copy_lines_lem (vga_height - 1) 0 t.buffer i,
      )
      (screen (t.buffer (i + vga_width)) (blank t.color) (t.buffer i))
  where
    first : copy_lines vga_height 0 t.buffer i ≡ copy_lines (vga_height - 1) 1 t.buffer i
    first =
        unfold copy_lines in
        ap (λ buffer. copy_lines (vga_height - 1) 1 buffer i) (copy_line_first vga_width 0 t.buffer)

    screen :
        (a b c : ℕ)
        → (if within 1920 80 i then b else if within 0 1920 i then a else c)
          ≡ (if ltb i 1920 then a else if ltb i 2000 then b else c)
    screen a b c = ground arith

-- `terminal_initialize` blanks the whole screen, writes nothing else, and puts the cursor at the
-- first cell.
pub initialize_lem :
    (t : Tty) (i : ℕ)
    → ((initialize t).buffer i
        ≡ (if ltb i (vga_height * vga_width) then blank (initialize t).color else t.buffer i))
      × ((initialize t).row ≡ 0)
      × ((initialize t).column ≡ 0)
unfolding initialize
initialize_lem t i =
    (clear_lines_lem vga_height 0 (initialize t).color t.buffer i ∙ ground arith, refl, refl)
