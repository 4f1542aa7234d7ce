-- ===== src/Kernel/Shell.antt =====
-- kernel/kernel/shell.c: the line editor, and which command a line stands for. `shell_buffer` has 128
-- bytes; the state keeps the memory from its first byte on, also what lies behind it.
pub mod Editor
pub mod Commands
pub mod Files
pub mod Listing
pub mod FileTests
pub mod Tests
use hexos.Base.{
  put, ℕ, zero, suc, ◌+◌, ◌-◌, ◌^◌, Bool, true, false, ◌&&◌, List, [], ◌∷◌, if◌then◌else◌, ◌==◌,
  ltb, leb, u8,
}
use hexos.Arch.Tty.{Tty, putchar, write, deletechar}

abbrev pub buffer_size : ℕ
buffer_size = 128

-- `shell_buffer`, `shell_buffer_len`, and the terminal.
pub record Shell : Type 0 where
  pub buffer : ℕ → ℕ
  pub buffer_len : ℕ
  pub tty : Tty

unfoldable pub shell_prompt : Tty → Tty
shell_prompt t = write (62 ∷ 32 ∷ []) t

-- `runcmd` is `shell_runcmd`.
unfoldable pub enter : (Shell → Shell) → Shell → Shell
enter runcmd s =
    let ran = runcmd (record s { tty = write (10 ∷ []) s.tty }) in
    record { buffer = put 0 0 ran.buffer; buffer_len = 0; tty = shell_prompt ran.tty }

unfoldable pub rub_out : Shell → Shell
rub_out s = if leb s.buffer_len 0 then s else record {
  buffer = put (s.buffer_len - 1) 0 s.buffer;
  buffer_len = s.buffer_len - 1;
  tty = deletechar s.tty;
}

unfoldable pub type_char : ℕ → Shell → Shell
type_char c s = if ltb 254 s.buffer_len then s else record {
  buffer = put (s.buffer_len + 1) 0 (put s.buffer_len c s.buffer);
  buffer_len = u8 (s.buffer_len + 1);
  tty = putchar c s.tty;
}

unfoldable pub shell_putchar : (Shell → Shell) → ℕ → Shell → Shell
shell_putchar runcmd c s =
    if c == 10 then enter runcmd s else if c == 8 then rub_out s else type_char c s

-- `!strcmp(shell_buffer + at, text)`
unfoldable pub same_string : List ℕ → ℕ → (ℕ → ℕ) → Bool
same_string [] at buffer = buffer at == 0
same_string (c ∷ text) at buffer = (buffer at == c) && same_string text (at + 1) buffer

-- `shell_buffer[at] == text[0] && ...`
unfoldable pub starts_with : List ℕ → ℕ → (ℕ → ℕ) → Bool
starts_with [] at buffer = true
starts_with (c ∷ text) at buffer = (buffer at == c) && starts_with text (at + 1) buffer

-- The branches of `shell_runcmd`; an argument is given by where it begins in the buffer.
pub data Command : Type 0 where
  nothing : Command
  uname : Command
  ls : Command
  cd_up : Command
  cd_to : ℕ → Command
  cat : ℕ → Command
  filesize : ℕ → Command
  pwd : Command
  mem : Command
  dump : Command
  top : Command
  proctest : Command
  memtest : Command
  leave : Command
  unknown : Command

-- "uname", "ls", "cd ", "..", "cat ", "filesize", "pwd", "mem", "dump", "top", "proctest", "memtest"
-- and "exit"
unfoldable pub command : Shell → Command
command s =
    if s.buffer_len == 0
    then nothing
    else if same_string (117 ∷ 110 ∷ 97 ∷ 109 ∷ 101 ∷ []) 0 s.buffer
    then uname
    else if same_string (108 ∷ 115 ∷ []) 0 s.buffer
    then ls
    else if starts_with (99 ∷ 100 ∷ 32 ∷ []) 0 s.buffer
    then if same_string (46 ∷ 46 ∷ []) 3 s.buffer then cd_up else cd_to 3
    else if starts_with (99 ∷ 97 ∷ 116 ∷ 32 ∷ []) 0 s.buffer
    then cat 4
    else if starts_with (102 ∷ 105 ∷ 108 ∷ 101 ∷ 115 ∷ 105 ∷ 122 ∷ 101 ∷ []) 0 s.buffer
    then filesize 9
    else if same_string (112 ∷ 119 ∷ 100 ∷ []) 0 s.buffer
    then pwd
    else if same_string (109 ∷ 101 ∷ 109 ∷ []) 0 s.buffer
    then mem
    else if same_string (100 ∷ 117 ∷ 109 ∷ 112 ∷ []) 0 s.buffer
    then dump
    else if same_string (116 ∷ 111 ∷ 112 ∷ []) 0 s.buffer
    then top
    else if same_string (112 ∷ 114 ∷ 111 ∷ 99 ∷ 116 ∷ 101 ∷ 115 ∷ 116 ∷ []) 0 s.buffer
    then proctest
    else if same_string (109 ∷ 101 ∷ 109 ∷ 116 ∷ 101 ∷ 115 ∷ 116 ∷ []) 0 s.buffer
    then memtest
    else if same_string (101 ∷ 120 ∷ 105 ∷ 116 ∷ []) 0 s.buffer
    then leave
    else unknown
