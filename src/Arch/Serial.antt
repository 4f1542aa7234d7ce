-- ===== src/Arch/Serial.antt =====
-- kernel/arch/i386/io.c: the slow versions of the ports and the serial line. The ports are a parameter.
-- The loops that wait for the line run on fuel.
pub mod Sending
pub mod Tests
use hexos.Base.{
  ℕ, zero, suc, ◌+◌, Bool, true, false, not, Option, none, some, List, [], ◌∷◌, if◌then◌else◌, ◌==◌,
  u8, bit_and, ◌>>=◌,
}
use hexos.Arch.Irq.{Ports}
use mathlib.Core.Option

-- PORT, which is COM1
abbrev pub com1 : ℕ
com1 = 1016

-- The devices, and `serial_inited`.
pub record Line (D : Type 0) : Type 0 where
  pub dev : D
  pub inited : Bool

module _ (ports : Ports) where
  open ports use {Dev, inb, outb}

  abbrev pub io_wait : Dev → Dev
  io_wait d = outb 128 0 d

  unfoldable pub inb_slow : ℕ → Dev → ℕ × Dev
  inb_slow port d = let (ret, d') = inb port d in (ret, io_wait d')

  unfoldable pub outb_slow : ℕ → ℕ → Dev → Dev
  outb_slow port val d = io_wait (outb port val d)

  unfoldable pub serial_init : Line Dev → Line Dev
  serial_init s =
      let divisor = outb (com1 + 3) 128 (outb (com1 + 1) 0 s.dev) in
      let rate = outb (com1 + 1) 0 (outb com1 3 divisor) in
      let mode = outb (com1 + 2) 199 (outb (com1 + 3) 3 rate) in
      record { dev = outb (com1 + 4) 11 mode; inited = true }

  -- A bit of the line's status.
  abbrev pub status : ℕ → Line Dev → ℕ × Line Dev
  status mask s = let (v, d) = inb (com1 + 5) s.dev in (bit_and v mask, record s { dev = d })

  unfoldable pub serial_is_transmit_empty : Line Dev → ℕ × Line Dev
  serial_is_transmit_empty s = if s.inited then status 32 s else (1, s)

  -- `while (serial_is_transmit_empty() == 0);`
  unfoldable pub await_empty : ℕ → Line Dev → Option (Line Dev)
  await_empty zero s = none
  await_empty (suc fuel) s =
      let (ready, s') = serial_is_transmit_empty s in
      let rest = await_empty fuel s' in if ready == 0 then rest else some s'

  abbrev pub send : ℕ → Line Dev → Line Dev
  send a s = record s { dev = outb com1 (u8 a) s.dev }

  unfoldable pub serial_write : ℕ → ℕ → Line Dev → Option (Line Dev)
  serial_write fuel a s =
      if s.inited then await_empty fuel s >>= (λ s'. some (send a s')) else some s

  unfoldable pub serial_received : Line Dev → ℕ × Line Dev
  serial_received s = if s.inited then status 1 s else (0, s)

  -- `while (serial_received() == 0);`
  unfoldable pub await_received : ℕ → Line Dev → Option (Line Dev)
  await_received zero s = none
  await_received (suc fuel) s =
      let (ready, s') = serial_received s in
      let rest = await_received fuel s' in if ready == 0 then rest else some s'

  abbrev pub take_byte : Line Dev → ℕ × Line Dev
  take_byte s = let (v, d) = inb com1 s.dev in (v, record s { dev = d })

  -- The character is given as its byte; without the line it is 'e'.
  unfoldable pub serial_read : ℕ → Line Dev → Option (ℕ × Line Dev)
  serial_read fuel s =
      if s.inited then await_received fuel s >>= (λ s'. some (take_byte s')) else some (101, s)

  -- The loop of `dbgprint` over the characters of its string.
  unfoldable pub write_all : ℕ → List ℕ → Line Dev → Option (Line Dev)
  write_all fuel [] s = some s
  write_all fuel (c ∷ text) s = serial_write fuel c s >>= λ s'. write_all fuel text s'

  unfoldable pub dbgprint : ℕ → List ℕ → Line Dev → Option (Line Dev)
  dbgprint fuel text s = if s.inited then write_all fuel text s else some s
