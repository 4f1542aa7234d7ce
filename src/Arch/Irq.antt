-- ===== src/Arch/Irq.antt =====
-- The interrupt controller and its handlers in kernel/arch/i386/isr.c. The ports are a parameter: a
-- state of the devices with a read and a write, as `inb` and `outb` of io.c reach them.
pub mod Masks
pub mod Tests
use hexos.Base.{
  ℕ, zero, suc, ◌+◌, ◌-◌, ◌*◌, ◌^◌, Bool, true, false, Option, none, some, if◌then◌else◌, ◌==◌, ltb,
  leb, u8, ◌<<◌, bit_and, bit_or,
}

-- The device state, and what `inb` and `outb` do to it; a read returns the byte and the new state.
pub record Ports : Type 1 where
  pub Dev : Type 0
  pub inb : ℕ → Dev → ℕ × Dev
  pub outb : ℕ → ℕ → Dev → Dev

-- pic_data[0], pic_data[1], pic_control[0] and pic_control[1]
abbrev pub master_data : ℕ
master_data = 33

abbrev pub slave_data : ℕ
slave_data = 161

abbrev pub master_control : ℕ
master_control = 32

abbrev pub slave_control : ℕ
slave_control = 160

module _ (ports : Ports) where
  open ports use {Dev, inb, outb}

  unfoldable pub irq_remap : Dev → Dev
  irq_remap d =
      let start = outb 160 17 (outb 32 17 d) in
      let offsets = outb 161 40 (outb 33 32 start) in
      let cascade = outb 161 2 (outb 33 4 offsets) in
      let mode = outb 161 1 (outb 33 1 cascade) in outb 161 0 (outb 33 0 mode)

  unfoldable pub pic_init : ℕ → ℕ → Dev → Dev
  pic_init pic0base pic1base d =
      let start = outb master_control 17 d in
      let base = outb master_data (u8 pic0base) start in
      let wired = outb master_data (1 << 2) base in
      let mode = outb master_data 1 wired in
      let masked = outb master_data (u8 (2 ^ 32 - 1 - (1 << 2))) mode in
      let start' = outb slave_control 17 masked in
      let base' = outb slave_data (u8 pic1base) start' in
      let wired' = outb slave_data 2 base' in
      let mode' = outb slave_data 5 wired' in outb slave_data (u8 (2 ^ 32 - 1)) mode'

  -- `mask&~(1<<irq)` at a port.
  unfoldable pub clear_mask : ℕ → ℕ → Dev → Dev
  clear_mask port irq d =
      let (mask, d') = inb port d in outb port (u8 (bit_and mask (2 ^ 32 - 1 - (1 << irq)))) d'

  unfoldable pub set_mask : ℕ → ℕ → Dev → Dev
  set_mask port irq d = let (mask, d') = inb port d in outb port (u8 (bit_or mask (1 << irq))) d'

  -- The recursive call is for interrupt 2, which is below 8.
  unfoldable pub irq_enable : ℕ → Dev → Dev
  irq_enable irq d =
      if ltb irq 8
      then clear_mask master_data irq d
      else clear_mask master_data 2 (clear_mask slave_data irq d)

  unfoldable pub pic_disable : ℕ → Dev → Dev
  pic_disable irq d = if ltb irq 8 then set_mask master_data irq d else set_mask slave_data irq d

  unfoldable pub pic_acknowledge : ℕ → Dev → Dev
  pic_acknowledge irq d =
      if leb 8 irq
      then outb master_control (96 + 2) (outb slave_control (u8 (96 + (irq - 8))) d)
      else outb master_control (u8 (96 + irq)) d

-- `irq_routines`, with handlers from any type.
abbrev pub Routines : Type 0 → Type 0
Routines H = ℕ → Option H

module _ {H : Type 0} where
  unfoldable pub install_handler : ℕ → H → Routines H → Routines H
  install_handler irq handler routines = λ i. if i == irq then some handler else routines i

  unfoldable pub uninstall_handler : ℕ → Routines H → Routines H
  uninstall_handler irq routines = λ i. if i == irq then none else routines i

-- `irq_handler`: a handler is a function on the devices and the state `S` of the kernel.
module _ (ports : Ports) {S : Type 0} where
  open ports use {Dev, outb}

  abbrev pub run_handler : Option (ℕ → Dev × S → Dev × S) → ℕ → Dev × S → Dev × S
  run_handler none int_no st = st
  run_handler (some handler) int_no st = handler int_no st

  unfoldable pub irq_handler : Routines (ℕ → Dev × S → Dev × S) → ℕ → Dev × S → Dev × S
  irq_handler routines int_no st =
      let (d, s) = run_handler (routines (int_no - 32)) int_no st in
      let d' = if leb 40 int_no then outb 160 32 d else d in (outb 32 32 d', s)
