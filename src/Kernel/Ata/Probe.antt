-- ===== src/Kernel/Ata/Probe.antt =====
-- kernel/kernel/io/ata.c: the search for drives.
use mathlib.Core.Option
use hexos.Base.{
  ℕ, zero, suc, ◌+◌, ◌*◌, ◌^◌, true, false, Option, none, some, if◌then◌else◌, ◌==◌, ◌>>=◌, u32,
}
use hexos.Arch.Irq.{irq_enable, install_handler}
use hexos.Libc.Memory.{Memory, store, memset, strcpy}
use hexos.Kernel.Ata.Driver.{
  Machine, Kernel, Outcome, ◌proceed◌, status_port, data_request, ata_reset, ata_wait, ata_pio_read,
  ata_interrupt_handler,
}
use hexos.Kernel.Ata.Commands.{ata_begin, command_identify, packet_identify}

-- `*nblocks` and `*blocksize`
pub record Disk : Type 0 where
  pub nblocks : ℕ
  pub blocksize : ℕ

-- The word `buffer[i]`.
abbrev pub word_at : ℕ → ℕ → Memory → ℕ
word_at buffer i m = m (buffer + 2 * i) + m (buffer + 2 * i + 1) * 2 ^ 8

-- The loop that swaps the bytes of each word, by the rounds left.
unfoldable pub swap_bytes : ℕ → ℕ → Memory → Memory
swap_bytes zero at m = m
swap_bytes (suc n) at m = swap_bytes n (at + 2) (store (at + 1) (m at) (store at (m (at + 1)) m))

-- The name: the bytes from 54 on, of at most 40 characters.
unfoldable pub device_name : ℕ → ℕ → ℕ → Memory → Option Memory
device_name fuel buffer name m =
    Option.map (λ m'. store (name + 40) 0 m')
      (strcpy fuel name (buffer + 54) (store (buffer + 256) 0 (swap_bytes 256 buffer m)))

module _ (machine : Machine) where
  unfoldable pub ata_identify : ℕ → ℕ → ℕ → ℕ → Kernel machine → Outcome machine
  ata_identify fuel id command buffer w =
      ◌proceed◌ machine
        (◌proceed◌ machine (ata_begin machine fuel id command 0 0 w)
          (λ w. ata_wait machine fuel id data_request data_request w))
        (λ w. some (true, ata_pio_read machine id buffer 512 w))

  -- The size of a disk, from what `ata_identify` has read.
  abbrev pub disk_size : ℕ → Memory → Disk
  disk_size buffer m = record {
    nblocks = u32 (word_at buffer 1 m * word_at buffer 3 m * word_at buffer 6 m);
    blocksize = 512;
  }

  -- The three ways on from the two commands.
  abbrev pub second : Outcome machine → Option (Option Disk × Kernel machine)
  second none = none
  second (some (true, w)) = some (some (record { nblocks = 337920; blocksize = 2048 }), w)
  second (some (false, w)) = some (none, w)

  abbrev pub first :
      ℕ
      → (Kernel machine → Outcome machine)
      → Outcome machine
      → Option (Option Disk × Kernel machine)
  first buffer other_command none = none
  first buffer other_command (some (true, w)) = some (some (disk_size buffer w.memory), w)
  first buffer other_command (some (false, w)) = second (other_command w)

  abbrev pub name_disk :
      ℕ → ℕ → ℕ → Option Disk × Kernel machine → Option (Option Disk × Kernel machine)
  name_disk fuel buffer name (none, w) = some (none, w)
  name_disk fuel buffer name (some disk, w) =
      Option.map (λ m. (some disk, record w { memory = m })) (device_name fuel buffer name w.memory)

  -- `buffer` is the address of the local array, `name` where the name goes.
  unfoldable pub ata_probe : ℕ → ℕ → ℕ → ℕ → Kernel machine → Option (Option Disk × Kernel machine)
  ata_probe fuel id buffer name w =
      let (t, d) = machine.ports.inb (status_port id) w.dev in
      let w1 = record w { dev = d } in
      let identified = ata_reset machine fuel id w1 >>= λ w2.
      let cleared = record w2 { memory = (memset buffer 0 512 w2.memory).1 } in
      first buffer (λ w. ata_identify fuel id packet_identify buffer w)
        (ata_identify fuel id command_identify buffer cleared) in
      if t == 255 then some (none, w1) else identified >>= name_disk fuel buffer name

  -- The loop of `ata_init` over the units from `id` on, by the rounds left.
  unfoldable pub probe_units : ℕ → ℕ → ℕ → ℕ → ℕ → Kernel machine → Option (Kernel machine)
  probe_units zero fuel id buffer name w = some w
  probe_units (suc n) fuel id buffer name w =
      ata_probe fuel id buffer name w >>= λ (_, w'). probe_units n fuel (id + 1) buffer name w'

  abbrev pub enable : ℕ → Kernel machine → Kernel machine
  enable irq w = record w {
    routines = install_handler irq ata_interrupt_handler w.routines;
    dev = irq_enable machine.ports irq w.dev;
  }

  unfoldable pub ata_init : ℕ → ℕ → ℕ → Kernel machine → Option (Kernel machine)
  ata_init fuel buffer name w = probe_units 4 fuel 0 buffer name (enable 15 (enable 14 w))
