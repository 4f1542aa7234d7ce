-- ===== src/Kernel/Ata/Reading.antt =====
-- `atapi_read` from a packet drive: the blocks of the disc arrive.
use hexos.Base.{within, ℕ, ◌+◌, ◌*◌, ◌/◌, ◌%◌, ◌^◌, ◌<◌, ◌≡◌, true, false, u8, ◌>>◌}
use hexos.Libc.Memory.{Memory}
use hexos.Kernel.Ata.Driver.{Machine, Kernel, ata_base, fdh_port, status_port, data_port}
use hexos.Kernel.Ata.Commands.{drive_flags, command_packet}
use hexos.Kernel.Ata.Drive.{IsDrive}

-- The `n` blocks from block `lba` on stand in memory from `buffer` on, each word with its low byte
-- first, and nothing else differs.
pub record Arrived (disc : ℕ → ℕ → ℕ) (lba n buffer : ℕ) (m m' : Memory) : Type 0 where
  pub low : (k : ℕ) → k < n * 1024 → m' (buffer + 2 * k) ≡ disc (lba + k / 1024) (k % 1024) % 2 ^ 8
  pub high :
      (k : ℕ)
      → k < n * 1024
      → m' (buffer + 2 * k + 1) ≡ disc (lba + k / 1024) (k % 1024) / 2 ^ 8 % 2 ^ 8
  pub frame : (x : ℕ) → within buffer (n * 2048) x ≡ false → m' x ≡ m x

module _ (machine : Machine) where
  -- The kernel while this process has the mutex.
  abbrev pub holding : Kernel machine → Kernel machine
  holding w = record w {
    ata_mutex = record w.ata_mutex { locked = true };
    sched = record w.sched { interrupts = true };
  }

module _ (machine : Machine) {id : ℕ} {disc : ℕ → ℕ → ℕ} (r : IsDrive machine id disc) where
  open r use {phase, status, seen, written, word_in, read, word_out}

  -- The devices once the status was read.
  abbrev looked : machine.ports.Dev → machine.ports.Dev
  looked d = (machine.ports.inb (status_port id) d).1

  abbrev selected : machine.ports.Dev → machine.ports.Dev
  selected d = looked (machine.ports.outb (fdh_port id) (drive_flags id) (looked d))

  abbrev registers : machine.ports.Dev → machine.ports.Dev
  registers d = machine.ports.outb (ata_base id + 5) 0 (
      machine.ports.outb (ata_base id + 4) 12 (
        machine.ports.outb (ata_base id + 3) 0
          (machine.ports.outb (ata_base id + 2) 0 (machine.ports.outb (ata_base id + 1) 0 d))))

  abbrev asked : machine.ports.Dev → machine.ports.Dev
  asked d = looked (machine.ports.outb (status_port id) command_packet (registers (selected d)))

  -- The six words of a packet.
  abbrev word : ℕ → machine.ports.Dev → machine.ports.Dev
  word v d = machine.outw (data_port id) v d

  abbrev packet_written : ℕ → ℕ → machine.ports.Dev → machine.ports.Dev
  packet_written nblocks offset d = word 0 (
      word (u8 nblocks + 0 * 2 ^ 8) (
        word (0 + u8 (nblocks >> 8) * 2 ^ 8) (
          word (u8 (offset >> 8) + u8 offset * 2 ^ 8)
            (word (u8 (offset >> 24) + u8 (offset >> 16) * 2 ^ 8) (word (40 + 0 * 2 ^ 8) d)))))
