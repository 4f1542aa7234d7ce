-- ===== src/Kernel/Ata/Commands.antt =====
-- kernel/kernel/io/ata.c and kernel/kernel/blockdevice.c: reading and writing blocks.
use mathlib.Core.Option
use hexos.Base.{
  ℕ, zero, suc, ◌+◌, ◌%◌, true, Option, some, List, [], ◌∷◌, get_or, if◌then◌else◌, ◌==◌, ◌>>=◌, u8,
  ◌>>◌, bit_and, bit_or,
}
use hexos.Kernel.Ata.Driver.{
  Machine, ata_base, fdh_port, status_port, control_port, busy, ready, data_request, Kernel,
  Outcome, ◌proceed◌, out, ata_wait, ata_pio_read, ata_pio_write, await_interrupt, mutex_lock,
  mutex_unlock,
}

-- ATA_FLAGS_ECC|ATA_FLAGS_LBA|ATA_FLAGS_SEC, and ATA_FLAGS_SLV for odd-numbered drives
abbrev pub drive_flags : ℕ → ℕ
drive_flags id = if id % 2 == 0 then 224 else bit_or 224 16

-- ATA_COMMAND_READ, ATA_COMMAND_WRITE, ATA_COMMAND_IDENTIFY, ATAPI_COMMAND_IDENTIFY and
-- ATAPI_COMMAND_PACKET
abbrev pub command_read : ℕ
command_read = 32

abbrev pub command_write : ℕ
command_write = 48

abbrev pub command_identify : ℕ
command_identify = 236

abbrev pub packet_identify : ℕ
packet_identify = 161

abbrev pub command_packet : ℕ
command_packet = 160

-- The packet of `atapi_read_unlocked`, which begins with SCSI_READ10.
unfoldable pub read_packet : ℕ → ℕ → List ℕ
read_packet nblocks offset =
    40
    ∷ 0
    ∷ u8 (offset >> 24)
    ∷ u8 (offset >> 16)
    ∷ u8 (offset >> 8)
    ∷ u8 offset
    ∷ 0
    ∷ u8 (nblocks >> 8)
    ∷ u8 nblocks
    ∷ 0
    ∷ 0
    ∷ 0
    ∷ []

module _ (machine : Machine) where
  unfoldable pub ata_begin : ℕ → ℕ → ℕ → ℕ → ℕ → Kernel machine → Outcome machine
  ata_begin fuel id command nblocks offset w =
      let base = ata_base id in
      let flags = bit_or (drive_flags id) (bit_and (offset >> 24) 15) in
      let send : Kernel machine → Outcome machine = λ w.
        let w1 = out machine (control_port id) 0 w in
        let w2 = out machine (base + 2) (u8 nblocks) w1 in
        let w3 = out machine (base + 3) (bit_and offset 255) w2 in
        let w4 = out machine (base + 4) (bit_and (offset >> 8) 255) w3 in
        let w5 = out machine (base + 5) (bit_and (offset >> 16) 255) w4 in
        let w6 = out machine (fdh_port id) flags w5 in
        some (true, out machine (status_port id) command w6) in
      let get_ready : Kernel machine → Outcome machine = λ w.
        if command == packet_identify
        then ata_wait machine fuel id busy 0 w
        else ata_wait machine fuel id (busy + ready) ready w in
      ◌proceed◌ machine
        (◌proceed◌ machine (ata_wait machine fuel id busy 0 w)
          (λ w. get_ready (out machine (fdh_port id) flags w)))
        send

  -- The loops that read and write blocks, by the blocks left.
  unfoldable pub read_blocks : ℕ → ℕ → ℕ → ℕ → ℕ → Kernel machine → Outcome machine
  read_blocks fuel id size zero buffer w = some (true, w)
  read_blocks fuel id size (suc n) buffer w =
      ◌proceed◌ machine (ata_wait machine fuel id data_request data_request w)
        (λ w. read_blocks fuel id size n (buffer + size) (ata_pio_read machine id buffer size w))

  unfoldable pub write_blocks : ℕ → ℕ → ℕ → ℕ → ℕ → Kernel machine → Outcome machine
  write_blocks fuel id size zero buffer w = some (true, w)
  write_blocks fuel id size (suc n) buffer w =
      ◌proceed◌ machine (ata_wait machine fuel id data_request data_request w) (λ w.
        write_blocks fuel id size n (buffer + size)
          (ata_pio_write machine id (λ k. w.memory (buffer + k)) size w))

  unfoldable pub ata_read_unlocked : ℕ → ℕ → ℕ → ℕ → ℕ → Kernel machine → Outcome machine
  ata_read_unlocked fuel id buffer nblocks offset w =
      ◌proceed◌ machine
        (◌proceed◌ machine (ata_begin fuel id command_read nblocks offset w)
          (λ w. read_blocks fuel id 512 nblocks buffer (await_interrupt machine w)))
        (λ w. ata_wait machine fuel id busy 0 w)

  unfoldable pub ata_write_unlocked : ℕ → ℕ → ℕ → ℕ → ℕ → Kernel machine → Outcome machine
  ata_write_unlocked fuel id buffer nblocks offset w =
      ◌proceed◌ machine
        (◌proceed◌ machine (ata_begin fuel id command_write nblocks offset w)
          (λ w. write_blocks fuel id 512 nblocks buffer w))
        (λ w. ata_wait machine fuel id busy 0 (await_interrupt machine w))

  -- The outcome of the wait for the packet is not looked at.
  unfoldable pub atapi_begin : ℕ → ℕ → List ℕ → ℕ → Kernel machine → Outcome machine
  atapi_begin fuel id packet length w =
      let base = ata_base id in
      let flags = drive_flags id in
      let send : Kernel machine → Outcome machine = λ w.
        let w1 = out machine (base + 1) 0 w in
        let w2 = out machine (base + 2) 0 w1 in
        let w3 = out machine (base + 3) 0 w2 in
        let w4 = out machine (base + 4) (bit_and length 255) w3 in
        let w5 = out machine (base + 5) (u8 (length >> 8)) w4 in
        let w6 = out machine (status_port id) command_packet w5 in
        Option.map (λ (_, w). (true, ata_pio_write machine id (λ k. get_or packet k 0) length w))
          (ata_wait machine fuel id (busy + data_request) data_request w6) in
      ◌proceed◌ machine
        (◌proceed◌ machine (ata_wait machine fuel id busy 0 w)
          (λ w. ata_wait machine fuel id busy 0 (out machine (fdh_port id) flags w)))
        send

  unfoldable pub atapi_read_unlocked : ℕ → ℕ → ℕ → ℕ → ℕ → Kernel machine → Outcome machine
  atapi_read_unlocked fuel id buffer nblocks offset w =
      ◌proceed◌ machine (atapi_begin fuel id (read_packet nblocks offset) 12 w)
        (λ w. read_blocks fuel id 2048 nblocks buffer (await_interrupt machine w))

  -- The lock round a command; the result is `count` if it succeeds, else 0.
  abbrev pub with_lock :
      ℕ → (Kernel machine → Outcome machine) → ℕ → Kernel machine → Option (ℕ × Kernel machine)
  with_lock fuel command count w = mutex_lock machine fuel w >>= λ w'.
      Option.map (λ (done, w). (if done then count else 0, mutex_unlock machine w)) (command w')

  unfoldable pub ata_read : ℕ → ℕ → ℕ → ℕ → ℕ → Kernel machine → Option (ℕ × Kernel machine)
  ata_read fuel id buffer nblocks offset w =
      with_lock fuel (ata_read_unlocked fuel id buffer nblocks offset) nblocks w

  unfoldable pub ata_write : ℕ → ℕ → ℕ → ℕ → ℕ → Kernel machine → Option (ℕ × Kernel machine)
  ata_write fuel id buffer nblocks offset w =
      with_lock fuel (ata_write_unlocked fuel id buffer nblocks offset) nblocks w

  unfoldable pub atapi_read : ℕ → ℕ → ℕ → ℕ → ℕ → Kernel machine → Option (ℕ × Kernel machine)
  atapi_read fuel id buffer nblocks offset w =
      with_lock fuel (atapi_read_unlocked fuel id buffer nblocks offset) 1 w

  -- `atapi_block_read` of a device whose metadata names the unit `ata_number`.
  unfoldable pub atapi_block_read : ℕ → ℕ → ℕ → ℕ → ℕ → Kernel machine → Option (Kernel machine)
  atapi_block_read fuel ata_number buffer nblocks offset w =
      Option.map (λ (_, w'). w') (atapi_read fuel ata_number buffer nblocks offset w)
