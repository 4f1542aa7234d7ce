-- ===== src/Kernel/Ata/Packet.antt =====
-- The addresses in the registers of a command and in a packet.
use hexos.Base.{ℕ, ◌+◌, ◌*◌, ◌%◌, ◌^◌, ◌<◌, ◌≡◌, refl, arith, length, get_or, bit_and, bit_or}
use hexos.Base.Bits.{bit_and_mask, bit_or_fields}
use hexos.Kernel.Ata.Commands.{drive_flags, read_packet}

-- `x & 0xff` and `x & 0x0f`
pub low_byte : (x : ℕ) → bit_and x 255 ≡ x % 256
low_byte x = bit_and_mask 8 x

low_nibble : (x : ℕ) → bit_and x 15 ≡ x % 16
low_nibble x = bit_and_mask 4 x

-- The flags of a command: the drive, and four bits of the address.
pub flags_lem : (id x : ℕ) → bit_or (drive_flags id) (bit_and x 15) ≡ 224 + id % 2 * 16 + x % 16
flags_lem id x =
    ground
      (arith, low_nibble x, bit_or_fields 4 14 (bit_and x 15), bit_or_fields 4 15 (bit_and x 15))

-- The packet of a reading has 12 bytes; the block and the number of blocks stand in it with the
-- highest byte first, and are what was asked for, when they fit 32 and 16 bits.
pub read_packet-fields :
    (nblocks offset : ℕ)
    → offset < 2 ^ 32
    → nblocks < 2 ^ 16
    → (length (read_packet nblocks offset) ≡ 12)
      × (get_or (read_packet nblocks offset) 2 0 * 2 ^ 24
            + get_or (read_packet nblocks offset) 3 0 * 2 ^ 16
            + get_or (read_packet nblocks offset) 4 0 * 2 ^ 8
            + get_or (read_packet nblocks offset) 5 0
          ≡ offset)
      × (get_or (read_packet nblocks offset) 7 0 * 2 ^ 8 + get_or (read_packet nblocks offset) 8 0
          ≡ nblocks)
unfolding read_packet
read_packet-fields nblocks offset h g = (refl, omega arith, omega arith)
