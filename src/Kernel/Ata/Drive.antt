-- ===== src/Kernel/Ata/Drive.antt =====
-- A packet drive as the ATA packet interface describes it, for readings of whole blocks: in which phase
-- of a command it is, and what its registers answer. The host may only go on once it has read from the
-- status that the drive is not busy, or requests data; the drive has come so far when it is asked.
use hexos.Base.{
  ℕ, zero, suc, ◌+◌, ◌*◌, ◌/◌, ◌%◌, ◌^◌, ◌≤◌, ◌≡◌, Bool, true, false, List, [], ◌∷◌, ◌++◌, length,
  if◌then◌else◌, ◌==◌,
}
use hexos.Kernel.Ata.Driver.{Machine, ata_base, data_port, fdh_port, status_port}

-- No command; the same, but after the selection of a unit, until the status is read; the packet command was written; the packet is asked for, and these words of it have
-- come; `n` blocks from block `lba` on are left, and the status was not read since the last; the drive
-- gives block `lba` from word `k` on, with `n` blocks behind it; and after an access that is out of
-- order.
pub data Phase : Type 0 where
  idle : Phase
  settling : Phase
  commanded : Phase
  asking : List ℕ → Phase
  fetching : (lba n : ℕ) → Phase
  offering : (lba n k : ℕ) → Phase
  lost : Phase

-- The status: 0x40 is ready, 0x48 also requests data, and 0x41 is an error.
abbrev pub status_of : Phase → ℕ
status_of idle = 64
status_of settling = 64
status_of commanded = 72
status_of (asking words) = 72
status_of (fetching lba zero) = 64
status_of (fetching lba (suc n)) = 72
status_of (offering lba n k) = 72
status_of lost = 65

-- The host has seen the status. Only then it may move data.
abbrev pub after_status : Phase → Phase
after_status idle = idle
after_status settling = idle
after_status commanded = asking []
after_status (asking words) = asking words
after_status (fetching lba zero) = idle
after_status (fetching lba (suc n)) = offering lba n 0
after_status (offering lba n k) = offering lba n k
after_status lost = lost

abbrev pub after_command : Phase → Phase
after_command idle = commanded
after_command settling = lost
after_command commanded = lost
after_command (asking words) = lost
after_command (fetching lba n) = lost
after_command (offering lba n k) = lost
after_command lost = lost

-- A write to another register, which may select the unit.
abbrev pub after_register : Bool → Phase → Phase
after_register true idle = settling
after_register false idle = idle
after_register selects settling = lost
after_register selects commanded = lost
after_register selects (asking words) = lost
after_register selects (fetching lba n) = lost
after_register selects (offering lba n k) = lost
after_register selects lost = lost

-- A write to a register: command 0xA0 at the command register begins a packet.
abbrev pub after_write : ℕ → ℕ → ℕ → Phase → Phase
after_write id port value p =
    if port == status_port id
    then if value == 160 then after_command p else lost
    else after_register (port == fdh_port id) p

-- A packet of six words: READ(10), operation code 0x28, has the block in its bytes 2 to 5 and the
-- number of blocks in its bytes 7 and 8, the high byte first.
abbrev pub accept : List ℕ → Phase
accept (a ∷ b ∷ c ∷ d ∷ e ∷ f ∷ []) =
    if a % 2 ^ 8 == 40
    then fetching (b % 2 ^ 8 * 2 ^ 24 + b / 2 ^ 8 * 2 ^ 16 + c % 2 ^ 8 * 2 ^ 8 + c / 2 ^ 8)
        (d / 2 ^ 8 * 2 ^ 8 + e % 2 ^ 8)
    else lost
accept words = lost

abbrev pub after_word : ℕ → Phase → Phase
after_word word (asking words) =
    if length words == 5 then accept (words ++ word ∷ []) else asking (words ++ word ∷ [])
after_word word idle = lost
after_word word settling = lost
after_word word commanded = lost
after_word word (fetching lba n) = lost
after_word word (offering lba n k) = lost
after_word word lost = lost

-- The drive before word `k` of a block of 1024 words, or behind it.
abbrev pub at_word : ℕ → ℕ → ℕ → Phase
at_word lba n k = if k == 1024 then fetching (lba + 1) n else offering lba n k

abbrev pub after_read : Phase → Phase
after_read (offering lba n k) = at_word lba n (k + 1)
after_read idle = lost
after_read settling = lost
after_read commanded = lost
after_read (asking words) = lost
after_read (fetching lba n) = lost
after_read lost = lost

-- The word that is read; `disc` has the words of each block.
abbrev pub word_of : (ℕ → ℕ → ℕ) → Phase → ℕ
word_of disc (offering lba n k) = disc lba k
word_of disc idle = 0
word_of disc settling = 0
word_of disc commanded = 0
word_of disc (asking words) = 0
word_of disc (fetching lba n) = 0
word_of disc lost = 0

-- The unit `id` is such a drive, as long as the unit itself is selected.
pub record IsDrive (machine : Machine) (id : ℕ) (disc : ℕ → ℕ → ℕ) : Type 0 where
  pub phase : machine.ports.Dev → Phase
  pub status :
      (d : machine.ports.Dev) → (machine.ports.inb (status_port id) d).0 ≡ status_of (phase d)
  pub seen :
      (d : machine.ports.Dev)
      → phase (machine.ports.inb (status_port id) d).1 ≡ after_status (phase d)
  pub written :
      (port value : ℕ) (d : machine.ports.Dev)
      → ata_base id ≤ port
      → port ≤ status_port id
      → (port ≡ fdh_port id → value / 16 % 2 ≡ id % 2)
      → phase (machine.ports.outb port value d) ≡ after_write id port value (phase d)
  pub word_in : (d : machine.ports.Dev) → (machine.inw (data_port id) d).0 ≡ word_of disc (phase d)
  pub read : (d : machine.ports.Dev) → phase (machine.inw (data_port id) d).1 ≡ after_read (phase d)
  pub word_out :
      (word : ℕ) (d : machine.ports.Dev)
      → phase (machine.outw (data_port id) word d) ≡ after_word word (phase d)
