-- ===== src/Kernel/Ata/Ready.antt =====
-- `ata_begin`: what is sent to a drive once it is ready.
use hexos.Base.{ℕ, ◌+◌, ◌*◌, ◌/◌, ◌%◌, ◌^◌, List, [], ◌∷◌}
use hexos.Kernel.Ata.Driver.{Machine, Kernel}

module _ (machine : Machine) where
  -- The ports and values that go out, in this order.
  abbrev pub sent : List (ℕ × ℕ) → machine.ports.Dev → machine.ports.Dev
  sent [] d = d
  sent ((port, value) ∷ rest) d = sent rest (machine.ports.outb port value d)

  -- The unit and the highest part of the block.
  abbrev pub unit_flags : ℕ → ℕ → ℕ
  unit_flags id offset = 224 + id % 2 * 16 + offset / 2 ^ 24
