-- ===== src/Kernel/Pci/Fields.antt =====
-- The fields of a configuration address.
use hexos.Base.{ℕ, ◌+◌, ◌*◌, ◌/◌, ◌%◌, ◌^◌, ◌<◌, ◌≡◌, ◌∙◌, arith, bit_and, bit_or}
use hexos.Base.Bits.{bit_and-halves, bit_and_mask, bit_or_fields, bit_or_comm}
use hexos.Kernel.Pci.{pci_address}

low_bits : (x : ℕ) → x < 256 → bit_and x 252 ≡ x / 4 * 4
low_bits x h =
    omega (arith, bit_and-halves x 252, bit_and-halves (x / 2) 126, bit_and_mask 6 (x / 2 / 2))

-- Each address is the sum of its fields, with the highest bit set: the bus, the slot, the function
-- and the offset, rounded down to a multiple of four, are read back from it.
pub pci_address-fields :
    (bus slot func offset : ℕ)
    → bus < 256
    → slot < 32
    → func < 8
    → offset < 256
    → (pci_address bus slot func offset / 2 ^ 31 ≡ 1)
      × (pci_address bus slot func offset / 2 ^ 16 % 256 ≡ bus)
      × (pci_address bus slot func offset / 2 ^ 11 % 32 ≡ slot)
      × (pci_address bus slot func offset / 2 ^ 8 % 8 ≡ func)
      × (pci_address bus slot func offset % 256 ≡ offset / 4 * 4)
unfolding pci_address
pci_address-fields bus slot func offset hb hs hf ho =
    rw sum (omega arith, omega arith, omega arith, omega arith, omega arith)
  where
    total : ℕ
    total = bus * 2 ^ 16 + slot * 2 ^ 11 + func * 2 ^ 8 + offset / 4 * 4

    first : bit_or (bus * 2 ^ 16) (slot * 2 ^ 11) ≡ (bus * 32 + slot) * 2 ^ 11
    first = bit_or_fields 16 bus (slot * 2 ^ 11) (omega arith) ∙ omega arith

    second :
        bit_or ((bus * 32 + slot) * 2 ^ 11) (func * 2 ^ 8) ≡ (bus * 256 + slot * 8 + func) * 2 ^ 8
    second = bit_or_fields 11 (bus * 32 + slot) (func * 2 ^ 8) (omega arith) ∙ omega arith

    third : bit_or ((bus * 256 + slot * 8 + func) * 2 ^ 8) (offset / 4 * 4) ≡ total
    third =
        bit_or_fields 8 (bus * 256 + slot * 8 + func) (offset / 4 * 4) (omega arith) ∙ omega arith

    fourth : bit_or total 2147483648 ≡ 2147483648 + total
    fourth = bit_or_comm total 2147483648 ∙ bit_or_fields 31 1 total (omega arith)

    sum : pci_address bus slot func offset ≡ 2147483648 + total
    sum = unfold pci_address in rw (first, second, low_bits offset ho, third, fourth) (omega arith)
