-- ===== src/Kernel/Pci.antt =====
-- kernel/kernel/io/pci.c: reading the configuration space, and the search for devices. The ports
-- 0xCF8 and 0xCFC are a parameter, with a write and a read of 32 bits.
pub mod Fields
pub mod Tests
use hexos.Base.{
  ℕ, zero, suc, ◌+◌, ◌-◌, ◌*◌, ◌/◌, ◌%◌, ◌^◌, if◌then◌else◌, ◌==◌, u16, u32, ◌<<◌, ◌>>◌, bit_and,
  bit_or,
}

unfoldable pub pci_address : ℕ → ℕ → ℕ → ℕ → ℕ
pci_address bus slot func offset =
    let place = bit_or (bit_or (bus << 16) (slot << 11)) (func << 8) in
    u32 (bit_or (bit_or place (bit_and offset 252)) 2147483648)

-- The devices behind the ports: `outl` and `inl`.
pub record LongPorts : Type 1 where
  pub Dev : Type 0
  pub outl : ℕ → ℕ → Dev → Dev
  pub inl : ℕ → Dev → ℕ × Dev

-- `pci_device`
pub record PciDevice : Type 0 where
  pub bus : ℕ
  pub slot : ℕ
  pub vendor : ℕ
  pub device : ℕ
  pub func : ℕ
  pub class : ℕ
  pub subclass : ℕ

module _ (ports : LongPorts) where
  open ports use {Dev, outl, inl}

  unfoldable pub pci_config_read_word : ℕ → ℕ → ℕ → ℕ → Dev → ℕ × Dev
  pci_config_read_word bus slot func offset d =
      let (value, d') = inl 3324 (outl 3320 (pci_address bus slot func offset) d) in
      (u16 (bit_and (value >> bit_and offset 2 * 8) 65535), d')

  unfoldable pub pci_get_vendor : ℕ → ℕ → ℕ → Dev → ℕ × Dev
  pci_get_vendor bus slot func d = pci_config_read_word bus slot func 0 d

  unfoldable pub pci_get_device : ℕ → ℕ → ℕ → Dev → ℕ × Dev
  pci_get_device bus slot func d = pci_config_read_word bus slot func 2 d

  unfoldable pub pci_get_class : ℕ → ℕ → ℕ → Dev → ℕ × Dev
  pci_get_class bus slot func d =
      let (r0, d') = pci_config_read_word bus slot func 10 d in
      (u16 (bit_and r0 (2 ^ 32 - 1 - 255) >> 8), d')

  unfoldable pub pci_get_subclass : ℕ → ℕ → ℕ → Dev → ℕ × Dev
  pci_get_subclass bus slot func d =
      let (r0, d') = pci_config_read_word bus slot func 10 d in
      (u16 (bit_and r0 (2 ^ 32 - 1 - 65280)), d')

  -- The loops over the functions, slots and buses, from function number `f` on, by the rounds left:
  -- the index `i`, and the memory of `pci_devices` and behind it.
  unfoldable pub check_functions : ℕ → ℕ → ℕ → (ℕ → PciDevice) → Dev → ℕ × (ℕ → PciDevice) × Dev
  check_functions zero f i devices d = (i, devices, d)
  check_functions (suc n) f i devices d =
      let bus = f / 256 in
      let slot = f / 8 % 32 in
      let func = f % 8 in
      let (vendor, d1) = pci_get_vendor bus slot func d in
      let (device, d2) = pci_get_device bus slot func d1 in
      let (class, d3) = pci_get_class bus slot func d2 in
      let (subclass, d4) = pci_get_subclass bus slot func d3 in
      let found : PciDevice = record {
        bus = bus;
        slot = slot;
        vendor = vendor;
        device = device;
        func = func;
        class = class;
        subclass = subclass;
      } in
      let skipped = check_functions n (f + 1) i devices d1 in
      let stored =
        check_functions n (f + 1) (i + 1) (λ k. if k == i then found else devices k) d4 in
      if vendor == 65535 then skipped else stored

  unfoldable pub check_all_buses : (ℕ → PciDevice) → Dev → ℕ × (ℕ → PciDevice) × Dev
  check_all_buses devices d = check_functions (256 * 32 * 8) 0 0 devices d
