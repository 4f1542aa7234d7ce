-- ===== src/Arch/Tables.antt =====
-- kernel/arch/i386/gdt.c, idt.c and the installation of the gates in isr.c: the descriptor tables, as
-- functions from the index to the entry. The stubs of interrupts.s are given by their addresses.
pub mod Roundtrip
pub mod Tests
use hexos.Base.{
  ℕ, zero, suc, ◌+◌, ◌-◌, ◌*◌, ◌^◌, if◌then◌else◌, ◌==◌, u8, u16, ◌>>◌, bit_and, bit_or,
}

-- `struct gdt_entry`
pub record GdtEntry : Type 0 where
  pub limit_low : ℕ
  pub base_low : ℕ
  pub base_middle : ℕ
  pub access : ℕ
  pub granularity : ℕ
  pub base_high : ℕ

abbrev pub Gdt : Type 0
Gdt = ℕ → GdtEntry

unfoldable pub gdt_set_gate : ℕ → ℕ → ℕ → ℕ → ℕ → Gdt → Gdt
gdt_set_gate num base limit access gran gdt =
    let entry : GdtEntry = record {
      base_low = u16 (bit_and base 65535);
      base_middle = u8 (bit_and (base >> 16) 255);
      base_high = u8 (bit_and (base >> 24) 255);
      limit_low = u16 (bit_and limit 65535);
      granularity = u8 (bit_or (u8 (bit_and (limit >> 16) 15)) (bit_and gran 240));
      access = access;
    } in
    λ i. if i == num then entry else gdt i

-- `gp.limit`, and the table.
unfoldable pub gdt_install : Gdt → ℕ × Gdt
gdt_install gdt = (
  8 * 3 - 1,
  gdt_set_gate 2 0 (2 ^ 32 - 1) 146 207
      (gdt_set_gate 1 0 (2 ^ 32 - 1) 154 207 (gdt_set_gate 0 0 0 0 0 gdt)),
)

-- `struct idt_entry`
pub record IdtEntry : Type 0 where
  pub base_lo : ℕ
  pub sel : ℕ
  pub always0 : ℕ
  pub idt_flags : ℕ
  pub base_hi : ℕ

abbrev pub Idt : Type 0
Idt = ℕ → IdtEntry

unfoldable pub idt_set_gate : ℕ → ℕ → ℕ → ℕ → Idt → Idt
idt_set_gate num base sel flags idt =
    let entry : IdtEntry = record {
      base_lo = u16 (bit_and base 65535);
      base_hi = u16 (bit_and (base >> 16) 65535);
      sel = sel;
      always0 = 0;
      idt_flags = flags;
    } in
    λ i. if i == num then entry else idt i

-- `idtp.limit`, and the table of zeros.
unfoldable pub idt_install : ℕ × Idt
idt_install =
    (8 * 256 - 1, λ i. record { base_lo = 0; sel = 0; always0 = 0; idt_flags = 0; base_hi = 0 })

-- The calls of `idt_set_gate` for the stubs from `first` on, `n` of them.
unfoldable pub set_gates : ℕ → ℕ → (ℕ → ℕ) → Idt → Idt
set_gates zero first stub idt = idt
set_gates (suc n) first stub idt =
    set_gates n (first + 1) stub (idt_set_gate first (stub first) 8 142 idt)

-- The stubs `isr0` to `isr31`.
unfoldable pub isrs_install : (ℕ → ℕ) → Idt → Idt
isrs_install stub idt = set_gates 32 0 stub idt

-- The stubs `irq0` to `irq15`, at 32 and up.
unfoldable pub irqs_install : (ℕ → ℕ) → Idt → Idt
irqs_install stub idt = set_gates 16 32 stub idt
