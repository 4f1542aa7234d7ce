-- ===== src/Arch/Tables/Roundtrip.antt =====
-- What the processor reads from a descriptor is what was written into it.
use hexos.Base.{
  ℕ, zero, suc, ◌+◌, ◌*◌, ◌/◌, ◌%◌, ◌^◌, ◌<◌, ◌≤◌, ◌≡◌, refl, ◌∙◌, arith, true, false, Bool-cases,
  inl, inr, ◌==◌, ltb, within, u8, ◌>>◌, bit_and, bit_or,
}
use hexos.Base.Bits.{bit_and_mask, bit_or_comm, bit_or_fields}
use hexos.Base.Masks.{high_nibble}
use hexos.Arch.Tables.{
  GdtEntry, Gdt, gdt_set_gate, IdtEntry, Idt, idt_set_gate, set_gates, isrs_install, irqs_install,
}

-- The fields as the processor puts them together.
abbrev pub gdt_base : GdtEntry → ℕ
gdt_base e = e.base_low + e.base_middle * 2 ^ 16 + e.base_high * 2 ^ 24

abbrev pub gdt_limit : GdtEntry → ℕ
gdt_limit e = e.limit_low + e.granularity % 16 * 2 ^ 16

abbrev pub gdt_flags : GdtEntry → ℕ
gdt_flags e = e.granularity / 16

abbrev pub idt_offset : IdtEntry → ℕ
idt_offset e = e.base_lo + e.base_hi * 2 ^ 16

granularity_lem :
    (limit gran : ℕ)
    → gran < 256
    → u8 (bit_or (u8 (bit_and (limit >> 16) 15)) (bit_and gran 240))
      ≡ gran / 16 * 16 + limit / 2 ^ 16 % 16
granularity_lem limit gran h =
    let low : bit_and (limit >> 16) 15 ≡ limit / 2 ^ 16 % 16 = bit_and_mask 4 (limit >> 16) in
    let small : u8 (limit / 2 ^ 16 % 16) ≡ limit / 2 ^ 16 % 16 = omega arith in
    rw
      (
        low,
        small,
        high_nibble gran h,
        bit_or_comm (limit / 2 ^ 16 % 16) (gran / 16 * 16),
        bit_or_fields 4 (gran / 16) (limit / 2 ^ 16 % 16) (omega arith),
      )
      (omega arith)

-- An entry of the global descriptor table gives back the 32-bit base, the lowest 20 bits of the limit,
-- the access byte and the upper half of the granularity byte, and no other entry changes.
pub gdt_set_gate_lem :
    (num base limit access gran i : ℕ) (gdt : Gdt)
    → base < 2 ^ 32
    → gran < 256
    → (gdt_base (gdt_set_gate num base limit access gran gdt num) ≡ base)
      × (gdt_limit (gdt_set_gate num base limit access gran gdt num) ≡ limit % 2 ^ 20)
      × (gdt_flags (gdt_set_gate num base limit access gran gdt num) ≡ gran / 16)
      × ((gdt_set_gate num base limit access gran gdt num).access ≡ access)
      × ((i == num) ≡ false → gdt_set_gate num base limit access gran gdt i ≡ gdt i)
unfolding gdt_set_gate
gdt_set_gate_lem num base limit access gran i gdt hb hg =
    let here : (num == num) ≡ true = ground arith in
    let limit_mask : bit_and limit 65535 ≡ limit % 2 ^ 16 = bit_and_mask 16 limit in
    let base_mask : bit_and base 65535 ≡ base % 2 ^ 16 = bit_and_mask 16 base in
    let middle_mask : bit_and (base >> 16) 255 ≡ base / 2 ^ 16 % 256 =
      bit_and_mask 8 (base >> 16) in
    let high_mask : bit_and (base >> 24) 255 ≡ base / 2 ^ 24 % 256 = bit_and_mask 8 (base >> 24) in
    (
      rw (here, base_mask, middle_mask, high_mask) (omega arith),
      rw (here, limit_mask, granularity_lem limit gran hg) (omega arith),
      rw (here, granularity_lem limit gran hg) (omega arith),
      rw here refl,
      λ away. rw away refl,
    )

idt_set_gate_lem :
    (num base sel flags i : ℕ) (idt : Idt)
    → base < 2 ^ 32
    → (idt_offset (idt_set_gate num base sel flags idt num) ≡ base)
      × ((idt_set_gate num base sel flags idt num).sel ≡ sel)
      × ((idt_set_gate num base sel flags idt num).idt_flags ≡ flags)
      × ((i == num) ≡ false → idt_set_gate num base sel flags idt i ≡ idt i)
unfolding idt_set_gate
idt_set_gate_lem num base sel flags i idt h =
    let here : (num == num) ≡ true = ground arith in
    let low : bit_and base 65535 ≡ base % 2 ^ 16 = bit_and_mask 16 base in
    let high : bit_and (base >> 16) 65535 ≡ base / 2 ^ 16 % 2 ^ 16 = bit_and_mask 16 (base >> 16) in
    (rw (here, low, high) (omega arith), rw here refl, rw here refl, λ away. rw away refl)

-- A gate as `isrs_install` and `irq_install` set it: in the kernel's code segment, present, for an
-- interrupt, with the stub's address.
pub record IsGate (stub : ℕ) (e : IdtEntry) : Type 0 where
  pub offset : idt_offset e ≡ stub
  pub segment : e.sel ≡ 8
  pub present : e.idt_flags ≡ 142

set_gates-outside :
    (n first : ℕ) (stub : ℕ → ℕ) (idt : Idt) (i : ℕ)
    → within first n i ≡ false
    → set_gates n first stub idt i ≡ idt i
unfolding set_gates idt_set_gate
set_gates-outside zero first stub idt i h = refl
set_gates-outside (suc n) first stub idt i h =
    let away : (i == first) ≡ false = ground arith in
    set_gates-outside n (first + 1) stub (idt_set_gate first (stub first) 8 142 idt) i
      (ground arith)
    ∙ rw away refl

set_gates-IsGate :
    (n first : ℕ) (stub : ℕ → ℕ) (idt : Idt) (i : ℕ)
    → ((k : ℕ) → stub k < 2 ^ 32)
    → within first n i ≡ true
    → IsGate (stub i) (set_gates n first stub idt i)
unfolding set_gates
set_gates-IsGate zero first stub idt i small h = absurd (ground arith)
set_gates-IsGate (suc n) first stub idt i small h = elim (Bool-cases (i == first)) [
  | inl here ↦
      let same : i ≡ first = ground arith in
      let (offset, segment, flags, _) =
        idt_set_gate_lem first (stub first) 8 142 0 idt (small first) in
      rw
        (
          same,
          set_gates-outside n (first + 1) stub (idt_set_gate first (stub first) 8 142 idt) first
              (ground arith),
        )
        record { offset = offset; segment = segment; present = flags }
  | inr later ↦
      set_gates-IsGate n (first + 1) stub (idt_set_gate first (stub first) 8 142 idt) i small
        (ground arith)
]

-- Once both are installed, gate `i` leads to stub `i` for each `i` below 48, and the other gates are
-- as they were.
pub install-IsGate :
    (isr : ℕ → ℕ) (idt : Idt) (i : ℕ)
    → ((k : ℕ) → isr k < 2 ^ 32)
    → (i < 48 → IsGate (isr i) (irqs_install isr (isrs_install isr idt) i))
      × (48 ≤ i → irqs_install isr (isrs_install isr idt) i ≡ idt i)
unfolding isrs_install irqs_install
install-IsGate isr idt i small = (
  λ lt. elim (Bool-cases (ltb i 32)) [
    | inl low ↦
        rw (set_gates-outside 16 32 isr (set_gates 32 0 isr idt) i (ground arith))
          (set_gates-IsGate 32 0 isr idt i small (ground arith))
    | inr high ↦ set_gates-IsGate 16 32 isr (set_gates 32 0 isr idt) i small (ground arith)
  ],
  λ le.
      set_gates-outside 16 32 isr (set_gates 32 0 isr idt) i (ground arith)
      ∙ set_gates-outside 32 0 isr idt i (ground arith),
)
