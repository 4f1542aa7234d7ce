-- ===== src/Arch/Irq/Tests.antt =====
-- The interrupt controller's functions over ports that are plain registers of one byte.
use hexos.Base.{ℕ, ◌≡◌, refl, arith, ◌==◌, if◌then◌else◌, if-cases, u8}
use hexos.Base.Bits.{bit}
use hexos.Arch.Irq.{Ports, master_data, slave_data, irq_enable}
use hexos.Arch.Irq.Masks.{HasMasks, irq_enable-slave}

abbrev registers : Ports
registers = record {
  Dev = ℕ → ℕ;
  inb = λ p d. (u8 (d p), d);
  outb = λ p v d q. if q == p then v else d q;
}

abbrev held : ℕ → (ℕ → ℕ) → ℕ
held p d = u8 (d p)

registers-HasMasks : HasMasks registers held
registers-HasMasks = record {
  read = λ p d. refl;
  read_keeps = λ p q d. refl;
  write = λ p v q d.
      if-cases (λ (x : ℕ). u8 x ≡ (if q == p then u8 v else held q d)) (q == p) {x = v} {y = d q}
        (λ here. rw here refl) (λ away. rw away refl);
  byte = λ p d. omega arith;
}

abbrev all_masked : ℕ → ℕ
all_masked p = 255

irq_enable-slave_example :
    (bit (held slave_data (irq_enable registers 14 all_masked)) 6
      ≡ bit (held slave_data all_masked) 6)
    × (bit (held master_data (irq_enable registers 14 all_masked)) 6
        ≡ (if 6 == 2 then 0 else bit (held master_data all_masked) 6))
irq_enable-slave_example =
    irq_enable-slave registers held registers-HasMasks 14 6 all_masked (omega arith) (omega arith)
      (omega arith)
