-- ===== src/Arch/Irq/Masks.antt =====
-- Which interrupts `irq_enable` and `pic_disable` let through.
use hexos.Base.{
  ℕ, ◌-◌, ◌*◌, ◌^◌, ◌<◌, ◌≤◌, ◌≡◌, refl, ap, ◌∙◌, arith, true, false, if◌then◌else◌, if-cases, ◌==◌,
  ltb, u8, bit_and,
}
use hexos.Base.Bits.{bit, bit_and-unmask}
use hexos.Base.Masks.{bit-clear}
use hexos.Arch.Irq.{Ports, master_data, slave_data, clear_mask, irq_enable}

-- The documented behaviour of a mask register: a read returns the byte that was written last, and
-- neither it nor a write to another register changes it. `mask` is the byte that a register holds.
pub record HasMasks (ports : Ports) (mask : ℕ → ports.Dev → ℕ) : Type 0 where
  pub read : (p : ℕ) (d : ports.Dev) → (ports.inb p d).0 ≡ mask p d
  pub read_keeps : (p q : ℕ) (d : ports.Dev) → mask q (ports.inb p d).1 ≡ mask q d
  pub write :
      (p v q : ℕ) (d : ports.Dev) → mask q (ports.outb p v d) ≡ (if q == p then u8 v else mask q d)
  pub byte : (p : ℕ) (d : ports.Dev) → mask p d < 2 ^ 8

module _ (ports : Ports) (mask : ℕ → ports.Dev → ℕ) (v : HasMasks ports mask) where
  kept_byte :
      (x irq : ℕ)
      → x < 2 ^ 8
      → irq < 32
      → u8 (bit_and x (2 ^ 32 - 1 - 2 ^ irq)) ≡ bit_and x (2 ^ 32 - 1 - 2 ^ irq)
  kept_byte x irq h g =
      let below : bit_and x (2 ^ 32 - 1 - 2 ^ irq) ≤ x =
        omega (arith, bit_and-unmask 32 irq x g (omega arith)) in
      omega arith

  -- `mask&~(1<<irq)` clears digit `irq`, if the byte has it.
  clear_mask-lem :
      (port irq q j : ℕ) (d : ports.Dev)
      → irq < 32
      → j < 8
      → bit (mask q (clear_mask ports port irq d)) j
        ≡ (if q == port then if j == irq then 0 else bit (mask q d) j else bit (mask q d) j)
  unfolding clear_mask
  clear_mask-lem port irq q j d h g =
      let one : 1 * 2 ^ irq ≡ 2 ^ irq = omega arith in
      rw
        (
          v.write port (u8 (bit_and (ports.inb port d).0 (2 ^ 32 - 1 - 1 * 2 ^ irq))) q
              (ports.inb port d).1,
          twice,
          v.read port d,
          v.read_keeps port q d,
          one,
          kept_byte (mask port d) irq (v.byte port d) h,
        )
        (if-cases
          (λ x.
            bit x j
            ≡ (if q == port then if j == irq then 0 else bit (mask q d) j else bit (mask q d) j))
          (q == port)
          (λ here.
            let same : q ≡ port = ground arith in
            rw (here, same) (bit-clear (mask port d) irq j h (omega arith)))
          (λ away. rw away refl))
    where
      twice :
          u8 (u8 (bit_and (ports.inb port d).0 (2 ^ 32 - 1 - 1 * 2 ^ irq)))
          ≡ u8 (bit_and (ports.inb port d).0 (2 ^ 32 - 1 - 1 * 2 ^ irq))
      twice = omega arith

  -- For an interrupt below 8 `irq_enable` clears its bit in the master's mask, and no other bit of
  -- either mask.
  pub irq_enable_lem :
      (irq j : ℕ) (d : ports.Dev)
      → irq < 8
      → j < 8
      → (bit (mask master_data (irq_enable ports irq d)) j
          ≡ (if j == irq then 0 else bit (mask master_data d) j))
        × (bit (mask slave_data (irq_enable ports irq d)) j ≡ bit (mask slave_data d) j)
  unfolding irq_enable
  irq_enable_lem irq j d h g =
      let low : ltb irq 8 ≡ true = ground arith in
      rw low (
        clear_mask-lem master_data irq master_data j d (omega arith) g,
        clear_mask-lem master_data irq slave_data j d (omega arith) g,
      )

  -- For an interrupt from 8 to 15 it clears bit 2 of the master's mask, but leaves every bit of the
  -- slave's mask as it was: `1<<irq` has no digit in common with a byte.
  pub irq_enable-slave :
      (irq j : ℕ) (d : ports.Dev)
      → 8 ≤ irq
      → irq < 16
      → j < 8
      → (bit (mask slave_data (irq_enable ports irq d)) j ≡ bit (mask slave_data d) j)
        × (bit (mask master_data (irq_enable ports irq d)) j
            ≡ (if j == 2 then 0 else bit (mask master_data d) j))
  unfolding irq_enable
  irq_enable-slave irq j d h h' g =
      let high : ltb irq 8 ≡ false = ground arith in
      let other : (j == irq) ≡ false = ground arith in
      rw high (
        clear_mask-lem master_data 2 slave_data j (clear_mask ports slave_data irq d) (omega arith)
              g
            ∙ clear_mask-lem slave_data irq slave_data j d (omega arith) g
            ∙ rw other refl,
        clear_mask-lem master_data 2 master_data j (clear_mask ports slave_data irq d) (omega arith)
              g
            ∙ ap (λ (t : ℕ). if j == 2 then 0 else t)
                (clear_mask-lem slave_data irq master_data j d (omega arith) g),
      )
