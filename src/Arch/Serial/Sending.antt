-- ===== src/Arch/Serial/Sending.antt =====
-- What arrives behind the serial line.
use hexos.Base.{
  ℕ, zero, suc, ◌+◌, ◌<◌, ◌≤◌, ◌≡◌, ◌≢◌, refl, sym, ap, ◌∙◌, arith, true, Bool-cases, inl, inr,
  some, List, [], ◌∷◌, ◌++◌, ◌==◌, u8, bit_and, ◌>>=◌,
}
use mathlib.Core.List.{append_assoc, append-nil}
use hexos.Arch.Irq.{Ports}
use hexos.Arch.Serial.{
  com1, serial_is_transmit_empty, await_empty, send, serial_write, write_all, dbgprint,
}

-- A line as its chip documents it: what it has sent, and how often at most bit 5 of its status is read
-- as 0 before the line can take a byte. Only a byte that is written once the bit was read as 1, and
-- before another byte, is known to be sent.
pub record Chip (ports : Ports) : Type 1 where
  pub sent : ports.Dev → List ℕ
  pub delay : ports.Dev → ℕ
  pub patience : ℕ
  pub bounded : (d : ports.Dev) → delay d ≤ patience
  pub busy :
      (d : ports.Dev)
      → bit_and (ports.inb (com1 + 5) d).0 32 ≡ 0
      → delay (ports.inb (com1 + 5) d).1 < delay d
  pub Empty : ports.Dev → Type 0
  pub free :
      (d : ports.Dev) → bit_and (ports.inb (com1 + 5) d).0 32 ≢ 0 → Empty (ports.inb (com1 + 5) d).1
  pub quiet : (d : ports.Dev) → sent (ports.inb (com1 + 5) d).1 ≡ sent d
  pub sends : (d : ports.Dev) (b : ℕ) → Empty d → sent (ports.outb com1 b d) ≡ sent d ++ (b ∷ [])

-- The bytes of a text.
abbrev pub octets : List ℕ → List ℕ
octets [] = []
octets (c ∷ text) = u8 c ∷ octets text

module _ (ports : Ports) (chip : Chip ports) where
  open chip use {sent, delay, patience, bounded, busy, Empty, free, quiet, sends}

  await_empty-ends :
      (fuel : ℕ) (d : ports.Dev)
      → delay d < fuel
      → (d' : ports.Dev) × (await_empty ports fuel (record { dev = d; inited = true })
          ≡ some (record { dev = d'; inited = true }))
        × (sent d' ≡ sent d)
        × Empty d'
  unfolding await_empty serial_is_transmit_empty
  await_empty-ends zero d enough = absurd (omega arith)
  await_empty-ends (suc fuel) d enough =
      let d1 = (ports.inb (com1 + 5) d).1 in
      elim (Bool-cases (bit_and (ports.inb (com1 + 5) d).0 32 == 0)) [
        | inl wait ↦
            let less : delay d1 < delay d = busy d (ground arith) in
            let (d', ran, same, empty) = await_empty-ends fuel d1 (omega arith) in
            (d', rw wait ran, same ∙ quiet d, empty)
        | inr go ↦ (d1, rw go refl, quiet d, free d (λ e. ground arith))
      ]

  serial_write-sends :
      (fuel c : ℕ) (d : ports.Dev)
      → patience < fuel
      → (d' : ports.Dev) × (serial_write ports fuel c (record { dev = d; inited = true })
          ≡ some (record { dev = d'; inited = true }))
        × (sent d' ≡ sent d ++ (u8 c ∷ []))
  unfolding serial_write
  serial_write-sends fuel c d enough =
      let (d1, ran, same, empty) = await_empty-ends fuel d (omega (arith, bounded d, enough)) in
      (
        ports.outb com1 (u8 c) d1,
        ap (λ o. o >>= λ s'. some (send ports c s')) ran,
        sends d1 (u8 c) empty ∙ ap (λ l. l ++ (u8 c ∷ [])) same,
      )

  write_all-sends :
      (fuel : ℕ) (text : List ℕ) (d : ports.Dev)
      → patience < fuel
      → (d' : ports.Dev) × (write_all ports fuel text (record { dev = d; inited = true })
          ≡ some (record { dev = d'; inited = true }))
        × (sent d' ≡ sent d ++ octets text)
  unfolding write_all
  write_all-sends fuel [] d enough = (d, refl, sym (append-nil (sent d)))
  write_all-sends fuel (c ∷ text) d enough =
      let (d1, wrote, one) = serial_write-sends fuel c d enough in
      let (d2, ran, rest) = write_all-sends fuel text d1 enough in
      (
        d2,
        ap (λ o. o >>= λ s'. write_all ports fuel text s') wrote ∙ ran,
        rest ∙ ap (λ l. l ++ octets text) one ∙ append_assoc (sent d) (u8 c ∷ []) (octets text),
      )

  -- On a line that is set up, and that is busy for fewer reads of its status than the fuel, `dbgprint`
  -- ends, and it has sent the bytes of the text in order. The line need only send a byte that is written
  -- after its status was read as free.
  pub dbgprint-sends :
      (fuel : ℕ) (text : List ℕ) (d : ports.Dev)
      → patience < fuel
      → (d' : ports.Dev) × (dbgprint ports fuel text (record { dev = d; inited = true })
          ≡ some (record { dev = d'; inited = true }))
        × (sent d' ≡ sent d ++ octets text)
  unfolding dbgprint
  dbgprint-sends fuel text d enough = write_all-sends fuel text d enough
