-- ===== src/Arch/Serial/Tests.antt =====
-- A line that is busy for two reads of its status after each byte.
use hexos.Base.{
  ℕ, ◌<◌, ◌≤◌, ◌≡◌, ◌≢◌, refl, true, some, List, [], ◌∷◌, ◌++◌, if◌then◌else◌, ◌==◌, arith, bit_and,
}
use hexos.Arch.Irq.{Ports}
use hexos.Arch.Serial.{com1, dbgprint}
use hexos.Arch.Serial.Sending.{Chip, dbgprint-sends}

-- The bytes that were sent, and the line's state.
pub data Busy : Type 0 where
  idle : Busy
  soon : Busy
  later : Busy

abbrev status_of : Busy → ℕ
status_of idle = 32
status_of soon = 0
status_of later = 0

abbrev after_read : Busy → Busy
after_read idle = idle
after_read soon = idle
after_read later = soon

abbrev reads_left : Busy → ℕ
reads_left idle = 0
reads_left soon = 1
reads_left later = 2

-- A byte that is written while the line is busy is lost.
abbrev take : ℕ → List ℕ → Busy → List ℕ × Busy
take b sent idle = (sent ++ (b ∷ []), later)
take b sent soon = (sent, soon)
take b sent later = (sent, later)

abbrev slow_line : Ports
slow_line = record {
  Dev = List ℕ × Busy;
  inb = λ port d. (status_of d.1, (d.0, after_read d.1));
  outb = λ port b d. if port == com1 then take b d.0 d.1 else d;
}

slow_line-Chip : Chip slow_line
slow_line-Chip = record {
  sent = λ d. d.0;
  delay = λ d. reads_left d.1;
  patience = 2;
  bounded = λ d. few d.1;
  busy = λ d. sooner d.1;
  Empty = λ d. d.1 ≡ idle;
  free = λ d e. freed d.1 e;
  quiet = λ d. refl;
  sends = λ d b e. rw e refl;
}
  where
    freed : (b : Busy) → bit_and (status_of b) 32 ≢ 0 → after_read b ≡ idle
    freed idle e = refl
    freed soon e = absurd (e refl)
    freed later e = absurd (e refl)

    few : (b : Busy) → reads_left b ≤ 2
    few idle = omega arith
    few soon = omega arith
    few later = omega arith

    sooner : (b : Busy) → bit_and (status_of b) 32 ≡ 0 → reads_left (after_read b) < reads_left b
    sooner idle e = cc
    sooner soon e = omega arith
    sooner later e = omega arith

dbgprint-sends_example :
    (d' : slow_line.Dev) × (dbgprint slow_line 3
        (72 ∷ 105 ∷ [])
        (record { dev = ([], later); inited = true })
      ≡ some (record { dev = d'; inited = true }))
    × (d'.0 ≡ 72 ∷ 105 ∷ [])
unfolding slow_line-Chip
dbgprint-sends_example =
    dbgprint-sends slow_line slow_line-Chip 3 (72 ∷ 105 ∷ []) ([], later) (omega arith)
