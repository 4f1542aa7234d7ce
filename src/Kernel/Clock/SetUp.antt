-- ===== src/Kernel/Clock/SetUp.antt =====
-- kernel/kernel/clock.c: `clock_init`. The arguments of `outb` stand as in the source, which gives the
-- value where io.c takes the port.
pub mod Untouched
pub mod Tests
use hexos.Base.{ℕ, if◌then◌else◌, ◌==◌, u8, u16, bit_and, ◌>>◌}
use hexos.Arch.Irq.{Ports, Routines, install_handler, irq_enable}
use hexos.Kernel.Clock.{timer_count}

-- TIMER0, TIMER_MODE and SQUARE_WAVE
abbrev pub timer0 : ℕ
timer0 = 64

abbrev pub timer_mode : ℕ
timer_mode = 67

abbrev pub square_wave : ℕ
square_wave = 54

-- The message at the end is left out; `handler` is `clock_interrupt`.
unfoldable pub clock_init :
    (ports : Ports) {H : Type 0} → H → ports.Dev × Routines H → ports.Dev × Routines H
clock_init ports handler (d, routines) =
    let moded = ports.outb square_wave timer_mode d in
    let low = ports.outb (bit_and timer_count 255) timer0 moded in
    let high = ports.outb (bit_and (timer_count >> 8) 255) timer0 low in
    (irq_enable ports 0 high, install_handler 0 handler routines)
