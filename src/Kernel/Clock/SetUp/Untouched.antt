-- ===== src/Kernel/Clock/SetUp/Untouched.antt =====
-- `clock_init` does not reach the timer.
use hexos.Base.{ℕ, ◌≡◌, ◌≢◌, refl, ◌∙◌, arith, bit_and, ◌>>◌, some}
use hexos.Arch.Irq.{Ports, Routines, install_handler, irq_enable, clear_mask, master_data}
use hexos.Kernel.Clock.{timer_count}
use hexos.Kernel.Clock.SetUp.{timer0, timer_mode, square_wave, clock_init}

-- What the devices keep of the timer changes only by writes to its ports, 0x40 to 0x43.
pub record Timer (ports : Ports) (T : Type 0) : Type 0 where
  pub timer : ports.Dev → T
  pub by_write :
      (port value : ℕ) (d : ports.Dev)
      → port ≢ 64
      → port ≢ 65
      → port ≢ 66
      → port ≢ 67
      → timer (ports.outb port value d) ≡ timer d
  pub by_read : (d : ports.Dev) → timer (ports.inb master_data d).1 ≡ timer d

module _ (ports : Ports) {T : Type 0} (t : Timer ports T) where
  open t use {timer, by_write, by_read}

  -- `clock_init` installs its handler and leaves the timer as it was: all its writes go to other
  -- ports.
  pub clock_init-untouched :
      {H : Type 0} (handler : H) (d : ports.Dev) (routines : Routines H)
      → (timer (clock_init ports handler (d, routines)).0 ≡ timer d)
        × ((clock_init ports handler (d, routines)).1 0 ≡ some handler)
  unfolding clock_init irq_enable clear_mask install_handler
  clock_init-untouched handler d routines =
      let moded = ports.outb square_wave timer_mode d in
      let low = ports.outb (bit_and timer_count 255) timer0 moded in
      let high = ports.outb (bit_and (timer_count >> 8) 255) timer0 low in
      (
        by_write master_data _ (ports.inb master_data high).1 (λ e. omega arith) (λ e. omega arith)
              (λ e. omega arith) (λ e. omega arith)
            ∙ by_read high
            ∙ by_write (bit_and (timer_count >> 8) 255) timer0 low (λ e. omega arith)
                (λ e. omega arith) (λ e. omega arith) (λ e. omega arith)
            ∙ by_write (bit_and timer_count 255) timer0 moded (λ e. omega arith) (λ e. omega arith)
                (λ e. omega arith) (λ e. omega arith)
            ∙ by_write square_wave timer_mode d (λ e. omega arith) (λ e. omega arith)
                (λ e. omega arith) (λ e. omega arith),
        refl,
      )
