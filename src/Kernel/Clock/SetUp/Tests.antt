-- ===== src/Kernel/Clock/SetUp/Tests.antt =====
-- Devices of which only the writes to the timer's ports are kept.
use hexos.Base.{ℕ, ◌+◌, ◌≡◌, refl, arith, none, some, if◌then◌else◌, ◌==◌}
use hexos.Arch.Irq.{Ports}
use hexos.Kernel.Clock.SetUp.{clock_init}
use hexos.Kernel.Clock.SetUp.Untouched.{Timer, clock_init-untouched}

abbrev counting : Ports
counting = record {
  Dev = ℕ;
  inb = λ port d. (255, d);
  outb = λ port b d.
      if port == 64
      then d + 1
      else if port == 65
      then d + 1
      else if port == 66
      then d + 1
      else if port == 67
      then d + 1
      else d;
}

counting_timer : Timer counting ℕ
counting_timer = record {
  timer = λ d. d;
  by_write = λ port value d a b c e. ground arith;
  by_read = λ d. refl;
}

clock_init-untouched_example :
    (counting_timer.timer (clock_init counting {H = ℕ} 5 (7, λ k. none)).0 ≡ counting_timer.timer 7)
    × ((clock_init counting {H = ℕ} 5 (7, λ k. none)).1 0 ≡ some 5)
clock_init-untouched_example = clock_init-untouched counting counting_timer 5 7 (λ k. none)
