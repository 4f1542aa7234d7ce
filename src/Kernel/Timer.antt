-- ===== src/Kernel/Timer.antt =====
-- kernel/kernel/timer.c and kernel/kernel/sound.c: the count of the timer's interrupts, the wait for a
-- number of seconds, and the speaker. Interrupts that come during a wait are given by the count that
-- each read of it finds; the wait runs on fuel.
pub mod Sleep
pub mod Tests
use hexos.Base.{
  ℕ, zero, suc, ◌+◌, ◌*◌, ◌/◌, Bool, Option, none, some, if◌then◌else◌, ◌==◌, ltb, add32, sub32, u8,
  u32, ◌>>◌, bit_and, bit_or,
}
use hexos.Arch.Irq.{Ports}

-- `timer_ticks++;`; the test behind it does nothing.
abbrev pub timer_handler : ℕ → ℕ
timer_handler timer_ticks = add32 timer_ticks 1

-- The loop of `sleep`: `ticks i` is what read `i` of the count finds. It gives the number of the read
-- that ends it. Both sides of the test are unsigned.
unfoldable pub sleep_loop : ℕ → (ℕ → ℕ) → ℕ → ℕ → ℕ → Option ℕ
sleep_loop zero ticks started toWait i = none
sleep_loop (suc fuel) ticks started toWait i =
    let rest = sleep_loop fuel ticks started toWait (i + 1) in
    if ltb (sub32 started (ticks i)) (u32 (toWait * 18)) then rest else some i

unfoldable pub sleep : ℕ → (ℕ → ℕ) → ℕ → Option ℕ
sleep fuel ticks toWait = sleep_loop fuel ticks (ticks 0) toWait 1

module _ (ports : Ports) where
  open ports use {Dev, inb, outb}

  -- A frequency of 0 divides by 0.
  unfoldable pub play_sound : ℕ → Dev → Option Dev
  play_sound nFrequence d =
      let div = 1193180 / nFrequence in
      let tuned = outb 66 (u8 (div >> 8)) (outb 66 (u8 div) (outb 67 182 d)) in
      let (tmp, d') = inb 97 tuned in
      if nFrequence == 0
      then none
      else if tmp == bit_or tmp 3
      then some d'
      else some (outb 97 (bit_or tmp 3) d')

  unfoldable pub stop_sound : Dev → Dev
  stop_sound d = let (tmp, d') = inb 97 d in outb 97 (bit_and tmp 252) d'
