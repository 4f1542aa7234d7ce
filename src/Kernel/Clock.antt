-- ===== src/Kernel/Clock.antt =====
-- kernel/kernel/clock.c: the ticks of the timer. Counters are `uint32_t`.
pub mod Times
pub mod SetUp
pub mod Tests
use mathlib.Core.Option
use hexos.Base.{
  ℕ, zero, suc, ◌+◌, ◌-◌, ◌*◌, ◌/◌, ◌%◌, ◌^◌, Bool, true, false, Option, none, some, List,
  if◌then◌else◌, ◌==◌, ltb, leb, u32, add32, sub32,
}
use hexos.Kernel.Process.{Sched, Switch, running, wakeup_all, preempt}

abbrev pub clicks_per_second : ℕ
clicks_per_second = 10

-- TIMER_FREQ/CLICKS_PER_SECOND/2
abbrev pub timer_count : ℕ
timer_count = 1193182 / clicks_per_second / 2

-- `clock_t`
pub record Time : Type 0 where
  pub seconds : ℕ
  pub millis : ℕ

-- `clicks` and `seconds`
pub record Clock : Type 0 where
  pub clicks : ℕ
  pub total_seconds : ℕ

unfoldable pub tick : Clock → Clock
tick c =
    let next = add32 c.clicks 1 in
    if leb clicks_per_second next
    then record { clicks = 0; total_seconds = add32 c.total_seconds 1 }
    else record c { clicks = next }

-- `clock_interrupt`, with the list `queue` of the waiting processes; `fuel` is for the wakeup.
unfoldable pub clock_interrupt :
    ℕ → ℕ → List (Sched → Sched) → Clock → Sched → Option (Clock × Switch)
clock_interrupt fuel queue handlers c s =
    let after : Sched → Switch = λ woken.
      if leb clicks_per_second (add32 c.clicks 1) then preempt handlers woken else running woken in
    Option.map (λ woken. (tick c, after woken)) (wakeup_all fuel queue s)

unfoldable pub clock_read : Clock → Time
clock_read c = record {
  seconds = c.total_seconds;
  millis = u32 (1000 * c.clicks) / clicks_per_second;
}

unfoldable pub clock_diff : Time → Time → Time
clock_diff start stop =
    let borrowed : Time = record {
      millis = add32 stop.millis 1000;
      seconds = sub32 stop.seconds 1;
    } in
    let stop' = if ltb stop.millis start.millis then borrowed else stop in
    record { seconds = sub32 stop'.seconds start.seconds; millis = sub32 stop'.millis start.millis }

-- The test of `clock_wait`'s loop: `total < millis`.
unfoldable pub keeps_waiting : ℕ → Time → Time → Bool
keeps_waiting millis start now =
    let elapsed = clock_diff start now in ltb (u32 (elapsed.millis + elapsed.seconds * 1000)) millis
