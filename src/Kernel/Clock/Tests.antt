-- ===== src/Kernel/Clock/Tests.antt =====
-- The clock at three clicks past 7 seconds.
use hexos.Base.{◌+◌, ◌≡◌, arith}
use hexos.Kernel.Clock.{Clock, Time, clock_diff}
use hexos.Kernel.Clock.Times.{total_millis, IsTime, clock_diff-exact}

abbrev seven : Clock
seven = record { clicks = 3; total_seconds = 7 }

abbrev early : Time
early = record { seconds = 7; millis = 900 }

abbrev late : Time
late = record { seconds = 9; millis = 100 }

early-IsTime : IsTime early
early-IsTime = record { millis_lt = omega arith; seconds_lt = omega arith }

late-IsTime : IsTime late
late-IsTime = record { millis_lt = omega arith; seconds_lt = omega arith }

clock_diff-exact_example :
    (total_millis early + total_millis (clock_diff early late) ≡ total_millis late)
    × IsTime (clock_diff early late)
clock_diff-exact_example = clock_diff-exact early late early-IsTime late-IsTime (omega arith)
