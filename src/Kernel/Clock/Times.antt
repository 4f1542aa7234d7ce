-- ===== src/Kernel/Clock/Times.antt =====
-- The clock counts the interrupts, and differences of times are in order.
use hexos.Base.{ℕ, zero, suc, ◌+◌, ◌*◌, ◌^◌, ◌<◌, ◌≤◌, ◌≡◌, arith, if-cases, ltb, leb, add32, sub32}
use hexos.Kernel.Clock.{Clock, Time, tick, clock_read, clock_diff, keeps_waiting, clicks_per_second}

-- The milliseconds of a time.
abbrev pub total_millis : Time → ℕ
total_millis t = t.seconds * 1000 + t.millis

-- Less than a second's worth of milliseconds, and words of 32 bits.
pub record IsTime (t : Time) : Type 0 where
  pub millis_lt : t.millis < 1000
  pub seconds_lt : t.seconds < 2 ^ 32

abbrev pub ticks : ℕ → Clock → Clock
ticks zero c = c
ticks (suc n) c = ticks n (tick c)

-- The clicks of a clock since it was started.
abbrev pub total_clicks : Clock → ℕ
total_clicks c = c.total_seconds * clicks_per_second + c.clicks

tick-step :
    (c : Clock)
    → c.clicks < clicks_per_second
    → total_clicks c + 1 < 2 ^ 32
    → (total_clicks (tick c) ≡ total_clicks c + 1) × ((tick c).clicks < clicks_per_second)
unfolding tick
tick-step c h small =
    if-cases (λ (d : Clock). (total_clicks d ≡ total_clicks c + 1) × (d.clicks < clicks_per_second))
      (leb clicks_per_second (add32 c.clicks 1)) (λ full. (ground arith, omega arith))
      (λ partial. (omega arith, ground arith))

-- After `n` interrupts the clock has counted `n` clicks more, and reads as that many tenths of a
-- second, with less than a second in the milliseconds.
pub ticks-count :
    (n : ℕ) (c : Clock)
    → c.clicks < clicks_per_second
    → total_clicks c + n < 2 ^ 32
    → (total_clicks (ticks n c) ≡ total_clicks c + n)
      × (total_millis (clock_read (ticks n c)) ≡ 100 * (total_clicks c + n))
      × IsTime (clock_read (ticks n c))
unfolding clock_read
ticks-count zero c h small =
    (omega arith, omega arith, record { millis_lt = omega arith; seconds_lt = omega arith })
ticks-count (suc n) c h small =
    let (step, low) = tick-step c h (omega arith) in
    let (count, millis, is) = ticks-count n (tick c) low (omega arith) in
    (omega arith, omega arith, is)

-- The clicks stay below a second's worth.
pub ticks-low :
    (n : ℕ) (c : Clock)
    → c.clicks < clicks_per_second
    → total_clicks c + n < 2 ^ 32
    → (ticks n c).clicks < clicks_per_second
ticks-low zero c h small = h
ticks-low (suc n) c h small =
    let (step, low) = tick-step c h (omega arith) in ticks-low n (tick c) low (omega arith)

-- The difference of two times in order is exact, and is a time itself.
pub clock_diff-exact :
    (start stop : Time)
    → IsTime start
    → IsTime stop
    → total_millis start ≤ total_millis stop
    → (total_millis start + total_millis (clock_diff start stop) ≡ total_millis stop)
      × IsTime (clock_diff start stop)
unfolding clock_diff
clock_diff-exact start stop v w le =
    if-cases
      (λ (t : Time).
        (total_millis start
            + total_millis (record {
              seconds = sub32 t.seconds start.seconds;
              millis = sub32 t.millis start.millis;
            })
          ≡ total_millis stop)
        × IsTime (record {
          seconds = sub32 t.seconds start.seconds;
          millis = sub32 t.millis start.millis;
        }))
      (ltb stop.millis start.millis)
      {x = record { millis = add32 stop.millis 1000; seconds = sub32 stop.seconds 1 }} {y = stop}
      (λ less. (
        ground (arith, v.millis_lt, v.seconds_lt, w.millis_lt, w.seconds_lt),
        record { millis_lt = ground (arith, v.millis_lt, w.millis_lt); seconds_lt = omega arith },
      ))
      (λ more. (
        ground (arith, v.millis_lt, v.seconds_lt, w.millis_lt, w.seconds_lt),
        record { millis_lt = ground (arith, v.millis_lt, w.millis_lt); seconds_lt = omega arith },
      ))

-- `clock_wait` stops waiting exactly when at least the asked milliseconds have passed, as long as
-- their number fits a word.
pub keeps_waiting_iff :
    (millis : ℕ) (start now : Time)
    → IsTime start
    → IsTime now
    → total_millis start ≤ total_millis now
    → total_millis now < 2 ^ 32
    → keeps_waiting millis start now ≡ ltb (total_millis now) (total_millis start + millis)
unfolding keeps_waiting
keeps_waiting_iff millis start now v w le small =
    let (exact, is) = clock_diff-exact start now v w le in ground (arith, exact, is.millis_lt)
