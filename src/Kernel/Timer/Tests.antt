-- ===== src/Kernel/Timer/Tests.antt =====
-- A wait of five seconds, during which the first interrupt comes before the third read.
use hexos.Base.{ℕ, ◌+◌, ◌≡◌, refl, arith, some, if◌then◌else◌, ltb}
use hexos.Kernel.Timer.{sleep}
use hexos.Kernel.Timer.Sleep.{sleep-one_tick}

abbrev counts : ℕ → ℕ
counts k = if ltb k 3 then 7 else 8

sleep-one_tick_example : sleep 10 counts 5 ≡ some (1 + 2)
sleep-one_tick_example =
    sleep-one_tick 10 2 5 7 counts (omega arith) (omega arith) (omega arith) (λ k lt. ground arith)
      refl (omega arith)
