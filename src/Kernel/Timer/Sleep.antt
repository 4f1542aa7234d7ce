-- ===== src/Kernel/Timer/Sleep.antt =====
-- How long `sleep` waits.
use hexos.Base.{
  ℕ, zero, suc, ◌+◌, ◌*◌, ◌^◌, ◌<◌, ◌≡◌, refl, arith, ltb, false, true, some, sub32, u32,
}
use native.Mathlib.Nat.{add-zero}
use hexos.Kernel.Timer.{timer_handler, sleep_loop, sleep}

-- While no interrupt comes the loop goes on, and it ends at the first read that finds one.
sleep_loop-first :
    (fuel n i toWait t : ℕ) (ticks : ℕ → ℕ)
    → t < 2 ^ 32
    → 0 < toWait
    → toWait * 18 < 2 ^ 32
    → ((k : ℕ) → k < i + n → ticks k ≡ t)
    → ticks (i + n) ≡ timer_handler t
    → n < fuel
    → sleep_loop fuel ticks t toWait i ≡ some (i + n)
unfolding sleep_loop
sleep_loop-first zero n i toWait t ticks small pos fits before then_one enough =
    absurd (omega arith)
sleep_loop-first (suc fuel) zero i toWait t ticks small pos fits before then_one enough =
    let here : ticks i ≡ timer_handler t = rw add-zero at then_one in
    let over : ltb (sub32 t (timer_handler t)) (u32 (toWait * 18)) ≡ false = ground arith in
    rw (here, over, add-zero) refl
sleep_loop-first (suc fuel) (suc n) i toWait t ticks small pos fits before then_one enough =
    let here : ticks i ≡ t = before i (omega arith) in
    let within : ltb (sub32 t t) (u32 (toWait * 18)) ≡ true = ground arith in
    let on : i + 1 + n ≡ i + suc n = omega arith in
    let rest =
      sleep_loop-first fuel n (i + 1) toWait t ticks small pos fits (λ k lt. before k (omega arith))
        (rw on then_one) (omega arith) in
    rw (here, within, rest, on) refl

-- Whatever number of seconds from 1 on it is given, below that at which the product wraps around,
-- `sleep` ends at the first read of the count that finds it one higher, when no read before finds
-- another count.
pub sleep-one_tick :
    (fuel n toWait t : ℕ) (ticks : ℕ → ℕ)
    → t < 2 ^ 32
    → 0 < toWait
    → toWait * 18 < 2 ^ 32
    → ((k : ℕ) → k < 1 + n → ticks k ≡ t)
    → ticks (1 + n) ≡ timer_handler t
    → n < fuel
    → sleep fuel ticks toWait ≡ some (1 + n)
unfolding sleep
sleep-one_tick fuel n toWait t ticks small pos fits before then_one enough =
    let first : ticks 0 ≡ t = before 0 (omega arith) in
    rw first (sleep_loop-first fuel n 1 toWait t ticks small pos fits before then_one enough)
