-- ===== src/Kernel/Ata/Waiting.antt =====
-- `ata_wait` ends, since the clock goes on while the process sleeps.
use hexos.Base.{
  ℕ, zero, suc, ◌+◌, ◌*◌, ◌^◌, ◌<◌, ◌≤◌, ◌≡◌, ◌≢◌, refl, ◌∙◌, arith, Bool, true, false, ◌==◌, ltb,
  some, [], Bool-cases, ◌⊎◌, inl, inr, bit_and,
}
use hexos.Kernel.Process.{Switch, wait}
use hexos.Kernel.Clock.{Clock, Time, clock_read, clock_diff, keeps_waiting, clicks_per_second}
use hexos.Kernel.Clock.Times.{
  total_millis, total_clicks, IsTime, ticks, ticks-count, ticks-low, clock_diff-exact,
  keeps_waiting_iff,
}
use hexos.Kernel.Ata.Driver.{
  Machine, Kernel, out, process_wait, wait_clicks, clock_wait, ata_reset, give_up, wait_status,
  ata_wait, status_port, control_port, error_bit, timeout,
}

-- A process that waits runs again after at least one click of the clock, and at most 1024.
pub record Ticking (machine : Machine) : Type 0 where
  pub lasts :
      (switched : Switch) (w : Kernel machine)
      → (n : ℕ) × (0 < n) × (n ≤ 1024) × ((machine.resume switched w).clock ≡ ticks n w.clock)

-- The clock counts right, and has been on for less than 2 ^ 25 clicks, `more` ones included.
pub record IsRunning (c : Clock) (more : ℕ) : Type 0 where
  pub low : c.clicks < clicks_per_second
  pub young : total_clicks c + more < 2 ^ 25

-- `c` has become `c'`, with at least `least` and at most `most` clicks more.
pub record Later (c c' : Clock) (least most : ℕ) : Type 0 where
  pub low : c'.clicks < clicks_per_second
  pub after : total_clicks c + least ≤ total_clicks c'
  pub soon : total_clicks c' ≤ total_clicks c + most

-- The readings of a clock.
reading :
    (c : Clock)
    → c.clicks < clicks_per_second
    → total_clicks c < 2 ^ 25
    → IsTime (clock_read c) × (total_millis (clock_read c) ≡ 100 * total_clicks c)
reading c low young = let (_, millis, is) = ticks-count 0 c low (omega arith) in (is, omega arith)

-- Why `ata_wait` gives a drive up: it reports an error, or more than two seconds have passed.
abbrev pub Failed : (machine : Machine) → ℕ → Time → Kernel machine → Type 0
Failed machine id start v =
    (bit_and (machine.ports.inb (status_port id) v.dev).0 error_bit ≢ 0)
    ⊎ (timeout < (clock_diff start (clock_read v.clock)).seconds)

-- The kernel once the status of the unit `id` has been read.
abbrev pub polled : (machine : Machine) → ℕ → Kernel machine → Kernel machine
polled machine id v = record v { dev = (machine.ports.inb (status_port id) v.dev).1 }

-- What `ata_wait` comes to: in some state `v` the status had the bits asked for and nothing was done
-- since, or the drive failed and was reset.
abbrev pub Waited : (machine : Machine) → ℕ → ℕ → ℕ → Time → Bool → Kernel machine → Type 0
Waited machine id mask state start true w =
    (v : Kernel machine) × (bit_and (machine.ports.inb (status_port id) v.dev).0 mask ≡ state)
    × (w ≡ polled machine id v)
Waited machine id mask state start false w =
    (v : Kernel machine) × (fuel : ℕ) × Failed machine id start v
    × (ata_reset machine fuel id (polled machine id v) ≡ some w)

-- Until the timeout fewer than 30 clicks have passed.
before_timeout :
    (c c' : Clock)
    → c.clicks < clicks_per_second
    → c'.clicks < clicks_per_second
    → total_clicks c ≤ total_clicks c'
    → total_clicks c' < 2 ^ 25
    → ltb timeout (clock_diff (clock_read c) (clock_read c')).seconds ≡ false
    → total_clicks c' < total_clicks c + 30
before_timeout c c' low low' le young early =
    let (v, start) = reading c low (omega arith) in
    let (v', now) = reading c' low' young in
    let (exact, is) =
      clock_diff-exact (clock_read c) (clock_read c') v v' (omega (arith, start, now)) in
    let few : (clock_diff (clock_read c) (clock_read c')).seconds ≤ timeout = ground arith in
    omega (arith, exact, is.millis_lt, start, now, few)

module _ {machine : Machine} (ticking : Ticking machine) where
  waits :
      (switched : Switch) (w : Kernel machine)
      → IsRunning w.clock 1024
      → Later w.clock (machine.resume switched w).clock 1 1024
  waits switched w r =
      let (n, some_time, most, e) = ticking.lasts switched w in
      let (count, _, _) = ticks-count n w.clock r.low (omega (arith, r.young)) in
      record {
        low = rw e (ticks-low n w.clock r.low (omega (arith, r.young)));
        after = rw e (omega (arith, count));
        soon = rw e (omega (arith, count));
      }

  -- `clock_wait` of at most 100 milliseconds sleeps once.
  clock_wait-once :
      (fuel millis : ℕ) (w : Kernel machine)
      → 0 < fuel
      → millis ≤ 100
      → IsRunning w.clock 1024
      → clock_wait machine fuel millis w ≡ some (process_wait machine machine.clock_queue w)
  unfolding clock_wait wait_clicks
  clock_wait-once zero millis w pos le r = absurd (omega arith)
  clock_wait-once (suc fuel) millis w pos le r =
      let l = waits (wait machine.clock_queue [] w.sched) w r in
      let c' = (process_wait machine machine.clock_queue w).clock in
      let (v, start) = reading w.clock r.low (omega (arith, r.young)) in
      let (v', now) = reading c' l.low (omega (arith, r.young, l.soon)) in
      let test =
        keeps_waiting_iff millis (clock_read w.clock) (clock_read c') v v'
          (omega (arith, start, now, l.after)) (omega (arith, now, l.soon, r.young)) in
      let over : keeps_waiting millis (clock_read w.clock) (clock_read c') ≡ false =
        test ∙ ground (arith, start, now, l.after) in
      rw over refl

  -- A reset ends.
  ata_reset-ends :
      (fuel id : ℕ) (w : Kernel machine)
      → 0 < fuel
      → IsRunning w.clock 2048
      → (w' : Kernel machine) × (ata_reset machine fuel id w ≡ some w')
        × Later w.clock w'.clock 2 2048
  unfolding ata_reset
  ata_reset-ends fuel id w pos r =
      let w1 = out machine (control_port id) 4 w in
      let l = waits (wait machine.clock_queue [] w1.sched) w1 (early r) in
      let w2 = process_wait machine machine.clock_queue w1 in
      let w3 = out machine (control_port id) 0 w2 in
      let late : IsRunning w3.clock 1024 = record {
        low = l.low;
        young = omega (arith, l.soon, r.young);
      } in
      let l' = waits (wait machine.clock_queue [] w3.sched) w3 late in
      (
        process_wait machine machine.clock_queue w3,
        rw
            (
              clock_wait-once fuel 1 w1 pos (omega arith) (early r),
              clock_wait-once fuel 1 w3 pos (omega arith) late,
            )
            refl,
        record {
          low = l'.low;
          after = omega (arith, l.after, l'.after);
          soon = omega (arith, l.soon, l'.soon);
        },
      )
    where
      early : IsRunning w.clock 2048 → IsRunning w.clock 1024
      early r = record { low = r.low; young = omega (arith, r.young) }

  gives_up :
      (fuel id mask state : ℕ) (start : Time) (w : Kernel machine)
      → 0 < fuel
      → IsRunning w.clock 2048
      → Failed machine id start w
      → (b : Bool) × (w' : Kernel machine) × (give_up machine fuel id (polled machine id w)
          ≡ some (b, w'))
        × Waited machine id mask state start b w'
  gives_up fuel id mask state start w pos r failed =
      let (w', ran, _) =
        ata_reset-ends fuel id (polled machine id w) pos record { low = r.low; young = r.young } in
      (false, w', rw ran refl, (w, fuel, failed, ran))

  wait_status-ends :
      (fuel id mask state : ℕ) (c : Clock) (w : Kernel machine)
      → c.clicks < clicks_per_second
      → total_clicks c ≤ total_clicks w.clock
      → 32 + total_clicks c ≤ fuel + total_clicks w.clock
      → 1 < fuel
      → IsRunning w.clock ((fuel + 2) * 1024)
      → (b : Bool) × (w' : Kernel machine) × (wait_status machine fuel id mask state
            (clock_read c)
            w
          ≡ some (b, w'))
        × Waited machine id mask state (clock_read c) b w'
  unfolding wait_status
  wait_status-ends zero id mask state c w low le enough two r = absurd (omega arith)
  wait_status-ends (suc fuel) id mask state c w low le enough two r =
      let start = clock_read c in
      let t = (machine.ports.inb (status_port id) w.dev).0 in
      let w1 = polled machine id w in
      let brief : IsRunning w.clock 2048 = record { low = r.low; young = omega (arith, r.young) } in
      elim (Bool-cases (bit_and t mask == state)) [
        | inl there ↦ (true, w1, rw there refl, (w, ground arith, refl))
        | inr absent ↦ elim (Bool-cases (bit_and t error_bit == 0)) [
          | inr error ↦
              rw (absent, error)
                (gives_up fuel id mask state start w (omega arith) brief (inl (ground arith)))
          | inl fine ↦
              elim (Bool-cases (ltb timeout (clock_diff start (clock_read w.clock)).seconds)) [
                | inl late ↦
                    rw (absent, fine, late)
                      (gives_up fuel id mask state start w (omega arith) brief (inr (ground arith)))
                | inr early ↦
                    let recent : total_clicks w.clock < total_clicks c + 30 =
                      before_timeout c w.clock low r.low le (omega (arith, r.young)) early in
                    let once : IsRunning w1.clock 1024 = record {
                      low = r.low;
                      young = omega (arith, r.young);
                    } in
                    let l = waits (wait machine.clock_queue [] w1.sched) w1 once in
                    let slept = clock_wait-once fuel 0 w1 (omega arith) (omega arith) once in
                    rw (absent, fine, early, slept)
                      (wait_status-ends fuel id mask state c
                        (process_wait machine machine.clock_queue w1) low (omega (arith, l.after))
                        (omega (arith, l.after)) (omega (arith, recent))
                        record { low = l.low; young = omega (arith, l.soon, r.young) })
              ]
        ]
      ]

  -- Where the clock goes on while processes wait and has been on for less than 2 ^ 25 clicks, at the
  -- end of the waits too, `ata_wait` ends: with success if it has just read a status with the bits
  -- asked for, and else after a reset, because the drive reported an error or because more than two
  -- seconds had passed. Fuel of 32 is enough.
  pub ata_wait-ends :
      (fuel id mask state : ℕ) (w : Kernel machine)
      → 32 ≤ fuel
      → IsRunning w.clock ((fuel + 2) * 1024)
      → (b : Bool) × (w' : Kernel machine) × (ata_wait machine fuel id mask state w ≡ some (b, w'))
        × Waited machine id mask state (clock_read w.clock) b w'
  unfolding ata_wait
  ata_wait-ends fuel id mask state w enough r =
      wait_status-ends fuel id mask state w.clock w r.low (omega arith) (omega arith) (omega arith)
        r
