-- ===== src/Kernel/Rtc/Tests.antt =====
-- The clock chip at 2021-03-14 21:45:09.
use hexos.Base.{◌≡◌, refl, false, some, arith, ◌==◌, bit_and, leb, not, if◌then◌else◌}
use hexos.Kernel.Rtc.{RtcTime, decode_time, rtc_get_time, wait_update, read_time, status_b}
use hexos.Kernel.Rtc.Decode.{bcd_time, in_century, IsDate, decode_time-date}

abbrev evening : RtcTime
evening = record { seconds = 9; minutes = 45; hours = 21; day = 14; month = 3; year = 21 }

evening-IsDate : IsDate evening
evening-IsDate = record {
  seconds_lt = omega arith;
  minutes_lt = omega arith;
  hours_lt = omega arith;
  day_lt = omega arith;
  month_lt = omega arith;
  year_lt = omega arith;
}

-- An update that is over at the third question.
read_after_update :
    rtc_get_time 10 (λ n. not (leb 2 n)) (λ n r. if r == status_b then 6 else 5)
    ≡ some (record { seconds = 5; minutes = 5; hours = 5; day = 5; month = 5; year = 2005 })
unfolding rtc_get_time wait_update read_time decode_time
read_after_update = refl

decode_time-date_example :
    (bit_and 2 4 ≡ 0 → decode_time 2 (bcd_time evening) ≡ in_century evening)
    × ((bit_and 2 4 == 0) ≡ false → decode_time 2 evening ≡ in_century evening)
decode_time-date_example = decode_time-date 2 evening evening-IsDate
