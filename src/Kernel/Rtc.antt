-- ===== src/Kernel/Rtc.antt =====
-- kernel/kernel/rtc.c: the time from the clock chip. The chip is a parameter: what its registers read
-- as, and the answers to the question whether an update is in progress.
pub mod Decode
pub mod Tests
use hexos.Base.{
  ℕ, zero, suc, ◌+◌, ◌*◌, ◌/◌, ◌%◌, ◌^◌, Bool, true, false, ◌&&◌, not, Option, none, some, ◌>>=◌,
  if◌then◌else◌, ◌==◌, u8, u16, ◌>>◌, bit_and,
}

-- `rtc_time`
pub record RtcTime : Type 0 where
  pub seconds : ℕ
  pub minutes : ℕ
  pub hours : ℕ
  pub day : ℕ
  pub month : ℕ
  pub year : ℕ

-- RTC_BASE, and the registers behind it
abbrev pub rtc_base : ℕ
rtc_base = 128

abbrev pub status_b : ℕ
status_b = rtc_base + 11

unfoldable pub rtc_bcd_convert : ℕ → ℕ
rtc_bcd_convert bcd = u8 ((bit_and bcd 240 >> 1) + ((bit_and bcd 240 >> 3) + bit_and bcd 15))

-- The six fields as they are read.
unfoldable pub read_time : (ℕ → ℕ) → RtcTime
read_time read = record {
  seconds = read (rtc_base + 0);
  minutes = read (rtc_base + 2);
  hours = read (rtc_base + 4);
  month = read (rtc_base + 8);
  day = read (rtc_base + 7);
  year = read (rtc_base + 9);
}

unfoldable pub convert_time : RtcTime → RtcTime
convert_time t = record {
  seconds = rtc_bcd_convert t.seconds;
  minutes = rtc_bcd_convert t.minutes;
  hours = rtc_bcd_convert t.hours;
  month = rtc_bcd_convert t.month;
  day = rtc_bcd_convert t.day;
  year = rtc_bcd_convert t.year;
}

-- The conversions by `statusB`.
unfoldable pub decode_time : ℕ → RtcTime → RtcTime
decode_time status raw =
    let plain = if bit_and status 4 == 0 then convert_time raw else raw in
    let late = (bit_and status 2 == 0) && not (bit_and plain.hours 128 == 0) in
    let hours = if late then (bit_and plain.hours 127 + 12) % 24 else plain.hours in
    record plain { hours = hours; year = u16 (plain.year + 2000) }

-- `while (rtc_update_in_progress()) {}` over the answers, from answer `n` on: the number of the next
-- answer, on fuel.
unfoldable pub wait_update : ℕ → (ℕ → Bool) → ℕ → Option ℕ
wait_update zero updating n = none
wait_update (suc fuel) updating n =
    let rest = wait_update fuel updating (n + 1) in if updating n then rest else some (n + 1)

-- The registers read as `read n` says once `n` questions were asked.
unfoldable pub rtc_get_time : ℕ → (ℕ → Bool) → (ℕ → ℕ → ℕ) → Option RtcTime
rtc_get_time fuel updating read = do
  n ← wait_update fuel updating 0
  k ← wait_update fuel updating n
  some (decode_time (read k status_b) (read_time (read k)))
