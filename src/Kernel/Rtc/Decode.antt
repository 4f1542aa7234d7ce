-- ===== src/Kernel/Rtc/Decode.antt =====
-- The formats in which the clock chip gives the time.
use hexos.Base.{
  ℕ, ◌+◌, ◌*◌, ◌/◌, ◌%◌, ◌<◌, ◌≡◌, refl, ◌∙◌, arith, true, false, ◌&&◌, not, if◌then◌else◌, ◌==◌,
  u16, bit_and,
}
use hexos.Base.Bits.{bit_and_mask, bit_and-pow}
use hexos.Base.Masks.{high_nibble}
use hexos.Kernel.Rtc.{RtcTime, rtc_bcd_convert, convert_time, decode_time}

-- The number `n` in binary coded decimal.
abbrev pub bcd : ℕ → ℕ
bcd n = n / 10 * 16 + n % 10

convert_lem : (x : ℕ) → x < 256 → rtc_bcd_convert x ≡ x / 16 * 10 + x % 16
unfolding rtc_bcd_convert
convert_lem x h =
    let low : bit_and x 15 ≡ x % 16 = bit_and_mask 4 x in rw (low, high_nibble x h) (omega arith)

-- `rtc_bcd_convert` decodes every number below 100.
pub rtc_bcd_convert-bcd : (n : ℕ) → n < 100 → rtc_bcd_convert (bcd n) ≡ n
rtc_bcd_convert-bcd n h = convert_lem (bcd n) (omega arith) ∙ omega arith

-- A time of day and a date in the century, with the hours from 0 to 23.
pub record IsDate (t : RtcTime) : Type 0 where
  pub seconds_lt : t.seconds < 60
  pub minutes_lt : t.minutes < 60
  pub hours_lt : t.hours < 24
  pub day_lt : t.day < 32
  pub month_lt : t.month < 13
  pub year_lt : t.year < 100

abbrev pub bcd_time : RtcTime → RtcTime
bcd_time t = record {
  seconds = bcd t.seconds;
  minutes = bcd t.minutes;
  hours = bcd t.hours;
  day = bcd t.day;
  month = bcd t.month;
  year = bcd t.year;
}

abbrev pub in_century : RtcTime → RtcTime
in_century t = record t { year = t.year + 2000 }

same_hours :
    (x status : ℕ)
    → x < 24
    → (if (bit_and status 2 == 0) && not (bit_and x 128 == 0) then (bit_and x 127 + 12) % 24 else x)
      ≡ x
same_hours x status h =
    let early : bit_and x 128 ≡ 0 = omega (arith, bit_and-pow x 7) in ground arith

-- In 24-hour mode, in binary coded decimal or in binary, a date is decoded as it is, in the years from
-- 2000 on.
pub decode_time-date :
    (status : ℕ) (t : RtcTime)
    → IsDate t
    → (bit_and status 4 ≡ 0 → decode_time status (bcd_time t) ≡ in_century t)
      × ((bit_and status 4 == 0) ≡ false → decode_time status t ≡ in_century t)
unfolding decode_time convert_time
decode_time-date status t v =
    let year : u16 (t.year + 2000) ≡ t.year + 2000 = omega (arith, v.year_lt) in
    let hours : (if (bit_and status 2 == 0) && not (bit_and t.hours 128 == 0)
          then (bit_and t.hours 127 + 12) % 24
          else t.hours)
        ≡ t.hours =
      same_hours t.hours status v.hours_lt in
    (
      λ zero_bit.
          let coded : (bit_and status 4 == 0) ≡ true = ground arith in
          rw
            (
              coded,
              rtc_bcd_convert-bcd t.seconds (omega (arith, v.seconds_lt)),
              rtc_bcd_convert-bcd t.minutes (omega (arith, v.minutes_lt)),
              rtc_bcd_convert-bcd t.hours (omega (arith, v.hours_lt)),
              rtc_bcd_convert-bcd t.day (omega (arith, v.day_lt)),
              rtc_bcd_convert-bcd t.month (omega (arith, v.month_lt)),
              rtc_bcd_convert-bcd t.year v.year_lt,
              hours,
              year,
            )
            refl,
      λ binary. rw (binary, hours, year) refl,
    )

-- In 12-hour mode with binary coded decimal the flag for the afternoon is decoded as a digit: hour `h`
-- in the afternoon comes out as `80 + h`.
pub decode_time-afternoon :
    (status h : ℕ) (t : RtcTime)
    → bit_and status 4 ≡ 0
    → bit_and status 2 ≡ 0
    → h < 13
    → t.hours ≡ 128 + bcd h
    → (decode_time status t).hours ≡ 80 + h
unfolding decode_time convert_time
decode_time-afternoon status h t bcd_mode half_day lt raw =
    let coded : (bit_and status 4 == 0) ≡ true = ground arith in
    let decoded : rtc_bcd_convert t.hours ≡ 80 + h =
      convert_lem t.hours (omega arith) ∙ omega arith in
    let early : bit_and (80 + h) 128 ≡ 0 = omega (arith, bit_and-pow (80 + h) 7) in
    rw (coded, decoded, early, half_day) refl
