-- ===== src/Libc/Number/Tests.antt =====
-- Numbers printed.
use hexos.Base.{◌+◌, ◌*◌, ◌≡◌, refl, true, false, some}
use mathlib.Core.Option
use hexos.Libc.Number.{Text, itoa, digit_loop, finish, reverse, reverse_loop}

abbrev no_text : Text
no_text = λ i. 0

-- 255 in base 16 is "ff".
two_digits :
    Option.map (λ (str : Text). str 1 * 256 + str 0) (itoa false 255 16 no_text) ≡ some 26214
unfolding itoa digit_loop finish reverse reverse_loop
two_digits = refl

-- A negative number in base 16 is not printed as an unsigned one: -10 comes out as "&".
negative_hex : Option.map (λ (str : Text). str 1 * 256 + str 0) (itoa true 10 16 no_text) ≡ some 38
unfolding itoa digit_loop finish reverse reverse_loop
negative_hex = refl
