-- ===== src/Libc/Memory.antt =====
-- libc/string: the functions on blocks of bytes and on zero-terminated strings, over one flat memory.
-- Addresses are numbers, and a block is meant not to reach past the end of the address space.
pub mod Blocks
pub mod Strings
pub mod Tests
use hexos.Base.{
  ℕ, zero, suc, ◌+◌, ◌-◌, ◌%◌, ◌^◌, Bool, true, false, ◌||◌, not, Option, none, some, if◌then◌else◌,
  ◌==◌, ltb, u8, u32,
}
use hexos.Base.Int.{ℤ, pos, negsuc, sub_ℕ}

-- The byte at each address.
abbrev pub Memory : Type 0
Memory = ℕ → ℕ

abbrev pub store : ℕ → ℕ → Memory → Memory
store a v m = λ k. if k == a then v else m k

-- The loop `dst[i] = src[i]`, upwards from `i` on, by the rounds left.
unfoldable pub copy_up : ℕ → ℕ → ℕ → ℕ → Memory → Memory
copy_up zero dst src i m = m
copy_up (suc n) dst src i m = copy_up n dst src (i + 1) (store (dst + i) (m (src + i)) m)

unfoldable pub memcpy : ℕ → ℕ → ℕ → Memory → ℕ × Memory
memcpy dst src size m = (dst, copy_up size dst src 0 m)

-- The loop `dst[i-1] = src[i-1]`, down from `i`.
unfoldable pub copy_down : ℕ → ℕ → ℕ → Memory → Memory
copy_down zero dst src m = m
copy_down (suc i) dst src m = copy_down i dst src (store (dst + i) (m (src + i)) m)

unfoldable pub memmove : ℕ → ℕ → ℕ → Memory → ℕ × Memory
memmove dst src size m =
    (dst, if ltb dst src then copy_up size dst src 0 m else copy_down size dst src m)

unfoldable pub set_up : ℕ → ℕ → ℕ → ℕ → Memory → Memory
set_up zero buf value i m = m
set_up (suc n) buf value i m = set_up n buf value (i + 1) (store (buf + i) (u8 value) m)

-- `value` is an `int`, given by its 32 bits.
unfoldable pub memset : ℕ → ℕ → ℕ → Memory → ℕ × Memory
memset buf value size m = (buf, set_up size buf value 0 m)

-- The loop of `memcmp` from `i` on, by the rounds left.
unfoldable pub compare_up : ℕ → ℕ → ℕ → ℕ → Memory → ℤ
compare_up zero a b i m = pos 0
compare_up (suc n) a b i m =
    let rest = compare_up n a b (i + 1) m in
    if ltb (m (a + i)) (m (b + i))
    then negsuc 0
    else if ltb (m (b + i)) (m (a + i))
    then pos 1
    else rest

unfoldable pub memcmp : ℕ → ℕ → ℕ → Memory → ℤ
memcmp a b size m = compare_up size a b 0 m

-- The loop of `strlen`, on fuel.
unfoldable pub length_from : ℕ → ℕ → ℕ → Memory → Option ℕ
length_from zero string result m = none
length_from (suc fuel) string result m =
    let rest = length_from fuel string (result + 1) m in
    if m (string + result) == 0 then some result else rest

unfoldable pub strlen : ℕ → ℕ → Memory → Option ℕ
strlen fuel string m = length_from fuel string 0 m

-- A `char` is signed.
abbrev pub char_value : ℕ → ℤ
char_value c = if ltb c 128 then pos c else negsuc (255 - c)

abbrev pub char_diff : ℕ → ℕ → ℤ
char_diff c d =
    if ltb c 128
    then (if ltb d 128 then sub_ℕ c d else pos (c + (256 - d)))
    else (if ltb d 128 then negsuc (255 - c + d) else sub_ℕ c d)

-- The loop of `strcmp`, on fuel.
unfoldable pub strcmp : ℕ → ℕ → ℕ → Memory → Option ℤ
strcmp zero s1 s2 m = none
strcmp (suc fuel) s1 s2 m =
    let rest = strcmp fuel (s1 + 1) (s2 + 1) m in
    if (m s1 == 0) || not (m s1 == m s2) then some (char_diff (m s1) (m s2)) else rest

-- The loop of `strcpy`, on fuel.
unfoldable pub strcpy : ℕ → ℕ → ℕ → Memory → Option Memory
strcpy zero d s m = none
strcpy (suc fuel) d s m =
    let rest = strcpy fuel (d + 1) (s + 1) (store d (m s) m) in
    if m s == 0 then some (store d 0 m) else rest
