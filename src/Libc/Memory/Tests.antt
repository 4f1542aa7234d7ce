-- ===== src/Libc/Memory/Tests.antt =====
-- The block and string functions on a memory with the strings "hex" at 100 and "he" at 200.
use hexos.Base.{ℕ, ◌≡◌, refl, some, List, [], ◌∷◌, arith, ◌==◌, if◌then◌else◌}
use hexos.Base.Int.{ℤ}
use hexos.Libc.Memory.{Memory, memmove, strcmp}
use hexos.Libc.Memory.Blocks.{Copied, memmove-Copied}
use hexos.Libc.Memory.Strings.{Holds, Compared, strcmp-Compared}

abbrev two_strings : Memory
two_strings = λ a.
    if a == 100
    then 104
    else if a == 101
    then 101
    else if a == 102
    then 120
    else if a == 200
    then 104
    else if a == 201
    then 101
    else 0

abbrev hex : List ℕ
hex = 104 ∷ 101 ∷ 120 ∷ []

abbrev he : List ℕ
he = 104 ∷ 101 ∷ []

hex-Holds : Holds two_strings 100 hex
hex-Holds = (
  refl,
  (λ e. omega arith),
  omega arith,
  (refl, (λ e. omega arith), omega arith, (refl, (λ e. omega arith), omega arith, refl)),
)

he-Holds : Holds two_strings 200 he
he-Holds = (refl, (λ e. omega arith), omega arith, (refl, (λ e. omega arith), omega arith, refl))

memmove-Copied_example :
    ((memmove 102 100 4 two_strings).0 ≡ 102)
    × Copied 4 102 100 two_strings (memmove 102 100 4 two_strings).1
memmove-Copied_example = memmove-Copied 4 102 100 two_strings

strcmp-Compared_example : (d : ℤ) × (strcmp 10 100 200 two_strings ≡ some d) × Compared hex he d
strcmp-Compared_example =
    strcmp-Compared hex he 10 100 200 two_strings hex-Holds he-Holds (omega arith)
