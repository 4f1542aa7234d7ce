-- ===== src/Libc/Printf/Tests.antt =====
-- `printf` on "%d%%: %s\n".
use hexos.Base.{ℕ, ◌≡◌, refl, true, false, some, List, [], ◌∷◌}
use hexos.Libc.Printf.{string_arg, int_arg, printf, printf_int, grow, digits_down}
use hexos.Libc.Printf.Numbers.{order, decimal}
use hexos.Libc.Printf.Pieces.{render, printf-render}

thousand : printf_int true 1234 ≡ some (45 ∷ 49 ∷ 50 ∷ 51 ∷ 52 ∷ [])
unfolding printf_int grow digits_down
thousand = refl

-- From 10^9 on the power of ten overflows: 1500000000 is printed as no digit at all.
no_digits : printf_int false 1500000000 ≡ some []
unfolding printf_int grow digits_down
no_digits = refl

abbrev format : List ℕ
format = 37 ∷ 100 ∷ 37 ∷ 37 ∷ 58 ∷ 32 ∷ 37 ∷ 115 ∷ 10 ∷ []

printf-render_example :
    printf format (int_arg false 1 ∷ string_arg (111 ∷ 107 ∷ []) ∷ [])
    ≡ some (49 ∷ 37 ∷ 58 ∷ 32 ∷ 111 ∷ 107 ∷ 10 ∷ [])
unfolding render order decimal
printf-render_example =
    printf-render format (int_arg false 1 ∷ string_arg (111 ∷ 107 ∷ []) ∷ [])
      (49 ∷ 37 ∷ 58 ∷ 32 ∷ 111 ∷ 107 ∷ 10 ∷ []) refl
