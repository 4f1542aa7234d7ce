-- ===== src/Kernel/Keyboard/Tests.antt =====
-- The keyboard on a typed word.
use hexos.Base.{ℕ, ◌≡◌, refl, false, List, [], ◌∷◌}
use hexos.Kernel.Keyboard.{plain_key, keyboard_handler, keys, shift_key}

-- Shift down, `h`, shift up, `e`, `x`.
abbrev hex_keys : List ℕ
hex_keys = 42 ∷ 35 ∷ 163 ∷ 170 ∷ 18 ∷ 146 ∷ 45 ∷ []

hex_typed : keys hex_keys false ≡ (false, 72 ∷ 101 ∷ 120 ∷ [])
unfolding keys keyboard_handler plain_key shift_key
hex_typed = refl
