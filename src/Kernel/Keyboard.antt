-- ===== src/Kernel/Keyboard.antt =====
-- kernel/kernel/ps2keyboard.c: from scancodes to characters. `inb(0x60)` is given by the scancode.
pub mod Shift
pub mod Tests
use hexos.Base.{
  ℕ, Bool, true, false, ◌||◌, Option, none, some, List, [], ◌∷◌, if◌then◌else◌, ◌==◌, replicate,
  get_or, bit_and, bit_xor,
}

abbrev pub scancode_map : List ℕ
scancode_map =
    0
    ∷ 27
    ∷ 49
    ∷ 50
    ∷ 51
    ∷ 52
    ∷ 53
    ∷ 54
    ∷ 55
    ∷ 56
    ∷ 57
    ∷ 48
    ∷ 45
    ∷ 61
    ∷ 8
    ∷ 9
    ∷ 113
    ∷ 119
    ∷ 101
    ∷ 114
    ∷ 116
    ∷ 121
    ∷ 117
    ∷ 105
    ∷ 111
    ∷ 112
    ∷ 91
    ∷ 93
    ∷ 10
    ∷ 0
    ∷ 97
    ∷ 115
    ∷ 100
    ∷ 102
    ∷ 103
    ∷ 104
    ∷ 106
    ∷ 107
    ∷ 108
    ∷ 59
    ∷ 39
    ∷ 96
    ∷ 0
    ∷ 92
    ∷ 122
    ∷ 120
    ∷ 99
    ∷ 118
    ∷ 98
    ∷ 110
    ∷ 109
    ∷ 44
    ∷ 46
    ∷ 47
    ∷ 0
    ∷ 42
    ∷ 0
    ∷ 32
    ∷ 0
    ∷ 0
    ∷ 0
    ∷ 0
    ∷ 0
    ∷ 0
    ∷ 0
    ∷ 0
    ∷ 0
    ∷ 0
    ∷ 0
    ∷ 0
    ∷ 0
    ∷ 0
    ∷ 0
    ∷ 0
    ∷ 45
    ∷ 0
    ∷ 0
    ∷ 0
    ∷ 43
    ∷ 0
    ∷ 0
    ∷ 0
    ∷ 0
    ∷ 0
    ∷ 0
    ∷ 0
    ∷ 0
    ∷ 0
    ∷ 0
    ∷ 0
    ∷ replicate 38 0

abbrev pub shift_map : List ℕ
shift_map =
    0
    ∷ 27
    ∷ 33
    ∷ 64
    ∷ 35
    ∷ 36
    ∷ 37
    ∷ 94
    ∷ 38
    ∷ 42
    ∷ 40
    ∷ 41
    ∷ 95
    ∷ 43
    ∷ 8
    ∷ 9
    ∷ 81
    ∷ 87
    ∷ 69
    ∷ 82
    ∷ 84
    ∷ 89
    ∷ 85
    ∷ 73
    ∷ 79
    ∷ 80
    ∷ 123
    ∷ 125
    ∷ 10
    ∷ 0
    ∷ 65
    ∷ 83
    ∷ 68
    ∷ 70
    ∷ 71
    ∷ 72
    ∷ 74
    ∷ 75
    ∷ 76
    ∷ 58
    ∷ 34
    ∷ 126
    ∷ 0
    ∷ 124
    ∷ 90
    ∷ 88
    ∷ 67
    ∷ 86
    ∷ 66
    ∷ 78
    ∷ 77
    ∷ 60
    ∷ 62
    ∷ 63
    ∷ 0
    ∷ 42
    ∷ 0
    ∷ 32
    ∷ 0
    ∷ 0
    ∷ 0
    ∷ 0
    ∷ 0
    ∷ 0
    ∷ 0
    ∷ 0
    ∷ 0
    ∷ 0
    ∷ 0
    ∷ 0
    ∷ 0
    ∷ 0
    ∷ 0
    ∷ 0
    ∷ 45
    ∷ 0
    ∷ 0
    ∷ 0
    ∷ 43
    ∷ 0
    ∷ 0
    ∷ 0
    ∷ 0
    ∷ 0
    ∷ 0
    ∷ 0
    ∷ 0
    ∷ 0
    ∷ 0
    ∷ 0
    ∷ replicate 38 0

-- `scancode_map[scancode]` and `shift_map[scancode]`
unfoldable pub plain_key : ℕ → ℕ
plain_key scancode = get_or scancode_map scancode 0

unfoldable pub shift_key : ℕ → ℕ
shift_key scancode = get_or shift_map scancode 0

abbrev pub is_shift : ℕ → Bool
is_shift scancode = (scancode == 42) || (scancode == 54)

-- `keyboard_handler`: the new `shift_down`, and the character that goes to the shell.
unfoldable pub keyboard_handler : ℕ → Bool → Bool × Option ℕ
keyboard_handler scancode shift_down =
    let plain = plain_key scancode in
    let pressed = if shift_down then shift_key scancode else plain in
    if bit_and scancode 128 == 0
    then if plain == 0
      then (if is_shift scancode then true else shift_down, none)
      else (shift_down, some pressed)
    else (if is_shift (bit_xor scancode 128) then false else shift_down, none)

abbrev pub add : Option ℕ → List ℕ → List ℕ
add none text = text
add (some c) text = c ∷ text

-- The characters that a sequence of scancodes sends to the shell.
unfoldable pub keys : List ℕ → Bool → Bool × List ℕ
keys [] shift_down = (shift_down, [])
keys (scancode ∷ scancodes) shift_down =
    let (down, typed) = keyboard_handler scancode shift_down in
    let (last, text) = keys scancodes down in (last, add typed text)
