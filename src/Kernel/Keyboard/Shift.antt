-- ===== src/Kernel/Keyboard/Shift.antt =====
-- The shift key, and what it makes of the other keys.
use hexos.Base.{
  ℕ, zero, suc, ◌+◌, ◌-◌, ◌<◌, ◌≡◌, refl, ap, sym, ◌∙◌, arith, Bool, true, false, ◌&&◌, ◌||◌, not,
  Option, none, some, List, [], ◌∷◌, if◌then◌else◌, if-cases, Bool-cases, inl, inr, ◌==◌, leb,
  bit_and, bit_xor,
}
use hexos.Base.Bits.{bit_and-pow}
use hexos.Kernel.Keyboard.{plain_key, shift_key, is_shift, keyboard_handler, keys}

-- What a scancode says of the shift keys: one was pressed, or one was released.
abbrev pub shift_event : ℕ → Option Bool
shift_event scancode =
    if bit_and scancode 128 == 0
    then if is_shift scancode then some true else none
    else if is_shift (bit_xor scancode 128)
    then some false
    else none

-- The last of these events, or the given state if there is none.
abbrev pub last_event : List (Option Bool) → Bool → Bool
last_event [] down = down
last_event (none ∷ events) down = last_event events down
last_event (some d ∷ events) down = last_event events d

abbrev pub shift_events : List ℕ → List (Option Bool)
shift_events [] = []
shift_events (scancode ∷ scancodes) = shift_event scancode ∷ shift_events scancodes

-- The two maps, compared at every scancode.
all_below : ℕ → (ℕ → Bool) → Bool
all_below zero test = true
all_below (suc n) test = test n && all_below n test

all_below-at : (n : ℕ) (test : ℕ → Bool) (i : ℕ) → all_below n test ≡ true → i < n → test i ≡ true
unfolding all_below
all_below-at zero test i h lt = absurd (omega arith)
all_below-at (suc n) test i h lt = elim (Bool-cases (i == n)) [
  | inl here ↦ let same : i ≡ n = ground arith in rw same (ground arith)
  | inr below ↦ all_below-at n test i (ground arith) (ground arith)
]

abbrev is_small_letter : ℕ → Bool
is_small_letter c = leb 97 c && leb c 122

abbrev capital_test : ℕ → Bool
capital_test i = not (is_small_letter (plain_key i)) || (shift_key i + 32 == plain_key i)

capitals : all_below 128 capital_test ≡ true
unfolding all_below plain_key shift_key
capitals = refl

abbrev shift_is_mute_test : ℕ → Bool
shift_is_mute_test i = not (is_shift i) || (plain_key i == 0)

shift_is_mute : all_below 128 shift_is_mute_test ≡ true
unfolding all_below plain_key
shift_is_mute = refl

-- With shift down every key that types a small letter types its capital.
pub keyboard_handler-capital :
    (i : ℕ)
    → i < 128
    → is_small_letter (plain_key i) ≡ true
    → keyboard_handler i true ≡ (true, some (plain_key i - 32))
unfolding keyboard_handler
keyboard_handler-capital i lt letter =
    let test : capital_test i ≡ true = all_below-at 128 capital_test i capitals lt in
    let make : bit_and i 128 ≡ 0 = omega (arith, bit_and-pow i 7) in ground arith

-- Whether shift is down after a scancode.
handler-shift :
    (i : ℕ) (down : Bool)
    → i < 256
    → (keyboard_handler i down).0 ≡ last_event (shift_event i ∷ []) down
unfolding keyboard_handler
handler-shift i down lt = elim (Bool-cases (bit_and i 128 == 0)) [
  | inl make ↦
      let test : shift_is_mute_test i ≡ true =
        all_below-at 128 shift_is_mute_test i shift_is_mute (small make) in
      rw make (pressed test)
  | inr break ↦ rw break (
      if-cases
        (λ x. x ≡ last_event ((if is_shift (bit_xor i 128) then some false else none) ∷ []) down)
        (is_shift (bit_xor i 128)) (λ yes_shift. rw yes_shift refl) (λ no_shift. rw no_shift refl))
]
  where
    small : (bit_and i 128 == 0) ≡ true → i < 128
    small make = ground (arith, bit_and-pow i 7)

    pressed :
        shift_is_mute_test i ≡ true
        → (if◌then◌else◌ {A = Bool × Option ℕ}
            (plain_key i == 0)
            (if is_shift i then true else down, none)
            (down, some (if down then shift_key i else plain_key i))).0
          ≡ last_event ((if is_shift i then some true else none) ∷ []) down
    pressed test = elim (Bool-cases (is_shift i)) [
      | inl shift ↦ let mute : (plain_key i == 0) ≡ true = ground arith in rw (mute, shift) refl
      | inr other ↦ elim (Bool-cases (plain_key i == 0)) [
        | inl mute ↦ rw (mute, other) refl
        | inr types ↦ rw (types, other) refl
      ]
    ]

last_event-cons :
    (e : Option Bool) (events : List (Option Bool)) (down : Bool)
    → last_event (e ∷ events) down ≡ last_event events (last_event (e ∷ []) down)
last_event-cons none events down = refl
last_event-cons (some d) events down = refl

abbrev pub AllBytes : List ℕ → Type 0
AllBytes [] = Unit
AllBytes (x ∷ xs) = (x < 256) × AllBytes xs

-- After any scancodes `shift_down` is what the last press or release of a shift key left.
pub keys-shift :
    (scancodes : List ℕ) (down : Bool)
    → AllBytes scancodes
    → (keys scancodes down).0 ≡ last_event (shift_events scancodes) down
unfolding keys
keys-shift [] down small = refl
keys-shift (i ∷ scancodes) down small =
    keys-shift scancodes (keyboard_handler i down).0 small.1
    ∙ ap (last_event (shift_events scancodes)) (handler-shift i down small.0)
    ∙ sym (last_event-cons (shift_event i) (shift_events scancodes) down)
