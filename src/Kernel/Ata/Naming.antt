-- ===== src/Kernel/Ata/Naming.antt =====
-- The name of a drive fits the array of `ata_init` for it, whatever the drive answers.
use hexos.Base.{
  within, ℕ, zero, suc, ◌+◌, ◌*◌, ◌<◌, ◌≤◌, ◌≡◌, refl, ap, ◌∙◌, arith, true, false, ◌==◌,
  Bool-cases, ◌⊎◌, inl, inr, List, [], ◌∷◌, length, some,
}
use hexos.Libc.Memory.{Memory, store}
use hexos.Libc.Memory.Strings.{Holds, strcpy-Copied}
use hexos.Kernel.Ata.Probe.{swap_bytes, device_name}

-- Every address holds a byte.
abbrev pub IsBytes : Memory → Type 0
IsBytes m = (x : ℕ) → m x < 256

-- With a zero among the `n` bytes behind `s`, the bytes at `s` begin with a string that ends there.
string_before :
    (n s : ℕ) (m : Memory)
    → IsBytes m
    → m (s + n) ≡ 0
    → (text : List ℕ) × Holds m s text × (length text ≤ n)
string_before zero s m bytes z = ([], ap m (omega arith) ∙ z, omega arith)
string_before (suc n) s m bytes z = elim (Bool-cases (m s == 0)) [
  | inl empty ↦ ([], ground arith, omega arith)
  | inr more ↦
      let (text, h, short) = string_before n (s + 1) m bytes (ap m (omega arith) ∙ z) in
      (m s ∷ text, (refl, ground arith, bytes s, h), omega arith)
]

swap_bytes-IsBytes : (n at : ℕ) (m : Memory) → IsBytes m → IsBytes (swap_bytes n at m)
unfolding swap_bytes
swap_bytes-IsBytes zero at m bytes = bytes
swap_bytes-IsBytes (suc n) at m bytes =
    swap_bytes-IsBytes n (at + 2) _ (λ x. ground (arith, bytes x, bytes at, bytes (at + 1)))

swap_bytes-frame :
    (n at : ℕ) (m : Memory) (x : ℕ) → within at (2 * n) x ≡ false → swap_bytes n at m x ≡ m x
unfolding swap_bytes
swap_bytes-frame zero at m x out = refl
swap_bytes-frame (suc n) at m x out = swap_bytes-frame n (at + 2) _ x (ground arith) ∙ ground arith

Holds-bytes :
    (text : List ℕ) (s : ℕ) (m : Memory) (x : ℕ)
    → Holds m s text
    → within s (length text + 1) x ≡ true
    → m x < 256
Holds-bytes [] s m x h inside = ground arith
Holds-bytes (c ∷ text) s m x h inside = elim (Bool-cases (x == s)) [
  | inl here ↦ ground (arith, h.0, h.2)
  | inr on ↦ Holds-bytes text (s + 1) m x h.3 (ground arith)
]

-- When the 512 bytes of the answer and the 256 of the name lie apart, naming a drive ends, with a
-- string of at most 40 characters; of the name's array it writes the first 203 bytes at most, and
-- nothing but these and the answer differs.
pub device_name-fits :
    (fuel buffer name : ℕ) (m : Memory)
    → IsBytes m
    → 203 ≤ fuel
    → (name + 256 ≤ buffer) ⊎ (buffer + 512 ≤ name)
    → (m' : Memory) × (device_name fuel buffer name m ≡ some m')
      × ((x : ℕ) → within name 203 x ≡ false → within buffer 512 x ≡ false → m' x ≡ m x)
      × ((text : List ℕ) × Holds m' name text × (length text ≤ 40))
unfolding device_name
device_name-fits fuel buffer name m bytes enough apart =
    let swapped = swap_bytes 256 buffer m in
    let cut = store (buffer + 256) 0 swapped in
    let cut_bytes : IsBytes cut = λ x. ground (arith, swap_bytes-IsBytes 256 buffer m bytes x) in
    let (text, h, short) = string_before 202 (buffer + 54) cut cut_bytes (ground arith) in
    let (copy, ran, c) =
      strcpy-Copied text fuel name (buffer + 54) cut h (omega arith) (clear text apart short) in
    let ended = store (name + 40) 0 copy in
    let copy_bytes : IsBytes copy = λ x. elim (Bool-cases (within name (length text + 1) x)) [
      | inl inside ↦ Holds-bytes text name copy x c.string inside
      | inr out ↦ rw (c.frame x out) (cut_bytes x)
    ] in
    let ended_bytes : IsBytes ended = λ x. ground (arith, copy_bytes x) in
    let (label, g, few) = string_before 40 name ended ended_bytes (ground arith) in
    (
      ended,
      rw ran refl,
      λ x out away. ground (arith, c.frame x (ground arith), swap_bytes-frame 256 buffer m x),
      (label, g, few),
    )
  where
    clear :
        (text : List ℕ)
        → (name + 256 ≤ buffer) ⊎ (buffer + 512 ≤ name)
        → length text ≤ 202
        → (name ≤ buffer + 54) ⊎ (buffer + 54 + length text < name)
    clear text (inl below) short = inl (omega arith)
    clear text (inr above) short = inr (omega arith)
