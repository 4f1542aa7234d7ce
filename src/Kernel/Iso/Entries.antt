-- ===== src/Kernel/Iso/Entries.antt =====
-- A directory as a list of its records, and what it is for it to lie in memory.
use hexos.Base.{
  within, ℕ, ◌+◌, ◌<◌, ◌≤◌, ◌≡◌, ◌≢◌, refl, ap, ◌∙◌, arith, Bool, true, false, ◌==◌, List, [], ◌∷◌,
  length,
}
use hexos.Libc.Memory.{Memory}
use hexos.Libc.Memory.Strings.{Holds}
use hexos.Kernel.Iso.Records.{lba, length_of_file, flags}
use hexos.Kernel.Iso.Search.{is_shown, terminate}

-- The characters of `text` stand from `a` on: bytes other than 0.
abbrev pub Chars : Memory → ℕ → List ℕ → Type 0
Chars m a [] = Unit {0}
Chars m a (c ∷ text) = (m a ≡ c) × (c ≢ 0) × (c < 256) × Chars m (a + 1) text

pub Chars-agree :
    (text : List ℕ) (a : ℕ) (m m' : Memory)
    → ((x : ℕ) → within a (length text) x ≡ true → m' x ≡ m x)
    → Chars m a text
    → Chars m' a text
Chars-agree [] a m m' agree h = tt
Chars-agree (c ∷ text) a m m' agree h = (
  agree a (ground arith) ∙ h.0,
  h.1,
  h.2,
  Chars-agree text (a + 1) m m' (λ x inside. agree x (ground arith)) h.3,
)

-- With a zero behind them they are a string.
pub Chars-Holds :
    (text : List ℕ) (a : ℕ) (m : Memory) → Chars m a text → m (a + length text) ≡ 0 → Holds m a text
Chars-Holds [] a m h z = ap m (omega arith) ∙ z
Chars-Holds (c ∷ text) a m h z =
    (h.0, h.1, h.2, Chars-Holds text (a + 1) m h.3 (ap m (omega arith) ∙ z))

-- A record: its length, its identifier, the first block and the length of the file, and the flags.
pub record Entry : Type 0 where
  pub size : ℕ
  pub name : List ℕ
  pub block : ℕ
  pub bytes : ℕ
  pub flag : ℕ

-- The record at `at`, which ends before `end`.
pub record IsEntry (e : Entry) (m : Memory) (at end : ℕ) : Type 0 where
  pub size_at : m at ≡ e.size
  pub name_length : m (at + 32) ≡ length e.name
  pub name_at : Chars m (at + 33) e.name
  pub named : e.name ≢ []
  pub short : length e.name ≤ 255
  pub fits : 33 + length e.name ≤ e.size
  pub inside : at + e.size < end
  pub block_at : lba m at ≡ e.block
  pub bytes_at : length_of_file m at ≡ e.bytes
  pub flag_at : flags m at ≡ e.flag

-- The records follow each other, and a length of 0 ends them.
abbrev pub Entries : List Entry → Memory → ℕ → ℕ → Type 0
Entries [] m at end = m at ≡ 0
Entries (e ∷ es) m at end = IsEntry e m at end × Entries es m (at + e.size) end

-- A directory at `buffer`: a first record, which has the length `first`, and the others.
pub record Directory (first : ℕ) (es : List Entry) (m : Memory) (buffer end : ℕ) : Type 0 where
  pub first_at : m buffer ≡ first
  pub nonempty : 0 < first
  pub entries : Entries es m (buffer + first) end

-- The record of the parent, whose identifier is the byte 1.
abbrev pub is_parent : List ℕ → Bool
is_parent [] = false
is_parent (c ∷ _) = c == 1

pub IsEntry-agree :
    (e : Entry) (m m' : Memory) (at end : ℕ)
    → ((x : ℕ) → within at (33 + length e.name) x ≡ true → m' x ≡ m x)
    → IsEntry e m at end
    → IsEntry e m' at end
IsEntry-agree e m m' at end agree v = record {
  size_at = agree at (ground arith) ∙ v.size_at;
  name_length = agree (at + 32) (ground arith) ∙ v.name_length;
  name_at = Chars-agree e.name (at + 33) m m' (λ x inside. agree x (ground arith)) v.name_at;
  named = v.named;
  short = v.short;
  fits = v.fits;
  inside = v.inside;
  block_at = omega (
    arith,
    agree (at + 2) (ground arith),
    agree (at + 2 + 1) (ground arith),
    agree (at + 2 + 2) (ground arith),
    agree (at + 2 + 3) (ground arith),
    v.block_at,
  );
  bytes_at = omega (
    arith,
    agree (at + 10) (ground arith),
    agree (at + 10 + 1) (ground arith),
    agree (at + 10 + 2) (ground arith),
    agree (at + 10 + 3) (ground arith),
    v.bytes_at,
  );
  flag_at = agree (at + 25) (ground arith) ∙ v.flag_at;
}

-- The records from `at` on do not see a change before `at`.
pub Entries-agree :
    (es : List Entry) (m m' : Memory) (at end : ℕ)
    → ((x : ℕ) → at ≤ x → m' x ≡ m x)
    → Entries es m at end
    → Entries es m' at end
Entries-agree [] m m' at end agree h = agree at (omega arith) ∙ h
Entries-agree (e ∷ es) m m' at end agree h = (
  IsEntry-agree e m m' at end (λ x inside. agree x (ground arith)) h.0,
  Entries-agree es m m' (at + e.size) end (λ x above. agree x (omega arith)) h.1,
)

module _ {e : Entry} {m : Memory} {at end : ℕ} (v : IsEntry e m at end) where
  -- Behind the first record the test of the loops leaves out the record of the parent.
  pub is_shown-IsEntry :
      (is_parent e.name ≡ true → is_shown false at m ≡ false)
      × (is_parent e.name ≡ false → is_shown false at m ≡ true)
  is_shown-IsEntry = by_name e.name v.name_at v.named
    where
      by_name :
          (name : List ℕ)
          → Chars m (at + 33) name
          → name ≢ []
          → (is_parent name ≡ true → is_shown false at m ≡ false)
            × (is_parent name ≡ false → is_shown false at m ≡ true)
      by_name [] h ne = absurd (ne refl)
      by_name (c ∷ name) h ne = (λ p. ground (arith, h.0), λ p. ground (arith, h.0))

  -- After the zero behind the identifier, the identifier is a string and the record is unchanged.
  pub terminate-Holds : Holds (terminate at m) (at + 33) e.name
  terminate-Holds =
      Chars-Holds e.name (at + 33) (terminate at m)
        (Chars-agree e.name (at + 33) m (terminate at m) (λ x inside. ground (arith, v.name_length))
          v.name_at)
        (ground (arith, v.name_length))

  pub terminate-IsEntry : IsEntry e (terminate at m) at end
  terminate-IsEntry =
      IsEntry-agree e m (terminate at m) at end (λ x inside. ground (arith, v.name_length)) v
