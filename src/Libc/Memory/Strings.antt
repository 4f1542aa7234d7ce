-- ===== src/Libc/Memory/Strings.antt =====
-- `strlen`, `strcmp` and `strcpy` on zero-terminated strings.
use hexos.Base.{
  within, ℕ, zero, suc, ◌+◌, ◌<◌, ◌≤◌, ◌≡◌, refl, ◌≢◌, sym, ap, ap₂, ◌∙◌, arith, true, false, ◌||◌,
  not, ◌⊎◌, inl, inr, ◌==◌, Bool-cases, List, [], ◌∷◌, length, some,
}
use hexos.Base.Int.{ℤ, pos}
use hexos.Libc.Memory.{Memory, store, length_from, strlen, char_diff, strcmp, strcpy}

-- The string at `s` is `text`, whose characters are bytes other than 0.
abbrev pub Holds : Memory → ℕ → List ℕ → Type 0
Holds m s [] = m s ≡ 0
Holds m s (c ∷ text) = (m s ≡ c) × (c ≢ 0) × (c < 256) × Holds m (s + 1) text

length_from-Holds :
    (text : List ℕ) (fuel s i : ℕ) (m : Memory)
    → Holds m (s + i) text
    → length text < fuel
    → length_from fuel s i m ≡ some (i + length text)
unfolding length_from
length_from-Holds [] zero s i m h lt = absurd (omega arith)
length_from-Holds [] (suc fuel) s i m h lt = rw h (ap some (omega arith))
length_from-Holds (c ∷ text) zero s i m h lt = absurd (omega arith)
length_from-Holds (c ∷ text) (suc fuel) s i m h lt =
    let on : (m (s + i) == 0) ≡ false = ground arith in
    let next : s + i + 1 ≡ s + (i + 1) = omega arith in
    rw on (
      length_from-Holds text fuel s (i + 1) m (rw next at h.3) (omega arith)
      ∙ ap some (omega arith))

-- `strlen` ends, and is the length of the text.
pub strlen-Holds :
    (text : List ℕ) (fuel s : ℕ) (m : Memory)
    → Holds m s text
    → length text < fuel
    → strlen fuel s m ≡ some (length text)
unfolding strlen
strlen-Holds text fuel s m h lt =
    let start : s + 0 ≡ s = omega arith in
    length_from-Holds text fuel s 0 m (rw start h) lt ∙ ap some (omega arith)

-- The result of `strcmp` is 0 exactly if the texts are equal.
pub record Compared (t1 t2 : List ℕ) (d : ℤ) : Type 0 where
  pub if_equal : t1 ≡ t2 → d ≡ pos 0
  pub only_if_equal : d ≡ pos 0 → t1 ≡ t2

char_diff-zero : (c d : ℕ) → c < 256 → d < 256 → char_diff c d ≡ pos 0 → c ≡ d
char_diff-zero c d hc hd e = ground arith

char_diff-same : (c : ℕ) → char_diff c c ≡ pos 0
char_diff-same c = ground arith

head_eq : {c d : ℕ} {t1 t2 : List ℕ} → c ∷ t1 ≡ d ∷ t2 → c ≡ d
head_eq e = cc

tail_eq : {c d : ℕ} {t1 t2 : List ℕ} → c ∷ t1 ≡ d ∷ t2 → t1 ≡ t2
tail_eq e = cc

-- `strcmp` ends on two texts, and its result is 0 exactly if they are equal.
pub strcmp-Compared :
    (t1 t2 : List ℕ) (fuel s1 s2 : ℕ) (m : Memory)
    → Holds m s1 t1
    → Holds m s2 t2
    → length t1 < fuel
    → (d : ℤ) × (strcmp fuel s1 s2 m ≡ some d) × Compared t1 t2 d
unfolding strcmp
strcmp-Compared t1 t2 zero s1 s2 m h g lt = absurd (omega arith)
strcmp-Compared [] [] (suc fuel) s1 s2 m h g lt = (
  char_diff (m s1) (m s2),
  rw h refl,
  record { if_equal = λ e. rw (h, g) refl; only_if_equal = λ e. refl },
)
strcmp-Compared [] (c ∷ t2) (suc fuel) s1 s2 m h g lt = (
  char_diff (m s1) (m s2),
  rw h refl,
  record {
    if_equal = λ e. cc;
    only_if_equal =
        λ e. absurd (g.1 (sym (char_diff-zero 0 c (omega arith) g.2 (rw (h, g.0) at e))));
  },
)
strcmp-Compared (c ∷ t1) [] (suc fuel) s1 s2 m h g lt =
    let stop : ((m s1 == 0) || not (m s1 == m s2)) ≡ true = ground (arith, h.0, h.1) in
    (
      char_diff (m s1) (m s2),
      rw stop refl,
      record {
        if_equal = λ e. cc;
        only_if_equal = λ e. absurd (h.1 (char_diff-zero c 0 h.2 (omega arith) (rw (h.0, g) at e)));
      },
    )
strcmp-Compared (c ∷ t1) (d ∷ t2) (suc fuel) s1 s2 m h g lt = elim (Bool-cases (c == d)) [
  | inl equal ↦
      let same : c ≡ d = ground arith in
      let on : ((m s1 == 0) || not (m s1 == m s2)) ≡ false = ground (arith, h.0, h.1, g.0) in
      let (r, e, k) = strcmp-Compared t1 t2 fuel (s1 + 1) (s2 + 1) m h.3 g.3 (omega arith) in
      (
        r,
        rw on e,
        record {
          if_equal = λ eq. k.if_equal (tail_eq eq);
          only_if_equal = λ z. ap₂ ◌∷◌ same (k.only_if_equal z);
        },
      )
  | inr differ ↦
      let stop : ((m s1 == 0) || not (m s1 == m s2)) ≡ true = ground (arith, h.0, g.0) in
      (
        char_diff (m s1) (m s2),
        rw stop refl,
        record {
          if_equal = λ eq. absurd (ground (arith, head_eq eq));
          only_if_equal =
              λ z. absurd (ground (arith, char_diff-zero c d h.2 g.2 (rw (h.0, g.0) at z)));
        },
      )
]

pub Holds-agree :
    (text : List ℕ) (s : ℕ) (m m' : Memory)
    → ((x : ℕ) → within s (length text + 1) x ≡ true → m' x ≡ m x)
    → Holds m s text
    → Holds m' s text
Holds-agree [] s m m' agree h = agree s (ground arith) ∙ h
Holds-agree (c ∷ text) s m m' agree h = (
  agree s (ground arith) ∙ h.0,
  h.1,
  h.2,
  Holds-agree text (s + 1) m m' (λ x inside. agree x (ground arith)) h.3,
)

-- The text stands at `d`, with its final 0, and nothing else differs.
pub record CopiedText (text : List ℕ) (d : ℕ) (m m' : Memory) : Type 0 where
  pub string : Holds m' d text
  pub frame : (x : ℕ) → within d (length text + 1) x ≡ false → m' x ≡ m x

-- `strcpy` ends, and copies the text, when the destination does not begin inside the source.
pub strcpy-Copied :
    (text : List ℕ) (fuel d s : ℕ) (m : Memory)
    → Holds m s text
    → length text < fuel
    → (d ≤ s) ⊎ (s + length text < d)
    → (m' : Memory) × (strcpy fuel d s m ≡ some m') × CopiedText text d m m'
unfolding strcpy
strcpy-Copied text zero d s m h lt apart = absurd (omega arith)
strcpy-Copied [] (suc fuel) d s m h lt apart =
    (store d 0 m, rw h refl, record { string = ground arith; frame = λ x out. ground arith })
strcpy-Copied (c ∷ text) (suc fuel) d s m h lt apart =
    let on : (m s == 0) ≡ false = ground (arith, h.0, h.1) in
    let source : Holds (store d (m s) m) (s + 1) text =
      Holds-agree text (s + 1) m (store d (m s) m) (λ x inside. untouched apart x inside) h.3 in
    let (m', e, k) =
      strcpy-Copied text fuel (d + 1) (s + 1) (store d (m s) m) source (omega arith)
        (further apart) in
    (
      m',
      rw on e,
      record {
        string = (k.frame d (ground arith) ∙ first, h.1, h.2, k.string);
        frame = λ x out. k.frame x (ground arith) ∙ ground arith;
      },
    )
  where
    first : store d (m s) m d ≡ c
    first = ground (arith, h.0)

    further :
        (d ≤ s) ⊎ (s + length (c ∷ text) < d) → (d + 1 ≤ s + 1) ⊎ (s + 1 + length text < d + 1)
    further (inl below) = inl (omega arith)
    further (inr above) = inr (omega arith)

    untouched :
        (d ≤ s) ⊎ (s + length (c ∷ text) < d)
        → (x : ℕ) → within (s + 1) (length text + 1) x ≡ true
        → store d (m s) m x ≡ m x
    untouched (inl below) x inside = ground arith
    untouched (inr above) x inside = ground arith
