-- ===== src/Kernel/Mem/Search.antt =====
-- The two loops of `memory_alloc_page`: they find the first page whose bit is set.
use native.Mathlib.Nat.{one-le-pow}
use hexos.Base.{
  ℕ, zero, suc, ◌+◌, ◌*◌, ◌/◌, ◌%◌, ◌^◌, ◌<◌, ◌≤◌, ◌≡◌, ap, sym, ◌∙◌, arith, ◌==◌, true, none, some,
  Bool-cases, Option-cases, inl, inr, bit_and, ◌<<◌,
}
use hexos.Base.Bits.{bit, bit_and-pow, bit_le_one}
use hexos.Kernel.Mem.{find_bit, find_page, cell_bits}
use hexos.Base.Masks.{bit-zero}

-- Page `p` is free when its bit is set.
abbrev pub page_bit : (ℕ → ℕ) → ℕ → ℕ
page_bit words p = bit (words (p / cell_bits)) (p % cell_bits)

bit-test : (v j : ℕ) → (bit_and v (1 << j) == 0) ≡ (bit v j == 0)
bit-test v j = elim (Bool-cases (bit v j == 0)) [
  | inl z ↦
      let none_set : bit v j ≡ 0 = ground arith in
      let gone : bit_and v (1 << j) ≡ 0 * 2 ^ j =
        one ∙ bit_and-pow v j ∙ ap (λ (t : ℕ). t * 2 ^ j) none_set in
      ground arith
  | inr s ↦
      let set_bit : bit v j ≡ 1 = ground (arith, bit_le_one v j) in
      let kept : bit_and v (1 << j) ≡ 1 * 2 ^ j =
        one ∙ bit_and-pow v j ∙ ap (λ (t : ℕ). t * 2 ^ j) set_bit in
      ground (arith, one-le-pow j 2)
]
  where
    one : bit_and v (1 << j) ≡ bit_and v (2 ^ j)
    one = ap (bit_and v) (omega arith)

pub find_bit-some :
    (n v j k : ℕ)
    → find_bit n v j ≡ some k
    → (bit v k ≡ 1) × (j ≤ k) × (k < j + n) × ((l : ℕ) → j ≤ l → l < k → bit v l ≡ 0)
unfolding find_bit
find_bit-some zero v j k e = cc
find_bit-some (suc n) v j k e = elim (Bool-cases (bit v j == 0)) [
  | inl z ↦
      let (set_bit, low, high, least) = find_bit-some n v (j + 1) k (rw (bit-test, z) at e) in
      (set_bit, omega arith, omega arith, λ l le lt. first l le (ground arith) (least l) lt)
  | inr s ↦ ground (arith, rw (bit-test, s) at e, bit_le_one v j)
]
  where
    first : (l : ℕ) → j ≤ l → bit v j ≡ 0 → (j + 1 ≤ l → l < k → bit v l ≡ 0) → l < k → bit v l ≡ 0
    first l le z later lt = elim (Bool-cases (l == j)) [
      | inl here ↦ let same : l ≡ j = ground arith in rw same z
      | inr past ↦ later (ground arith) lt
    ]

pub find_bit-none : (n v j : ℕ) → find_bit n v j ≡ none → (l : ℕ) → j ≤ l → l < j + n → bit v l ≡ 0
unfolding find_bit
find_bit-none zero v j e l le lt = absurd (omega arith)
find_bit-none (suc n) v j e l le lt = elim (Bool-cases (bit v j == 0)) [
  | inl z ↦
      let later : (l : ℕ) → j + 1 ≤ l → l < j + 1 + n → bit v l ≡ 0 =
        find_bit-none n v (j + 1) (rw (bit-test, z) at e) in
      elim (Bool-cases (l == j)) [
        | inl here ↦ let same : l ≡ j = ground arith in rw same (ground arith)
        | inr past ↦ later l (ground arith) (omega arith)
      ]
  | inr s ↦ absurd (cc (rw (bit-test, s) at e))
]

module _ (words : ℕ → ℕ) where
  -- The page before which the search for the digits of cell `i` starts.
  none_in_cell : (i : ℕ) → (words i == 0) ≡ true → (l : ℕ) → bit (words i) l ≡ 0
  none_in_cell i z l = let gone : words i ≡ 0 = ground arith in rw gone (bit-zero l)

  pub find_page-none :
      (n i : ℕ)
      → find_page n words i ≡ none
      → (c l : ℕ) → i ≤ c
      → c < i + n
      → l < cell_bits
      → bit (words c) l ≡ 0
  unfolding find_page
  find_page-none zero i e c l le lt small = absurd (omega arith)
  find_page-none (suc n) i e c l le lt small = elim (Bool-cases (c == i)) [
    | inl here ↦
        let same : c ≡ i = ground arith in
        rw same (elim (Bool-cases (words i == 0)) [
          | inl z ↦ none_in_cell i z l
          | inr s ↦ elim (Option-cases (find_bit cell_bits (words i) 0)) [
            | inl miss ↦ find_bit-none cell_bits (words i) 0 miss l (omega arith) (omega arith)
            | inr (j, hit) ↦ absurd (cc (rw (s, hit) at e))
          ]
        ])
    | inr past ↦ find_page-none n (i + 1) (later e) c l (ground arith) (omega arith) small
  ]
    where
      later : find_page (suc n) words i ≡ none → find_page n words (i + 1) ≡ none
      later e = elim (Bool-cases (words i == 0)) [
        | inl z ↦ rw z at e
        | inr s ↦ elim (Option-cases (find_bit cell_bits (words i) 0)) [
          | inl miss ↦ rw (s, miss) at e
          | inr (j, hit) ↦ absurd (cc (rw (s, hit) at e))
        ]
      ]

  -- What the search yields: a set digit, with none before it.
  pub record IsFirst (i c j : ℕ) : Type 0 where
    pub from : i ≤ c
    pub digit : j < cell_bits
    pub is_set : bit (words c) j ≡ 1
    pub cells_before : (d l : ℕ) → i ≤ d → d < c → l < cell_bits → bit (words d) l ≡ 0
    pub digits_before : (l : ℕ) → l < j → bit (words c) l ≡ 0

  IsFirst-in_cell : (i j : ℕ) → find_bit cell_bits (words i) 0 ≡ some j → IsFirst i i j
  IsFirst-in_cell i j e =
      let (digit_set, low, high, least) = find_bit-some cell_bits (words i) 0 j e in
      record {
        from = omega arith;
        digit = omega arith;
        is_set = digit_set;
        cells_before = λ d l le lt. absurd (omega arith);
        digits_before = λ l lt. least l (omega arith) lt;
      }

  IsFirst-later :
      (i c j : ℕ)
      → ((l : ℕ) → l < cell_bits → bit (words i) l ≡ 0)
      → IsFirst (i + 1) c j
      → IsFirst i c j
  IsFirst-later i c j clear f = record {
    from = omega (arith, f.from);
    digit = f.digit;
    is_set = f.is_set;
    cells_before = λ d l le lt small. elim (Bool-cases (d == i)) [
      | inl here ↦ let same : d ≡ i = ground arith in rw same (clear l small)
      | inr past ↦ f.cells_before d l (ground arith) lt small
    ];
    digits_before = f.digits_before;
  }

  pub find_page-some :
      (n i c j : ℕ) → find_page n words i ≡ some (c, j) → (c < i + n) × IsFirst i c j
  unfolding find_page
  find_page-some zero i c j e = cc
  find_page-some (suc n) i c j e = elim (Bool-cases (words i == 0)) [
    | inl z ↦ later (find_page-some n (i + 1) c j) (λ l lt. none_in_cell i z l) (rw z at e)
    | inr s ↦ elim (Option-cases (find_bit cell_bits (words i) 0)) [
      | inl miss ↦
          later (find_page-some n (i + 1) c j)
            (λ l lt. find_bit-none cell_bits (words i) 0 miss l (omega arith) (omega arith))
            (rw (s, miss) at e)
      | inr (k, hit) ↦ here k hit (cc (rw (s, hit) at e)) (cc (rw (s, hit) at e))
    ]
  ]
    where
      later :
          (find_page n words (i + 1) ≡ some (c, j) → (c < i + 1 + n) × IsFirst (i + 1) c j)
          → ((l : ℕ) → l < cell_bits → bit (words i) l ≡ 0)
          → find_page n words (i + 1) ≡ some (c, j)
          → (c < i + suc n) × IsFirst i c j
      later induct clear e' =
          let (high, f) = induct e' in (omega arith, IsFirst-later i c j clear f)

      here :
          (k : ℕ)
          → find_bit cell_bits (words i) 0 ≡ some k
          → i ≡ c
          → k ≡ j
          → (c < i + suc n) × IsFirst i c j
      here k hit ei ej = rw (sym ei, sym ej) (omega arith, IsFirst-in_cell i k hit)
