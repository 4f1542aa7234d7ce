-- ===== src/Kernel/Mem/Pages.antt =====
-- `memory_alloc_page` and `memory_free_page` against the set of free pages that the bitmap stands for.
use native.Mathlib.Nat.{add-zero}
use hexos.Base.{
  put, ℕ, ◌+◌, ◌-◌, ◌*◌, ◌/◌, ◌%◌, ◌^◌, ◌<◌, ◌≤◌, ◌≡◌, refl, ◌≢◌, subst, ◌∙◌, arith, Bool, true,
  false, some, ◌==◌, if◌then◌else◌, Bool-cases, Option-cases, inl, inr, ◌<<◌, ◌>>◌, bit_and, bit_or,
  u32, add32, sub32, leb, ltb, ◌&&◌,
}
use hexos.Kernel.Mem.{
  Mem, Page, not_ready, got, panic, alloc_page, free_page, take_page, find_page, alloc_memory_start,
  cell_bits, zero_page, page_size,
}
use hexos.Base.Masks.{bit-clear, bit-set}
use hexos.Kernel.Mem.Search.{page_bit, find_page-some, find_page-none, IsFirst}

-- The pages that the bitmap covers.
abbrev pub page_count : Mem → ℕ
page_count m = m.freemap_cells * cell_bits

-- The address of page `p`.
abbrev pub page_addr : ℕ → ℕ
page_addr p = alloc_memory_start + p * page_size

-- The allocator is set up, and every page it may hand out has a 32-bit address.
pub record IsMem (m : Mem) : Type 0 where
  pub ready : m.ready ≡ true
  pub span : page_addr (page_count m) ≤ 2 ^ 32

-- The lowest free page `p` was handed out: its bit is cleared, and no other page's. Outside of the
-- bitmap and the page no word changes.
pub record Taken (m : Mem) (p : ℕ) (m' : Mem) : Type 0 where
  pub inside : p < page_count m
  pub was_free : page_bit m.words p ≡ 1
  pub lowest : (q : ℕ) → q < p → page_bit m.words q ≡ 0
  pub cleared : page_bit m'.words p ≡ 0
  pub others : (q : ℕ) → q ≢ p → q < page_count m → page_bit m'.words q ≡ page_bit m.words q
  pub count : m'.pages_free ≡ sub32 m.pages_free 1
  pub outside : (k : ℕ) → m.freemap_cells ≤ k → k / 1024 ≢ p → m'.words k ≡ m.words k
  pub same_cells : m'.freemap_cells ≡ m.freemap_cells
  pub same_ready : m'.ready ≡ m.ready

pub data Outcome (m : Mem) : Page → Type 0 where
  taken : {m' : Mem} (p : ℕ) → Taken m p m' → Outcome m (got (page_addr p) m')
  exhausted : ((q : ℕ) → q < page_count m → page_bit m.words q ≡ 0) → Outcome m panic

-- The words of the bitmap end before the first page that it marks free.
abbrev pub MapIsTaken : Mem → Type 0
MapIsTaken m = (q : ℕ) → page_bit m.words q ≡ 1 → m.freemap_cells ≤ q * 1024

cleared_words :
    (words : ℕ → ℕ) (c j q : ℕ)
    → j < cell_bits
    → page_bit (put c (bit_and (words c) (2 ^ 32 - 1 - (1 << j))) words) q
      ≡ (if q == c * cell_bits + j then 0 else page_bit words q)
cleared_words words c j q h = elim (Bool-cases (q / cell_bits == c)) [
  | inl here ↦
      let same : q / cell_bits ≡ c = ground arith in
      rw (here, same, one) (bit-clear (words c) j (q % cell_bits) h (omega arith) ∙ ground arith)
  | inr away ↦ rw away (ground arith)
]
  where
    one : 1 * 2 ^ j ≡ 2 ^ j
    one = omega arith

set_words :
    (words : ℕ → ℕ) (p q : ℕ)
    → page_bit (put (p / cell_bits) (bit_or (words (p / cell_bits)) (1 << p % cell_bits)) words) q
      ≡ (if q == p then 1 else page_bit words q)
set_words words p q = elim (Bool-cases (q / cell_bits == p / cell_bits)) [
  | inl here ↦
      let same : q / cell_bits ≡ p / cell_bits = ground arith in
      rw (here, same, one)
        (bit-set (words (p / cell_bits)) (p % cell_bits) (q % cell_bits) ∙ ground arith)
  | inr away ↦ rw away (ground arith)
]
  where
    one : 1 * 2 ^ (p % cell_bits) ≡ 2 ^ (p % cell_bits)
    one = omega arith

-- A page that is handed out holds zeros.
unfoldable pub IsZeroed : Page → Type 0
IsZeroed (got addr m') =
    (p : ℕ) → addr ≡ page_addr p → (k : ℕ) → k < 1024 → m'.words (p * 1024 + k) ≡ 0
IsZeroed panic = Unit
IsZeroed not_ready = Unit

IsZeroed-if : (b : Bool) (r : Page) → IsZeroed r → IsZeroed (if b then r else not_ready)
unfolding IsZeroed
IsZeroed-if true r z = z
IsZeroed-if false r z = tt

when_ready :
    {m : Mem} {b : Bool} {r : Page}
    → b ≡ true
    → Outcome m r
    → Outcome m (if b then r else not_ready)
when_ready {b = true} e o = o
when_ready {b = false} e o = cc

module _ (m : Mem) (v : IsMem m) (taken_map : MapIsTaken m) (zeroit : Bool) where
  -- The words once page `p` is handed out.
  abbrev words_after : ℕ → ℕ → ℕ → ℕ
  words_after c j =
      let words = put c (bit_and (m.words c) (2 ^ 32 - 1 - (1 << j))) m.words in
      if zeroit then zero_page (u32 (u32 (c * cell_bits + j) << 12)) words else words

  module _ (c j : ℕ) (fits : c < m.freemap_cells) (f : IsFirst m.words 0 c j) where
    digit_lt : j < 32
    digit_lt = f.digit

    number_lt : c * cell_bits + j < page_count m
    number_lt = omega (arith, digit_lt)

    was_set : page_bit m.words (c * cell_bits + j) ≡ 1
    was_set =
        let cell : (c * cell_bits + j) / cell_bits ≡ c = omega (arith, digit_lt) in
        let digit : (c * cell_bits + j) % cell_bits ≡ j = omega (arith, digit_lt) in
        rw (cell, digit) f.is_set

    none_before : (q : ℕ) → q < c * cell_bits + j → page_bit m.words q ≡ 0
    none_before q lt = elim (Bool-cases (q / cell_bits == c)) [
      | inl here ↦
          let same : q / cell_bits ≡ c = ground arith in
          rw same (f.digits_before (q % cell_bits) (omega arith))
      | inr away ↦
          f.cells_before (q / cell_bits) (q % cell_bits) (omega arith) (ground arith) (omega arith)
    ]

    offset_eq : u32 (u32 (c * cell_bits + j) << 12) ≡ (c * cell_bits + j) * 4096
    offset_eq = omega (arith, number_lt, v.span)

    kept :
        (q : ℕ)
        → q < page_count m
        → page_bit (words_after c j) q
          ≡ page_bit (put c (bit_and (m.words c) (2 ^ 32 - 1 - (1 << j))) m.words) q
    kept q lt = elim (Bool-cases zeroit) [
      | inl z ↦
          let first : m.freemap_cells ≤ (c * cell_bits + j) * 1024 =
            taken_map (c * cell_bits + j) was_set in
          let cell : q / cell_bits < m.freemap_cells = omega arith in
          let past : leb ((c * cell_bits + j) * 4096 / 4) (q / cell_bits) ≡ false = ground arith in
          rw (z, offset_eq, past) refl
      | inr k ↦ rw k refl
    ]

    beyond :
        (k : ℕ) → m.freemap_cells ≤ k → k / 1024 ≢ c * cell_bits + j → words_after c j k ≡ m.words k
    beyond k le away =
        let other : (k == c) ≡ false = ground (arith, fits) in
        elim (Bool-cases zeroit) [
          | inl z ↦
              let past : (leb ((c * cell_bits + j) * 4096 / 4) k
                    && ltb k ((c * cell_bits + j) * 4096 / 4 + page_size / 4))
                  ≡ false =
                ground (arith, away) in
              rw (z, offset_eq, past, other) refl
          | inr n ↦ rw (n, other) refl
        ]

    take_page-Taken : Outcome m (take_page zeroit m (some (c, j)))
    unfolding take_page
    take_page-Taken =
        let address : add32 (u32 (u32 (c * cell_bits + j) << 12)) alloc_memory_start
            ≡ page_addr (c * cell_bits + j) =
          omega (arith, offset_eq, v.span, number_lt) in
        rw address (
          taken (c * cell_bits + j) (record {
            inside = number_lt;
            was_free = was_set;
            lowest = none_before;
            cleared =
                kept (c * cell_bits + j) number_lt
                ∙ cleared_words m.words c j (c * cell_bits + j) f.digit
                ∙ ground arith;
            others = λ q ne lt. kept q lt ∙ cleared_words m.words c j q f.digit ∙ ground arith;
            count = refl;
            outside = beyond;
            same_cells = refl;
            same_ready = refl;
          }))

    -- A page that is cleared holds zeros.
    cleared_page :
        zeroit ≡ true → (k : ℕ) → k < 1024 → words_after c j ((c * cell_bits + j) * 1024 + k) ≡ 0
    cleared_page z k lt =
        let within : (leb ((c * cell_bits + j) * 4096 / 4) ((c * cell_bits + j) * 1024 + k)
              && ltb ((c * cell_bits + j) * 1024 + k)
                  ((c * cell_bits + j) * 4096 / 4 + page_size / 4))
            ≡ true =
          ground arith in
        rw (z, offset_eq, within) refl

  -- When the allocator is set up, every page of the bitmap lies below 2^32, and the bitmap's own pages
  -- are taken, `memory_alloc_page` hands out the lowest free page and takes only that one out of the
  -- set, cleared or not, or panics, when no page is free.
  pub alloc_page-Outcome : Outcome m (alloc_page zeroit m)
  unfolding alloc_page take_page
  alloc_page-Outcome = elim (Option-cases (find_page m.freemap_cells m.words 0)) [
    | inl miss ↦ when_ready v.ready (
        rw miss (
          exhausted λ q lt.
            find_page-none m.words m.freemap_cells 0 miss (q / cell_bits) (q % cell_bits)
              (omega arith) (omega arith) (omega arith)))
    | inr ((c, j), hit) ↦
        let (high, f) = find_page-some m.words m.freemap_cells 0 c j hit in
        when_ready v.ready (rw hit (take_page-Taken c j (omega arith) f))
  ]

  -- A page that is handed out cleared holds zeros.
  pub alloc_page-IsZeroed : zeroit ≡ true → IsZeroed (alloc_page zeroit m)
  unfolding alloc_page take_page IsZeroed
  alloc_page-IsZeroed z = elim (Option-cases (find_page m.freemap_cells m.words 0)) [
    | inl miss ↦ IsZeroed-if m.ready _ (rw miss tt)
    | inr ((c, j), hit) ↦
        let (high, f) = find_page-some m.words m.freemap_cells 0 c j hit in
        IsZeroed-if m.ready _ (
          rw hit (λ p e k lt.
            let number : p ≡ c * cell_bits + j =
              omega
                (arith, e, offset_eq c j (omega arith) f, v.span, number_lt c j (omega arith) f) in
            rw number (cleared_page c j (omega arith) f z k lt)))
  ]

-- `memory_free_page` of any byte of page `p` puts that page into the set of free pages and no other,
-- and counts it.
pub free_page_lem :
    (m : Mem) (p d : ℕ)
    → d < page_size
    → page_addr (p + 1) ≤ 2 ^ 32
    → ((q : ℕ)
        → page_bit (free_page (page_addr p + d) m).words q
          ≡ (if q == p then 1 else page_bit m.words q))
      × ((free_page (page_addr p + d) m).pages_free ≡ add32 m.pages_free 1)
unfolding free_page
free_page_lem m p d h span =
    let number : sub32 (page_addr p + d) alloc_memory_start >> 12 ≡ p = omega arith in
    (λ q. rw number (set_words m.words p q), refl)

-- The set of free pages and the counter are as they were in `m`.
pub record Restored (m m' : Mem) : Type 0 where
  pub pages : (q : ℕ) → q < page_count m → page_bit m'.words q ≡ page_bit m.words q
  pub count : m'.pages_free ≡ m.pages_free

-- What is to be shown of an allocation: freeing its page restores the memory.
TakenBack : Mem → Page → Type 0
TakenBack m (got addr m') = Restored m (free_page addr m')
TakenBack m panic = Unit
TakenBack m not_ready = Unit

Outcome-TakenBack :
    {r : Page} (m : Mem)
    → IsMem m
    → 0 < m.pages_free
    → m.pages_free < 2 ^ 32
    → Outcome m r
    → TakenBack m r
unfolding TakenBack
Outcome-TakenBack m v pos small (taken {m'} p t) =
    let (bits, count) : ((q : ℕ)
          → page_bit (free_page (page_addr p + 0) m').words q
            ≡ (if q == p then 1 else page_bit m'.words q))
        × ((free_page (page_addr p + 0) m').pages_free ≡ add32 m'.pages_free 1) =
      free_page_lem m' p 0 (omega arith) (omega (arith, t.inside, v.span)) in
    let restored : Restored m (free_page (page_addr p + 0) m') = record {
      pages = λ q lt. ground (arith, bits q, t.others q, t.was_free);
      count = count ∙ omega (arith, t.count);
    } in
    rw add-zero at restored
Outcome-TakenBack m v pos small (exhausted none_free) = tt

-- When the allocator is set up, every page of the bitmap lies below 2^32, the bitmap's own pages are
-- taken, and the counter of free pages is above 0 and below 2^32: freeing the page that
-- `memory_alloc_page` handed out brings back the set of free pages and the counter.
pub alloc_page-free_page :
    (m m' : Mem) (zeroit : Bool) (addr : ℕ)
    → IsMem m
    → MapIsTaken m
    → 0 < m.pages_free
    → m.pages_free < 2 ^ 32
    → alloc_page zeroit m ≡ got addr m'
    → Restored m (free_page addr m')
alloc_page-free_page m m' zeroit addr v taken_map pos small e =
    unfold TakenBack in
    subst (TakenBack m) e
      (Outcome-TakenBack m v pos small (alloc_page-Outcome m v taken_map zeroit))
