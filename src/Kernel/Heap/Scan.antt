-- ===== src/Kernel/Heap/Scan.antt =====
-- The search for free cells in a block: what it finds, and that it ends.
use hexos.Base.{
  ℕ, zero, suc, ◌+◌, ◌-◌, ◌^◌, ◌<◌, ◌≤◌, ◌≡◌, refl, ◌≢◌, ◌∙◌, Bool, true, false, ◌&&◌, arith, ◌==◌,
  ltb, leb, if◌then◌else◌, Bool-cases, inl, inr, u32, ◌⊎◌, ◌||◌, not,
}
use native.Mathlib.Nat.{add-zero}
use hexos.Kernel.Heap.{
  Block, cell_count, count_free, found, out_of_fuel, wrap, advance, search_from,
}

-- The cells from `x` on, `n` of them, are free and inside the block.
pub record IsFree (b : Block) (n x : ℕ) : Type 0 where
  pub inside : x + n ≤ cell_count b
  pub free : (i : ℕ) → i < n → b.bm (x + i) ≡ 0

-- The counting loop stops at this cell at the latest.
abbrev pub stops_at : Block → ℕ → Bool
stops_at b m = (b.bm m == 0) && ltb m (cell_count b)

pub count_free-ge : (n x y : ℕ) (b : Block) → y ≤ count_free n b x y
unfolding count_free
count_free-ge zero x y b = omega arith
count_free-ge (suc n) x y b = ground (arith, count_free-ge n x (y + 1) b)

pub count_free-le : (n x y : ℕ) (b : Block) → count_free n b x y ≤ y + n
unfolding count_free
count_free-le zero x y b = omega arith
count_free-le (suc n) x y b = ground (arith, count_free-le n x (y + 1) b)

-- Counting does not pass a used cell, nor the end of the block.
pub count_free-stop :
    (n x y m : ℕ) (b : Block) → stops_at b m ≡ false → x + y ≤ m → x + count_free n b x y ≤ m
unfolding count_free
count_free-stop zero x y m b h le = omega arith
count_free-stop (suc n) x y m b h le = elim (Bool-cases (stops_at b (x + y))) [
  | inl more ↦ rw more (count_free-stop n x (y + 1) m b h (ground arith))
  | inr done ↦ rw done (omega arith)
]

-- A full count means that all the cells are free.
pub count_free-all :
    (n x y : ℕ) (b : Block)
    → count_free n b x y ≡ y + n
    → (i : ℕ) → i < n
    → (b.bm (x + y + i) ≡ 0) × (x + y + i < cell_count b)
unfolding count_free
count_free-all zero x y b e i h = absurd (omega arith)
count_free-all (suc n) x y b e i h = elim (Bool-cases (stops_at b (x + y))) [
  | inl more ↦ at i h more (count_free-all n x (y + 1) b (rw more at e ∙ omega arith))
  | inr done ↦ absurd (stuck (rw done at e))
]
  where
    stuck : y ≡ y + suc n → ⊥
    stuck e' = omega arith

    Cell : ℕ → Type 0
    Cell c = (b.bm c ≡ 0) × (c < cell_count b)

    at :
        (i : ℕ)
        → i < suc n
        → stops_at b (x + y) ≡ true
        → ((j : ℕ) → j < n → Cell (x + (y + 1) + j))
        → Cell (x + y + i)
    at zero h more later = rw (add-zero (x + y)) (ground arith)
    at (suc j) h more later =
        let shift : x + y + suc j ≡ x + (y + 1) + j = omega arith in
        rw shift (later j (omega arith))

pub count_free-IsFree :
    (n x : ℕ) (b : Block) → x ≤ cell_count b → count_free n b x 0 ≡ n → IsFree b n x
count_free-IsFree zero x b h e = record {
  inside = omega arith;
  free = λ i lt. absurd (omega arith);
}
count_free-IsFree (suc n) x b h e =
    let all : (i : ℕ) → i < suc n → (b.bm (x + 0 + i) ≡ 0) × (x + 0 + i < cell_count b) =
      count_free-all (suc n) x 0 b (e ∙ omega arith) in
    record {
      inside = omega (arith, (all n (omega arith)).1);
      free = λ i lt. rw add-zero at (all i lt).0;
    }

-- What the search finds is a run of free cells.
pub search_from-found :
    (fuel n x z : ℕ) (b : Block)
    → search_from fuel b n x ≡ found z
    → (b.bm z ≡ 0) × (count_free n b z 0 ≡ n)
unfolding search_from
search_from-found zero n x z b e = cc
search_from-found (suc fuel) n x z b e =
    ground (arith, search_from-found fuel n (advance b n (wrap b x)) z b)

-- A count that is not full ended at a used cell or at the end of the block.
count_free-short :
    (n x y : ℕ) (b : Block)
    → count_free n b x y ≢ y + n
    → stops_at b (x + count_free n b x y) ≡ false
unfolding count_free
count_free-short zero x y b ne = absurd (ne (omega arith))
count_free-short (suc n) x y b ne = elim (Bool-cases (stops_at b (x + y))) [
  | inl more ↦ rw more (count_free-short n x (y + 1) b λ e. ne (rw more (e ∙ omega arith)))
  | inr done ↦ rw done done
]

-- A cell at which the search may be: it is used, or first, or behind a used one.
abbrev pub is_entry : Block → ℕ → Bool
is_entry b x = not (b.bm x == 0) || (x == 0) || not (b.bm (x - 1) == 0)

count_free-pos : (n x : ℕ) (b : Block) → n ≢ 0 → stops_at b x ≡ true → 0 < count_free n b x 0
unfolding count_free
count_free-pos zero x b ne more = absurd (ne refl)
count_free-pos (suc n) x b ne more = rw (add-zero, more) (count_free-ge n x 1 b)

-- How the search goes on from a cell `x` that does not serve: one cell on from a used one, or past a
-- run of free cells that is too short.
pub data Next (b : Block) (x y : ℕ) : Type 0 where
  walked : b.bm x ≢ 0 → y ≡ x + 1 → Next b x y
  skipped :
      x < y
      → y ≤ cell_count b
      → stops_at b y ≡ false
      → ((m : ℕ) → stops_at b m ≡ false → x ≤ m → y ≤ m)
      → Next b x y

abbrev pub serves : Block → ℕ → ℕ → Bool
serves b n x = (b.bm x == 0) && (count_free n b x 0 == n)

module _ (n : ℕ) (b : Block) (small : cell_count b < 2 ^ 32) where
  pub advance-Next : (x : ℕ) → x < cell_count b → serves b n x ≡ false → Next b x (advance b n x)
  unfolding advance
  advance-Next x h fails = elim (Bool-cases (b.bm x == 0)) [
    | inl free ↦
        let short : count_free n b x 0 ≢ 0 + n = ground arith in
        let more : stops_at b x ≡ true = ground arith in
        let moved : 0 < count_free n b x 0 = count_free-pos n x b (pos_count free) more in
        let fits : x + count_free n b x 0 ≤ cell_count b =
          count_free-stop n x 0 (cell_count b) b (ground arith) (omega arith) in
        let same : u32 (x + count_free n b x 0) ≡ x + count_free n b x 0 = omega arith in
        rw (free, same)
          (skipped (omega arith) fits (count_free-short n x 0 b short)
            λ m stop le. count_free-stop n x 0 m b stop (omega arith))
    | inr used ↦ rw used (walked (ground arith) (omega arith))
  ]
    where
      pos_count : (b.bm x == 0) ≡ true → n ≢ 0
      pos_count free z = ground (arith, count_free-le n x 0 b)

-- After a cell that does not serve the search is at an entry again.
Next-is_entry : {x y : ℕ} (b : Block) → Next b x y → is_entry b (wrap b y) ≡ true
Next-is_entry b (walked used e) = ground arith
Next-is_entry b (skipped lt le stop all) = ground arith

-- How far the search is from the cell at which it gives up.
abbrev pub distance : Block → ℕ → ℕ
distance b x = if leb x b.lfb then b.lfb - x else cell_count b - x + b.lfb + 1

Next-distance :
    {y : ℕ} (x : ℕ) (b : Block)
    → 0 < b.lfb
    → b.lfb < cell_count b
    → b.bm b.lfb ≢ 0
    → x ≤ cell_count b
    → x ≢ b.lfb
    → Next b (wrap b x) y
    → (distance b y < distance b x) × (y ≤ cell_count b)
Next-distance x b pl ll ul le ne (walked used e) = ground arith
Next-distance x b pl ll ul le ne (skipped lt le' stop all) = ground (arith, all b.lfb)

module _ (n : ℕ) (b : Block) (small : cell_count b < 2 ^ 32) (some_cell : 0 < cell_count b) where
  pub wrap-lt : (x : ℕ) → wrap b x < cell_count b
  wrap-lt x = ground arith

  -- A free run is found at the first cell or behind a used one.
  pub search_from-entry :
      (fuel x z : ℕ)
      → is_entry b (wrap b x) ≡ true
      → search_from fuel b n x ≡ found z
      → (z < cell_count b) × ((z ≡ 0) ⊎ (b.bm (z - 1) ≢ 0))
  unfolding search_from
  search_from-entry zero x z h e = cc
  search_from-entry (suc fuel) x z h e = elim (Bool-cases (serves b n (wrap b x))) [
    | inl hit ↦ ground (arith, wrap-lt x)
    | inr miss ↦
        let step : Next b (wrap b x) (advance b n (wrap b x)) =
          advance-Next n b small (wrap b x) (wrap-lt x) miss in
        search_from-entry fuel (advance b n (wrap b x)) z (Next-is_entry b step) (ground arith)
  ]

  -- While the cell at which the search gives up is used, the search ends.
  pub search_from-ends :
      (fuel x : ℕ)
      → 0 < b.lfb
      → b.lfb < cell_count b
      → b.bm b.lfb ≢ 0
      → x ≤ cell_count b
      → distance b x < fuel
      → search_from fuel b n x ≢ out_of_fuel
  unfolding search_from
  search_from-ends zero x pl ll ul le h = absurd (omega arith)
  search_from-ends (suc fuel) x pl ll ul le h = elim (Bool-cases (x == b.lfb)) [
    | inl end ↦ rw end (λ e. cc)
    | inr on ↦ elim (Bool-cases (serves b n (wrap b x))) [
      | inl hit ↦ rw (on, hit) (λ e. cc)
      | inr miss ↦
          let step : Next b (wrap b x) (advance b n (wrap b x)) =
            advance-Next n b small (wrap b x) (wrap-lt x) miss in
          let (nearer, inside) = Next-distance x b pl ll ul le (ground arith) step in
          rw (on, miss)
            (search_from-ends fuel (advance b n (wrap b x)) pl ll ul inside (omega arith))
    ]
  ]
