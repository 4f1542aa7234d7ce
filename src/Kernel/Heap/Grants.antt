-- ===== src/Kernel/Heap/Grants.antt =====
-- `kalloc`: on well-formed blocks it ends, and what it grants was free.
use hexos.Base.{
  within, ℕ, zero, suc, ◌+◌, ◌-◌, ◌*◌, ◌/◌, ◌^◌, ◌<◌, ◌≤◌, ◌≡◌, refl, ◌≢◌, ap, sym, ◌∙◌, true,
  false, arith, ◌==◌, ltb, if◌then◌else◌, Bool-cases, inl, inr, List, [], ◌∷◌, add32, sub32, u32,
  ◌⊎◌,
}
use Prim.Native.Nat.{min}
use native.Mathlib.Decide.{dec_lt}
use native.Mathlib.Nat.{
  div-le_self, div-mul-le_self, add-zero, le_trans, lt-div-mul-add, mul-le-mul_right,
}
use hexos.Kernel.Heap.{
  Bytes, Block, header, cells_for, cell_count, mark, fill, left_id, cell_addr, first_cell, has_room,
  settle, Search, found, missed, out_of_fuel, search_from, wrap, Alloc, got, panic, cons_block,
  alloc_blocks,
}
use hexos.Kernel.Heap.Cells.{fill_lem}
use hexos.Kernel.Heap.Ids.{IsFresh, get_nid-IsFresh}
use hexos.Kernel.Heap.Scan.{
  IsFree, count_free-IsFree, search_from-found, search_from-entry, search_from-ends, is_entry,
}

-- The cells below `n` that are in use.
unfoldable pub count_used : ℕ → Bytes → ℕ
count_used zero bm = 0
count_used (suc n) bm = (if bm n == 0 then 0 else 1) + count_used n bm

pub count_used-le : (n : ℕ) (bm : Bytes) → count_used n bm ≤ n
unfolding count_used
count_used-le zero bm = omega arith
count_used-le (suc n) bm = ground (arith, count_used-le n bm)

-- Marking `n` free cells from `x` on adds as many used cells.
pub count_used-mark :
    (m x n id : ℕ) (bm bm' : Bytes)
    → id ≢ 0
    → ((i : ℕ) → i < n → bm (x + i) ≡ 0)
    → ((i : ℕ) → bm' i ≡ (if within x n i then id else bm i))
    → count_used m bm' ≡ count_used m bm + min n (m - x)
unfolding count_used
count_used-mark zero x n id bm bm' ne free e = omega arith
count_used-mark (suc m) x n id bm bm' ne free e =
    ground (arith, count_used-mark m x n id bm bm' ne free e, e m, was_free)
  where
    place : x ≤ m → x + (m - x) ≡ m
    place le = omega arith

    was_free : within x n m ≡ true → bm m ≡ 0
    was_free h = ap bm (sym (place (ground arith))) ∙ free (m - x) (ground arith)

-- A block as the heap keeps it: its header and its first cells lie inside it, the search starts
-- behind a used cell, and `used` counts the cells that are in use.
pub record IsBlock (b : Block) : Type 0 where
  pub wide : 0 < b.bsize
  pub span : b.addr + header + b.size ≤ 2 ^ 32
  pub after_start : 0 < b.lfb
  pub lfb_inside : b.lfb < cell_count b
  pub lfb_used : b.bm b.lfb ≢ 0
  pub cell_0 : b.bm 0 ≢ 0
  pub cell_1 : b.bm 1 ≢ 0
  pub bytes : (i : ℕ) → b.bm i < 2 ^ 8
  pub counted : b.used ≡ count_used (cell_count b) b.bm

-- The block `b'` is `b` with `n` cells from `x` on, all free before, under an id that is neither
-- neighbour's; `p` is the address of cell `x`.
pub record Granted (b : Block) (n x p : ℕ) (b' : Block) : Type 0 where
  pub address : p ≡ b.addr + header + x * b.bsize
  pub was_free : IsFree b n x
  pub id : ℕ
  pub id_used : id ≢ 0
  pub ne_left : id ≢ b.bm (x - 1)
  pub ne_right : id ≢ b.bm (x + n)
  pub marked : (i : ℕ) → b'.bm i ≡ (if within x n i then id else b.bm i)
  pub counted : b'.used ≡ b.used + n
  pub same_addr : b'.addr ≡ b.addr
  pub same_size : b'.size ≡ b.size
  pub same_bsize : b'.bsize ≡ b.bsize
  pub valid : IsBlock b'

module _ (b : Block) (v : IsBlock b) where
  pub cells_small : (cell_count b < 2 ^ 32) × (cell_count b * b.bsize ≤ b.size)
  cells_small =
      let whole : cell_count b * b.bsize ≤ b.size = div-mul-le_self b.size b.bsize in
      (le_lt (div-le_self b.size b.bsize), whole)
    where
      le_lt : cell_count b ≤ b.size → cell_count b < 2 ^ 32
      le_lt h = omega arith

  first_cell-entry : (is_entry b (wrap b (first_cell b)) ≡ true) × (first_cell b ≤ cell_count b)
  first_cell-entry =
      let (small, _) = cells_small in
      let next : add32 b.lfb 1 ≡ b.lfb + 1 = omega arith in ground arith

  -- The search ends when it has fuel for two rounds over the block.
  search-ends :
      (fuel n : ℕ)
      → cell_count b + cell_count b + 1 < fuel
      → search_from fuel b n (first_cell b) ≢ out_of_fuel
  search-ends fuel n h =
      let (small, _) = cells_small in
      let (_, inside) = first_cell-entry in
      search_from-ends n b small (omega arith) fuel (first_cell b) v.after_start v.lfb_inside
        v.lfb_used inside (ground arith)

  mark-Granted :
      (n x id : ℕ)
      → 0 < n
      → IsFree b n x
      → (x ≡ 0) ⊎ (b.bm (x - 1) ≢ 0)
      → IsFresh (left_id b x) (b.bm (x + n)) id
      → Granted b n x (cell_addr b x) (mark b n x id)
  unfolding mark
  mark-Granted n x id pos free entry fresh = record {
    address = omega (arith, in_block, v.wide);
    was_free = free;
    id = id;
    id_used = fresh.used;
    ne_left = ground (arith, past);
    ne_right = fresh.ne_right;
    marked = λ i. fill_lem n x id b.bm i;
    counted = omega (arith, full);
    same_addr = refl;
    same_size = refl;
    same_bsize = refl;
    valid = record {
      wide = v.wide;
      span = v.span;
      after_start = omega (arith, past, last);
      lfb_inside = omega (arith, past, last);
      lfb_used = λ z. last_used (sym (fill_lem n x id b.bm (sub32 (x + n) 2)) ∙ z);
      cell_0 = λ z. v.cell_0 (ground (arith, fill_lem n x id b.bm 0));
      cell_1 = λ z. v.cell_1 (ground (arith, fill_lem n x id b.bm 1));
      bytes = λ i. ground (arith, fill_lem n x id b.bm i, v.bytes i);
      counted = omega (arith, full, exact);
    };
  }
    where
      past : 2 ≤ x
      past = ground (arith, free.free 0, add-zero x)

      small : cell_count b < 2 ^ 32
      small = cells_small.0

      in_block : (x + 1) * b.bsize ≤ b.size
      in_block =
          let next_inside : x + 1 ≤ cell_count b = omega arith in
          le_trans (mul-le-mul_right b.bsize next_inside) cells_small.1

      last : sub32 (x + n) 2 ≡ x + n - 2
      last = omega (arith, past, small)

      last_used : (if within x n (sub32 (x + n) 2) then id else b.bm (sub32 (x + n) 2)) ≡ 0 → ⊥
      last_used z = ground (arith, past, last, ap b.bm last)

      exact :
          count_used (cell_count b) (fill n x id b.bm)
          ≡ count_used (cell_count b) b.bm + min n (cell_count b - x)
      exact =
          count_used-mark (cell_count b) x n id b.bm (fill n x id b.bm) fresh.used free.free
            (fill_lem n x id b.bm)

      full : b.used + n ≤ cell_count b
      full = omega (arith, exact, count_used-le (cell_count b) (fill n x id b.bm))

-- What `kalloc` may do on the blocks `bs`: grant free cells of the first block that has enough of
-- them in a row, or find that none has.
pub data Outcome (size : ℕ) : List Block → Alloc → Type 0 where
  exhausted : Outcome size [] panic
  here :
      {b b' : Block} {bs : List Block} {p : ℕ} (n x : ℕ)
      → size ≤ n * b.bsize
      → Granted b n x p b'
      → Outcome size (b ∷ bs) (got p (b' ∷ bs))
  there :
      {b : Block} {bs : List Block} {r : Alloc}
      → Outcome size bs r
      → Outcome size (b ∷ bs) (cons_block b r)

-- Every block is well-formed, and the fuel covers two rounds over it.
abbrev pub AllBlocks : ℕ → List Block → Type 0
AllBlocks fuel [] = Unit
AllBlocks fuel (b ∷ bs) = IsBlock b × (cell_count b + cell_count b + 1 < fuel) × AllBlocks fuel bs

cells_for-enough :
    (size d : ℕ)
    → 0 < d
    → 0 < size
    → size < 2 ^ 32
    → (0 < cells_for size d) × (size ≤ cells_for size d * d)
cells_for-enough size d hd hs small =
    let below : size / d * d ≤ size = div-mul-le_self size d in
    let above : size < size / d * d + d = lt-div-mul-add hd in
    let exact : u32 (size / d * d) ≡ size / d * d = omega arith in
    elim (Bool-cases (ltb (size / d * d) size)) [
      | inl more ↦ rw (exact, more) (omega arith, omega arith)
      | inr even ↦ rw (exact, even) (positive even, ground arith)
    ]
  where
    positive : ltb (size / d * d) size ≡ false → 0 < size / d
    positive even = elim (dec_lt 0 (size / d)) [
      | yes p ↦ p
      | no p ↦
          let none : size / d ≡ 0 = omega arith in
          absurd (ground (arith, ap (λ (t : ℕ). t * d) none))
    ]

settle-Outcome :
    (fuel size : ℕ) (b : Block) (bs : List Block) {rest : Alloc}
    → IsBlock b
    → cell_count b + cell_count b + 1 < fuel
    → 0 < size
    → size < 2 ^ 32
    → Outcome size (b ∷ bs) rest
    → Outcome size (b ∷ bs) (
        settle b bs
          (cells_for size b.bsize)
          rest
          (search_from fuel b (cells_for size b.bsize) (first_cell b)))
unfolding settle
settle-Outcome fuel size b bs {rest} v h pos small o = go (search_from fuel b n (first_cell b)) refl
  where
    n : ℕ
    n = cells_for size b.bsize

    go :
        (r : Search)
        → search_from fuel b n (first_cell b) ≡ r
        → Outcome size (b ∷ bs) (settle b bs n rest r)
    go missed e = o
    go out_of_fuel e = absurd (search-ends b v fuel n h e)
    go (found x) e =
        let (small_b, _) = cells_small b v in
        let (enough, fits) = cells_for-enough size b.bsize v.wide pos small in
        let (start, _) = first_cell-entry b v in
        let (inside, entry) =
          search_from-entry n b small_b (omega arith) fuel (first_cell b) x start e in
        let (_, full) = search_from-found fuel n (first_cell b) x b e in
        let free : IsFree b n x = count_free-IsFree n x b (omega arith) full in
        let left_byte : left_id b x < 2 ^ 8 = ground (arith, v.bytes (x - 1)) in
        let (id, got_id, fresh) =
          get_nid-IsFresh (left_id b x) (b.bm (x + n)) left_byte (v.bytes (x + n)) in
        rw got_id (here n x fits (mark-Granted b v n x id enough free entry fresh))

-- On well-formed blocks, for a size that is not 0, `kalloc` always ends; it grants cells that were
-- free, in a row and enough for the size, and keeps the blocks well-formed, or it panics.
pub alloc_blocks-Outcome :
    (fuel size : ℕ) (bs : List Block)
    → AllBlocks fuel bs
    → 0 < size
    → size < 2 ^ 32
    → Outcome size bs (alloc_blocks fuel size bs)
unfolding alloc_blocks
alloc_blocks-Outcome fuel size [] v pos small = exhausted
alloc_blocks-Outcome fuel size (b ∷ bs) v pos small =
    let rest : Outcome size (b ∷ bs) (cons_block b (alloc_blocks fuel size bs)) =
      there (alloc_blocks-Outcome fuel size bs v.2 pos small) in
    elim (Bool-cases (has_room b size)) [
      | inl room ↦ rw room (settle-Outcome fuel size b bs v.0 v.1 pos small rest)
      | inr full ↦ rw full rest
    ]
