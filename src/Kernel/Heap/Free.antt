-- ===== src/Kernel/Heap/Free.antt =====
-- `kfree` undoes `kalloc`: the cells and the counter are as before, and only `lfb` has moved.
use native.Mathlib.Nat.{mul-div_left, mul-le-mul_right, le_trans}
use hexos.Base.{
  within, ℕ, zero, suc, ◌+◌, ◌-◌, ◌*◌, ◌/◌, ◌^◌, ◌<◌, ◌≤◌, ◌≡◌, ◌≢◌, ap, sym, ◌∙◌, true, false,
  arith, List, [], ◌∷◌, some, sub32, u32, ◌⊎◌, fun_ext, Bool-cases, inl, inr, subst,
}
use hexos.Kernel.Heap.{
  Block, header, cell_count, fill, release, holds, free_in, free_blocks, Alloc, got, panic, hang,
  cons_block, alloc_blocks,
}
use hexos.Kernel.Heap.Cells.{fill_lem, release-run}
use hexos.Kernel.Heap.Grants.{
  IsBlock, Granted, Outcome, exhausted, here, there, AllBlocks, alloc_blocks-Outcome, cells_small,
  count_used-le,
}

module _ {b b' : Block} {n x p : ℕ} (v : IsBlock b) (g : Granted b n x p b') (pos : 0 < n) where
  open g use {id, address, was_free, marked, ne_right, same_addr, same_size, same_bsize, counted}

  cell_bound : (x + n) * b.bsize ≤ b.size
  cell_bound = le_trans (mul-le-mul_right b.bsize was_free.inside) (cells_small b v).1

  freed_cell : sub32 p (u32 (b'.addr + header)) / b'.bsize ≡ x
  freed_cell =
      let offset : sub32 p (u32 (b'.addr + header)) ≡ x * b.bsize =
        omega (arith, cell_bound, v.span, v.wide, address, same_addr) in
      rw (offset, same_bsize) (mul-div_left x v.wide)

  released :
      ((release (cell_count b' - x) (b'.bm x) x b'.bm).0 ≡ x + n)
      × ((release (cell_count b' - x) (b'.bm x) x b'.bm).1 ≡ b.bm)
  released =
      let (end, bytes) =
        release-run n (cell_count b' - x) (b'.bm x) x b'.bm (omega (arith, cells, was_free.inside))
          in_run stops in
      (end, fun_ext λ i. bytes i ∙ restored i)
    where
      cells : cell_count b' ≡ cell_count b
      cells = rw (same_size, same_bsize)

      in_run : (i : ℕ) → i < n → b'.bm (x + i) ≡ b'.bm x
      in_run i h = ground (arith, marked (x + i), marked x)

      stops : cell_count b' - x ≢ n → b'.bm (x + n) ≢ b'.bm x
      stops ne = ground (arith, marked (x + n), marked x)

      place : (i : ℕ) → x ≤ i → x + (i - x) ≡ i
      place i h = omega arith

      was_zero : (i : ℕ) → within x n i ≡ true → b.bm i ≡ 0
      was_zero i h = ap b.bm (sym (place i (ground arith))) ∙ was_free.free (i - x) (ground arith)

      restored : (i : ℕ) → fill n x 0 b'.bm i ≡ b.bm i
      restored i = elim (Bool-cases (within x n i)) [
        | inl h ↦ ground (arith, fill_lem n x 0 b'.bm i, was_zero i h)
        | inr h ↦ ground (arith, fill_lem n x 0 b'.bm i, marked i)
      ]

  -- The granted address lies in the block, and freeing it there restores the cells and the counter.
  pub free_in-Granted : free_in b' p ≡ record b { lfb = b'.lfb }
  unfolding free_in
  free_in-Granted =
      let exact : sub32 b'.used (x + n - x) ≡ b.used =
        omega (arith, counted, v.counted, count_used-le (cell_count b) b.bm, cells_small b v) in
      rw (freed_cell, released.0, released.1, exact)
        (ground (arith, same_addr, same_size, same_bsize))

-- The first bytes of the last cell lie in front of the end that `kfree` tests for.
abbrev pub StartsInside : Block → Type 0
StartsInside b = cell_count b * b.bsize + header < b.size + b.bsize

-- The two blocks have no byte in common.
abbrev pub Disjoint : Block → Block → Type 0
Disjoint b c = (b.addr + header + b.size ≤ c.addr) ⊎ (c.addr + header + c.size ≤ b.addr)

abbrev pub DisjointFrom : Block → List Block → Type 0
DisjointFrom b [] = Unit
DisjointFrom b (c ∷ bs) = Disjoint b c × DisjointFrom b bs

-- The blocks' cells start inside them, and no two blocks overlap.
abbrev pub LaidOut : List Block → Type 0
LaidOut [] = Unit
LaidOut (b ∷ bs) = StartsInside b × DisjointFrom b bs × LaidOut bs

-- The two lists of blocks differ at most in one block's `lfb`.
pub data Restored : List Block → List Block → Type 0 where
  moved : {b : Block} {bs : List Block} (l : ℕ) → Restored (b ∷ bs) (record b { lfb = l } ∷ bs)
  behind : {b : Block} {bs bs' : List Block} → Restored bs bs' → Restored (b ∷ bs) (b ∷ bs')

Granted-holds :
    {b b' : Block} {n x p : ℕ}
    → IsBlock b
    → StartsInside b
    → Granted b n x p b'
    → 0 < n
    → (holds b' p ≡ true) × (p < b.addr + header + b.size) × (b.addr + header ≤ p)
Granted-holds {b} {b'} {n} {x} {p} v s g pos =
    let below : (x + 1) * b.bsize ≤ cell_count b * b.bsize = mul-le-mul_right b.bsize next in
    let whole : cell_count b * b.bsize ≤ b.size = (cells_small b v).1 in
    (
      ground (arith, g.address, g.same_addr, g.same_size, v.span, v.wide),
      omega (arith, g.address, v.wide),
      omega (arith, g.address),
    )
  where
    next : x + 1 ≤ cell_count b
    next = omega (arith, g.was_free.inside)

-- What is to be shown of an allocation: its address is not in block `c`, and `kfree` takes it back.
Elsewhere : Block → Alloc → Type 0
Elsewhere c (got p bs) = holds c p ≡ false
Elsewhere c panic = Unit
Elsewhere c hang = Unit

TakenBack : List Block → Alloc → Type 0
TakenBack bs (got p bs') = (bs'' : List Block) × (free_blocks p bs' ≡ some bs'') × Restored bs bs''
TakenBack bs panic = Unit
TakenBack bs hang = Unit

Elsewhere-cons : (c b : Block) (r : Alloc) → Elsewhere c r → Elsewhere c (cons_block b r)
unfolding Elsewhere
Elsewhere-cons c b (got p bs) h = h
Elsewhere-cons c b panic h = h
Elsewhere-cons c b hang h = h

TakenBack-cons :
    (b : Block) (bs : List Block) (r : Alloc)
    → Elsewhere b r
    → TakenBack bs r
    → TakenBack (b ∷ bs) (cons_block b r)
unfolding Elsewhere TakenBack free_blocks
TakenBack-cons b bs (got p bs') h (bs'', e, r) = (b ∷ bs'', rw (h, e), behind r)
TakenBack-cons b bs panic h t = t
TakenBack-cons b bs hang h t = t

Granted-pos :
    {b b' : Block} {n x p size : ℕ} → 0 < size → size ≤ n * b.bsize → Granted b n x p b' → 0 < n
Granted-pos {n = zero} pos le g = absurd (omega arith)
Granted-pos {n = suc n} pos le g = omega arith

Outcome-Elsewhere :
    {size : ℕ} {bs : List Block} {r : Alloc} (fuel : ℕ) (c : Block)
    → 0 < size
    → IsBlock c
    → AllBlocks fuel bs
    → LaidOut bs
    → DisjointFrom c bs
    → Outcome size bs r
    → Elsewhere c r
unfolding Elsewhere
Outcome-Elsewhere fuel c pos vc v lay apart exhausted = tt
Outcome-Elsewhere fuel c pos vc v lay apart (here n x le g) =
    let (_, high, low) = Granted-holds v.0 lay.0 g (Granted-pos pos le g) in ground (arith, vc.span)
Outcome-Elsewhere fuel c pos vc v lay apart (there {b} {r} o) =
    Elsewhere-cons c b r (Outcome-Elsewhere fuel c pos vc v.2 lay.2 apart.1 o)

Outcome-TakenBack :
    {size : ℕ} {bs : List Block} {r : Alloc} (fuel : ℕ)
    → 0 < size
    → AllBlocks fuel bs
    → LaidOut bs
    → Outcome size bs r
    → TakenBack bs r
unfolding TakenBack free_blocks
Outcome-TakenBack fuel pos v lay exhausted = tt
Outcome-TakenBack fuel pos v lay (here {b} {b'} {bs} {p} n x le g) =
    let n_pos : 0 < n = Granted-pos pos le g in
    let (held, _, _) = Granted-holds v.0 lay.0 g n_pos in
    (record b { lfb = b'.lfb } ∷ bs, rw (held, free_in-Granted v.0 g n_pos), moved b'.lfb)
Outcome-TakenBack fuel pos v lay (there {b} {bs} {r} o) =
    TakenBack-cons b bs r (Outcome-Elsewhere fuel b pos v.0 v.2 lay.2 lay.1 o)
      (Outcome-TakenBack fuel pos v.2 lay.2 o)

-- On well-formed blocks that do not overlap, each with fuel for two rounds over its cells and with its
-- last cell beginning more than a header's 20 bytes before its end: when `kalloc` of at least one and
-- fewer than 2^32 bytes has returned an address, `kfree` of this address succeeds, and gives back the
-- blocks from before, except that one block's `lfb` may differ.
pub alloc-free :
    (fuel size p : ℕ) (bs : List Block) {bs' : List Block}
    → AllBlocks fuel bs
    → LaidOut bs
    → 0 < size
    → size < 2 ^ 32
    → alloc_blocks fuel size bs ≡ got p bs'
    → (bs'' : List Block) × (free_blocks p bs' ≡ some bs'') × Restored bs bs''
alloc-free fuel size p bs v lay pos small e =
    unfold TakenBack in
    subst (TakenBack bs) e
      (Outcome-TakenBack fuel pos v lay (alloc_blocks-Outcome fuel size bs v pos small))
