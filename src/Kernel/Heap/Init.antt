-- ===== src/Kernel/Heap/Init.antt =====
-- `kheap_add_block` makes a well-formed block.
use Prim.Native.Nat.{min}
use hexos.Base.{
  within, ℕ, zero, suc, ◌+◌, ◌-◌, ◌/◌, ◌^◌, ◌<◌, ◌≤◌, ◌≡◌, refl, arith, if◌then◌else◌, ◌∷◌, sub32,
}
use native.Mathlib.Nat.{div-le_self, div-mul-le_self, le-div_iff_mul-le, le_trans}
use hexos.Kernel.Heap.{Bytes, Block, Heap, header, cells_for, fill, add_block}
use hexos.Kernel.Heap.Cells.{fill_lem}
use hexos.Kernel.Heap.Grants.{IsBlock, count_used, count_used-mark}

count_used-clear : (m : ℕ) (bm : Bytes) → ((i : ℕ) → i < m → bm i ≡ 0) → count_used m bm ≡ 0
unfolding count_used
count_used-clear zero bm h = refl
count_used-clear (suc m) bm h =
    ground (arith, h m (omega arith), count_used-clear m bm λ i lt. h i (omega arith))

module _ (addr size bsize bcnt taken : ℕ) (old : Bytes) (wide : 0 < bsize) (room : header ≤ size)
    (span : addr + size ≤ 2 ^ 32) (two : 2 ≤ taken) (whole : bcnt ≡ size / bsize)
    (fits : taken ≤ (size - header) / bsize) (bytes : (i : ℕ) → old i < 2 ^ 8) where
  new_ids_lem :
      (i : ℕ)
      → fill taken 0 5 (fill bcnt 0 0 old) i
        ≡ (if within 0 taken i then 5 else if within 0 bcnt i then 0 else old i)
  new_ids_lem i = ground (arith, fill_lem taken 0 5 (fill bcnt 0 0 old) i, fill_lem bcnt 0 0 old i)

  pub new_IsBlock : IsBlock (record {
    addr = addr;
    size = sub32 size header;
    used = taken;
    bsize = bsize;
    lfb = sub32 taken 1;
    bm = fill taken 0 5 (fill bcnt 0 0 old);
  })
  new_IsBlock = record {
    wide = wide;
    span = omega arith;
    after_start = omega (arith, taken_small);
    lfb_inside = rw size_eq (omega (arith, taken_small));
    lfb_used = λ z. ground (arith, new_ids_lem (sub32 taken 1), taken_small);
    cell_0 = λ z. ground (arith, new_ids_lem 0);
    cell_1 = λ z. ground (arith, new_ids_lem 1);
    bytes = λ i. ground (arith, new_ids_lem i, bytes i);
    counted = rw size_eq (omega (arith, exact, clear));
  }
    where
      size_eq : sub32 size header ≡ size - header
      size_eq = omega arith

      taken_small : taken < 2 ^ 32
      taken_small = omega (arith, div-le_self (size - header) bsize)

      fewer : (size - header) / bsize ≤ bcnt
      fewer = rw whole (
          (le-div_iff_mul-le wide).1
            (le_trans (div-mul-le_self (size - header) bsize) (omega arith)))

      clear : count_used ((size - header) / bsize) (fill bcnt 0 0 old) ≡ 0
      clear =
          count_used-clear ((size - header) / bsize) (fill bcnt 0 0 old)
            λ i lt. ground (arith, fill_lem bcnt 0 0 old i, fewer)

      exact :
          count_used ((size - header) / bsize) (fill taken 0 5 (fill bcnt 0 0 old))
          ≡ count_used ((size - header) / bsize) (fill bcnt 0 0 old)
            + min taken ((size - header) / bsize - 0)
      exact =
          count_used-mark ((size - header) / bsize) 0 taken 5 (fill bcnt 0 0 old)
            (fill taken 0 5 (fill bcnt 0 0 old)) (omega arith)
            (λ i lt. ground (arith, fill_lem bcnt 0 0 old (0 + i), fewer))
            (fill_lem taken 0 5 (fill bcnt 0 0 old))

-- `kheap_add_block` puts the memory in front as a well-formed block, if it has room for its header,
-- and the ids fill at least two cells and not all of them.
pub add_block-IsBlock :
    (addr size bsize : ℕ) (old : Bytes) (h : Heap)
    → 0 < bsize
    → header ≤ size
    → addr + size ≤ 2 ^ 32
    → 2 ≤ cells_for (size / bsize) bsize
    → cells_for (size / bsize) bsize ≤ (size - header) / bsize
    → ((i : ℕ) → old i < 2 ^ 8)
    → (b : Block) × ((add_block addr size bsize old h).blocks ≡ b ∷ h.blocks)
      × IsBlock b
      × (b.used ≡ cells_for (size / bsize) bsize)
unfolding add_block
add_block-IsBlock addr size bsize old h wide room span two fits bytes = (
  _,
  refl,
  new_IsBlock addr size bsize (size / bsize) (cells_for (size / bsize) bsize) old wide room span two
      refl fits bytes,
  refl,
)
