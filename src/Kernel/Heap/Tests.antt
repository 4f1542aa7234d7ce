-- ===== src/Kernel/Heap/Tests.antt =====
-- The heap functions on a block of 15 cells of 16 bytes at 4096, two of them taken, and on one that
-- has a used cell after every free one.
use hexos.Base.{◌≡◌, refl, some, List, [], ◌∷◌, arith, ◌==◌, ltb, if◌then◌else◌}
use hexos.Kernel.Heap.{
  Block, fill, count_free, get_nid, search_from, alloc_blocks, settle, mark, hang, free_blocks,
}
use hexos.Kernel.Heap.Grants.{IsBlock, Outcome, count_used, alloc_blocks-Outcome}
use hexos.Kernel.Heap.Free.{Restored, alloc-free}
use hexos.Kernel.Heap.Hang.{IsStuck, alloc_blocks-hang}

abbrev small_block : Block
small_block = record {
  addr = 4096;
  size = 252;
  used = 2;
  bsize = 16;
  lfb = 1;
  bm = λ i. if ltb i 2 then 5 else 0;
}

small_block-IsBlock : IsBlock small_block
unfolding count_used
small_block-IsBlock = record {
  wide = omega arith;
  span = omega arith;
  after_start = omega arith;
  lfb_inside = omega arith;
  lfb_used = λ z. omega arith;
  cell_0 = λ z. omega arith;
  cell_1 = λ z. omega arith;
  bytes = λ i. ground arith;
  counted = refl;
}

alloc_blocks-Outcome_example : Outcome 40 (small_block ∷ []) (alloc_blocks 40 40 (small_block ∷ []))
alloc_blocks-Outcome_example =
    alloc_blocks-Outcome 40 40 (small_block ∷ []) (small_block-IsBlock, omega arith, tt)
      (omega arith) (omega arith)

alloc-free_example :
    (bs : List Block) × (free_blocks 4148
        (record small_block { bm = fill 3 2 6 small_block.bm; lfb = 3; used = 5 } ∷ [])
      ≡ some bs)
    × Restored (small_block ∷ []) bs
unfolding alloc_blocks settle search_from count_free get_nid mark
alloc-free_example =
    alloc-free 40 40 4148 (small_block ∷ []) (small_block-IsBlock, omega arith, tt)
      (omega arith, tt, tt) (omega arith) (omega arith) refl

-- Cells 2, 3 and 5 are free.
abbrev stuck_block : Block
stuck_block = record {
  addr = 4096;
  size = 96;
  used = 3;
  bsize = 16;
  lfb = 3;
  bm = λ i. if ltb i 2 then 5 else if i == 4 then 6 else 0;
}

stuck_block-IsStuck : IsStuck 3 stuck_block
unfolding count_free
stuck_block-IsStuck = record {
  small = omega arith;
  after_start = omega arith;
  inside = omega arith;
  lfb_free = refl;
  before_free = refl;
  no_run = λ z lt. ground arith;
}

alloc_blocks-hang_example : alloc_blocks 100 48 (stuck_block ∷ []) ≡ hang
alloc_blocks-hang_example = alloc_blocks-hang 100 48 stuck_block [] stuck_block-IsStuck refl
