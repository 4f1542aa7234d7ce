-- ===== src/Kernel/Heap/Hang.antt =====
-- The search of `kalloc` when the cell at which it would give up is free.
use hexos.Base.{ℕ, zero, suc, ◌-◌, ◌^◌, ◌<◌, ◌≡◌, refl, ◌≢◌, true, false, arith, ◌==◌, List, ◌∷◌}
use hexos.Kernel.Heap.{
  Block, cell_count, cells_for, first_cell, has_room, settle, out_of_fuel, search_from, wrap,
  advance, hang, alloc_blocks,
}
use hexos.Kernel.Heap.Scan.{serves, Next, walked, skipped, advance-Next, wrap-lt}

-- `lfb` lies in a run of free cells, behind another one, and no cell starts a run of `n` free cells.
pub record IsStuck (n : ℕ) (b : Block) : Type 0 where
  pub small : cell_count b < 2 ^ 32
  pub after_start : 0 < b.lfb
  pub inside : b.lfb < cell_count b
  pub lfb_free : b.bm b.lfb ≡ 0
  pub before_free : b.bm (b.lfb - 1) ≡ 0
  pub no_run : (z : ℕ) → z < cell_count b → serves b n z ≡ false

Next-ne-lfb : {x y n : ℕ} (b : Block) → IsStuck n b → Next b x y → y ≢ b.lfb
Next-ne-lfb b k (walked used e) at = ground (arith, k.before_free)
Next-ne-lfb b k (skipped lt le stop all) at = ground (arith, k.lfb_free, k.inside)

search_from-out_of_fuel :
    (fuel n x : ℕ) (b : Block) → IsStuck n b → x ≢ b.lfb → search_from fuel b n x ≡ out_of_fuel
unfolding search_from
search_from-out_of_fuel zero n x b k ne = refl
search_from-out_of_fuel (suc fuel) n x b k ne =
    let some_cell : 0 < cell_count b = omega (arith, k.inside) in
    let inside : wrap b x < cell_count b = wrap-lt n b k.small some_cell x in
    let miss : serves b n (wrap b x) ≡ false = k.no_run (wrap b x) inside in
    let on : (x == b.lfb) ≡ false = ground arith in
    rw (on, miss)
      (search_from-out_of_fuel fuel n (advance b n (wrap b x)) b k
        (Next-ne-lfb b k (advance-Next n b k.small (wrap b x) inside miss)))

-- When the first block has room by its counters but no long enough run of free cells, and its `lfb`
-- stands in a run of free cells behind another free one, `kalloc` does not end, for any fuel: it
-- neither tries the other blocks nor panics.
pub alloc_blocks-hang :
    (fuel size : ℕ) (b : Block) (bs : List Block)
    → IsStuck (cells_for size b.bsize) b
    → has_room b size ≡ true
    → alloc_blocks fuel size (b ∷ bs) ≡ hang
unfolding alloc_blocks settle
alloc_blocks-hang fuel size b bs k room =
    let start : first_cell b ≢ b.lfb = ground (arith, k.inside, k.small, k.after_start) in
    rw (room, search_from-out_of_fuel fuel (cells_for size b.bsize) (first_cell b) b k start)
