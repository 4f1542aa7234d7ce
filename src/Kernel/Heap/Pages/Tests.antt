-- ===== src/Kernel/Heap/Pages/Tests.antt =====
-- The main heap on a memory of 64 pages, of which the upper 32 are free.
use hexos.Base.{
  ℕ, zero, suc, ◌+◌, ◌-◌, ◌/◌, ◌%◌, ◌^◌, ◌<◌, ◌≤◌, ◌≡◌, refl, arith, true, [], ◌==◌, if◌then◌else◌,
}
use hexos.Base.Masks.{bit-ones}
use hexos.Kernel.Mem.{Mem}
use hexos.Kernel.Mem.Search.{page_bit}
use hexos.Kernel.Mem.Pages.{IsMem, MapIsTaken}
use hexos.Kernel.Mem.Paging.Rounds.{HasFree}
use hexos.Kernel.Heap.{Heap}
use hexos.Kernel.Heap.Pages.{main_heap_init}
use hexos.Kernel.Heap.Pages.Blocks.{IsBuilt, main_heap_init-IsBuilt}

abbrev upper_half : Mem
upper_half = record {
  ready = true;
  words = λ i. if i == 1 then 2 ^ 32 - 1 else 0;
  freemap_cells = 2;
  pages_free = 32;
  pages_total = 63;
}

abbrev no_blocks : Heap
no_blocks = record { used_blocks = 0; blocks = [] }

upper_half-IsMem : IsMem upper_half
upper_half-IsMem = record { ready = refl; span = omega arith }

upper_half-MapIsTaken : MapIsTaken upper_half
upper_half-MapIsTaken zero e = cc
upper_half-MapIsTaken (suc q) e = omega arith

upper_bit : (q : ℕ) → 32 ≤ q → q < 64 → page_bit upper_half.words q ≡ 1
upper_bit q low high =
    let cell : q / 32 ≡ 1 = omega arith in rw cell (bit-ones 32 (q % 32) (omega arith))

upper_half-HasFree : (n q : ℕ) → 32 ≤ q → q + n ≤ 64 → HasFree n q upper_half
unfolding HasFree
upper_half-HasFree zero q low high = tt
upper_half-HasFree (suc n) q low high = (
  q,
  omega arith,
  omega arith,
  upper_bit q low (omega arith),
  upper_half-HasFree n (q + 1) (omega arith) (omega arith),
)

main_heap_init-IsBuilt_example : IsBuilt 15 (main_heap_init upper_half no_blocks)
main_heap_init-IsBuilt_example =
    main_heap_init-IsBuilt upper_half no_blocks 32 upper_half-IsMem upper_half-MapIsTaken
      (upper_half-HasFree 15 32 (omega arith) (omega arith))
