-- ===== src/Kernel/Heap/Pages.antt =====
-- kernel/kernel/heap.c: `main_heap_init`, which makes a block of each of 15 pages of the allocator.
pub mod Blocks
pub mod Tests
use hexos.Base.{
  ℕ, zero, suc, ◌+◌, ◌-◌, ◌*◌, ◌/◌, ◌%◌, ◌^◌, false, ◌&&◌, List, [], ◌∷◌, if◌then◌else◌, leb, ltb,
  sub32,
}
use hexos.Kernel.Mem.{Mem, Page, not_ready, got, panic, alloc_page, alloc_memory_start, page_size}
use hexos.Kernel.Heap.{Block, Heap, Bytes, header, init, add_block}

-- The bytes behind the header of a block at an address, as the memory holds them.
abbrev pub page_bytes : ℕ → (ℕ → ℕ) → Bytes
page_bytes addr words i =
    words (sub32 addr alloc_memory_start / 4 + (header + i) / 4) / 256 ^ ((header + i) % 4) % 256

-- What `main_heap_init` comes to: the heap is built; no page was free; or the allocator was not set
-- up, and a block is put at address 0.
pub data Built : Type 0 where
  built : Mem → Heap → Built
  out_of_memory : Built
  at_null : Built

abbrev pub with_page : Page → (ℕ → Mem → Built) → Built
with_page not_ready next = at_null
with_page panic next = out_of_memory
with_page (got addr m) next = next addr m

-- The words that `kheap_add_block` writes: `next`, `size`, `used`, `bsize` and `lfb`, and four of the
-- ids in each word behind them.
abbrev pub block_word : Block → ℕ → ℕ → ℕ
block_word b next zero = next
block_word b next (suc zero) = b.size
block_word b next (suc (suc zero)) = b.used
block_word b next (suc (suc (suc zero))) = b.bsize
block_word b next (suc (suc (suc (suc zero)))) = b.lfb
block_word b next (suc (suc (suc (suc (suc k))))) =
    b.bm (4 * k) + 2 ^ 8 * b.bm (4 * k + 1) + 2 ^ 16 * b.bm (4 * k + 2) + 2 ^ 24 * b.bm (4 * k + 3)

-- The address that the list of blocks starts with.
abbrev pub fblock : List Block → ℕ
fblock [] = 0
fblock (b ∷ bs) = b.addr

-- The first block of a heap is written: its header, of five words, and the ids of its 256 cells.
abbrev pub write_block : List Block → Mem → Mem
write_block [] m = m
write_block (b ∷ bs) m =
    let start = sub32 b.addr alloc_memory_start / 4 in
    record m {
      words = λ k.
          if leb start k && ltb k (start + 69)
          then block_word b (fblock bs) (k - start)
          else m.words k;
    }

abbrev pub add_page : ℕ → Mem → Heap → Mem × Heap
add_page block m h =
    let h' = add_block block page_size 16 (page_bytes block m.words) h in
    (write_block h'.blocks m, h')

-- The loop, by the rounds left.
unfoldable pub add_pages : ℕ → Mem → Heap → Built
add_pages zero m h = built m h
add_pages (suc n) m h =
    with_page (alloc_page false m)
      (λ block m'. let (m'', h') = add_page block m' h in add_pages n m'' h')

unfoldable pub main_heap_init : Mem → Heap → Built
main_heap_init m h = add_pages 15 m (init h)
