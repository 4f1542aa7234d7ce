-- ===== src/Kernel/Mem.antt =====
-- kernel/kernel/mem.c: the page allocator over the bitmap `freemap`. The bitmap stands in the memory
-- that is handed out, from ALLOC_MEMORY_START on, so the state keeps that memory as 32-bit words and
-- `freemap[i]` is word `i`.

pub mod Search
pub mod Pages
pub mod Paging
pub mod Map
pub mod Tests
use hexos.Base.{
  put, ℕ, zero, suc, ◌+◌, ◌-◌, ◌*◌, ◌/◌, ◌%◌, ◌^◌, Bool, true, false, ◌&&◌, Option, none, some,
  if◌then◌else◌, ◌==◌, ltb, leb, u32, add32, sub32, ◌<<◌, ◌>>◌, bit_and, bit_or,
}

abbrev pub page_size : ℕ
page_size = 4096

abbrev pub page_bits : ℕ
page_bits = 12

-- CELL_BITS: 8 * sizeof(*freemap)
abbrev pub cell_bits : ℕ
cell_bits = 32

abbrev pub alloc_memory_start : ℕ
alloc_memory_start = 1048576

-- `ready`: `freemap` is not null.
pub record Mem : Type 0 where
  pub ready : Bool
  pub words : ℕ → ℕ
  pub freemap_cells : ℕ
  pub pages_free : ℕ
  pub pages_total : ℕ

-- `mem_init`, behind the count of the usable memory in bytes.
unfoldable pub mem_init : ℕ → Mem → Mem
mem_init usable m =
    let total = u32 (usable * 1024) / (page_size / 1024) in
    record {
      ready = true;
      words = put 0 0 m.words;
      freemap_cells = 1 + total / cell_bits;
      pages_free = total;
      pages_total = total;
    }

-- The inner loop: the first digit of `cell` from `j` on that is set, by the rounds left.
unfoldable pub find_bit : ℕ → ℕ → ℕ → Option ℕ
find_bit zero cell j = none
find_bit (suc n) cell j =
    let rest = find_bit n cell (j + 1) in if bit_and cell (1 << j) == 0 then rest else some j

abbrev pub or_else : Option ℕ → ℕ → Option (ℕ × ℕ) → Option (ℕ × ℕ)
or_else none i rest = rest
or_else (some j) i rest = some (i, j)

-- The outer loop: the cell and the digit, by the rounds left.
unfoldable pub find_page : ℕ → (ℕ → ℕ) → ℕ → Option (ℕ × ℕ)
unfolding find_bit
find_page zero words i = none
find_page (suc n) words i =
    let rest = find_page n words (i + 1) in
    if words i == 0 then rest else or_else (find_bit cell_bits (words i) 0) i rest

-- `memset(pageaddr, 0, PAGE_SIZE)` on the words from the start of the memory on.
abbrev pub zero_page : ℕ → (ℕ → ℕ) → ℕ → ℕ
zero_page offset words =
    λ k. if leb (offset / 4) k && ltb k (offset / 4 + page_size / 4) then 0 else words k

pub data Page : Type 0 where
  not_ready : Page
  got : ℕ → Mem → Page
  panic : Page

-- `freemap[i] &= ~(1 << j);` and what follows.
unfoldable pub take_page : Bool → Mem → Option (ℕ × ℕ) → Page
take_page zeroit m none = panic
take_page zeroit m (some (i, j)) =
    let words = put i (bit_and (m.words i) (2 ^ 32 - 1 - (1 << j))) m.words in
    let offset = u32 (u32 (i * cell_bits + j) << page_bits) in
    got (add32 offset alloc_memory_start) (record m {
      words = if zeroit then zero_page offset words else words;
      pages_free = sub32 m.pages_free 1;
    })

unfoldable pub alloc_page : Bool → Mem → Page
unfolding find_page take_page
alloc_page zeroit m =
    if m.ready then take_page zeroit m (find_page m.freemap_cells m.words 0) else not_ready

unfoldable pub free_page : ℕ → Mem → Mem
free_page pageaddr m =
    let page = sub32 pageaddr alloc_memory_start >> page_bits in
    let cell = page / cell_bits in
    record m {
      words = put cell (bit_or (m.words cell) (1 << page % cell_bits)) m.words;
      pages_free = add32 m.pages_free 1;
    }
