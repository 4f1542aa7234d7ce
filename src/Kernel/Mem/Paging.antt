-- ===== src/Kernel/Mem/Paging.antt =====
-- kernel/kernel/mem.c: `paging_init`, which maps the first 12 MB of addresses to themselves, over the
-- words of the page allocator. kernel/include/kernel/mem.h: the fields of the entries.
pub mod Fill
pub mod Step
pub mod Rounds
pub mod Identity
pub mod Tests
use hexos.Base.{
  put, ℕ, zero, suc, ◌+◌, ◌*◌, ◌/◌, ◌%◌, ◌^◌, Bool, true, Option, none, some, ◌==◌, if◌then◌else◌,
  u32, sub32, ◌>>◌,
}
use hexos.Kernel.Mem.{Mem, Page, not_ready, got, panic, alloc_page, alloc_memory_start}

-- The number of the word at an address of the memory that is handed out.
abbrev pub word_at : ℕ → ℕ
word_at addr = sub32 addr alloc_memory_start / 4

-- The fields of an entry that are set, in the order of the bits: present : 1, read_write : 1, and
-- address : 20 from bit 12 on.
abbrev pub set_present : ℕ → ℕ
set_present entry = entry / 2 * 2 + 1

abbrev pub set_read_write : ℕ → ℕ
set_read_write entry = entry / 4 * 4 + 2 + entry % 2

abbrev pub set_address : ℕ → ℕ → ℕ
set_address address entry = address % 2 ^ 20 * 2 ^ 12 + entry % 2 ^ 12

-- An assignment through a pointer to an entry: `change` is what it does to the word.
abbrev pub update : ℕ → (ℕ → ℕ) → (ℕ → ℕ) → ℕ → ℕ
update addr change words = put (word_at addr) (change (words (word_at addr))) words

-- The inner loop from `table_i` on, by the rounds left.
unfoldable pub fill_table : ℕ → ℕ → ℕ → ℕ → (ℕ → ℕ) → ℕ → ℕ
fill_table zero pagetable dir_i table_i words = words
fill_table (suc n) pagetable dir_i table_i words = fill_table n pagetable dir_i (table_i + 1) (
    update (pagetable + 4 * table_i)
      (λ e.
        set_address (u32 (4194304 * dir_i + 4096 * table_i) >> 12) (set_read_write (set_present e)))
      words)

-- What `paging_init` comes to: paging is on, with the page directory at an address; no page was free;
-- or the allocator was not set up, and the pages are written from address 0 on.
pub data Paging : Type 0 where
  enabled : ℕ → Mem → Paging
  out_of_memory : Paging
  at_null : Paging

abbrev pub with_page : Page → (ℕ → Mem → Paging) → Paging
with_page not_ready next = at_null
with_page panic next = out_of_memory
with_page (got addr m) next = next addr m

-- Once the table of entry `dir_i` is allocated: it is filled, and the entry points to it.
abbrev pub link_table : ℕ → ℕ → ℕ → Mem → Mem
link_table pagedir dir_i pagetable m = record m {
  words =
      update (pagedir + 4 * dir_i) (set_address (pagetable >> 12))
        (fill_table 1024 pagetable dir_i 0 m.words);
}

-- The two fields of the directory's entry that are set before its table is allocated.
abbrev pub open_entry : ℕ → ℕ → Mem → Mem
open_entry pagedir dir_i m = record m {
  words = update (pagedir + 4 * dir_i) (λ e. set_read_write (set_present e)) m.words;
}

-- The outer loop from `dir_i` on, by the rounds left.
unfoldable pub fill_directory : ℕ → ℕ → ℕ → Mem → Paging
fill_directory zero pagedir dir_i m = enabled pagedir m
fill_directory (suc n) pagedir dir_i m =
    with_page (alloc_page true (open_entry pagedir dir_i m))
      (λ pagetable m'. fill_directory n pagedir (dir_i + 1) (link_table pagedir dir_i pagetable m'))

unfoldable pub paging_init : Mem → Paging
paging_init m = with_page (alloc_page true m) (λ pagedir m'. fill_directory 3 pagedir 0 m')
