-- ===== src/Kernel/Mem/Map.antt =====
-- kernel/kernel/mem.c: `mem_check_avail`, which adds the lengths in the boot loader's memory map, and
-- the whole of `mem_init`. kernel/include/kernel/mem.h: the entries of the map, in a memory of bytes.
pub mod Sums
pub mod Tests
use hexos.Base.{
  ℕ, zero, suc, ◌+◌, ◌*◌, Bool, Option, none, some, if◌then◌else◌, ◌==◌, ltb, add32, u32,
}
use hexos.Kernel.Mem.{Mem, mem_init}

-- The number in the `n` bytes at an address, the low byte first.
unfoldable pub little : ℕ → ℕ → (ℕ → ℕ) → ℕ
little zero at bytes = 0
little (suc n) at bytes = bytes at + 256 * little n (at + 1) bytes

-- multiboot_memory_map_t, packed: size : 32, base_addr : 64, length : 64, type : 32.
abbrev pub entry_size : (ℕ → ℕ) → ℕ → ℕ
entry_size bytes mmap = little 4 mmap bytes

abbrev pub entry_length : (ℕ → ℕ) → ℕ → ℕ
entry_length bytes mmap = little 8 (mmap + 12) bytes

abbrev pub entry_type : (ℕ → ℕ) → ℕ → ℕ
entry_type bytes mmap = little 4 (mmap + 20) bytes

-- `usable_memory_size` and `total_memory_size`, 32 bits wide.
pub record Sizes : Type 0 where
  pub usable : ℕ
  pub total : ℕ

-- What a round of the loop adds.
abbrev pub count_entry : (ℕ → ℕ) → ℕ → Sizes → Sizes
count_entry bytes mmap s = record {
  usable =
      if entry_type bytes mmap == 1 then u32 (s.usable + entry_length bytes mmap) else s.usable;
  total = u32 (s.total + entry_length bytes mmap);
}

-- The loop, on fuel. The map is at `mmap`; `limit` is its end.
unfoldable pub walk_map : ℕ → (ℕ → ℕ) → ℕ → ℕ → Sizes → Option Sizes
walk_map zero bytes limit mmap s = none
walk_map (suc fuel) bytes limit mmap s =
    let rest =
      walk_map fuel bytes limit (add32 (add32 mmap (entry_size bytes mmap)) 4)
        (count_entry bytes mmap s) in
    if ltb mmap limit then rest else some s

unfoldable pub mem_check_avail : ℕ → (ℕ → ℕ) → ℕ → ℕ → Sizes → Option Sizes
mem_check_avail fuel bytes mmap_addr mmap_length s =
    walk_map fuel bytes (add32 mmap_addr mmap_length) mmap_addr s

-- `mem_init` of a kernel that has just started, in which both sizes are 0.
abbrev pub init_counted : Mem → Option Sizes → Option Mem
init_counted m none = none
init_counted m (some s) = some (mem_init s.usable m)

unfoldable pub mem_start : ℕ → (ℕ → ℕ) → ℕ → ℕ → Mem → Option Mem
mem_start fuel bytes mmap_addr mmap_length m =
    init_counted m
      (mem_check_avail fuel bytes mmap_addr mmap_length (record { usable = 0; total = 0 }))
