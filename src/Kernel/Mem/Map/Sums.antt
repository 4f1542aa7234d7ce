-- ===== src/Kernel/Mem/Map/Sums.antt =====
-- The sizes that `mem_check_avail` counts are the sums over the map's entries.
use hexos.Base.{
  ℕ, zero, suc, ◌+◌, ◌*◌, ◌/◌, ◌%◌, ◌^◌, ◌<◌, ◌≤◌, ◌≡◌, refl, ap, ◌∙◌, arith, true, false,
  Bool-cases, inl, inr, some, List, [], ◌∷◌, length, if◌then◌else◌, ◌==◌, ltb, add32, u32,
}
use hexos.Kernel.Mem.{Mem, mem_init}
use hexos.Kernel.Mem.Map.{
  entry_size, entry_length, entry_type, Sizes, count_entry, walk_map, mem_check_avail, mem_start,
  init_counted,
}

-- An entry of a map as the boot loader means it: its length and its type.
pub record Region : Type 0 where
  pub extent : ℕ
  pub kind : ℕ

-- The lengths of all regions, and of those of type 1.
abbrev pub total_of : List Region → ℕ
total_of [] = 0
total_of (r ∷ rs) = r.extent + total_of rs

abbrev pub usable_of : List Region → ℕ
usable_of [] = 0
usable_of (r ∷ rs) = if r.kind == 1 then r.extent + usable_of rs else usable_of rs

-- The bytes from `at` to `limit` are the entries of `rs`, each with its size in front.
unfoldable pub IsMap : (ℕ → ℕ) → ℕ → ℕ → List Region → Type 0
IsMap bytes limit at [] = at ≡ limit
IsMap bytes limit at (r ∷ rs) =
    (entry_length bytes at ≡ r.extent)
    × (entry_type bytes at ≡ r.kind)
    × (at + entry_size bytes at + 4 ≤ limit)
    × IsMap bytes limit (at + entry_size bytes at + 4) rs

walk_map-sums :
    (fuel : ℕ) (bytes : ℕ → ℕ) (limit at : ℕ) (rs : List Region) (s : Sizes)
    → limit < 2 ^ 32
    → IsMap bytes limit at rs
    → length rs < fuel
    → s.usable < 2 ^ 32
    → s.total < 2 ^ 32
    → walk_map fuel bytes limit at s
      ≡ some
          (record { usable = u32 (s.usable + usable_of rs); total = u32 (s.total + total_of rs) })
unfolding walk_map IsMap
walk_map-sums zero bytes limit at rs s small map enough u t = absurd (omega arith)
walk_map-sums (suc fuel) bytes limit at [] s small map enough u t =
    let over : ltb at limit ≡ false = ground (arith, map) in
    let no_more : u32 (s.usable + 0) ≡ s.usable = omega arith in
    let no_other : u32 (s.total + 0) ≡ s.total = omega arith in rw (over, no_more, no_other) refl
walk_map-sums (suc fuel) bytes limit at (r ∷ rs) s small (len, kind, inside, map) enough u t =
    let within : ltb at limit ≡ true = ground arith in
    let next : add32 (add32 at (entry_size bytes at)) 4 ≡ at + entry_size bytes at + 4 =
      omega arith in
    let rest =
      walk_map-sums fuel bytes limit (at + entry_size bytes at + 4) rs (count_entry bytes at s)
        small map (omega arith) (ground arith) (omega arith) in
    let total : u32 (u32 (s.total + r.extent) + total_of rs)
        ≡ u32 (s.total + (r.extent + total_of rs)) =
      omega arith in
    let usable : u32 (u32 (s.usable + r.extent) + usable_of rs)
        ≡ u32 (s.usable + (r.extent + usable_of rs)) =
      omega arith in
    elim (Bool-cases (r.kind == 1)) [
      | inl one ↦ rw (within, next, rest, kind, len, one, total, usable) refl
      | inr other ↦ rw (within, next, rest, kind, len, other, total) refl
    ]

-- On a memory map of fewer entries than the fuel that ends below 2^32, with `usable` bytes in the
-- entries of type 1, the count ends, and the allocator starts with `usable % 2^22 * 256` pages and a
-- bitmap for these, of which the first 32 are marked taken.
pub mem_start-pages :
    (fuel : ℕ) (bytes : ℕ → ℕ) (mmap_addr mmap_length : ℕ) (rs : List Region) (m : Mem)
    → mmap_addr + mmap_length < 2 ^ 32
    → IsMap bytes (mmap_addr + mmap_length) mmap_addr rs
    → length rs < fuel
    → (m' : Mem) × (mem_start fuel bytes mmap_addr mmap_length m ≡ some m')
      × (m'.pages_total ≡ usable_of rs % 2 ^ 22 * 256)
      × (m'.pages_free ≡ m'.pages_total)
      × (m'.freemap_cells ≡ 1 + m'.pages_total / 32)
      × (m'.words 0 ≡ 0)
unfolding mem_start mem_check_avail mem_init
mem_start-pages fuel bytes mmap_addr mmap_length rs m small map enough =
    let limit : add32 mmap_addr mmap_length ≡ mmap_addr + mmap_length = omega arith in
    let counted =
      walk_map-sums fuel bytes (mmap_addr + mmap_length) mmap_addr rs nothing_yet small map enough
        (omega arith) (omega arith) in
    (
      mem_init (u32 (0 + usable_of rs)) m,
      ap (λ l. init_counted m (walk_map fuel bytes l mmap_addr nothing_yet)) limit
          ∙ ap (init_counted m) counted,
      omega arith,
      refl,
      refl,
      refl,
    )
  where
    nothing_yet : Sizes
    nothing_yet = record { usable = 0; total = 0 }
