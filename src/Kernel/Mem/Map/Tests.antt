-- ===== src/Kernel/Mem/Map/Tests.antt =====
-- A memory map of two entries: 640 KiB that are usable, and 384 KiB that are not.
use hexos.Base.{
  ℕ, ◌+◌, ◌*◌, ◌/◌, ◌%◌, ◌^◌, ◌≡◌, refl, arith, false, List, [], ◌∷◌, some, if◌then◌else◌, ◌==◌,
}
use hexos.Kernel.Mem.{Mem}
use hexos.Kernel.Mem.Map.{little, mem_start}
use hexos.Kernel.Mem.Map.Sums.{Region, usable_of, IsMap, mem_start-pages}

abbrev two_regions : List Region
two_regions = record { extent = 655360; kind = 1 } ∷ record { extent = 393216; kind = 2 } ∷ []

-- The map is at 100; its entries have 24 bytes, and so a size of 20.
abbrev map_bytes : ℕ → ℕ
map_bytes k =
    if k == 100
    then 20
    else if k == 114
    then 10
    else if k == 120
    then 1
    else if k == 124
    then 20
    else if k == 138
    then 6
    else if k == 144
    then 2
    else 0

abbrev untouched : Mem
untouched = record {
  ready = false;
  words = λ k. 1;
  freemap_cells = 0;
  pages_free = 0;
  pages_total = 0;
}

map_bytes-IsMap : IsMap map_bytes (100 + 48) 100 two_regions
unfolding IsMap little
map_bytes-IsMap = (refl, refl, omega arith, (refl, refl, omega arith, refl))

mem_start-pages_example :
    (m' : Mem) × (mem_start 3 map_bytes 100 48 untouched ≡ some m')
    × (m'.pages_total ≡ usable_of two_regions % 2 ^ 22 * 256)
    × (m'.pages_free ≡ m'.pages_total)
    × (m'.freemap_cells ≡ 1 + m'.pages_total / 32)
    × (m'.words 0 ≡ 0)
mem_start-pages_example =
    mem_start-pages 3 map_bytes 100 48 two_regions untouched (omega arith) map_bytes-IsMap
      (omega arith)
