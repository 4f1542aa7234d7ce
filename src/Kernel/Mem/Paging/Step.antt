-- ===== src/Kernel/Mem/Paging/Step.antt =====
-- One round of the outer loop of `paging_init`: a table is allocated, filled and linked.
use hexos.Base.{
  put, ℕ, ◌+◌, ◌*◌, ◌/◌, ◌%◌, ◌^◌, ◌<◌, ◌≤◌, ◌≡◌, ◌≢◌, refl, sym, ap, ◌∙◌, arith, ◌==◌, false,
  Bool-cases, inl, inr, ◌>>◌, ltb,
}
use hexos.Kernel.Mem.{Mem, cell_bits}
use hexos.Base.Bits.{bit}
use hexos.Kernel.Mem.Search.{page_bit}
use hexos.Kernel.Mem.Pages.{page_addr, page_count, IsMem, MapIsTaken, Taken}
use hexos.Kernel.Mem.Paging.{fill_table, word_at, open_entry, link_table}
use hexos.Kernel.Mem.Paging.Fill.{entry_of, word_at-page, fill_table-Filled}

-- Page `p` is in use and is not a page of the bitmap.
pub record Owned (m : Mem) (p : ℕ) : Type 0 where
  pub inside : p < page_count m
  pub used : page_bit m.words p ≡ 0
  pub behind : m.freemap_cells ≤ p * 1024

-- The frame of page `p`.
abbrev pub frame_of : ℕ → ℕ
frame_of p = 256 + p

-- Table `p` was allocated for entry `d` of the directory in page `dir`.
pub record Linked (m : Mem) (dir d p : ℕ) (m' : Mem) : Type 0 where
  pub inside : p < page_count m
  pub was_free : page_bit m.words p ≡ 1
  pub lowest : (q : ℕ) → q < p → page_bit m.words q ≡ 0
  pub cleared : page_bit m'.words p ≡ 0
  pub bits : (q : ℕ) → q < page_count m → q ≢ p → page_bit m'.words q ≡ page_bit m.words q
  pub entry : m'.words (dir * 1024 + d) ≡ entry_of (frame_of p)
  pub table : (i : ℕ) → i < 1024 → m'.words (p * 1024 + i) ≡ entry_of (1024 * d + i)
  pub others :
      (k : ℕ) → m.freemap_cells ≤ k → k ≢ dir * 1024 + d → k / 1024 ≢ p → m'.words k ≡ m.words k
  pub same_cells : m'.freemap_cells ≡ m.freemap_cells
  pub same_ready : m'.ready ≡ m.ready

-- A word behind the bitmap is no page's bit.
page_bit-put :
    (m : Mem) (k v q : ℕ)
    → m.freemap_cells ≤ k
    → q < page_count m
    → page_bit (put k v m.words) q ≡ page_bit m.words q
page_bit-put m k v q le lt = let other : (q / 32 == k) ≡ false = ground arith in rw other refl

-- The bitmap's pages stay taken while no page becomes free.
pub MapIsTaken-kept :
    (m m' : Mem)
    → m'.freemap_cells ≡ m.freemap_cells
    → ((q : ℕ) → q < page_count m → page_bit m'.words q ≡ 1 → page_bit m.words q ≡ 1)
    → MapIsTaken m
    → MapIsTaken m'
MapIsTaken-kept m m' same bits t q one = elim (Bool-cases (ltb q (page_count m))) [
  | inl inside ↦ rw same (t q (bits q (ground arith) one))
  | inr outside ↦ rw same (ground arith)
]

module _ (m : Mem) (v : IsMem m) (dir d : ℕ) (own : Owned m dir) (small : d < 1024) where
  -- The entry's word, and the memory once two of its fields are set.
  abbrev spot : ℕ
  spot = dir * 1024 + d

  abbrev opened : Mem
  opened = open_entry (page_addr dir) d m

  spot-word : word_at (page_addr dir + 4 * d) ≡ spot
  spot-word = word_at-page dir d small (omega (arith, own.inside, v.span))

  spot-behind : m.freemap_cells ≤ spot
  spot-behind = omega (arith, own.behind)

  pub opened-bits : (q : ℕ) → q < page_count m → page_bit opened.words q ≡ page_bit m.words q
  opened-bits q lt = rw spot-word (page_bit-put m spot _ q spot-behind lt)

  module _ (p : ℕ) (m' : Mem) (taken_page : Taken opened p m')
      (zeros : (k : ℕ) → k < 1024 → m'.words (p * 1024 + k) ≡ 0)
      (behind : m.freemap_cells ≤ p * 1024) (unset : m.words spot ≡ 0) where
    p-inside : p < page_count m
    p-inside = taken_page.inside

    p-free : page_bit m.words p ≡ 1
    p-free = sym (opened-bits p p-inside) ∙ taken_page.was_free

    p-other : dir ≢ p
    p-other e = ground (arith, p-free, own.used)

    abbrev pub linked : Mem
    linked = link_table (page_addr dir) d (page_addr p) m'

    span : page_addr (p + 1) ≤ 2 ^ 32
    span = omega (arith, p-inside, v.span)

    filled : ℕ → ℕ
    filled = fill_table 1024 (page_addr p) d 0 m'.words

    filled-page : (i : ℕ) → i < 1024 → filled (p * 1024 + i) ≡ entry_of (1024 * d + i)
    unfolding filled
    filled-page i lt =
        let (set_here, _) =
          fill_table-Filled 1024 0 p d m'.words span (omega arith) small (λ k le. zeros k) in
        set_here i (omega arith) (omega arith)

    filled-others : (k : ℕ) → k / 1024 ≢ p → filled k ≡ m'.words k
    unfolding filled
    filled-others k away =
        let (_, kept) =
          fill_table-Filled 1024 0 p d m'.words span (omega arith) small (λ k' le. zeros k') in
        kept k (λ i le lt e. away (omega arith))

    filled-spot : filled spot ≡ 3
    filled-spot =
        let other : spot / 1024 ≢ p = λ e. p-other (omega arith) in
        filled-others spot other
        ∙ taken_page.outside spot spot-behind other
        ∙ rw (spot-word, unset) (ground arith)

    linked-spot : linked.words spot ≡ entry_of (frame_of p)
    unfolding filled
    linked-spot =
        let frame : (page_addr p >> 12) % 2 ^ 20 ≡ frame_of p = omega (arith, span) in
        rw (spot-word, filled-spot, frame) (ground arith)

    linked-others : (k : ℕ) → k ≢ spot → linked.words k ≡ filled k
    unfolding filled
    linked-others k away =
        let other : (k == spot) ≡ false = ground arith in rw (spot-word, other) refl

    linked-bits : (q : ℕ) → q < page_count m → page_bit linked.words q ≡ page_bit m'.words q
    linked-bits q lt =
        ap (λ w. bit w (q % cell_bits))
          (linked-others (q / cell_bits) (λ e. omega (arith, spot-behind))
            ∙ filled-others (q / cell_bits) (λ e. omega (arith, behind)))

    pub linked-Linked : Linked m dir d p linked
    unfolding filled
    linked-Linked = record {
      inside = p-inside;
      was_free = p-free;
      lowest = λ q lt. sym (opened-bits q (omega (arith, p-inside))) ∙ taken_page.lowest q lt;
      cleared = linked-bits p p-inside ∙ taken_page.cleared;
      bits = λ q lt away. linked-bits q lt ∙ taken_page.others q away lt ∙ opened-bits q lt;
      entry = linked-spot;
      table = λ i lt. linked-others (p * 1024 + i) (λ e. p-other (omega arith)) ∙ filled-page i lt;
      others = λ k le away other_page.
          let other : (k == spot) ≡ false = ground arith in
          linked-others k away
          ∙ filled-others k other_page
          ∙ taken_page.outside k le other_page
          ∙ rw (spot-word, other) refl;
      same_cells = taken_page.same_cells;
      same_ready = taken_page.same_ready;
    }
