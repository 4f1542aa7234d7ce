-- ===== src/Kernel/Mem/Paging/Identity.antt =====
-- What `paging_init` comes to: the first 12 MB stand for themselves.
use hexos.Base.{
  ℕ, zero, suc, ◌+◌, ◌*◌, ◌/◌, ◌%◌, ◌^◌, ◌<◌, ◌≤◌, ◌≡◌, refl, sym, ap, ◌∙◌, arith, ◌==◌, true,
  false, Bool-cases, inl, inr, ltb, Option, none, some, if◌then◌else◌,
}
use hexos.Kernel.Mem.{Mem, Page, got, panic, not_ready, alloc_page}
use hexos.Kernel.Mem.Pages.{
  page_addr, page_count, IsMem, MapIsTaken, Taken, Outcome, taken, exhausted, IsZeroed,
  alloc_page-Outcome, alloc_page-IsZeroed,
}
use hexos.Kernel.Mem.Paging.{
  Paging, enabled, word_at, open_entry, link_table, with_page, fill_directory, paging_init,
}
use hexos.Kernel.Mem.Paging.Fill.{entry_of, word_at-page}
use hexos.Kernel.Mem.Paging.Step.{frame_of, MapIsTaken-kept, linked-Linked, opened-bits}
use hexos.Kernel.Mem.Paging.Rounds.{HasFree, IsMapped, HasFree-less, IsMapped-next}

-- The i386's translation of an address, with the page directory at `dir`: the directory is read at the
-- address's top ten bits, the table at the next ten. Bit 0 of an entry is set when it is present.
abbrev pub translate : ℕ → (ℕ → ℕ) → ℕ → Option ℕ
translate dir words v =
    let dir_entry = words (word_at (dir + 4 * (v / 4194304))) in
    let table_entry = words (word_at (dir_entry / 4096 * 4096 + 4 * (v / 4096 % 1024))) in
    if dir_entry % 2 == 0
    then none
    else if table_entry % 2 == 0
    then none
    else some (table_entry / 4096 * 4096 + v % 4096)

-- Paging is on, addresses below 12 MB are translated to themselves, and all others fault.
abbrev pub IsIdentity : Paging → Type 0
IsIdentity o =
    (dir : ℕ) × (m : Mem) × (o ≡ enabled dir m)
    × ((v : ℕ) → v < 2 ^ 32 → translate dir m.words v ≡ (if ltb v 12582912 then some v else none))

IsMapped-translate :
    (m : Mem) (p v : ℕ)
    → IsMapped m p 3
    → v < 2 ^ 32
    → translate (page_addr p) m.words v ≡ (if ltb v 12582912 then some v else none)
IsMapped-translate m p v s small =
    let spot : word_at (page_addr p + 4 * (v / 4194304)) ≡ p * 1024 + v / 4194304 =
      word_at-page p (v / 4194304) (omega arith) (omega (arith, s.own.inside, s.mem.span)) in
    elim (Bool-cases (ltb v 12582912)) [
      | inl low ↦
          let t = s.tables (v / 4194304) (ground arith) in
          let frame : entry_of (frame_of t.page) / 4096 * 4096 ≡ page_addr t.page = omega arith in
          let present : (entry_of (frame_of t.page) % 2 == 0) ≡ false = ground arith in
          let there : word_at (page_addr t.page + 4 * (v / 4096 % 1024))
              ≡ t.page * 1024 + v / 4096 % 1024 =
            word_at-page t.page (v / 4096 % 1024) (omega arith)
              (omega (arith, t.own.inside, s.mem.span)) in
          let set : (entry_of (1024 * (v / 4194304) + v / 4096 % 1024) % 2 == 0) ≡ false =
            ground arith in
          let same : entry_of (1024 * (v / 4194304) + v / 4096 % 1024) / 4096 * 4096 + v % 4096
              ≡ v =
            omega arith in
          rw
            (
              spot,
              t.entry,
              frame,
              present,
              there,
              t.entries (v / 4096 % 1024) (omega arith),
              set,
              same,
              low,
            )
            refl
      | inr high ↦ rw (spot, s.unset (v / 4194304) (ground arith) (omega arith), high) refl
    ]

module _ (m : Mem) (dir d n low : ℕ) (s : IsMapped m dir d) (small : d < 1024)
    (free : HasFree (suc n) low m) where
  opened-MapIsTaken : MapIsTaken (open_entry (page_addr dir) d m)
  opened-MapIsTaken =
      MapIsTaken-kept m (open_entry (page_addr dir) d m) refl
        (λ q lt one. sym (opened-bits m s.mem dir d s.own small q lt) ∙ one) s.map

  -- A round goes on with the entry set and a page less that is free.
  round :
      (next : ℕ → Mem → Paging)
      → ((p : ℕ) (m' : Mem) (low' : ℕ)
          → IsMapped (link_table (page_addr dir) d (page_addr p) m') dir (d + 1)
          → HasFree n low' (link_table (page_addr dir) d (page_addr p) m')
          → IsIdentity (next (page_addr p) m'))
      → (r : Page) → Outcome (open_entry (page_addr dir) d m) r
      → IsZeroed r
      → IsIdentity (with_page r next)
  unfolding HasFree IsZeroed
  round next go (got addr m') (taken p t) z =
      let behind : m.freemap_cells ≤ p * 1024 = opened-MapIsTaken p t.was_free in
      let l =
        linked-Linked m s.mem dir d s.own small p m' t (z p refl) behind
          (s.unset d (omega arith) small) in
      let (low', rest) = HasFree-less m _ p l.same_cells l.bits l.lowest n low free in
      go p m' low' (IsMapped-next m _ dir d p l behind s small) rest
  round next go panic (exhausted gone) z =
      let (q, le, lt, one, rest) = free in
      absurd (ground (arith, gone q lt, opened-bits m s.mem dir d s.own small q lt))
  round next go not_ready o z = elim o [ ]

-- From a directory with `d` entries on, the loop sets the others.
fill_directory-IsIdentity :
    (n d low : ℕ) (m : Mem) (dir : ℕ)
    → IsMapped m dir d
    → d + n ≡ 3
    → HasFree n low m
    → IsIdentity (fill_directory n (page_addr dir) d m)
unfolding fill_directory
fill_directory-IsIdentity zero d low m dir s count free =
    let all : d ≡ 3 = omega arith in
    (page_addr dir, m, refl, λ v small. IsMapped-translate m dir v (rw all at s) small)
fill_directory-IsIdentity (suc n) d low m dir s count free =
    let small : d < 1024 = omega arith in
    let opened = open_entry (page_addr dir) d m in
    let v : IsMem opened = record { ready = s.mem.ready; span = s.mem.span } in
    let t = opened-MapIsTaken m dir d n low s small free in
    round m dir d n low s small free
      (λ pagetable m'.
        fill_directory n (page_addr dir) (d + 1) (link_table (page_addr dir) d pagetable m'))
      (λ p m' low' s' free'.
        fill_directory-IsIdentity n (d + 1) low' (link_table (page_addr dir) d (page_addr p) m') dir
          s' (omega arith) free')
      (alloc_page true opened) (alloc_page-Outcome opened v t true)
      (alloc_page-IsZeroed opened v t true refl)

-- A directory that was just allocated.
Taken-IsMapped :
    (m : Mem) (p : ℕ) (m' : Mem)
    → IsMem m
    → MapIsTaken m
    → Taken m p m'
    → ((k : ℕ) → k < 1024 → m'.words (p * 1024 + k) ≡ 0)
    → IsMapped m' p 0
Taken-IsMapped m p m' v t taken_page zeros =
    let count : page_count m' ≡ page_count m = ap (λ c. c * 32) taken_page.same_cells in
    record {
      mem = record { ready = taken_page.same_ready ∙ v.ready; span = rw count v.span };
      map =
          MapIsTaken-kept m m' taken_page.same_cells
            (λ q lt one. elim (Bool-cases (q == p)) [
              | inl here ↦ let same : q ≡ p = ground arith in rw same taken_page.was_free
              | inr away ↦ sym (taken_page.others q (ground arith) lt) ∙ one
            ])
            t;
      own = record {
        inside = rw count taken_page.inside;
        used = taken_page.cleared;
        behind = rw taken_page.same_cells (t p taken_page.was_free);
      };
      tables = λ i lt. absurd (omega arith);
      unset = λ i le lt. zeros i lt;
    }

-- What follows the allocation of the directory.
start :
    (low : ℕ) (m : Mem) (next : ℕ → Mem → Paging)
    → IsMem m
    → MapIsTaken m
    → HasFree 4 low m
    → ((p : ℕ) (m' : Mem) (low' : ℕ)
        → IsMapped m' p 0
        → HasFree 3 low' m'
        → IsIdentity (next (page_addr p) m'))
    → (r : Page) → Outcome m r
    → IsZeroed r
    → IsIdentity (with_page r next)
unfolding HasFree IsZeroed
start low m next v t free go (got addr m') (taken p tk) z =
    let (low', rest) =
      HasFree-less m m' p tk.same_cells (λ q lt ne. tk.others q ne lt) tk.lowest 3 low free in
    go p m' low' (Taken-IsMapped m p m' v t tk (z p refl)) rest
start low m next v t free go panic (exhausted gone) z =
    let (q, le, lt, one, rest) = free in absurd (ground (arith, gone q lt))
start low m next v t free go not_ready o z = elim o [ ]

-- When the allocator is set up, every page of the bitmap lies below 2^32, the bitmap's own pages are
-- taken, and at least four pages are free, `paging_init` switches paging on with tables by which the
-- processor translates every address below 12 MB to itself and refuses every other address.
pub paging_init-IsIdentity :
    (m : Mem) (low : ℕ) → IsMem m → MapIsTaken m → HasFree 4 low m → IsIdentity (paging_init m)
unfolding paging_init
paging_init-IsIdentity m low v t free =
    start low m (λ pagedir m'. fill_directory 3 pagedir 0 m') v t free
      (λ p m' low' s free'. fill_directory-IsIdentity 3 0 low' m' p s refl free')
      (alloc_page true m) (alloc_page-Outcome m v t true) (alloc_page-IsZeroed m v t true refl)
