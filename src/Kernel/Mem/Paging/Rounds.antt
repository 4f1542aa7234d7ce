-- ===== src/Kernel/Mem/Paging/Rounds.antt =====
-- What the rounds of `paging_init` keep: the tables that are linked, and the pages that are free.
use hexos.Base.{
  ℕ, zero, suc, ◌+◌, ◌*◌, ◌<◌, ◌≤◌, ◌≡◌, ◌≢◌, sym, ap, ◌∙◌, arith, ◌==◌, Bool-cases, inl, inr, ltb,
}
use hexos.Kernel.Mem.{Mem}
use hexos.Kernel.Mem.Search.{page_bit}
use hexos.Kernel.Mem.Pages.{page_count, IsMem, MapIsTaken}
use hexos.Kernel.Mem.Paging.Fill.{entry_of}
use hexos.Kernel.Mem.Paging.Step.{Owned, frame_of, Linked, MapIsTaken-kept}

-- At least `n` pages from `low` on are free.
unfoldable pub HasFree : ℕ → ℕ → Mem → Type 0
HasFree zero low m = Unit
HasFree (suc n) low m =
    (q : ℕ) × (low ≤ q) × (q < page_count m) × (page_bit m.words q ≡ 1) × HasFree n (q + 1) m

-- Entry `d` of the directory in page `dir` points to a table of the frames from `1024 * d` on.
pub record Table (m : Mem) (dir d : ℕ) : Type 0 where
  pub page : ℕ
  pub own : Owned m page
  pub apart : page ≢ dir
  pub entry : m.words (dir * 1024 + d) ≡ entry_of (frame_of page)
  pub entries : (i : ℕ) → i < 1024 → m.words (page * 1024 + i) ≡ entry_of (1024 * d + i)

-- The first `d` entries of the directory in page `dir` are set, and no other.
pub record IsMapped (m : Mem) (dir d : ℕ) : Type 0 where
  pub mem : IsMem m
  pub map : MapIsTaken m
  pub own : Owned m dir
  pub tables : (i : ℕ) → i < d → Table m dir i
  pub unset : (i : ℕ) → d ≤ i → i < 1024 → m.words (dir * 1024 + i) ≡ 0

module _ (m m' : Mem) (p : ℕ) (same : m'.freemap_cells ≡ m.freemap_cells)
    (bits : (q : ℕ) → q < page_count m → q ≢ p → page_bit m'.words q ≡ page_bit m.words q)
    (lowest : (q : ℕ) → q < p → page_bit m.words q ≡ 0) where
  HasFree-kept : (n low : ℕ) → p < low → HasFree n low m → HasFree n low m'
  unfolding HasFree
  HasFree-kept zero low lt h = tt
  HasFree-kept (suc n) low lt (q, le, inside, one, rest) = (
    q,
    le,
    rw (ap (λ c. c * 32) same) inside,
    bits q inside (λ e. omega arith) ∙ one,
    HasFree-kept n (q + 1) (omega arith) rest,
  )

  pub HasFree-less : (n low : ℕ) → HasFree (suc n) low m → (low' : ℕ) × HasFree n low' m'
  unfolding HasFree
  HasFree-less n low (q, le, inside, one, rest) = elim (Bool-cases (ltb q p)) [
    | inl before ↦ absurd (ground (arith, lowest q))
    | inr after ↦ (q + 1, HasFree-kept n (q + 1) (ground arith) rest)
  ]

module _ (m m' : Mem) (dir d p : ℕ) (l : Linked m dir d p m')
    (behind : m.freemap_cells ≤ p * 1024) where
  same_count : page_count m' ≡ page_count m
  same_count = ap (λ c. c * 32) l.same_cells

  Owned-kept : (q : ℕ) → Owned m q → Owned m' q
  Owned-kept q o = record {
    inside = rw same_count o.inside;
    used = l.bits q o.inside (λ e. ground (arith, l.was_free, o.used)) ∙ o.used;
    behind = rw l.same_cells o.behind;
  }

  Owned-apart : (q : ℕ) → Owned m q → q ≢ p
  Owned-apart q o e = ground (arith, l.was_free, o.used)

  new_own : Owned m' p
  new_own = record {
    inside = rw same_count l.inside;
    used = l.cleared;
    behind = rw l.same_cells behind;
  }

  Table-kept : (i : ℕ) → i ≢ d → i < 1024 → d < 1024 → Owned m dir → Table m dir i → Table m' dir i
  Table-kept i other lt small own t =
      let t_apart : t.page ≢ p = Owned-apart t.page t.own in
      let dir_apart : dir ≢ p = Owned-apart dir own in
      record {
        page = t.page;
        own = Owned-kept t.page t.own;
        apart = t.apart;
        entry =
            l.others (dir * 1024 + i) (omega (arith, own.behind)) (λ e. other (omega arith))
              (λ e. dir_apart (omega arith))
            ∙ t.entry;
        entries = λ j small_j.
            l.others (t.page * 1024 + j) (omega (arith, t.own.behind)) (λ e. t.apart (omega arith))
              (λ e. t_apart (omega arith))
            ∙ t.entries j small_j;
      }

  pub IsMapped-next : IsMapped m dir d → d < 1024 → IsMapped m' dir (d + 1)
  IsMapped-next s small =
      let dir_apart : dir ≢ p = Owned-apart dir s.own in
      record {
        mem = record { ready = l.same_ready ∙ s.mem.ready; span = rw same_count s.mem.span };
        map =
            MapIsTaken-kept m m' l.same_cells
              (λ q lt one. elim (Bool-cases (q == p)) [
                | inl here ↦ let same : q ≡ p = ground arith in rw same l.was_free
                | inr away ↦ sym (l.bits q lt (ground arith)) ∙ one
              ])
              s.map;
        own = Owned-kept dir s.own;
        tables = λ i lt. elim (Bool-cases (i == d)) [
          | inl this ↦
              let same : i ≡ d = ground arith in
              rw same (record {
                page = p;
                own = new_own;
                apart = λ e. dir_apart (sym e);
                entry = l.entry;
                entries = l.table;
              })
          | inr past ↦
              Table-kept i (ground arith) (omega arith) small s.own (s.tables i (ground arith))
        ];
        unset = λ i le lt.
            l.others (dir * 1024 + i) (omega (arith, s.own.behind)) (λ e. omega arith)
              (λ e. dir_apart (omega arith))
            ∙ s.unset i (omega arith) lt;
      }
