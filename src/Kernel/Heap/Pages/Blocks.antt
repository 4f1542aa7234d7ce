-- ===== src/Kernel/Heap/Pages/Blocks.antt =====
-- The blocks of the main heap.
use hexos.Base.{
  ℕ, zero, suc, ◌+◌, ◌*◌, ◌/◌, ◌<◌, ◌≡◌, ◌≢◌, refl, sym, ap, ◌∙◌, arith, ◌==◌, Bool-cases, inl, inr,
  false, List, [], ◌∷◌, length, sub32, leb, ltb, ◌&&◌, ◌%◌,
}
use hexos.Kernel.Mem.{Mem, Page, got, panic, not_ready, alloc_page}
use hexos.Base.Bits.{bit}
use hexos.Kernel.Mem.Search.{page_bit}
use hexos.Kernel.Mem.Pages.{
  page_addr, page_count, IsMem, MapIsTaken, Taken, Outcome, taken, exhausted, alloc_page-Outcome,
}
use hexos.Kernel.Mem.Paging.Step.{MapIsTaken-kept}
use hexos.Kernel.Mem.Paging.Rounds.{HasFree, HasFree-less}
use hexos.Kernel.Heap.{Block, Heap, add_block, init, cells_for}
use hexos.Kernel.Heap.Grants.{IsBlock}
use hexos.Kernel.Heap.Init.{new_IsBlock}
use hexos.Kernel.Heap.Pages.{
  Built, built, with_page, add_page, add_pages, page_bytes, main_heap_init,
}

-- No block is at the address.
unfoldable pub NotAt : ℕ → List Block → Type 0
NotAt addr [] = Unit
NotAt addr (b ∷ bs) = (addr ≢ b.addr) × NotAt addr bs

-- The blocks are well formed, each in a page of its own that is in use.
unfoldable pub InPages : Mem → List Block → Type 0
InPages m [] = Unit
InPages m (b ∷ bs) =
    ((p : ℕ) × (b.addr ≡ page_addr p) × (p < page_count m) × (page_bit m.words p ≡ 0))
    × IsBlock b
    × NotAt b.addr bs
    × InPages m bs

module _ (m : Mem) (p : ℕ) (m' : Mem) (t : Taken m p m') where
  InPages-kept : (bs : List Block) → InPages m bs → InPages m' bs
  unfolding InPages
  InPages-kept [] all = tt
  InPages-kept (b ∷ bs) ((q, at, inside, used), good, away, all) = (
    (
      q,
      at,
      rw (ap (λ c. c * 32) t.same_cells) inside,
      t.others q (λ e. ground (arith, t.was_free, used)) inside ∙ used,
    ),
    good,
    away,
    InPages-kept bs all,
  )

  NotAt-new : (bs : List Block) → InPages m bs → NotAt (page_addr p) bs
  unfolding InPages NotAt
  NotAt-new [] all = tt
  NotAt-new (b ∷ bs) ((q, at, inside, used), good, away, all) =
      (λ e. let same : q ≡ p = omega arith in ground (arith, t.was_free, used), NotAt-new bs all)

  same_allocator : IsMem m → MapIsTaken m → IsMem m' × MapIsTaken m'
  same_allocator v map = (
    record {
      ready = t.same_ready ∙ v.ready;
      span = rw (ap (λ c. page_addr (c * 32)) t.same_cells) v.span;
    },
    MapIsTaken-kept m m' t.same_cells
        (λ q lt one. elim (Bool-cases (q == p)) [
          | inl here ↦ let same : q ≡ p = ground arith in rw same t.was_free
          | inr away ↦ sym (t.others q (ground arith) lt) ∙ one
        ])
        map,
  )

  -- The block is written inside its page, and not in the bitmap.
  add_page-Taken : (h : Heap) → IsMem m → MapIsTaken m → Taken m p (add_page (page_addr p) m' h).0
  unfolding add_block
  add_page-Taken h v map = record {
    inside = t.inside;
    was_free = t.was_free;
    lowest = t.lowest;
    cleared = bits p t.inside ∙ t.cleared;
    others = λ q ne lt. bits q lt ∙ t.others q ne lt;
    count = t.count;
    outside = λ k le ne. beyond k (λ e. ne (omega arith)) ∙ t.outside k le ne;
    same_cells = t.same_cells;
    same_ready = t.same_ready;
  }
    where
      start : sub32 (page_addr p) 1048576 / 4 ≡ p * 1024
      start = omega (arith, t.inside, v.span)

      beyond : (k : ℕ) → k / 1024 ≢ p → (add_page (page_addr p) m' h).0.words k ≡ m'.words k
      beyond k ne =
          let away : (leb (p * 1024) k && ltb k (p * 1024 + 69)) ≡ false = ground arith in
          rw (start, away) refl

      bits :
          (q : ℕ)
          → q < page_count m
          → page_bit (add_page (page_addr p) m' h).0.words q ≡ page_bit m'.words q
      bits q lt = ap (λ w. bit w (q % 32)) (beyond (q / 32) (λ e. omega (arith, map p t.was_free)))

module _ (m : Mem) (p : ℕ) (m' m'' : Mem) (t : Taken m p m'') where
  add_page-InPages :
      (h : Heap) → IsMem m → InPages m h.blocks → InPages m'' (add_page (page_addr p) m' h).1.blocks
  unfolding InPages add_block
  add_page-InPages h v all = (
    (p, refl, rw (ap (λ c. c * 32) t.same_cells) t.inside, t.cleared),
    new_IsBlock (page_addr p) 4096 16 (4096 / 16) (cells_for (4096 / 16) 16)
        (page_bytes (page_addr p) m'.words) (omega arith) (omega arith)
        (omega (arith, t.inside, v.span)) (omega arith) refl (omega arith) (λ i. omega arith),
    NotAt-new m p m'' t h.blocks all,
    InPages-kept m p m'' t h.blocks all,
  )

-- The heap was built with `n` blocks.
abbrev pub IsBuilt : ℕ → Built → Type 0
IsBuilt n o = (m : Mem) × (h : Heap) × (o ≡ built m h) × (length h.blocks ≡ n) × InPages m h.blocks

-- A page is handed out, and the rest goes on with it.
round :
    (m : Mem) (n low k : ℕ) (next : ℕ → Mem → Built)
    → HasFree (suc n) low m
    → ((p : ℕ) (m' : Mem) → Taken m p m' → IsBuilt k (next (page_addr p) m'))
    → (r : Page) → Outcome m r
    → IsBuilt k (with_page r next)
unfolding HasFree
round m n low k next free go (got addr m') (taken p t) = go p m' t
round m n low k next free go panic (exhausted gone) =
    let (q, le, lt, one, rest) = free in absurd (ground (arith, gone q lt))
round m n low k next free go not_ready o = elim o [ ]

add_pages-IsBuilt :
    (n k low : ℕ) (m : Mem) (h : Heap)
    → IsMem m
    → MapIsTaken m
    → HasFree n low m
    → InPages m h.blocks
    → n + length h.blocks ≡ k
    → IsBuilt k (add_pages n m h)
unfolding add_pages add_block
add_pages-IsBuilt zero k low m h v map free all count = (m, h, refl, omega arith, all)
add_pages-IsBuilt (suc n) k low m h v map free all count =
    round m n low k (λ block m'. add_pages n (add_page block m' h).0 (add_page block m' h).1) free
      (λ p m' taken_page.
        let m'' = (add_page (page_addr p) m' h).0 in
        let t = add_page-Taken m p m' taken_page h v map in
        let (low', free') =
          HasFree-less m m'' p t.same_cells (λ q lt ne. t.others q ne lt) t.lowest n low free in
        let (v', map') = same_allocator m p m'' t v map in
        add_pages-IsBuilt n k low' m'' (add_page (page_addr p) m' h).1 v' map' free'
          (add_page-InPages m p m' m'' t h v all) (more p m'))
      (alloc_page false m) (alloc_page-Outcome m v map false)
  where
    more : (p : ℕ) (m' : Mem) → n + length (add_page (page_addr p) m' h).1.blocks ≡ k
    more p m' = omega arith

-- When the allocator is set up, every page of the bitmap lies below 2^32, the bitmap's own pages are
-- taken, and at least 15 pages are free, `main_heap_init` builds a heap of 15 well-formed blocks, whatever
-- the pages held. Each stands in a page of its own, which is in use from then on.
pub main_heap_init-IsBuilt :
    (m : Mem) (h : Heap) (low : ℕ)
    → IsMem m
    → MapIsTaken m
    → HasFree 15 low m
    → IsBuilt 15 (main_heap_init m h)
unfolding main_heap_init init InPages
main_heap_init-IsBuilt m h low v map free =
    add_pages-IsBuilt 15 15 low m (init h) v map free tt refl
