-- ===== src/Kernel/Mem/Tests.antt =====
-- The page allocator on a memory whose bitmap has one word, with pages 5 and 7 free.
use hexos.Base.{zero, suc, refl, true, false, arith, ◌==◌, if◌then◌else◌}
use hexos.Kernel.Mem.{Mem, alloc_page, take_page, find_page, find_bit, free_page}
use hexos.Kernel.Mem.Pages.{
  IsMem, MapIsTaken, Outcome, Restored, page_addr, alloc_page-Outcome, alloc_page-free_page,
}

abbrev two_pages : Mem
two_pages = record {
  ready = true;
  words = λ i. if i == 0 then 160 else 0;
  freemap_cells = 1;
  pages_free = 2;
  pages_total = 8;
}

two_pages-IsMem : IsMem two_pages
two_pages-IsMem = record { ready = refl; span = omega arith }

two_pages-MapIsTaken : MapIsTaken two_pages
two_pages-MapIsTaken zero e = cc
two_pages-MapIsTaken (suc q) e = omega arith

alloc_page-Outcome_example : Outcome two_pages (alloc_page true two_pages)
alloc_page-Outcome_example = alloc_page-Outcome two_pages two_pages-IsMem two_pages-MapIsTaken true

abbrev page_given : Mem
page_given = record two_pages {
  words = λ k. if k == 0 then 128 else if k == 0 then 160 else 0;
  pages_free = 1;
}

alloc_page-free_page_example : Restored two_pages (free_page (page_addr 5) page_given)
unfolding alloc_page find_page find_bit take_page
alloc_page-free_page_example =
    alloc_page-free_page two_pages page_given false (page_addr 5) two_pages-IsMem
      two_pages-MapIsTaken (omega arith) (omega arith) refl
