-- ===== src/Kernel/Mem/Paging/Tests.antt =====
-- Paging on a memory whose bitmap has one word, with pages 5, 7, 9 and 11 free.
use hexos.Base.{zero, suc, refl, true, arith, ◌==◌, if◌then◌else◌}
use hexos.Kernel.Mem.{Mem}
use hexos.Kernel.Mem.Pages.{IsMem, MapIsTaken}
use hexos.Kernel.Mem.Paging.{paging_init}
use hexos.Kernel.Mem.Paging.Rounds.{HasFree}
use hexos.Kernel.Mem.Paging.Identity.{IsIdentity, paging_init-IsIdentity}

abbrev four_pages : Mem
four_pages = record {
  ready = true;
  words = λ i. if i == 0 then 2720 else 0;
  freemap_cells = 1;
  pages_free = 4;
  pages_total = 12;
}

four_pages-IsMem : IsMem four_pages
four_pages-IsMem = record { ready = refl; span = omega arith }

four_pages-MapIsTaken : MapIsTaken four_pages
four_pages-MapIsTaken zero e = cc
four_pages-MapIsTaken (suc q) e = omega arith

four_pages-HasFree : HasFree 4 0 four_pages
unfolding HasFree
four_pages-HasFree = (
  5,
  omega arith,
  omega arith,
  refl,
  (
    7,
    omega arith,
    omega arith,
    refl,
    (9, omega arith, omega arith, refl, (11, omega arith, omega arith, refl, tt)),
  ),
)

paging_init-IsIdentity_example : IsIdentity (paging_init four_pages)
paging_init-IsIdentity_example =
    paging_init-IsIdentity four_pages 0 four_pages-IsMem four_pages-MapIsTaken four_pages-HasFree
