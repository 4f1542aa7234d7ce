-- ===== src/Kernel/Heap.antt =====
-- kernel/kernel/heap.c and kernel/include/kernel/heap.h: the bitmap heap. A block of memory starts with
-- its header; the bytes behind the header hold one id for each cell of `bsize` bytes, 0 for a free
-- cell. Sizes, offsets and addresses are `uint32_t`.
pub mod Cells
pub mod Ids
pub mod Scan
pub mod Grants
pub mod Free
pub mod Hang
pub mod Init
pub mod Pages
pub mod Tests
use mathlib.Core.Option
use hexos.Base.{
  ℕ, zero, suc, ◌+◌, ◌-◌, ◌*◌, ◌/◌, Bool, true, false, ◌&&◌, ◌||◌, Option, none, some, List, [],
  ◌∷◌, if◌then◌else◌, ◌==◌, ltb, leb, u8, u32, add32, sub32, ◌>>◌,
}

-- The bytes from a base address on, by offset.
abbrev pub Bytes : Type 0
Bytes = ℕ → ℕ

abbrev pub poke : ℕ → ℕ → Bytes → Bytes
poke x v bm = λ i. if i == x then v else bm i

-- `kernel_heap_block_bm` at address `addr`, with the bytes `bm` at `&b[1]`.
pub record Block : Type 0 where
  pub addr : ℕ
  pub size : ℕ
  pub used : ℕ
  pub bsize : ℕ
  pub lfb : ℕ
  pub bm : Bytes

-- `sizeof(kernel_heap_block_bm)`: five words
abbrev pub header : ℕ
header = 20

-- The heap's blocks from `fblock` on, and the counter `heap_used_blocks`.
pub record Heap : Type 0 where
  pub used_blocks : ℕ
  pub blocks : List Block

unfoldable pub init : Heap → Heap
init h = record h { blocks = [] }

-- `for (; rounds left; ++x) bm[x] = v;`
unfoldable pub fill : ℕ → ℕ → ℕ → Bytes → Bytes
fill zero x v bm = bm
fill (suc n) x v bm = fill n (x + 1) v (poke x v bm)

-- `n / d`, rounded up the way the code does
abbrev pub cells_for : ℕ → ℕ → ℕ
cells_for n d = if ltb (u32 (n / d * d)) n then n / d + 1 else n / d

-- `old` is what the memory holds before.
unfoldable pub add_block : ℕ → ℕ → ℕ → Bytes → Heap → Heap
unfolding fill
add_block addr size bsize old h =
    let bcnt = size / bsize in
    let room = cells_for bcnt bsize in
    let b : Block = record {
      addr = addr;
      size = sub32 size header;
      used = room;
      bsize = bsize;
      lfb = sub32 room 1;
      bm = fill room 0 5 (fill bcnt 0 0 old);
    } in
    record h { blocks = b ∷ h.blocks }

-- The loop of `kheap_get_nid`, on fuel.
unfoldable pub nid_loop : ℕ → ℕ → ℕ → Option ℕ
nid_loop zero c b = none
nid_loop (suc fuel) c b =
    let rest = nid_loop fuel (u8 (c + 1)) b in if (c == b) || (c == 0) then rest else some c

-- Two ids are to be avoided besides `a`, so three rounds are enough.
unfoldable pub get_nid : ℕ → ℕ → Option ℕ
unfolding nid_loop
get_nid a b = nid_loop 3 (u8 (a + 1)) b

-- `b->size / b->bsize`
abbrev pub cell_count : Block → ℕ
cell_count b = b.size / b.bsize

-- `for (y = 0; bm[x + y] == 0 && y < bneed && (x + y) < bcnt; ++y);`, by the rounds left.
unfoldable pub count_free : ℕ → Block → ℕ → ℕ → ℕ
count_free zero b x y = y
count_free (suc n) b x y =
    if (b.bm (x + y) == 0) && ltb (x + y) (cell_count b) then count_free n b x (y + 1) else y

pub data Search : Type 0 where
  found : ℕ → Search
  missed : Search
  out_of_fuel : Search

-- `if (x >= bcnt) x = 0;`
abbrev pub wrap : Block → ℕ → ℕ
wrap b x = if leb (cell_count b) x then 0 else x

-- The next `x` after one that does not serve: `x += y - 1` or nothing, and the loop's `++x`.
unfoldable pub advance : Block → ℕ → ℕ → ℕ
unfolding count_free
advance b bneed x = if b.bm x == 0 then u32 (x + count_free bneed b x 0) else u32 (x + 1)

-- The search loop of `kalloc` within a block, on fuel.
unfoldable pub search_from : ℕ → Block → ℕ → ℕ → Search
search_from zero b bneed x = out_of_fuel
search_from (suc fuel) b bneed x =
    let at = wrap b x in
    let rest = search_from fuel b bneed (advance b bneed at) in
    if x == b.lfb
    then missed
    else if (b.bm at == 0) && (count_free bneed b at 0 == bneed)
    then found at
    else rest

abbrev pub first_cell : Block → ℕ
first_cell b = if leb (cell_count b) (add32 b.lfb 1) then 0 else add32 b.lfb 1

-- `bm[x - 1]`: before the first id lies the high byte of the header's last field.
abbrev pub left_id : Block → ℕ → ℕ
left_id b x = if x == 0 then b.lfb >> 24 else b.bm (x - 1)

-- The address of cell `x`.
abbrev pub cell_addr : Block → ℕ → ℕ
cell_addr b x = u32 (x * b.bsize + u32 (b.addr + header))

-- Taking `bneed` cells from `x` on, under the id `nid`.
unfoldable pub mark : Block → ℕ → ℕ → ℕ → Block
unfolding fill
mark b bneed x nid = record b {
  bm = fill bneed x nid b.bm;
  lfb = sub32 (x + bneed) 2;
  used = u32 (b.used + bneed);
}

-- What `kalloc` does: it returns an address, panics, or does not end.
pub data Alloc : Type 0 where
  got : ℕ → List Block → Alloc
  panic : Alloc
  hang : Alloc

abbrev pub cons_block : Block → Alloc → Alloc
cons_block b (got p bs) = got p (b ∷ bs)
cons_block b panic = panic
cons_block b hang = hang

-- `b->size - (b->used * b->bsize) >= size`
abbrev pub has_room : Block → ℕ → Bool
has_room b size = leb size (sub32 b.size (u32 (b.used * b.bsize)))

unfoldable pub grant : Block → List Block → ℕ → ℕ → Option ℕ → Alloc
grant b bs bneed x none = hang
grant b bs bneed x (some nid) = got (cell_addr b x) (mark b bneed x nid ∷ bs)

unfoldable pub settle : Block → List Block → ℕ → Alloc → Search → Alloc
unfolding grant
settle b bs bneed rest (found x) = grant b bs bneed x (get_nid (left_id b x) (b.bm (x + bneed)))
settle b bs bneed rest missed = rest
settle b bs bneed rest out_of_fuel = hang

-- The loop over the blocks.
unfoldable pub alloc_blocks : ℕ → ℕ → List Block → Alloc
alloc_blocks fuel size [] = panic
alloc_blocks fuel size (b ∷ bs) =
    let rest = cons_block b (alloc_blocks fuel size bs) in
    let bneed = cells_for size b.bsize in
    if has_room b size
    then settle b bs bneed rest (search_from fuel b bneed (first_cell b))
    else rest

-- `kalloc`: the new counter, and what the search yields.
unfoldable pub alloc : ℕ → ℕ → Heap → ℕ × Alloc
unfolding alloc_blocks
alloc fuel size h = (u32 (h.used_blocks + size), alloc_blocks fuel size h.blocks)

-- `for (x = bi; bm[x] == id && x < max; ++x) bm[x] = 0;`, by the rounds left.
unfoldable pub release : ℕ → ℕ → ℕ → Bytes → ℕ × Bytes
release zero id x bm = (x, bm)
release (suc n) id x bm =
    let rest = release n id (x + 1) (poke x 0 bm) in if bm x == id then rest else (x, bm)

-- `(uint32_t)ptr > (uint32_t)b && (uint32_t)ptr < (uint32_t)b + b->size`
abbrev pub holds : Block → ℕ → Bool
holds b ptr = ltb b.addr ptr && ltb ptr (u32 (b.addr + b.size))

-- `kfree` in the block that holds the pointer.
unfoldable pub free_in : Block → ℕ → Block
unfolding release
free_in b ptr =
    let bi = sub32 ptr (u32 (b.addr + header)) / b.bsize in
    let (x, bm) = release (cell_count b - bi) (b.bm bi) bi b.bm in
    record b { bm = bm; used = sub32 b.used (x - bi) }

-- `none` is the panic on a pointer in no block.
unfoldable pub free_blocks : ℕ → List Block → Option (List Block)
unfolding free_in
free_blocks ptr [] = none
free_blocks ptr (b ∷ bs) =
    let rest = Option.map (λ bs'. b ∷ bs') (free_blocks ptr bs) in
    if holds b ptr then some (free_in b ptr ∷ bs) else rest
