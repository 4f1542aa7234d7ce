-- ===== src/Kernel/Heap/Ids.antt =====
-- `kheap_get_nid`: the id for a new allocation.
use hexos.Base.{ℕ, ◌+◌, ◌<◌, ◌≡◌, ◌≢◌, some, arith, ◌^◌, u8, Bool, ◌==◌, ◌||◌, if◌then◌else◌}
use hexos.Kernel.Heap.{get_nid}

-- What an id next to ids `a` and `b` has to be.
pub record IsFresh (a b c : ℕ) : Type 0 where
  pub byte : c < 2 ^ 8
  pub used : c ≢ 0
  pub ne_left : c ≢ a
  pub ne_right : c ≢ b

-- For any two neighbouring bytes the loop ends, and its id is a non-zero byte other than both.
pub get_nid-IsFresh :
    (a b : ℕ) → a < 2 ^ 8 → b < 2 ^ 8 → (c : ℕ) × (get_nid a b ≡ some c) × IsFresh a b c
unfolding get_nid
get_nid-IsFresh a b ha hb = (c, ground arith, ground arith)
  where
    taken : ℕ → Bool
    taken c = (c == b) || (c == 0)

    c1 : ℕ
    c1 = u8 (a + 1)

    c2 : ℕ
    c2 = u8 (c1 + 1)

    c : ℕ
    c = if taken c1 then if taken c2 then u8 (c2 + 1) else c2 else c1
