-- ===== src/Kernel/Heap/Cells.antt =====
-- What the loops over the ids of a block write.
use native.Mathlib.Nat.{add-zero}
use hexos.Base.{
  ℕ, zero, suc, ◌+◌, ◌<◌, ◌≤◌, ◌≡◌, refl, ◌≢◌, ap, ◌∙◌, true, false, ◌&&◌, arith, ◌==◌, ltb, leb,
  if◌then◌else◌, Bool,
}
use hexos.Kernel.Heap.{Bytes, poke, fill, release}

-- `x ≤ i < x + n`
abbrev pub within : ℕ → ℕ → ℕ → Bool
within x n i = leb x i && ltb i (x + n)

-- A filled range holds the value, and nothing else changes.
pub fill_lem :
    (n x v : ℕ) (bm : Bytes) (i : ℕ) → fill n x v bm i ≡ (if within x n i then v else bm i)
unfolding fill
fill_lem zero x v bm i = ground arith
fill_lem (suc n) x v bm i = ground (arith, fill_lem n (x + 1) v (poke x v bm) i)

-- From the first of `k` cells with the id, up to another id or the last cell, exactly these are
-- released.
pub release-run :
    (k n id x : ℕ) (bm : Bytes)
    → k ≤ n
    → ((i : ℕ) → i < k → bm (x + i) ≡ id)
    → (n ≢ k → bm (x + k) ≢ id)
    → ((release n id x bm).0 ≡ x + k) × ((i : ℕ) → (release n id x bm).1 i ≡ fill k x 0 bm i)
unfolding release fill
release-run zero zero id x bm h run stop = (omega arith, λ i. refl)
release-run zero (suc n) id x bm h run stop =
    let other : (bm x == id) ≡ false = differs (stop (omega arith)) in
    rw other (omega arith, λ i. refl)
  where
    differs : bm (x + 0) ≢ id → (bm x == id) ≡ false
    differs ne = ground (arith, ap bm (add-zero x))
release-run (suc k) zero id x bm h run stop = absurd (omega arith)
release-run (suc k) (suc n) id x bm h run stop =
    let same : (bm x == id) ≡ true = ground (arith, run 0, ap bm (add-zero x)) in
    let (end, bytes) = release-run k n id (x + 1) (poke x 0 bm) (omega arith) later ends in
    rw same (end ∙ omega arith, bytes)
  where
    shift : (i : ℕ) → x + 1 + i ≡ x + suc i
    shift i = omega arith

    later : (i : ℕ) → i < k → poke x 0 bm (x + 1 + i) ≡ id
    later i lt = ground (arith, run (suc i), shift i, ap bm (shift i))

    ends : n ≢ k → poke x 0 bm (x + 1 + k) ≢ id
    ends ne e = stop (omega arith) (ground (arith, shift k, ap bm (shift k)))
