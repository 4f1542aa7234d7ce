-- ===== src/Libc/Memory/Blocks.antt =====
-- What `memcpy`, `memmove`, `memset` and `memcmp` do to blocks of bytes.
use native.Mathlib.Nat.{add-zero}
use hexos.Base.{
  within, ℕ, zero, suc, ◌+◌, ◌<◌, ◌≤◌, ◌≡◌, refl, ◌∙◌, arith, false, ◌⊎◌, inl, inr, ltb, ◌==◌,
  if◌then◌else◌, if-cases, Bool-cases, u8,
}
use hexos.Base.Int.{ℤ, pos, negsuc}
use hexos.Libc.Memory.{
  Memory, store, copy_up, memcpy, copy_down, memmove, set_up, memset, compare_up, memcmp,
}

-- The block of `n` bytes at `dst` holds what was at `src`, and nothing else differs.
pub record Copied (n dst src : ℕ) (m m' : Memory) : Type 0 where
  pub block : (i : ℕ) → i < n → m' (dst + i) ≡ m (src + i)
  pub frame : (x : ℕ) → within dst n x ≡ false → m' x ≡ m x

copy_up-frame :
    (n dst src i : ℕ) (m : Memory) (x : ℕ)
    → within (dst + i) n x ≡ false
    → copy_up n dst src i m x ≡ m x
unfolding copy_up
copy_up-frame zero dst src i m x h = refl
copy_up-frame (suc n) dst src i m x h =
    copy_up-frame n dst src (i + 1) (store (dst + i) (m (src + i)) m) x (ground arith)
    ∙ ground arith

-- Upwards, a byte is read before it is overwritten if `dst` lies before `src` or behind the block.
copy_up-block :
    (n dst src i : ℕ) (m : Memory)
    → (dst ≤ src) ⊎ (src + i + n ≤ dst + i)
    → (k : ℕ) → i ≤ k
    → k < i + n
    → copy_up n dst src i m (dst + k) ≡ m (src + k)
unfolding copy_up
copy_up-block zero dst src i m apart k le lt = absurd (omega arith)
copy_up-block (suc n) dst src i m apart k le lt = elim (Bool-cases (k == i)) [
  | inl first ↦
      let same : k ≡ i = ground arith in
      rw same (
        copy_up-frame n dst src (i + 1) (store (dst + i) (m (src + i)) m) (dst + i) (ground arith)
        ∙ ground arith)
  | inr later ↦
      copy_up-block n dst src (i + 1) (store (dst + i) (m (src + i)) m) (further apart) k
        (ground arith) (omega arith)
      ∙ other (ground arith) apart
]
  where
    further :
        (dst ≤ src) ⊎ (src + i + suc n ≤ dst + i)
        → (dst ≤ src) ⊎ (src + (i + 1) + n ≤ dst + (i + 1))
    further (inl h) = inl h
    further (inr h) = inr (omega arith)

    other :
        i < k
        → (dst ≤ src) ⊎ (src + i + suc n ≤ dst + i)
        → store (dst + i) (m (src + i)) m (src + k) ≡ m (src + k)
    other past (inl h) = ground arith
    other past (inr h) = ground arith

copy_down-frame :
    (n dst src : ℕ) (m : Memory) (x : ℕ) → within dst n x ≡ false → copy_down n dst src m x ≡ m x
unfolding copy_down
copy_down-frame zero dst src m x h = refl
copy_down-frame (suc n) dst src m x h =
    copy_down-frame n dst src (store (dst + n) (m (src + n)) m) x (ground arith) ∙ ground arith

copy_down-block :
    (n dst src : ℕ) (m : Memory)
    → src ≤ dst
    → (k : ℕ) → k < n
    → copy_down n dst src m (dst + k) ≡ m (src + k)
unfolding copy_down
copy_down-block zero dst src m h k lt = absurd (omega arith)
copy_down-block (suc n) dst src m h k lt = elim (Bool-cases (k == n)) [
  | inl last ↦
      let same : k ≡ n = ground arith in
      rw same (
        copy_down-frame n dst src (store (dst + n) (m (src + n)) m) (dst + n) (ground arith)
        ∙ ground arith)
  | inr before ↦
      copy_down-block n dst src (store (dst + n) (m (src + n)) m) h k (ground arith) ∙ ground arith
]

-- `memcpy` copies a block whose destination does not begin inside the source.
pub memcpy-Copied :
    (n dst src : ℕ) (m : Memory)
    → (dst ≤ src) ⊎ (src + n ≤ dst)
    → ((memcpy dst src n m).0 ≡ dst) × Copied n dst src m (memcpy dst src n m).1
unfolding memcpy
memcpy-Copied n dst src m apart = (
  refl,
  record {
    block = λ i lt. copy_up-block n dst src 0 m (widen apart) i (omega arith) (omega arith);
    frame = λ x h. copy_up-frame n dst src 0 m x (rw add-zero h);
  },
)
  where
    widen : (dst ≤ src) ⊎ (src + n ≤ dst) → (dst ≤ src) ⊎ (src + 0 + n ≤ dst + 0)
    widen (inl h) = inl h
    widen (inr h) = inr (omega arith)

-- `memmove` copies every block, also one that overlaps its destination.
pub memmove-Copied :
    (n dst src : ℕ) (m : Memory)
    → ((memmove dst src n m).0 ≡ dst) × Copied n dst src m (memmove dst src n m).1
unfolding memmove
memmove-Copied n dst src m = (
  refl,
  if-cases (Copied n dst src m) (ltb dst src)
      (λ below. record {
        block =
            λ i lt. copy_up-block n dst src 0 m (inl (ground arith)) i (omega arith) (omega arith);
        frame = λ x h. copy_up-frame n dst src 0 m x (rw add-zero h);
      })
      (λ above. record {
        block = λ i lt. copy_down-block n dst src m (ground arith) i lt;
        frame = copy_down-frame n dst src m;
      }),
)

set_up-lem :
    (n buf value i : ℕ) (m : Memory) (x : ℕ)
    → set_up n buf value i m x ≡ (if within (buf + i) n x then u8 value else m x)
unfolding set_up
set_up-lem zero buf value i m x = ground arith
set_up-lem (suc n) buf value i m x =
    ground (arith, set_up-lem n buf value (i + 1) (store (buf + i) (u8 value) m) x)

-- `memset` returns the block, sets each of its bytes to the value's low byte, and changes no other.
pub memset_lem :
    (n buf value : ℕ) (m : Memory) (x : ℕ)
    → ((memset buf value n m).0 ≡ buf)
      × ((memset buf value n m).1 x ≡ (if within buf n x then u8 value else m x))
unfolding memset
memset_lem n buf value m x = (refl, rw add-zero at (set_up-lem n buf value 0 m x))

-- The blocks agree below `k`.
abbrev pub AgreeTo : ℕ → ℕ → ℕ → Memory → Type 0
AgreeTo k a b m = (i : ℕ) → i < k → m (a + i) ≡ m (b + i)

-- The lexicographic order of two blocks of `n` bytes, as a result of `memcmp`.
pub data Ordered (n a b : ℕ) (m : Memory) : ℤ → Type 0 where
  same : AgreeTo n a b m → Ordered n a b m (pos 0)
  less : (k : ℕ) → k < n → AgreeTo k a b m → m (a + k) < m (b + k) → Ordered n a b m (negsuc 0)
  greater : (k : ℕ) → k < n → AgreeTo k a b m → m (b + k) < m (a + k) → Ordered n a b m (pos 1)

compare_up-Ordered :
    (n a b i : ℕ) (m : Memory) → AgreeTo i a b m → Ordered (i + n) a b m (compare_up n a b i m)
unfolding compare_up
compare_up-Ordered zero a b i m agree = rw add-zero (same agree)
compare_up-Ordered (suc n) a b i m agree =
    if-cases (Ordered (i + suc n) a b m) (ltb (m (a + i)) (m (b + i)))
      (λ lt. less i (omega arith) agree (ground arith))
      (λ not_lt.
        if-cases (Ordered (i + suc n) a b m) (ltb (m (b + i)) (m (a + i)))
          (λ gt. greater i (omega arith) agree (ground arith))
          (λ not_gt.
            let shift : i + suc n ≡ i + 1 + n = omega arith in
            rw shift (compare_up-Ordered n a b (i + 1) m (longer (ground arith)))))
  where
    longer : m (a + i) ≡ m (b + i) → AgreeTo (i + 1) a b m
    longer e k lt = elim (Bool-cases (k == i)) [
      | inl last ↦ let eq : k ≡ i = ground arith in rw eq e
      | inr before ↦ agree k (ground arith)
    ]

-- `memcmp` is 0 on equal blocks, and otherwise -1 or 1 by the first byte that differs.
pub memcmp-Ordered : (n a b : ℕ) (m : Memory) → Ordered n a b m (memcmp a b n m)
unfolding memcmp
memcmp-Ordered n a b m =
    let start : 0 + n ≡ n = omega arith in
    rw start at (compare_up-Ordered n a b 0 m (λ i lt. absurd (omega arith)))
