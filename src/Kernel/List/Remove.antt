-- ===== src/Kernel/List/Remove.antt =====
-- `list_remove`: wherever the node stands, it leaves its list, and the others stay in order.
use hexos.Base.{ℕ, ◌≡◌, ◌∙◌, ◌≢◌, true, false, some, List, [], ◌∷◌, ◌++◌, arith}
use hexos.Kernel.List.{null, Store, set_prev, set_next, detach, remove, unlink, pop_head, pop_tail}
use hexos.Kernel.List.Seg.{
  has, Distinct, Linked, Seg, IsList, Seg-enter, Seg-extend, Seg-split, Seg-append, last-mem,
  Distinct-unsnoc, Distinct-append, append-Distinct, Apart, Seg-first, Seg-single, mem-ne_null,
}
use mathlib.Core.List.{append-nil}
use hexos.Kernel.List.Pop.{IsDetached, Taken, pop_head-Taken, pop_tail-Taken}

-- The effect of unlinking `x` from between `a` and `b`.
record Unlinked (x a b : ℕ) (s t : Store) : Type 0 where
  bridged_left : t.node a ≡ record (s.node a) { next = b }
  bridged_right : t.node b ≡ record (s.node b) { prev = a }
  detached : IsDetached (t.node x)
  other_nodes : (c : ℕ) → c ≢ x → c ≢ a → c ≢ b → t.node c ≡ s.node c
  other_ends : (m : ℕ) → t.ends m ≡ s.ends m

unlink-Unlinked :
    (x a b l : ℕ) (s : Store)
    → Linked s l a x b
    → a ≢ null
    → b ≢ null
    → a ≢ x
    → b ≢ x
    → a ≢ b
    → (t : Store) × (unlink x s ≡ some t) × Unlinked x a b s t
unfolding unlink
unlink-Unlinked x a b l s k na nb ax bx ab = (
  t,
  ground arith,
  record {
    bridged_left = ground arith;
    bridged_right = ground arith;
    detached = ground arith;
    other_nodes = ground arith;
    other_ends = ground arith;
  },
)
  where
    s1 : Store
    s1 = set_prev (s.node x).next (s.node x).prev s

    t : Store
    t = detach x (set_next (s1.node x).prev (s1.node x).next s1)

module _ {s t : Store} {l head tail x a b z y : ℕ} {xs ys : List ℕ} (e : Unlinked x a b s t)
    (front : Seg s l null head (z ∷ xs) a x) (back : Seg s l x b (y ∷ ys) tail null)
    (d : Distinct (z ∷ xs)) (d' : Distinct (y ∷ ys)) (apart : Apart (z ∷ xs) (x ∷ y ∷ ys))
    (out : has x (y ∷ ys) ≡ false) where
  -- With nodes on both sides, unlinking `x` joins the two sides.
  unlinked-Seg : Seg t l null head ((z ∷ xs) ++ y ∷ ys) tail null
  unlinked-Seg =
      let at : b ≡ y = (Seg-first back).0 in
      let clear : has a (x ∷ y ∷ ys) ≡ false = apart a (last-mem front) in
      Seg-append
        (Seg-extend b front d e.bridged_left λ c m i.
          let away : has c (x ∷ y ∷ ys) ≡ false = apart c m in
          e.other_nodes c (ground arith) i (ground arith))
        (Seg-enter a back (ground arith)
          λ c m. e.other_nodes c (ground arith) (ground arith) (ground arith))

-- With nodes on both sides, `list_remove` unlinks.
remove-middle :
    (l x a b : ℕ) {s : Store}
    → l ≢ null
    → Linked s l a x b
    → (s.ends l).head ≢ x
    → (s.ends l).tail ≢ x
    → remove x s ≡ unlink x s
unfolding remove
remove-middle l x a b nl k h t = let listed = k.list_eq in ground arith

middle-Taken :
    (l x a b z y : ℕ) {s : Store} (xs ys : List ℕ)
    → l ≢ null
    → IsList s l ((z ∷ xs) ++ x ∷ y ∷ ys)
    → Seg s l null (s.ends l).head (z ∷ xs) a x
    → Linked s l a x b
    → Seg s l x b (y ∷ ys) (s.ends l).tail null
    → (t : Store) × (remove x s ≡ some t) × Taken l x ((z ∷ xs) ++ y ∷ ys) t
middle-Taken l x a b z y {s} xs ys nl is front k back =
    let (d, d', apart) = Distinct-append (z ∷ xs) (x ∷ y ∷ ys) is.distinct in
    let old_a : has a (z ∷ xs) ≡ true = last-mem front in
    let old_b : has (s.ends l).tail (y ∷ ys) ≡ true = last-mem back in
    let first : (s.ends l).head ≡ z = (Seg-first front).0 in
    let second : b ≡ y = (Seg-first back).0 in
    let clear_a : has a (x ∷ y ∷ ys) ≡ false = apart a old_a in
    let clear_z : has z (x ∷ y ∷ ys) ≡ false = apart z (ground arith) in
    let (t, e, u) =
      unlink-Unlinked x a b l s k (mem-ne_null a front old_a) (mem-ne_null b back (ground arith))
        (ground arith) (ground arith) (ground arith) in
    (
      t,
      remove-middle l x a b nl k (ground arith) (ground arith) ∙ e,
      record {
        rest = record {
          links = rw (u.other_ends l) (unlinked-Seg u front back d d'.1 apart d'.0);
          distinct =
              append-Distinct (z ∷ xs) (y ∷ ys) d d'.1
                λ c m. let away : has c (x ∷ y ∷ ys) ≡ false = apart c m in ground arith;
        };
        free = u.detached;
      },
    )

-- A node of a list leaves it, detached, and the other nodes keep their order.
pub remove-Taken :
    (l x : ℕ) {s : Store} (xs ys : List ℕ)
    → l ≢ null
    → IsList s l (xs ++ x ∷ ys)
    → (t : Store) × (remove x s ≡ some t) × Taken l x (xs ++ ys) t
unfolding remove
remove-Taken l x {s} [] ys nl is =
    let (at, q, k, h) = Seg-first is.links in
    let listed : (s.node x).list ≡ l = k.list_eq in
    ((pop_head l s).1, ground arith, (pop_head-Taken l x is).1)
remove-Taken l x {s} (z ∷ xs) [] nl is =
    let (at, last, k) = Seg-single (Seg-split (z ∷ xs) (x ∷ []) is.links).3 in
    let listed : (s.node x).list ≡ l = k.list_eq in
    let first : (s.ends l).head ≡ z = (Seg-first is.links).0 in
    let (out, d) = Distinct-unsnoc (z ∷ xs) x is.distinct in
    ((pop_tail l s).1, ground arith, rw append-nil (pop_tail-Taken l x is).1)
remove-Taken l x {s} (z ∷ xs) (y ∷ ys) nl is =
    let (mid, q, front, rest) = Seg-split (z ∷ xs) (x ∷ y ∷ ys) is.links in
    let (at, b, k, back) = Seg-first rest in
    middle-Taken l x mid b z y xs ys nl is (rw at at front) k back
