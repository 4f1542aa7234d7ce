-- ===== src/Kernel/List/Pop.antt =====
-- `list_pop_head` and `list_pop_tail`: what they write, and that the list loses one node.
use hexos.Base.{
  ℕ, ◌≡◌, refl, ◌∙◌, ◌≢◌, true, false, List, [], ◌∷◌, ◌++◌, arith, ◌==◌, if◌then◌else◌,
}
use hexos.Kernel.List.{null, Node, Store, pop_head, pop_tail}
use hexos.Kernel.List.Seg.{
  has, Distinct, Seg, nil, cons, IsList, Seg-enter, Seg-extend, Seg-split, last-mem, last-ne_null,
  Distinct-unsnoc, Apart, IsList-frame, mem-ne_null, Seg-nil, Seg-first, Seg-single,
}

-- A node that is in no list.
pub record IsDetached (n : Node) : Type 0 where
  pub next_null : n.next ≡ null
  pub prev_null : n.prev ≡ null
  pub list_null : n.list ≡ null

-- The effect of `list_pop_head` on the memory, when `x` is the head and `q` the next node.
record HeadPopped (l x q : ℕ) (s t : Store) : Type 0 where
  new_head : (t.ends l).head ≡ q
  new_tail : (t.ends l).tail ≡ (if q == null then null else (s.ends l).tail)
  detached : IsDetached (t.node x)
  second : q ≢ null → q ≢ x → t.node q ≡ record (s.node q) { prev = null }
  other_nodes : (a : ℕ) → a ≢ x → a ≢ q → t.node a ≡ s.node a
  other_ends : (m : ℕ) → m ≢ l → t.ends m ≡ s.ends m

pop_head-HeadPopped :
    (l x q : ℕ) (s : Store)
    → (s.ends l).head ≡ x
    → x ≢ null
    → (s.node x).next ≡ q
    → ((pop_head l s).0 ≡ x) × HeadPopped l x q s (pop_head l s).1
unfolding pop_head
pop_head-HeadPopped l x q s eh ne en = (
  ground arith,
  record {
    new_head = ground arith;
    new_tail = ground arith;
    detached = ground arith;
    second = ground arith;
    other_nodes = ground arith;
    other_ends = ground arith;
  },
)

-- The effect of `list_pop_tail` on the memory, when `x` is the tail and `q` the node before.
record TailPopped (l x q : ℕ) (s t : Store) : Type 0 where
  new_tail : (t.ends l).tail ≡ q
  new_head : (t.ends l).head ≡ (if q == null then null else (s.ends l).head)
  detached : IsDetached (t.node x)
  second : q ≢ null → q ≢ x → t.node q ≡ record (s.node q) { next = null }
  other_nodes : (a : ℕ) → a ≢ x → a ≢ q → t.node a ≡ s.node a
  other_ends : (m : ℕ) → m ≢ l → t.ends m ≡ s.ends m

pop_tail-TailPopped :
    (l x q : ℕ) (s : Store)
    → (s.ends l).tail ≡ x
    → x ≢ null
    → (s.node x).prev ≡ q
    → ((pop_tail l s).0 ≡ x) × TailPopped l x q s (pop_tail l s).1
unfolding pop_tail
pop_tail-TailPopped l x q s et ne ep = (
  ground arith,
  record {
    new_head = ground arith;
    new_tail = ground arith;
    detached = ground arith;
    second = ground arith;
    other_nodes = ground arith;
    other_ends = ground arith;
  },
)

-- The state after a node `x` has been taken out of list `l`.
pub record Taken (l x : ℕ) (xs : List ℕ) (t : Store) : Type 0 where
  pub rest : IsList t l xs
  pub free : IsDetached (t.node x)

module _ (l : ℕ) {s t : Store} where
  pop_head-Seg :
      {x q tail : ℕ} {xs : List ℕ}
      → HeadPopped l x q s t
      → Seg s l x q xs tail null
      → has x xs ≡ false
      → Distinct xs
      → Seg t l null q xs (if q == null then null else tail) null
  pop_head-Seg e nil out d = nil
  pop_head-Seg e (cons {x = y} k h) out d =
      let first : (y == null) ≡ false = ground arith in
      rw first (
        Seg-enter null (cons k h) (ground arith)
          λ a m. e.other_nodes a (ground arith) (ground arith))

  pop_tail-Seg :
      {x q head : ℕ} {xs : List ℕ}
      → TailPopped l x q s t
      → Seg s l null head xs q x
      → has x xs ≡ false
      → Distinct xs
      → Seg t l null (if q == null then null else head) xs q null
  pop_tail-Seg e nil out d = nil
  pop_tail-Seg {q} e (cons {x = y} {xs} k h) out d =
      let kept : (q == null) ≡ false = last-ne_null (cons k h) in
      let old : has q (y ∷ xs) ≡ true = last-mem (cons k h) in
      rw kept
        (Seg-extend null (cons k h) d (ground arith) λ a m i. e.other_nodes a (ground arith) i)

module _ (l x : ℕ) {s : Store} {xs : List ℕ} where
  -- Popping the head of a list returns its first node, detached, and leaves the others in order.
  pub pop_head-Taken : IsList s l (x ∷ xs) → ((pop_head l s).0 ≡ x) × Taken l x xs (pop_head l s).1
  pop_head-Taken is =
      let (at, q, k, h) = Seg-first is.links in
      let (got, e) = pop_head-HeadPopped l x q s at k.ne_null k.next_eq in
      (
        got,
        record {
          rest = record {
            links = rw (e.new_head, e.new_tail) (pop_head-Seg l e h is.distinct.0 is.distinct.1);
            distinct = is.distinct.1;
          };
          free = e.detached;
        },
      )

  -- Popping the tail returns the last node, detached, and leaves the others in order.
  pub pop_tail-Taken :
      IsList s l (xs ++ x ∷ []) → ((pop_tail l s).0 ≡ x) × Taken l x xs (pop_tail l s).1
  pop_tail-Taken is =
      let (mid, q, front, back) = Seg-split xs (x ∷ []) is.links in
      let (at, last, k) = Seg-single back in
      let (got, e) = pop_tail-TailPopped l x mid s last k.ne_null k.prev_eq in
      let (out, d) = Distinct-unsnoc xs x is.distinct in
      (
        got,
        record {
          rest = record {
            links = rw (e.new_head, e.new_tail) (pop_tail-Seg l e (rw at at front) out d);
            distinct = d;
          };
          free = e.detached;
        },
      )

-- On an empty list both return the null pointer and change nothing.
pub pop-nil :
    (l : ℕ) {s : Store} → IsList s l [] → (pop_head l s ≡ (null, s)) × (pop_tail l s ≡ (null, s))
unfolding pop_head pop_tail
pop-nil l is = let (h, t) = Seg-nil is.links in ground arith

Seg-start :
    {s : Store} {l before p last : ℕ} {xs : List ℕ}
    → Seg s l before p xs last null
    → p ≢ null
    → has p xs ≡ true
Seg-start nil ne = absurd (ne refl)
Seg-start (cons k h) ne = ground arith

-- Popping the head leaves every other list with nodes of its own as it was.
pub pop_head-frame :
    (l x m : ℕ) {s : Store} {xs ys : List ℕ}
    → IsList s l (x ∷ xs)
    → m ≢ l
    → Apart ys (x ∷ xs)
    → IsList s m ys
    → IsList (pop_head l s).1 m ys
pop_head-frame l x m {s} {xs} {ys} is other apart js =
    let (at, q, k, h) = Seg-first is.links in
    let (got, e) = pop_head-HeadPopped l x q s at k.ne_null k.next_eq in
    IsList-frame (e.other_ends m other)
      (λ a i.
        let away : has a (x ∷ xs) ≡ false = apart a i in
        e.other_nodes a (ground arith) λ at_q.
          let not_null : q ≢ null = λ z. mem-ne_null a js.links i (at_q ∙ z) in
          let inside : has q xs ≡ true = Seg-start h not_null in ground (arith, rw at_q at away))
      js
