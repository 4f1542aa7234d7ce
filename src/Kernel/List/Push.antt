-- ===== src/Kernel/List/Push.antt =====
-- `list_push_head` and `list_push_tail`: what they write, and that the list grows by one node.
use hexos.Base.{
  ℕ, ◌≡◌, refl, sym, ◌≢◌, true, false, List, [], ◌∷◌, ◌++◌, arith, ◌==◌, if◌then◌else◌,
}
use hexos.Base.Int.{pos}
use hexos.Kernel.List.{null, Store, push_head, push_tail}
use hexos.Kernel.List.Seg.{
  has, Distinct, Seg, nil, cons, IsList, Seg-enter, Seg-extend, Seg-append, last-mem, last-ne_null,
  head-ne, last-ne, Distinct-snoc, IsList-frame, Apart, mem-ne_null,
}

-- The effect of `list_push_head` on the memory.
record HeadPushed (l node : ℕ) (s t : Store) : Type 0 where
  new_head : (t.ends l).head ≡ node
  new_tail : (t.ends l).tail ≡ (if (s.ends l).tail == null then node else (s.ends l).tail)
  new_node :
      t.node node ≡ record { next = (s.ends l).head; prev = null; list = l; priority = pos 0 }
  old_head :
      (s.ends l).head ≢ null
      → t.node (s.ends l).head ≡ record (s.node (s.ends l).head) { prev = node }
  other_nodes : (a : ℕ) → a ≢ node → a ≢ (s.ends l).head → t.node a ≡ s.node a
  other_ends : (m : ℕ) → m ≢ l → t.ends m ≡ s.ends m

push_head-HeadPushed :
    (l node : ℕ) (s : Store) → (s.ends l).head ≢ node → HeadPushed l node s (push_head l node s)
unfolding push_head
push_head-HeadPushed l node s apart = record {
  new_head = ground arith;
  new_tail = ground arith;
  new_node = ground arith;
  old_head = ground arith;
  other_nodes = ground arith;
  other_ends = ground arith;
}

-- The effect of `list_push_tail` on the memory.
record TailPushed (l node : ℕ) (s t : Store) : Type 0 where
  new_tail : (t.ends l).tail ≡ node
  new_head : (t.ends l).head ≡ (if (s.ends l).head == null then node else (s.ends l).head)
  new_node :
      t.node node ≡ record { next = null; prev = (s.ends l).tail; list = l; priority = pos 0 }
  old_tail :
      (s.ends l).tail ≢ null
      → t.node (s.ends l).tail ≡ record (s.node (s.ends l).tail) { next = node }
  other_nodes : (a : ℕ) → a ≢ node → a ≢ (s.ends l).tail → t.node a ≡ s.node a
  other_ends : (m : ℕ) → m ≢ l → t.ends m ≡ s.ends m

push_tail-TailPushed :
    (l node : ℕ) (s : Store) → (s.ends l).tail ≢ node → TailPushed l node s (push_tail l node s)
unfolding push_tail
push_tail-TailPushed l node s apart = record {
  new_head = ground arith;
  new_tail = ground arith;
  new_node = ground arith;
  old_tail = ground arith;
  other_nodes = ground arith;
  other_ends = ground arith;
}

module _ (l node : ℕ) {s t : Store} (ne : node ≢ null) where
  push_head-Seg :
      {xs : List ℕ} {head tail : ℕ}
      → HeadPushed l node s t
      → Seg s l null head xs tail null
      → head ≡ (s.ends l).head
      → has node xs ≡ false
      → Distinct xs
      → Seg t l null node (node ∷ xs) (if tail == null then node else tail) null
  push_head-Seg e nil eh out d = cons (ground arith) nil
  push_head-Seg e (cons {x} k h) eh out d = rw (last-ne_null (cons k h)) (
      cons (ground arith) (
        Seg-enter node (cons k h) (ground arith)
          λ a m. e.other_nodes a (ground arith) (ground arith)))

  push_tail-Seg :
      {xs : List ℕ} {head tail : ℕ}
      → TailPushed l node s t
      → Seg s l null head xs tail null
      → tail ≡ (s.ends l).tail
      → has node xs ≡ false
      → Distinct xs
      → Seg t l null (if head == null then node else head) (xs ++ node ∷ []) node null
  push_tail-Seg e nil et out d = cons (ground arith) nil
  push_tail-Seg {tail} e (cons {x} {xs} k h) et out d =
      let at_end : has tail (x ∷ xs) ≡ true = last-mem (cons k h) in
      let not_null : (tail == null) ≡ false = last-ne_null (cons k h) in
      let grown : Seg t l null x (x ∷ xs) tail node =
        Seg-extend node (cons k h) d (ground arith)
          λ a m i. e.other_nodes a (ground arith) (ground arith) in
      let first : (x == null) ≡ false = ground arith in
      rw first (Seg-append grown (cons (ground arith) nil))

module _ (l node : ℕ) {s : Store} {xs : List ℕ} (ne : node ≢ null) (is : IsList s l xs)
    (out : has node xs ≡ false) where
  -- A node that is not in the list becomes its first one.
  pub push_head-IsList : IsList (push_head l node s) l (node ∷ xs)
  push_head-IsList =
      let e : HeadPushed l node s (push_head l node s) =
        push_head-HeadPushed l node s (head-ne is.links ne out) in
      record {
        links =
            rw (e.new_head, e.new_tail) (push_head-Seg l node ne e is.links refl out is.distinct);
        distinct = (out, is.distinct);
      }

  -- A node that is not in the list becomes its last one.
  pub push_tail-IsList : IsList (push_tail l node s) l (xs ++ node ∷ [])
  push_tail-IsList =
      let e : TailPushed l node s (push_tail l node s) =
        push_tail-TailPushed l node s (last-ne is.links ne out) in
      record {
        links =
            rw (e.new_head, e.new_tail) (push_tail-Seg l node ne e is.links refl out is.distinct);
        distinct = Distinct-snoc xs node is.distinct out;
      }

  -- Another list with nodes of its own is left as it was.
  pub push_tail-frame :
      (m : ℕ) {ys : List ℕ}
      → m ≢ l
      → Apart ys (node ∷ xs)
      → IsList s m ys
      → IsList (push_tail l node s) m ys
  push_tail-frame m {ys} other apart js =
      let e : TailPushed l node s (push_tail l node s) =
        push_tail-TailPushed l node s (last-ne is.links ne out) in
      IsList-frame (e.other_ends m other)
        (λ a i.
          let away : has a (node ∷ xs) ≡ false = apart a i in
          e.other_nodes a (ground arith)
            (λ at. last-ne is.links (mem-ne_null a js.links i) (ground arith) (sym at)))
        js
