-- ===== src/Kernel/List/Priority.antt =====
-- `list_push_priority`: where the node goes, and with which priority.
use mathlib.Core.List.{append-nil, append_assoc}
use hexos.Base.{
  ℕ, zero, suc, ◌+◌, ◌<◌, ◌≡◌, refl, ◌≢◌, ◌∙◌, sym, ◌||◌, Bool, true, false, ltb, Option, some,
  List, [], ◌∷◌, ◌++◌, arith, ◌==◌, if◌then◌else◌, length, Bool-cases, inl, inr,
}
use hexos.Base.Int.{ℤ, pos, negsuc, ltb_ℤ}
use hexos.Kernel.List.{
  null, Node, Store, push_head, push_tail, insert_before, goes_before, push_priority_loop,
  push_priority,
}
use hexos.Kernel.List.Seg.{
  has, Distinct, Seg, nil, cons, IsList, Seg-enter, Seg-extend, Seg-append, last-ne_null,
  mem-ne_null, last-ne, Distinct-append, append-Distinct, Seg-nil, Seg-first, has-append,
}
use hexos.Kernel.List.Push.{push_head-IsList, push_tail-IsList}

-- The order of the priorities.
abbrev pub less : ℤ → ℤ → Bool
less (pos a) (pos b) = ltb a b
less (pos a) (negsuc b) = false
less (negsuc a) (pos b) = true
less (negsuc a) (negsuc b) = ltb b a

-- The order that `list_push_priority` makes: `node` goes in front of the first node with a smaller
-- priority (or of the first one past position 5000), and to the end if there is none.
unfoldable pub place : Store → ℤ → ℕ → ℕ → List ℕ → List ℕ
place s pri node i [] = node ∷ []
place s pri node i (x ∷ xs) =
    let rest = place s pri node (i + 1) xs in
    if less (s.node x).priority pri || ltb 5000 i then node ∷ x ∷ xs else x ∷ rest

goes_before-less :
    (pri : ℤ) (n : Node) (i : ℕ) → goes_before pri n i ≡ (less n.priority pri || ltb 5000 i)
goes_before-less pri n i = go n.priority pri
  where
    go : (a b : ℤ) → (if ltb_ℤ a b then true else ltb 5000 i) ≡ (less a b || ltb 5000 i)
    go (pos a) (pos b) = ground arith
    go (pos a) (negsuc b) = ground arith
    go (negsuc a) (pos b) = ground arith
    go (negsuc a) (negsuc b) = ground arith

-- The effect of putting `node` between `a` and `n`.
record Inserted (l node : ℕ) (pri : ℤ) (a n : ℕ) (s t : Store) : Type 0 where
  new_node : t.node node ≡ record { next = n; prev = a; list = l; priority = pri }
  right : t.node n ≡ record (s.node n) { prev = node }
  left : a ≢ null → t.node a ≡ record (s.node a) { next = node }
  new_head : (t.ends l).head ≡ (if a == null then node else (s.ends l).head)
  same_tail : (t.ends l).tail ≡ (s.ends l).tail
  other_nodes : (c : ℕ) → c ≢ node → c ≢ a → c ≢ n → t.node c ≡ s.node c

insert_before-Inserted :
    (l node a n : ℕ) (pri : ℤ) (s : Store)
    → (s.node n).prev ≡ a
    → node ≢ n
    → node ≢ a
    → a ≢ n
    → Inserted l node pri a n s (insert_before l node pri n s)
unfolding insert_before
insert_before-Inserted l node a n pri s e nn na an = record {
  new_node = ground arith;
  right = ground arith;
  left = ground arith;
  new_head = ground arith;
  same_tail = ground arith;
  other_nodes = ground arith;
}

front-Seg :
    {l node a n head : ℕ} {pri : ℤ} {s t : Store} {ws : List ℕ}
    → Inserted l node pri a n s t
    → Seg s l null head ws a n
    → Distinct ws
    → has node ws ≡ false
    → has n ws ≡ false
    → Seg t l null (if a == null then node else head) ws a node
front-Seg e nil d out out' = nil
front-Seg {node} {a} e (cons {x} k h) d out out' =
    let kept : (a == null) ≡ false = last-ne_null (cons k h) in
    rw kept (
      Seg-extend node (cons k h) d (ground arith)
        λ c m i. e.other_nodes c (ground arith) i (ground arith))

module _ {l node a n head : ℕ} {pri : ℤ} {s t : Store} (e : Inserted l node pri a n s t)
    (ne : node ≢ null) where
  inserted-IsList :
      {x : ℕ} {ws xs : List ℕ}
      → head ≡ (s.ends l).head
      → Seg s l null head ws a n
      → Seg s l a n (x ∷ xs) (s.ends l).tail null
      → Distinct (ws ++ x ∷ xs)
      → has node (ws ++ x ∷ xs) ≡ false
      → IsList t l (ws ++ node ∷ x ∷ xs)
  inserted-IsList {x} {ws} {xs} at front back d out =
      let (dw, dx, apart) = Distinct-append ws (x ∷ xs) d in
      let away : (has node ws || has node (x ∷ xs)) ≡ false =
        sym (has-append node ws (x ∷ xs)) ∙ out in
      let here : n ≡ x = (Seg-first back).0 in
      let free : has n ws ≡ false = ground (arith, apart n) in
      record {
        links =
            rw (e.new_head, e.same_tail, ← at)
              (Seg-append (front-Seg e front dw (ground arith) free) (
                cons (ground arith) (
                  Seg-enter node back (ground arith) λ c m.
                    let stays : c ≢ null = mem-ne_null c back (ground arith) in
                    let beyond : has c ws ≡ false = ground (arith, apart c) in
                    e.other_nodes c (ground arith) (λ i. last-ne front stays beyond (sym i))
                      (ground arith))));
        distinct =
            append-Distinct ws (node ∷ x ∷ xs) dw (ground arith, dx) λ c m. ground (arith, apart c);
      }

-- The outcome: the memory after the loop, with the list in the order of `place`.
Placed : ℕ → ℕ → ℤ → ℕ → List ℕ → List ℕ → Store → Option Store → Type 0
Placed l node pri i ws xs s r =
    (t : Store) × (r ≡ some t) × IsList t l (ws ++ place s pri node i xs)

loop-Placed :
    (fuel l node : ℕ) (pri : ℤ) (i : ℕ) {s : Store} {n a : ℕ} {ws xs : List ℕ}
    → node ≢ null
    → IsList s l (ws ++ xs)
    → has node (ws ++ xs) ≡ false
    → Seg s l null (s.ends l).head ws a n
    → Seg s l a n xs (s.ends l).tail null
    → length xs < fuel
    → Placed l node pri i ws xs s (push_priority_loop fuel l node pri n i s)
unfolding push_priority_loop Placed place
loop-Placed zero l node pri i ne is out front back h = absurd (omega arith)
loop-Placed (suc fuel) l node pri i {s} {ws} ne is out front nil h = (
  push_tail l node s,
  refl,
  push_tail-IsList l node ne (rw append-nil at is) (rw append-nil at out),
)
loop-Placed (suc fuel) l node pri i {s} {n} {a} {ws} ne is out front (cons {q} {xs = ys} k h) g =
    let there : (n == null) ≡ false = ground (arith, k.ne_null) in
    let (dw, dx, apart) = Distinct-append ws (n ∷ ys) is.distinct in
    let away : (has node ws || has node (n ∷ ys)) ≡ false =
      sym (has-append node ws (n ∷ ys)) ∙ out in
    let clear : has n ws ≡ false = ground (arith, apart n) in
    let regroup : (ws ++ n ∷ []) ++ ys ≡ ws ++ n ∷ ys = append_assoc ws (n ∷ []) ys in
    elim (Bool-cases (goes_before pri (s.node n) i)) [
      | inl hit ↦
          let e : Inserted l node pri a n s (insert_before l node pri n s) =
            insert_before-Inserted l node a n pri s k.prev_eq (ground arith)
              (λ j. last-ne front ne (ground arith) (sym j)) (last-ne front k.ne_null clear) in
          (
            insert_before l node pri n s,
            rw (there, hit),
            rw (sym (goes_before-less pri (s.node n) i) ∙ hit)
                (inserted-IsList e ne refl front (cons k h) is.distinct out),
          )
      | inr miss ↦
          let rest : Placed l node pri (i + 1) (ws ++ n ∷ []) ys s
              (push_priority_loop fuel l node pri (s.node n).next (i + 1) s) =
            rw k.next_eq (
              loop-Placed fuel l node pri (i + 1) {n = q} {a = n} {ws = ws ++ n ∷ []} {xs = ys} ne
                (rw regroup is) (rw regroup out) (Seg-append front (cons k nil)) h (omega arith)) in
          rw (there, miss, sym (goes_before-less pri (s.node n) i) ∙ miss)
            (rest.0, rest.1, rw append_assoc at rest.2)
    ]

-- With fuel for every node of a well-formed list, `list_push_priority` of a node that is neither null
-- nor in the list ends, and the list is well formed with the other nodes in their order: the new one
-- stands in front of the first node of a smaller priority, or of the first one past position 5000 if
-- that comes before, and at the end if there is none.
pub push_priority-place :
    (fuel l node : ℕ) (pri : ℤ) {s : Store} {xs : List ℕ}
    → node ≢ null
    → IsList s l xs
    → has node xs ≡ false
    → length xs < fuel
    → (t : Store) × (push_priority fuel l node pri s ≡ some t) × IsList t l (place s pri node 0 xs)
unfolding push_priority place
push_priority-place fuel l node pri {s} {xs = []} ne is out h =
    let (e, _) = Seg-nil is.links in (push_head l node s, rw e, push_head-IsList l node ne is out)
push_priority-place fuel l node pri {s} {xs = x ∷ xs} ne is out h =
    let (e, q, k, b) = Seg-first is.links in
    let there : ((s.ends l).head == null) ≡ false = ground (arith, k.ne_null) in
    rw there (unfold Placed in loop-Placed fuel l node pri 0 ne is out nil is.links h)

-- The test of the loop fails at each node of `xs`, counted from `i`.
abbrev pub NoneBelow : Store → ℤ → ℕ → List ℕ → Type 0
NoneBelow s pri i [] = Unit
NoneBelow s pri i (x ∷ xs) = (goes_before pri (s.node x) i ≡ false) × NoneBelow s pri (i + 1) xs

loop-at_end :
    (fuel l node : ℕ) (pri : ℤ) (i : ℕ) {s : Store} {a n last : ℕ} {xs : List ℕ}
    → Seg s l a n xs last null
    → NoneBelow s pri i xs
    → length xs < fuel
    → push_priority_loop fuel l node pri n i s ≡ some (push_tail l node s)
unfolding push_priority_loop
loop-at_end zero l node pri i h b g = absurd (omega arith)
loop-at_end (suc fuel) l node pri i nil b g = refl
loop-at_end (suc fuel) l node pri i {s} {n} (cons {q} k h) b g =
    let there : (n == null) ≡ false = ground (arith, k.ne_null) in
    rw (there, b.0, k.next_eq) (loop-at_end fuel l node pri (i + 1) h b.1 (omega arith))

priority-push_tail :
    (l node : ℕ) (s : Store)
    → (s.ends l).tail ≢ node
    → ((push_tail l node s).node node).priority ≡ pos 0
unfolding push_tail
priority-push_tail l node s ne = ground arith

-- If no node of a non-empty list has a smaller priority, the new node goes to the end, and its own
-- priority becomes 0, whatever priority it was pushed with.
pub push_priority-at_end :
    (fuel l node : ℕ) (pri : ℤ) (x : ℕ) {s : Store} {xs : List ℕ}
    → node ≢ null
    → IsList s l (x ∷ xs)
    → has node (x ∷ xs) ≡ false
    → NoneBelow s pri 0 (x ∷ xs)
    → length (x ∷ xs) < fuel
    → (t : Store) × (push_priority fuel l node pri s ≡ some t)
      × IsList t l ((x ∷ xs) ++ node ∷ [])
      × ((t.node node).priority ≡ pos 0)
unfolding push_priority
push_priority-at_end fuel l node pri x {s} ne is out b h =
    let (e, q, k, rest) = Seg-first is.links in
    let there : ((s.ends l).head == null) ≡ false = ground (arith, k.ne_null) in
    (
      push_tail l node s,
      rw there (loop-at_end fuel l node pri 0 is.links b h),
      push_tail-IsList l node ne is out,
      priority-push_tail l node s (last-ne is.links ne out),
    )
