-- ===== src/Kernel/List/Seg.antt =====
-- Runs of linked nodes, and what a well-formed list is.
use hexos.Base.{
  ℕ, ◌≡◌, refl, ◌≢◌, Bool, true, false, ◌||◌, sym, ◌∙◌, List, [], ◌∷◌, ◌++◌, arith, ◌==◌,
}
use hexos.Kernel.List.{null, Store}

abbrev pub has : ℕ → List ℕ → Bool
has a [] = false
has a (x ∷ xs) = (a == x) || has a xs

abbrev pub Distinct : List ℕ → Type 0
Distinct [] = Unit
Distinct (x ∷ xs) = (has x xs ≡ false) × Distinct xs

-- Node `x` of list `l` stands between `before` and `after`.
pub record Linked (s : Store) (l before x after : ℕ) : Type 0 where
  pub ne_null : x ≢ null
  pub prev_eq : (s.node x).prev ≡ before
  pub list_eq : (s.node x).list ≡ l
  pub next_eq : (s.node x).next ≡ after

-- From `p`, behind `before`, the links run through the nodes of list `l` in the given order; then
-- come the last of them (or `before`) and what follows it.
pub data Seg (s : Store) (l : ℕ) : ℕ → ℕ → List ℕ → ℕ → ℕ → Type 0 where
  nil : {before after : ℕ} → Seg s l before after [] before after
  cons :
      {before x q last after : ℕ} {xs : List ℕ}
      → Linked s l before x q
      → Seg s l x q xs last after
      → Seg s l before x (x ∷ xs) last after

-- The list at `l` holds the distinct nodes `xs`, first to last, linked both ways.
pub record IsList (s : Store) (l : ℕ) (xs : List ℕ) : Type 0 where
  pub links : Seg s l null (s.ends l).head xs (s.ends l).tail null
  pub distinct : Distinct xs

-- `s` and `t` agree on the nodes of `xs`.
abbrev pub SameOn : List ℕ → Store → Store → Type 0
SameOn xs s t = (a : ℕ) → has a xs ≡ true → t.node a ≡ s.node a

-- They agree on the nodes of `xs` other than `x`.
abbrev pub SameBut : ℕ → List ℕ → Store → Store → Type 0
SameBut x xs s t = (a : ℕ) → has a xs ≡ true → a ≢ x → t.node a ≡ s.node a

pub Seg-frame :
    {s t : Store} {l before p last after : ℕ} {xs : List ℕ}
    → Seg s l before p xs last after
    → SameOn xs s t
    → Seg t l before p xs last after
Seg-frame nil same = nil
Seg-frame (cons {x} k h) same =
    cons (ground (arith, same x)) (Seg-frame h λ a m. same a (ground arith))

pub Seg-append :
    {s : Store} {l before p mid q last after : ℕ} {xs ys : List ℕ}
    → Seg s l before p xs mid q
    → Seg s l mid q ys last after
    → Seg s l before p (xs ++ ys) last after
Seg-append nil g = g
Seg-append (cons k h) g = cons k (Seg-append h g)

-- The first node gets another predecessor.
pub Seg-enter :
    {s t : Store} {l before p last after x : ℕ} {xs : List ℕ} (c : ℕ)
    → Seg s l before p (x ∷ xs) last after
    → t.node x ≡ record (s.node x) { prev = c }
    → SameOn xs s t
    → Seg t l c p (x ∷ xs) last after
Seg-enter c (cons k h) e same = cons (ground arith) (Seg-frame h same)

pub last-mem :
    {s : Store} {l before p last after x : ℕ} {xs : List ℕ}
    → Seg s l before p (x ∷ xs) last after
    → has last (x ∷ xs) ≡ true
last-mem (cons k nil) = ground arith
last-mem (cons k (cons k' h)) = ground (arith, last-mem (cons k' h))

pub last-ne_null :
    {s : Store} {l before p last after x : ℕ} {xs : List ℕ}
    → Seg s l before p (x ∷ xs) last after
    → (last == null) ≡ false
last-ne_null (cons k nil) = ground arith
last-ne_null (cons k (cons k' h)) = last-ne_null (cons k' h)

pub mem-ne_null :
    {s : Store} {l before p last after : ℕ} {xs : List ℕ} (a : ℕ)
    → Seg s l before p xs last after
    → has a xs ≡ true
    → a ≢ null
mem-ne_null a nil m = absurd (ground arith)
mem-ne_null a (cons k h) m = ground (arith, mem-ne_null a h)

-- The last node gets another successor.
pub Seg-extend :
    {s t : Store} {l before p last after x : ℕ} {xs : List ℕ} (r : ℕ)
    → Seg s l before p (x ∷ xs) last after
    → Distinct (x ∷ xs)
    → t.node last ≡ record (s.node last) { next = r }
    → SameBut last (x ∷ xs) s t
    → Seg t l before p (x ∷ xs) last r
Seg-extend r (cons k nil) d e same = cons (ground arith) nil
Seg-extend {last} r (cons {x} {xs = ys} k (cons k' h)) d e same =
    let behind : has last ys ≡ true = last-mem (cons k' h) in
    let other : x ≢ last = λ i. subst_out i behind in
    cons (ground (arith, same x)) (Seg-extend r (cons k' h) d.1 e λ a m. same a (ground arith))
  where
    subst_out : x ≡ last → has last ys ≡ true → ⊥
    subst_out i m = ground arith

-- The first node of a list is none outside it, and neither is the last.
pub head-ne :
    {s : Store} {l before p last node : ℕ} {xs : List ℕ}
    → Seg s l before p xs last null
    → node ≢ null
    → has node xs ≡ false
    → p ≢ node
head-ne nil ne out = ground arith
head-ne (cons k h) ne out = ground arith

pub last-ne :
    {s : Store} {l p last after node : ℕ} {xs : List ℕ}
    → Seg s l null p xs last after
    → node ≢ null
    → has node xs ≡ false
    → last ≢ node
last-ne nil ne out = ground arith
last-ne (cons k h) ne out = ground (arith, last-mem (cons k h))

pub has-append : (a : ℕ) (xs ys : List ℕ) → has a (xs ++ ys) ≡ (has a xs || has a ys)
has-append a [] ys = refl
has-append a (x ∷ xs) ys = ground (arith, has-append a xs ys)

pub Distinct-snoc : (xs : List ℕ) (x : ℕ) → Distinct xs → has x xs ≡ false → Distinct (xs ++ x ∷ [])
Distinct-snoc [] x d out = (refl, tt)
Distinct-snoc (y ∷ ys) x d out =
    (ground (arith, has-append y ys (x ∷ [])), Distinct-snoc ys x d.1 (ground arith))

pub Distinct-unsnoc :
    (xs : List ℕ) (x : ℕ) → Distinct (xs ++ x ∷ []) → (has x xs ≡ false) × Distinct xs
Distinct-unsnoc [] x d = (refl, tt)
Distinct-unsnoc (y ∷ ys) x d =
    let (out, d') = Distinct-unsnoc ys x d.1 in
    let apart : (has y ys || has y (x ∷ [])) ≡ false = sym (has-append y ys (x ∷ [])) ∙ d.0 in
    (ground arith, (ground arith, d'))

pub Seg-nil :
    {s : Store} {l before p last after : ℕ}
    → Seg s l before p [] last after
    → (p ≡ after) × (last ≡ before)
Seg-nil nil = (refl, refl)

-- No node of `xs` is one of `ys`.
abbrev pub Apart : List ℕ → List ℕ → Type 0
Apart xs ys = (a : ℕ) → has a xs ≡ true → has a ys ≡ false

pub IsList-frame :
    {s t : Store} {l : ℕ} {xs : List ℕ}
    → t.ends l ≡ s.ends l
    → SameOn xs s t
    → IsList s l xs
    → IsList t l xs
IsList-frame e same is = record { links = rw e (Seg-frame is.links same); distinct = is.distinct }

-- A run through `xs ++ ys` falls into two.
pub Seg-split :
    {s : Store} {l before p last after : ℕ} (xs ys : List ℕ)
    → Seg s l before p (xs ++ ys) last after
    → (mid : ℕ) × (q : ℕ) × Seg s l before p xs mid q × Seg s l mid q ys last after
Seg-split {before} {p} [] ys h = (before, p, nil, h)
Seg-split (x ∷ xs) ys (cons k h) =
    let (mid, q, front, back) = Seg-split xs ys h in (mid, q, cons k front, back)

pub Distinct-append :
    (xs ys : List ℕ) → Distinct (xs ++ ys) → Distinct xs × Distinct ys × Apart xs ys
Distinct-append [] ys d = (tt, d, λ a m. absurd (ground arith))
Distinct-append (x ∷ xs) ys d =
    let (front, back, apart) = Distinct-append xs ys d.1 in
    (
      (ground (arith, has-append x xs ys), front),
      back,
      λ a m. ground (arith, has-append x xs ys, apart a),
    )

pub append-Distinct :
    (xs ys : List ℕ) → Distinct xs → Distinct ys → Apart xs ys → Distinct (xs ++ ys)
append-Distinct [] ys front back apart = back
append-Distinct (x ∷ xs) ys front back apart = (
  ground (arith, has-append x xs ys, apart x),
  append-Distinct xs ys front.1 back λ a m. apart a (ground arith),
)

pub Seg-single :
    {s : Store} {l before p last after x : ℕ}
    → Seg s l before p (x ∷ []) last after
    → (p ≡ x) × (last ≡ x) × Linked s l before x after
Seg-single (cons k nil) = (refl, refl, k)

pub Seg-first :
    {s : Store} {l before p last after x : ℕ} {xs : List ℕ}
    → Seg s l before p (x ∷ xs) last after
    → (p ≡ x) × (q : ℕ) × Linked s l before x q × Seg s l x q xs last after
Seg-first (cons {q} k h) = (refl, q, k, h)
