-- ===== src/Kernel/Process/Wakeup.antt =====
-- `process_wakeup` and `process_wakeup_all`: the waiting processes get ready in their order.
use hexos.Base.{
  ℕ, zero, suc, ◌<◌, ◌≡◌, refl, ◌≢◌, sym, ap, ◌∙◌, true, false, some, List, [], ◌∷◌, ◌++◌, arith,
  ◌==◌, if◌then◌else◌, length, Bool-cases, inl, inr,
}
use hexos.Kernel.List.{null, pop_head}
use hexos.Kernel.List.Seg.{has, IsList, Apart, Seg-first}
use hexos.Kernel.List.Push.{push_tail-IsList, push_tail-frame}
use hexos.Kernel.List.Pop.{pop_head-Taken, pop_head-frame, pop-nil}
use hexos.Kernel.Process.{Sched, wakeup, wakeup_all, print_all, push_ready, set_state, state_ready}

-- The ready list holds `xs` and the list at `q` holds `ys`, two lists with no node in common.
pub record Queues (s : Sched) (q : ℕ) (xs ys : List ℕ) : Type 0 where
  pub ready_list : IsList s.store s.ready xs
  pub wait_list : IsList s.store q ys
  pub ne_ready : q ≢ s.ready
  pub apart : Apart xs ys

-- The processes of `ys` are marked ready, and no other process's state differs.
abbrev pub MarkedReady : List ℕ → Sched → Sched → Type 0
MarkedReady ys s t = (a : ℕ) → t.state a ≡ (if has a ys then state_ready else s.state a)

append_assoc : (xs ys zs : List ℕ) → (xs ++ ys) ++ zs ≡ xs ++ (ys ++ zs)
append_assoc [] ys zs = refl
append_assoc (x ∷ xs) ys zs = ap (λ l. x ∷ l) (append_assoc xs ys zs)

append_nil : (xs : List ℕ) → xs ++ [] ≡ xs
append_nil [] = refl
append_nil (x ∷ xs) = ap (λ l. x ∷ l) (append_nil xs)

pub has-snoc : (a x : ℕ) (xs : List ℕ) → has a (xs ++ x ∷ []) ≡ (if has a xs then true else a == x)
has-snoc a x [] = ground arith
has-snoc a x (y ∷ xs) = ground (arith, has-snoc a x xs)

-- One process moves from the list at `q` to the end of the ready list.
step-Queues :
    (s : Sched) (q y : ℕ) (xs ys : List ℕ)
    → Queues s q xs (y ∷ ys)
    → ((pop_head q s.store).0 ≡ y)
      × (y ≢ null)
      × Queues
          (push_ready y (set_state y state_ready (record s { store = (pop_head q s.store).1 })))
          q
          (xs ++ y ∷ [])
          ys
step-Queues s q y xs ys v =
    let (got, t) = pop_head-Taken q y v.wait_list in
    let (_, _, k, _) = Seg-first v.wait_list.links in
    let out : has y xs ≡ false = outside in
    let ready_kept : IsList (pop_head q s.store).1 s.ready xs =
      pop_head-frame q y s.ready v.wait_list (λ e. v.ne_ready (sym e)) v.apart v.ready_list in
    (
      got,
      k.ne_null,
      record {
        ready_list = push_tail-IsList s.ready y k.ne_null ready_kept out;
        wait_list =
            push_tail-frame s.ready y k.ne_null ready_kept out q v.ne_ready (rest_apart out) t.rest;
        ne_ready = v.ne_ready;
        apart = grown_apart;
      },
    )
  where
    outside : has y xs ≡ false
    outside = elim (Bool-cases (has y xs)) [
      | inl inside ↦ absurd (ground (arith, v.apart y))
      | inr out ↦ out
    ]

    rest_apart : has y xs ≡ false → Apart ys (y ∷ xs)
    rest_apart out a i = elim (Bool-cases (has a xs)) [
      | inl inside ↦ absurd (ground (arith, v.apart a))
      | inr out_a ↦ ground (arith, v.wait_list.distinct.0)
    ]

    grown_apart : Apart (xs ++ y ∷ []) ys
    grown_apart a i = ground (arith, has-snoc a y xs, v.apart a, v.wait_list.distinct.0)

-- `process_wakeup` takes the process that has waited longest to the end of the ready list, and marks
-- it, and no other, ready.
pub wakeup-Queues :
    (s : Sched) (q y : ℕ) (xs ys : List ℕ)
    → Queues s q xs (y ∷ ys)
    → Queues (wakeup q s) q (xs ++ y ∷ []) ys × MarkedReady (y ∷ []) s (wakeup q s)
unfolding wakeup
wakeup-Queues s q y xs ys v =
    let (got, ne, moved) = step-Queues s q y xs ys v in
    let some_one : (y == null) ≡ false = ground arith in
    rw (got, some_one) (moved, λ a. ground arith)

Queues-nil :
    (s : Sched) (q : ℕ) (xs : List ℕ) → Queues s q xs [] → pop_head q s.store ≡ (null, s.store)
Queues-nil s q xs v = (pop-nil q v.wait_list).0

-- The list at `q` is empty, and its processes follow those that were ready, in their order, ready.
pub record Woken (s : Sched) (q : ℕ) (xs ys : List ℕ) (t : Sched) : Type 0 where
  pub queues : Queues t q (xs ++ ys) []
  pub states : MarkedReady ys s t

-- `process_wakeup_all` ends, and moves all the waiting processes behind the ready ones, in the order
-- in which they wait; their states, and no others, become ready.
pub wakeup_all-Woken :
    (fuel q : ℕ) (s : Sched) (xs ys : List ℕ)
    → Queues s q xs ys
    → length ys < fuel
    → (t : Sched) × (wakeup_all fuel q s ≡ some t) × Woken s q xs ys t
unfolding wakeup_all
wakeup_all-Woken zero q s xs ys v lt = absurd (omega arith)
wakeup_all-Woken (suc fuel) q s xs [] v lt =
    let e : pop_head q s.store ≡ (null, s.store) = Queues-nil s q xs v in
    (s, rw e refl, record { queues = rw (append_nil xs) v; states = λ a. refl })
wakeup_all-Woken (suc fuel) q s xs (y ∷ ys) v lt =
    let (got, ne, moved) = step-Queues s q y xs ys v in
    let some_one : (y == null) ≡ false = ground arith in
    let (t, e, w) =
      wakeup_all-Woken fuel q
        (push_ready y (set_state y state_ready (record s { store = (pop_head q s.store).1 })))
        (xs ++ y ∷ []) ys moved (omega arith) in
    (
      t,
      rw (got, some_one) e,
      record {
        queues = rw (append_assoc xs (y ∷ []) ys) at w.queues;
        states = λ a. w.states a ∙ ground arith;
      },
    )

-- `process_print_all` ends with the list empty: the processes that it names are in no list any more.
pub print_all-empties :
    (fuel q : ℕ) (s : Sched) (ys : List ℕ)
    → IsList s.store q ys
    → length ys < fuel
    → (t : Sched) × (print_all fuel q s ≡ some t)
      × IsList t.store q []
      × ((a : ℕ) → t.state a ≡ s.state a)
unfolding print_all
print_all-empties zero q s ys is lt = absurd (omega arith)
print_all-empties (suc fuel) q s [] is lt =
    let (e, _) = pop-nil q is in (s, rw e refl, is, λ a. refl)
print_all-empties (suc fuel) q s (y ∷ ys) is lt =
    let (got, t) = pop_head-Taken q y is in
    let (_, _, k, _) = Seg-first is.links in
    let some_one : (y == null) ≡ false = ground (arith, k.ne_null) in
    let (u, e, empty, same) =
      print_all-empties fuel q (record s { store = (pop_head q s.store).1 }) ys t.rest
        (omega arith) in
    (u, rw (got, some_one) e, empty, same)
