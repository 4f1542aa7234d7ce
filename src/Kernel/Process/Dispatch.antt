-- ===== src/Kernel/Process/Dispatch.antt =====
-- `process_switch`: which process runs next, and where the old one goes.
use hexos.Base.{
  ℕ, ◌≡◌, refl, ◌≢◌, sym, ◌∙◌, true, false, List, [], ◌∷◌, ◌++◌, arith, ◌==◌, if◌then◌else◌,
  Bool-cases, inl, inr, subst,
}
use hexos.Kernel.List.{null, push_tail, pop_head}
use hexos.Kernel.List.Seg.{has, IsList, Apart, Seg-first}
use hexos.Kernel.List.Push.{push_tail-IsList, push_tail-frame}
use hexos.Kernel.List.Pop.{pop_head-Taken, pop_head-frame}
use hexos.Kernel.Process.{
  Sched, running, pick, leave, switch, yield, wait, state_ready, state_running, state_blocked,
}
use hexos.Kernel.Process.Wakeup.{Queues, has-snoc}

-- Process `p` runs with interrupts enabled, and the processes of `xs` are ready.
pub record Runs (p : ℕ) (xs : List ℕ) (states : ℕ → ℕ) (s : Sched) : Type 0 where
  pub current_eq : s.current ≡ p
  pub ready_list : IsList s.store s.ready xs
  pub enabled : s.interrupts ≡ true
  pub state_eq : (a : ℕ) → s.state a ≡ (if a == p then state_running else states a)

-- The state once `pick` has found process `p`.
abbrev pub started : ℕ → Sched → Sched
started p s = record s {
  store = (pop_head s.ready s.store).1;
  state = λ a. if a == p then state_running else s.state a;
  current = p;
  interrupts = true;
}

module _ (s : Sched) (p : ℕ) (xs : List ℕ) (is : IsList s.store s.ready (p ∷ xs)) where
  pub started-Runs : Runs p xs s.state (started p s)
  started-Runs = record {
    current_eq = refl;
    ready_list = (pop_head-Taken s.ready p is).1.rest;
    enabled = refl;
    state_eq = λ a. refl;
  }

  -- The first ready process is picked, whatever interrupts would come.
  pub pick-started : (handlers : List (Sched → Sched)) → pick handlers s ≡ running (started p s)
  unfolding pick
  pick-started handlers = go handlers
    where
      found : (p == null) ≡ false
      found = let (_, _, linked, _) = Seg-first is.links in ground (arith, linked.ne_null)

      go : (handlers : List (Sched → Sched)) → pick handlers s ≡ running (started p s)
      go [] = rw ((pop_head-Taken s.ready p is).0, found) refl
      go (h ∷ handlers) = rw ((pop_head-Taken s.ready p is).0, found) refl

-- The state in which `process_yield` looks for the next process.
abbrev yielded : Sched → Sched
yielded s = record s {
  store = push_tail s.ready s.current s.store;
  state = λ a. if a == s.current then state_ready else s.state a;
  current = null;
  interrupts = false;
}

-- The running process joins the ready list at its end, and the first of that list runs.
yield-Runs :
    (handlers : List (Sched → Sched)) (s : Sched) (x p : ℕ) (zs xs : List ℕ)
    → IsList s.store s.ready zs
    → s.current ≡ x
    → x ≢ null
    → has x zs ≡ false
    → zs ++ x ∷ [] ≡ p ∷ xs
    → (t : Sched) × (yield handlers s ≡ running t)
      × Runs p xs (λ a. if a == x then state_ready else s.state a) t
unfolding yield switch leave
yield-Runs handlers s x p zs xs is at ne out e =
    let some_one : (s.current == null) ≡ false = ground arith in
    let pushed : IsList (push_tail s.ready s.current s.store) s.ready (p ∷ xs) =
      rw (sym e, at) (push_tail-IsList s.ready x ne is out) in
    let r : Runs p xs (yielded s).state (started p (yielded s)) =
      started-Runs (yielded s) p xs pushed in
    (
      started p (yielded s),
      rw some_one (pick-started (yielded s) p xs pushed handlers),
      record {
        current_eq = r.current_eq;
        ready_list = r.ready_list;
        enabled = r.enabled;
        state_eq = λ a. r.state_eq a ∙ rw at refl;
      },
    )

-- `process_yield` is a round robin: the running process goes to the end of the ready list, marked
-- ready, and the process that has been ready longest runs.
pub yield-rotates :
    (handlers : List (Sched → Sched)) (s : Sched) (x p : ℕ) (xs : List ℕ)
    → IsList s.store s.ready (p ∷ xs)
    → s.current ≡ x
    → x ≢ null
    → has x (p ∷ xs) ≡ false
    → (t : Sched) × (yield handlers s ≡ running t)
      × Runs p (xs ++ x ∷ []) (λ a. if a == x then state_ready else s.state a) t
yield-rotates handlers s x p xs is at ne out =
    yield-Runs handlers s x p (p ∷ xs) (xs ++ x ∷ []) is at ne out refl

-- With no other process ready, a process that yields goes on running.
pub yield-alone :
    (handlers : List (Sched → Sched)) (s : Sched) (x : ℕ)
    → IsList s.store s.ready []
    → s.current ≡ x
    → x ≢ null
    → (t : Sched) × (yield handlers s ≡ running t)
      × Runs x [] (λ a. if a == x then state_ready else s.state a) t
yield-alone handlers s x is at ne = yield-Runs handlers s x x [] [] is at ne refl refl

-- `process_wait` puts the running process, blocked, at the end of the list it waits in, and the
-- process that has been ready longest runs.
pub wait-blocks :
    (handlers : List (Sched → Sched)) (s : Sched) (q x p : ℕ) (xs ys : List ℕ)
    → Queues s q (p ∷ xs) ys
    → s.current ≡ x
    → x ≢ null
    → has x (p ∷ xs) ≡ false
    → has x ys ≡ false
    → (t : Sched) × (wait q handlers s ≡ running t)
      × IsList t.store q (ys ++ x ∷ [])
      × Runs p xs (λ a. if a == x then state_blocked else s.state a) t
unfolding wait switch leave
wait-blocks handlers s q x p xs ys v at ne out_ready out_wait =
    let some_one : (s.current == null) ≡ false = ground arith in
    let queued : IsList (push_tail q s.current s.store) q (ys ++ x ∷ []) =
      rw at (push_tail-IsList q x ne v.wait_list out_wait) in
    let ready_kept : IsList (push_tail q s.current s.store) s.ready (p ∷ xs) = rw at (
      push_tail-frame q x ne v.wait_list out_wait s.ready (λ e. v.ne_ready (sym e)) apart
        v.ready_list) in
    let r : Runs p xs (blocked s).state (started p (blocked s)) =
      started-Runs (blocked s) p xs ready_kept in
    (
      started p (blocked s),
      rw some_one (pick-started (blocked s) p xs ready_kept handlers),
      pop_head-frame s.ready p q ready_kept v.ne_ready grown_apart queued,
      record {
        current_eq = r.current_eq;
        ready_list = r.ready_list;
        enabled = r.enabled;
        state_eq = λ a. r.state_eq a ∙ rw at refl;
      },
    )
  where
    blocked : Sched → Sched
    blocked s = record s {
      store = push_tail q s.current s.store;
      state = λ a. if a == s.current then state_blocked else s.state a;
      current = null;
      interrupts = false;
    }

    apart : Apart (p ∷ xs) (x ∷ ys)
    apart a i = elim (Bool-cases (a == x)) [
      | inl same ↦
          let eq : a ≡ x = ground arith in
          let inside : has x (p ∷ xs) ≡ true = subst (λ z. has z (p ∷ xs) ≡ true) eq i in
          absurd (cc (sym inside ∙ out_ready))
      | inr other ↦ rw other (v.apart a i)
    ]

    grown_apart : Apart (ys ++ x ∷ []) (p ∷ xs)
    grown_apart a i = elim (Bool-cases (has a (p ∷ xs))) [
      | inl inside ↦ absurd (ground (arith, has-snoc a x ys, apart a inside))
      | inr out ↦ out
    ]
