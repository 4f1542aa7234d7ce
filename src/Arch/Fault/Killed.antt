-- ===== src/Arch/Fault/Killed.antt =====
-- What a fault does to the process in which it happens.
use hexos.Base.{
  ℕ, ◌<◌, ◌≡◌, ◌≢◌, refl, ap, ◌∙◌, arith, true, false, none, List, ◌∷◌, if◌then◌else◌, ◌==◌, ltb,
}
use hexos.Base.Int.{negsuc}
use hexos.Kernel.List.{null}
use hexos.Kernel.List.Seg.{IsList}
use hexos.Kernel.Process.{Sched, running, exit, switch, leave, state_grave}
use hexos.Kernel.Process.Dispatch.{Runs, started, started-Runs, pick-started}
use hexos.Arch.Fault.{Handlers, killed, on_handler, fault_handler}

-- The state in which `process_exit` looks for the next process.
abbrev exited : Sched → Sched
exited s = record s {
  exitcode = λ a. if a == s.current then negsuc 0 else s.exitcode a;
  state = λ a. if a == s.current then state_grave else s.state a;
  current = null;
  interrupts = false;
}

-- A fault below 32 that has no handler ends the running process and no other: it leaves with the exit
-- code -1 and does not become ready again, and the process that has been ready longest runs.
pub fault_handler-kills :
    (handlers : Handlers) (waits : List (Sched → Sched)) (int_no : ℕ) (s : Sched) (x p : ℕ)
    (xs : List ℕ)
    → handlers int_no ≡ none
    → int_no < 32
    → IsList s.store s.ready (p ∷ xs)
    → s.current ≡ x
    → x ≢ null
    → (t : Sched) × (fault_handler handlers waits int_no s ≡ killed (running t))
      × Runs p xs (λ a. if a == x then state_grave else s.state a) t
      × ((a : ℕ) → t.exitcode a ≡ (if a == x then negsuc 0 else s.exitcode a))
unfolding fault_handler exit switch leave
fault_handler-kills handlers waits int_no s x p xs free low is at ne =
    let some_one : (s.current == null) ≡ false = ground arith in
    let fault : ltb int_no 32 ≡ true = ground arith in
    let r : Runs p xs (exited s).state (started p (exited s)) = started-Runs (exited s) p xs is in
    (
      started p (exited s),
      ap (λ h. on_handler h waits int_no s) free
          ∙ rw (fault, some_one) (ap killed (pick-started (exited s) p xs is waits)),
      record {
        current_eq = r.current_eq;
        ready_list = r.ready_list;
        enabled = r.enabled;
        state_eq = λ a. r.state_eq a ∙ rw at refl;
      },
      λ a. rw at refl,
    )
