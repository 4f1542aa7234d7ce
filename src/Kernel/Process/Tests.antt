-- ===== src/Kernel/Process/Tests.antt =====
-- The scheduler with process 10 running, 20 and 30 ready, and 40 waiting in the list at 2; the ready
-- list is at 1.
use hexos.Base.{ℕ, ◌≡◌, refl, true, false, some, [], ◌∷◌, arith, ◌==◌, if◌then◌else◌}
use hexos.Base.Int.{pos}
use hexos.Kernel.List.{Node}
use hexos.Kernel.List.Seg.{Linked, nil, cons, IsList}
use hexos.Kernel.Process.{Sched, running, yield, wait, wakeup_all, state_ready, state_blocked}
use hexos.Kernel.Process.Wakeup.{Queues, Woken, MarkedReady, wakeup_all-Woken}
use hexos.Kernel.Process.Dispatch.{Runs, yield-rotates, wait-blocks}
use hexos.Kernel.Process.Mutex.{Mutex, lock, unlock, taken, blocked, unlock-hands_over}

abbrev entry : ℕ → ℕ → ℕ → Node
entry next prev list = record { next = next; prev = prev; list = list; priority = pos 0 }

abbrev pub processes : Sched
processes = record {
  store = record {
    node = λ a.
        if a == 20
        then entry 30 0 1
        else if a == 30
        then entry 0 20 1
        else if a == 40
        then entry 0 0 2
        else entry 0 0 0;
    ends = λ l.
        if l == 1
        then record { head = 20; tail = 30 }
        else if l == 2
        then record { head = 40; tail = 40 }
        else record { head = 0; tail = 0 };
  };
  state = λ a. if a == 10 then 2 else if a == 40 then 3 else 1;
  exitcode = λ a. pos 0;
  current = 10;
  ready = 1;
  allow_preempt = false;
  interrupts = true;
}

node_20 : Linked processes.store 1 0 20 30
node_20 = record { ne_null = λ e. omega arith; prev_eq = refl; list_eq = refl; next_eq = refl }

node_30 : Linked processes.store 1 20 30 0
node_30 = record { ne_null = λ e. omega arith; prev_eq = refl; list_eq = refl; next_eq = refl }

node_40 : Linked processes.store 2 0 40 0
node_40 = record { ne_null = λ e. omega arith; prev_eq = refl; list_eq = refl; next_eq = refl }

pub ready-IsList : IsList processes.store 1 (20 ∷ 30 ∷ [])
ready-IsList = record { links = cons node_20 (cons node_30 nil); distinct = (refl, (refl, tt)) }

processes-Queues : Queues processes 2 (20 ∷ 30 ∷ []) (40 ∷ [])
processes-Queues = record {
  ready_list = ready-IsList;
  wait_list = record { links = cons node_40 nil; distinct = (refl, tt) };
  ne_ready = λ e. omega arith;
  apart = λ a i. ground arith;
}

wakeup_all-Woken_example :
    (t : Sched) × (wakeup_all 5 2 processes ≡ some t) × Woken processes 2 (20 ∷ 30 ∷ []) (40 ∷ []) t
wakeup_all-Woken_example =
    wakeup_all-Woken 5 2 processes (20 ∷ 30 ∷ []) (40 ∷ []) processes-Queues (omega arith)

yield-rotates_example :
    (t : Sched) × (yield [] processes ≡ running t)
    × Runs 20 (30 ∷ 10 ∷ []) (λ a. if a == 10 then state_ready else processes.state a) t
yield-rotates_example =
    yield-rotates [] processes 10 20 (30 ∷ []) ready-IsList refl (λ e. omega arith) refl

wait-blocks_example :
    (t : Sched) × (wait 2 [] processes ≡ running t)
    × IsList t.store 2 (40 ∷ 10 ∷ [])
    × Runs 20 (30 ∷ []) (λ a. if a == 10 then state_blocked else processes.state a) t
wait-blocks_example =
    wait-blocks [] processes 2 10 20 (30 ∷ []) (40 ∷ []) processes-Queues refl (λ e. omega arith)
      refl refl

abbrev held : Mutex
held = record { locked = true; waitqueue = 2 }

unlock-hands_over_example :
    (lock [] held processes ≡ blocked held (wait 2 [] (record processes { interrupts = false })))
    × Queues (unlock held processes).1 2 (20 ∷ 30 ∷ 40 ∷ []) []
    × MarkedReady (40 ∷ []) processes (unlock held processes).1
    × ((t : Sched)
        → lock [] (unlock held processes).0 t ≡ taken held (record t { interrupts = true }))
unlock-hands_over_example =
    unlock-hands_over held processes 40 (20 ∷ 30 ∷ []) [] [] refl processes-Queues
