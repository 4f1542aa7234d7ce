-- ===== src/Kernel/Process.antt =====
-- kernel/kernel/process.c, mutex.c and clock.c's tick: the scheduler over the lists. A process begins
-- with its list node, so it is named by that node's address. The saving and loading of registers and
-- page tables is not modelled; an interrupt that ends a wait is a function on the state.
pub mod Wakeup
pub mod Dispatch
pub mod Mutex
pub mod Tests
use hexos.Base.{
  ℕ, zero, suc, ◌+◌, ◌^◌, Bool, true, false, ◌&&◌, not, Option, none, some, List, [], ◌∷◌,
  if◌then◌else◌, ◌==◌, leb, add32,
}
use hexos.Base.Int.{ℤ, pos, negsuc}
use hexos.Kernel.List.{null, Store, push_tail, pop_head}

-- PROCESS_STATE_...
abbrev pub state_cradle : ℕ
state_cradle = 0

abbrev pub state_ready : ℕ
state_ready = 1

abbrev pub state_running : ℕ
state_running = 2

abbrev pub state_blocked : ℕ
state_blocked = 3

abbrev pub state_grave : ℕ
state_grave = 4

-- `ready` is the address of `ready_list`; `interrupts`: they are enabled.
pub record Sched : Type 0 where
  pub store : Store
  pub state : ℕ → ℕ
  pub exitcode : ℕ → ℤ
  pub current : ℕ
  pub ready : ℕ
  pub allow_preempt : Bool
  pub interrupts : Bool

abbrev pub set_state : ℕ → ℕ → Sched → Sched
set_state p v s = record s { state = λ a. if a == p then v else s.state a }

abbrev pub push_ready : ℕ → Sched → Sched
push_ready p s = record s { store = push_tail s.ready p s.store }

-- What a switch comes to: a process runs, or the processor waits for an interrupt.
pub data Switch : Type 0 where
  running : Sched → Switch
  waiting : Sched → Switch

abbrev pub run : ℕ → Sched → Switch
run p s = running (record (set_state p state_running s) { current = p; interrupts = true })

-- The loop that takes a process off the ready list, over the interrupts that come.
unfoldable pub pick : List (Sched → Sched) → Sched → Switch
pick [] s =
    let (p, store) = pop_head s.ready s.store in
    if p == null
    then waiting (record s { store = store; current = p; interrupts = true })
    else run p (record s { store = store })
pick (handler ∷ handlers) s =
    let (p, store) = pop_head s.ready s.store in
    let idle = record s { store = store; current = p; interrupts = true } in
    let rest = pick handlers (record (handler idle) { interrupts = false }) in
    if p == null then rest else run p (record s { store = store })

-- The part of `process_switch` before the loop.
unfoldable pub leave : ℕ → Sched → Sched
leave newstate s =
    let off = record s { interrupts = false } in
    let marked = set_state s.current newstate off in
    let left = if newstate == state_ready then push_ready s.current marked else marked in
    record (if s.current == null then off else left) { current = null }

unfoldable pub switch : ℕ → List (Sched → Sched) → Sched → Switch
switch newstate handlers s = pick handlers (leave newstate s)

unfoldable pub preempt : List (Sched → Sched) → Sched → Switch
preempt handlers s =
    let ready_head = (s.store.ends s.ready).head in
    if s.allow_preempt && not (s.current == null) && not (ready_head == null)
    then switch state_ready handlers s
    else running s

unfoldable pub yield : List (Sched → Sched) → Sched → Switch
yield handlers s = switch state_ready handlers s

unfoldable pub exit : ℤ → List (Sched → Sched) → Sched → Switch
exit code handlers s =
    switch state_grave handlers
      (record s { exitcode = λ a. if a == s.current then code else s.exitcode a })

unfoldable pub wait : ℕ → List (Sched → Sched) → Sched → Switch
wait q handlers s =
    switch state_blocked handlers (record s { store = push_tail q s.current s.store })

unfoldable pub wakeup : ℕ → Sched → Sched
wakeup q s =
    let (p, store) = pop_head q s.store in
    let popped = record s { store = store } in
    if p == null then popped else push_ready p (set_state p state_ready popped)

-- The loop of `process_wakeup_all`, on fuel.
unfoldable pub wakeup_all : ℕ → ℕ → Sched → Option Sched
wakeup_all zero q s = none
wakeup_all (suc fuel) q s =
    let (p, store) = pop_head q s.store in
    let popped = record s { store = store } in
    let rest = wakeup_all fuel q (push_ready p (set_state p state_ready popped)) in
    if p == null then some popped else rest

-- `process_print_all`, but for the text that it prints.
unfoldable pub print_all : ℕ → ℕ → Sched → Option Sched
print_all zero q s = none
print_all (suc fuel) q s =
    let (p, store) = pop_head q s.store in
    let rest = print_all fuel q (record s { store = store }) in
    if p == null then some (record s { store = store }) else rest
