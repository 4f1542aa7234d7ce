-- ===== src/Arch/Fault.antt =====
-- kernel/arch/i386/isr.c: `interrupt_register` and `fault_handler`, over the scheduler. What is printed
-- is left out.
pub mod Killed
pub mod Tests
use hexos.Base.{ℕ, Option, none, some, List, if◌then◌else◌, ◌==◌, ltb}
use hexos.Base.Int.{negsuc}
use hexos.Kernel.List.{null}
use hexos.Kernel.Process.{Sched, Switch, exit}

-- `interrupt_handlers`, for the numbers below 32; a handler is given the number twice.
abbrev pub Handlers : Type 0
Handlers = ℕ → Option (ℕ → ℕ → Sched → Sched)

unfoldable pub interrupt_register : ℕ → (ℕ → ℕ → Sched → Sched) → Handlers → Handlers
interrupt_register i handler handlers = λ k. if k == i then some handler else handlers k

-- What a fault comes to: its handler returned; the kernel stops after a non-maskable interrupt, or
-- panics with the message of that number; the process is killed; or nothing is done.
pub data Fault : Type 0 where
  handled : Sched → Fault
  nmi_stop : Fault
  panic : ℕ → Fault
  killed : Switch → Fault
  ignored : Fault

-- The part behind the search for a handler. `waits` are the interrupts during `process_exit`.
abbrev pub unhandled : List (Sched → Sched) → ℕ → Sched → Fault
unhandled waits int_no s =
    if ltb int_no 32
    then if s.current == null
      then if int_no == 2 then nmi_stop else panic int_no
      else killed (exit (negsuc 0) waits s)
    else ignored

abbrev pub on_handler : Option (ℕ → ℕ → Sched → Sched) → List (Sched → Sched) → ℕ → Sched → Fault
on_handler none waits int_no s = unhandled waits int_no s
on_handler (some handler) waits int_no s = handled (handler int_no int_no s)

unfoldable pub fault_handler : Handlers → List (Sched → Sched) → ℕ → Sched → Fault
fault_handler handlers waits int_no s = on_handler (handlers int_no) waits int_no s
