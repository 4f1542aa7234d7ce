-- ===== src/Arch/Fault/Tests.antt =====
-- A page fault in process 10, while 20 and 30 are ready.
use hexos.Base.{ℕ, ◌≡◌, refl, arith, none, [], ◌∷◌, if◌then◌else◌, ◌==◌}
use hexos.Base.Int.{negsuc}
use hexos.Kernel.Process.{Sched, running, state_grave}
use hexos.Kernel.Process.Dispatch.{Runs}
use hexos.Kernel.Process.Tests.{processes, ready-IsList}
use hexos.Arch.Fault.{Handlers, killed, fault_handler}
use hexos.Arch.Fault.Killed.{fault_handler-kills}

abbrev no_handlers : Handlers
no_handlers k = none

fault_handler-kills_example :
    (t : Sched) × (fault_handler no_handlers [] 14 processes ≡ killed (running t))
    × Runs 20 (30 ∷ []) (λ a. if a == 10 then state_grave else processes.state a) t
    × ((a : ℕ) → t.exitcode a ≡ (if a == 10 then negsuc 0 else processes.exitcode a))
fault_handler-kills_example =
    fault_handler-kills no_handlers [] 14 processes 10 20 (30 ∷ []) refl (omega arith) ready-IsList
      refl (λ e. omega arith)
