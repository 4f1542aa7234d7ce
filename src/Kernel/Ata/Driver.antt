-- ===== src/Kernel/Ata/Driver.antt =====
-- kernel/kernel/io/ata.c: waiting for a drive, and moving data through its port; with `clock_wait` of
-- clock.c and the loop of `mutex_lock` of mutex.c, which it waits by. The ports are a parameter, and so
-- is what the rest of the kernel does while the process of a call does not run. Loops run on fuel.
use mathlib.Core.Option
use hexos.Base.{
  ℕ, zero, suc, ◌+◌, ◌*◌, ◌/◌, ◌%◌, ◌^◌, Bool, true, false, not, Option, none, some, [],
  if◌then◌else◌, ◌==◌, ltb, ◌>>=◌, bit_and,
}
use hexos.Arch.Irq.{Ports, Routines}
use hexos.Libc.Memory.{Memory, store}
use hexos.Kernel.Clock.{Clock, Time, clock_read, clock_diff, keeps_waiting}
use hexos.Kernel.Process.{Sched, Switch, wait, wakeup_all}
use hexos.Kernel.Process.Mutex.{Mutex, Lock, taken, blocked, lock, unlock}

-- The handlers that `irq_install_handler` is given: `ata_interrupt`, or another by its address.
pub data Handler : Type 0 where
  ata_interrupt_handler : Handler
  other : ℕ → Handler

-- The devices, and the parts of the kernel that the driver touches: `ata_interrupt_active` and
-- `ata_mutex`, the memory, the clock, the processes and the interrupt handlers.
pub record World (D : Type 0) : Type 0 where
  pub dev : D
  pub memory : Memory
  pub clock : Clock
  pub sched : Sched
  pub routines : Routines Handler
  pub ata_mutex : Mutex
  pub interrupt_active : Bool

-- Ports of 8 and 16 bits, and the addresses of the two lists of waiting processes. `resume` is what
-- happens from a switch until the process that waited runs again.
pub record Machine : Type 1 where
  pub ports : Ports
  pub inw : ℕ → ports.Dev → ℕ × ports.Dev
  pub outw : ℕ → ℕ → ports.Dev → ports.Dev
  pub clock_queue : ℕ
  pub ata_queue : ℕ
  pub resume : Switch → World ports.Dev → World ports.Dev

-- ata_base, for the units 0 to 3
abbrev pub ata_base : ℕ → ℕ
ata_base id = if ltb id 2 then 496 else 368

-- ATA_DATA, ATA_FDH, ATA_STATUS and ATA_COMMAND, and ATA_CONTROL
abbrev pub data_port : ℕ → ℕ
data_port id = ata_base id

abbrev pub fdh_port : ℕ → ℕ
fdh_port id = ata_base id + 6

abbrev pub status_port : ℕ → ℕ
status_port id = ata_base id + 7

abbrev pub control_port : ℕ → ℕ
control_port id = ata_base id + 518

-- ATA_STATUS_BSY, ATA_STATUS_RDY, ATA_STATUS_DRQ and ATA_STATUS_ERR
abbrev pub busy : ℕ
busy = 128

abbrev pub ready : ℕ
ready = 64

abbrev pub data_request : ℕ
data_request = 8

abbrev pub error_bit : ℕ
error_bit = 1

-- ATA_TIMEOUT
abbrev pub timeout : ℕ
timeout = 2

module _ (machine : Machine) where
  open machine use {ports, inw, outw, clock_queue, ata_queue, resume}

  abbrev pub Kernel : Type 0
  Kernel = World ports.Dev

  -- What a function gives back: `none` when its fuel runs out, else whether it succeeded.
  abbrev pub Outcome : Type 0
  Outcome = Option (Bool × Kernel)

  -- `if (!...) return 0;`
  infixl 5 ◌proceed◌
  abbrev pub ◌proceed◌ : Outcome → (Kernel → Outcome) → Outcome
  none proceed next = none
  some (true, w) proceed next = next w
  some (false, w) proceed next = some (false, w)

  abbrev pub out : ℕ → ℕ → Kernel → Kernel
  out port value w = record w { dev = ports.outb port value w.dev }

  -- `process_wait`
  abbrev pub process_wait : ℕ → Kernel → Kernel
  process_wait queue w = resume (wait queue [] w.sched) w

  -- The loop of `clock_wait`.
  unfoldable pub wait_clicks : ℕ → ℕ → Time → Kernel → Option Kernel
  wait_clicks zero millis start w = none
  wait_clicks (suc fuel) millis start w =
      let w' = process_wait clock_queue w in
      let rest = wait_clicks fuel millis start w' in
      if keeps_waiting millis start (clock_read w'.clock) then rest else some w'

  unfoldable pub clock_wait : ℕ → ℕ → Kernel → Option Kernel
  clock_wait fuel millis w = wait_clicks fuel millis (clock_read w.clock) w

  unfoldable pub ata_reset : ℕ → ℕ → Kernel → Option Kernel
  ata_reset fuel id w = clock_wait fuel 1 (out (control_port id) 4 w) >>= λ w'.
      clock_wait fuel 1 (out (control_port id) 0 w')

  -- `ata_reset(id); return 0;`
  abbrev pub give_up : ℕ → ℕ → Kernel → Outcome
  give_up fuel id w = Option.map (λ w'. (false, w')) (ata_reset fuel id w)

  -- The loop of `ata_wait`.
  unfoldable pub wait_status : ℕ → ℕ → ℕ → ℕ → Time → Kernel → Outcome
  wait_status zero id mask state start w = none
  wait_status (suc fuel) id mask state start w =
      let (t, d) = ports.inb (status_port id) w.dev in
      let w' = record w { dev = d } in
      let elapsed = clock_diff start (clock_read w'.clock) in
      let rest = clock_wait fuel 0 w' >>= wait_status fuel id mask state start in
      if bit_and t mask == state
      then some (true, w')
      else if not (bit_and t error_bit == 0)
      then give_up fuel id w'
      else if ltb timeout elapsed.seconds
      then give_up fuel id w'
      else rest

  unfoldable pub ata_wait : ℕ → ℕ → ℕ → ℕ → Kernel → Outcome
  ata_wait fuel id mask state w = wait_status fuel id mask state (clock_read w.clock) w

  -- The loop of `ata_pio_read`, by the rounds left.
  unfoldable pub read_words : ℕ → ℕ → ℕ → Kernel → Kernel
  read_words zero id buffer w = w
  read_words (suc n) id buffer w =
      let (word, d) = inw (data_port id) w.dev in
      let m = store (buffer + 1) (word / 2 ^ 8 % 2 ^ 8) (store buffer (word % 2 ^ 8) w.memory) in
      read_words n id (buffer + 2) (record w { dev = d; memory = m })

  unfoldable pub ata_pio_read : ℕ → ℕ → ℕ → Kernel → Kernel
  ata_pio_read id buffer size w = read_words ((size + 1) / 2) id buffer w

  -- The loop of `ata_pio_write`, over the bytes of the buffer.
  unfoldable pub write_words : ℕ → ℕ → ℕ → (ℕ → ℕ) → Kernel → Kernel
  write_words zero id at bytes w = w
  write_words (suc n) id at bytes w =
      let word = bytes at + bytes (at + 1) * 2 ^ 8 in
      write_words n id (at + 2) bytes (record w { dev = outw (data_port id) word w.dev })

  unfoldable pub ata_pio_write : ℕ → (ℕ → ℕ) → ℕ → Kernel → Kernel
  ata_pio_write id bytes size w = write_words ((size + 1) / 2) id 0 bytes w

  -- `if (ata_interrupt_active) process_wait(&queue);`
  abbrev pub await_interrupt : Kernel → Kernel
  await_interrupt w = if w.interrupt_active then process_wait ata_queue w else w

  -- `ata_interrupt`; `fuel` is for the wakeup.
  unfoldable pub ata_interrupt : ℕ → Kernel → Option Kernel
  ata_interrupt fuel w =
      Option.map (λ s. record w { sched = s; interrupt_active = true })
        (wakeup_all fuel ata_queue w.sched)

  -- A round of `mutex_lock`, and the next one once the process runs again.
  abbrev pub lock_round : (Kernel → Option Kernel) → Kernel → Lock → Option Kernel
  lock_round again w (taken m s) = some (record w { ata_mutex = m; sched = s })
  lock_round again w (blocked m switched) = again (resume switched (record w { ata_mutex = m }))

  unfoldable pub mutex_lock : ℕ → Kernel → Option Kernel
  mutex_lock zero w = none
  mutex_lock (suc fuel) w = lock_round (mutex_lock fuel) w (lock [] w.ata_mutex w.sched)

  unfoldable pub mutex_unlock : Kernel → Kernel
  mutex_unlock w = let (m, s) = unlock w.ata_mutex w.sched in record w { ata_mutex = m; sched = s }
