-- ===== src/Kernel/Ata/Tests.antt =====
-- Drives under a clock that ticks once in a wait.
use hexos.Base.{
  ℕ, ◌+◌, ◌*◌, ◌%◌, ◌^◌, ◌≡◌, refl, arith, Bool, true, false, ◌==◌, none, some, if◌then◌else◌,
}
use hexos.Base.Int.{pos}
use hexos.Libc.Memory.{Memory}
use hexos.Arch.Irq.{Ports}
use hexos.Kernel.Clock.{clock_read, tick}
use hexos.Kernel.Process.{Sched}
use hexos.Kernel.Ata.Driver.{Machine, Kernel, out, ata_wait, fdh_port}
use hexos.Kernel.Ata.Waiting.{Ticking, Waited, ata_wait-ends}
use hexos.Kernel.Ata.Ready.{unit_flags}
use hexos.Kernel.Ata.Drive.{
  Phase, status_of, after_status, after_write, after_word, after_read, word_of, IsDrive,
}

-- The devices are the number of the next word, and what the registers hold.
abbrev Drive : Type 0
Drive = ℕ × (ℕ → ℕ)

abbrev ports : Ports
ports = record {
  Dev = Drive;
  inb = λ p d. (72, d);
  outb = λ p v d. (d.0, λ q. if q == p then v else d.1 q);
}

abbrev machine : Machine
machine = record {
  ports = ports;
  inw = λ p d. (d.0 % 2 ^ 16, (d.0 + 1, d.1));
  outw = λ p v d. d;
  clock_queue = 3;
  ata_queue = 4;
  resume = λ switched w. record w { clock = tick w.clock };
}

abbrev idle : Sched
idle = record {
  store = record {
    node = λ a. record { next = 0; prev = 0; list = 0; priority = pos 0 };
    ends = λ l. record { head = 0; tail = 0 };
  };
  state = λ a. 0;
  exitcode = λ a. pos 0;
  current = 0;
  ready = 1;
  allow_preempt = false;
  interrupts = true;
}

abbrev world : Kernel machine
world = record {
  dev = (500, λ p. 0);
  memory = λ x. 0;
  clock = record { clicks = 7; total_seconds = 12 };
  sched = idle;
  routines = λ irq. none;
  ata_mutex = record { locked = false; waitqueue = 5 };
  interrupt_active = false;
}

machine-Ticking : Ticking machine
machine-Ticking = record { lasts = λ switched w. (1, omega arith, omega arith, refl) }

ata_wait-ends_example :
    (b : Bool) × (w : Kernel machine) × (ata_wait machine 32 2 128 0 world ≡ some (b, w))
    × Waited machine 2 128 0 (clock_read world.clock) b w
ata_wait-ends_example =
    ata_wait-ends machine-Ticking 32 2 128 0 world (omega arith)
      (record { low = omega arith; young = omega arith })

abbrev chosen : Kernel machine
chosen = out machine (fdh_port 2) (unit_flags machine 2 0x1234567) world

-- A packet drive as unit 2, on which word `k` of block `b` is 3 * b + k.
abbrev pattern_disc : ℕ → ℕ → ℕ
pattern_disc b k = 3 * b + k

abbrev drive : Machine
drive = record {
  ports = record {
    Dev = Phase;
    inb = λ port p. if port == 375 then (status_of p, after_status p) else (0, p);
    outb = λ port value p. after_write 2 port value p;
  };
  inw = λ port p. (word_of pattern_disc p, after_read p);
  outw = λ port word p. after_word word p;
  clock_queue = 3;
  ata_queue = 4;
  resume = λ switched w. record w { clock = tick w.clock };
}

drive-IsDrive : IsDrive drive 2 pattern_disc
drive-IsDrive = record {
  phase = λ p. p;
  status = λ p. refl;
  seen = λ p. refl;
  written = λ port value p low high unit. refl;
  word_in = λ p. refl;
  read = λ p. refl;
  word_out = λ word p. refl;
}

abbrev drive_world : Kernel drive
drive_world = record {
  dev = Phase.idle;
  memory = λ x. 0;
  clock = record { clicks = 7; total_seconds = 12 };
  sched = idle;
  routines = λ irq. none;
  ata_mutex = record { locked = false; waitqueue = 5 };
  interrupt_active = false;
}
