-- ===== src/Arch.antt =====
-- kernel/arch/i386: the terminal, the descriptor tables, interrupts and faults, and the serial line.
pub mod Tty
pub mod Tables
pub mod Irq
pub mod Serial
pub mod Fault
