-- ===== src/Kernel.antt =====
-- The files of kernel/kernel: lists, processes, memory, devices.
pub mod List
pub mod Heap
pub mod Mem
pub mod Process
pub mod Iso
pub mod Keyboard
pub mod Ata
pub mod Clock
pub mod Rtc
pub mod Shell
pub mod Vfs
pub mod Pci
pub mod Timer
