-- ===== src/Kernel/Ata.antt =====
-- kernel/kernel/io/ata.c: the driver of the disks. Driver has what it waits for and how it moves data,
-- Commands the reading and writing of blocks, Probe the search for drives. What is printed is left out.
pub mod Driver
pub mod Commands
pub mod Probe
pub mod Waiting
pub mod Transfer
pub mod Ready
pub mod Drive
pub mod Reading
pub mod Packet
pub mod Naming
pub mod Tests
