-- ===== src/Kernel/Iso.antt =====
-- kernel/kernel/fs/iso9660.c and kernel/include/kernel/fs/iso9660.h: the file system of compact discs.
-- Records gives the records on the disc as bytes, Search the functions on a directory, Volume those on
-- the volume and its path table, and on the blocks of a file.
pub mod Records
pub mod Search
pub mod Volume
pub mod Entries
pub mod Listing
pub mod Lookup
pub mod Nodes
pub mod Tight
pub mod Paths
pub mod Reading
pub mod Tests
