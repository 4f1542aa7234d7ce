-- ===== src/Libc.antt =====
-- libc: the string functions, number conversion and formatted output.
pub mod Memory
pub mod Number
pub mod Printf
