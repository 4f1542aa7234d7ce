-- ===== src/Kernel/Iso/Records.antt =====
-- kernel/include/kernel/fs/iso9660.h: directory records and path table entries as they lie in memory,
-- and what the functions of iso9660.c work on. The heap and the block device are a parameter.
use hexos.Base.{ℕ, ◌+◌, ◌*◌, ◌^◌}
use hexos.Libc.Memory.{Memory, store}

-- Little-endian numbers in memory.
abbrev pub half : Memory → ℕ → ℕ
half m a = m a + m (a + 1) * 2 ^ 8

abbrev pub dword : Memory → ℕ → ℕ
dword m a = m a + m (a + 1) * 2 ^ 8 + m (a + 2) * 2 ^ 16 + m (a + 3) * 2 ^ 24

-- A zero at the four bytes from `a` on.
abbrev pub clear_dword : ℕ → Memory → Memory
clear_dword a m = store (a + 3) 0 (store (a + 2) 0 (store (a + 1) 0 (store a 0 m)))

-- `iso9660_directory_entry_t` at address `e`.
abbrev pub length_of_record : Memory → ℕ → ℕ
length_of_record m e = m e

abbrev pub lba : Memory → ℕ → ℕ
lba m e = dword m (e + 2)

abbrev pub length_of_file : Memory → ℕ → ℕ
length_of_file m e = dword m (e + 10)

abbrev pub flags : Memory → ℕ → ℕ
flags m e = m (e + 25)

abbrev pub length_of_file_identifier : Memory → ℕ → ℕ
length_of_file_identifier m e = m (e + 32)

-- The address of `file_identifier_and_system_use`.
abbrev pub identifier : ℕ → ℕ
identifier e = e + 33

-- `iso9660_path_table_entry_t` at address `e`.
abbrev pub length_of_directory_identifier : Memory → ℕ → ℕ
length_of_directory_identifier m e = m e

abbrev pub path_lba : Memory → ℕ → ℕ
path_lba m e = dword m (e + 2)

abbrev pub parent_dir_num : Memory → ℕ → ℕ
parent_dir_num m e = half m (e + 6)

-- `location_of_typel_path_table` of the volume descriptor at `v`.
abbrev pub typel_path_table : Memory → ℕ → ℕ
typel_path_table m v = dword m (v + 140)

-- The callback in `fs_node_mini_t`: `iso9660_recreate`, or another function by its address.
pub data Recreate : Type 0 where
  iso9660 : Recreate
  other : ℕ → Recreate

-- `fs_node_mini_t`
pub record Mini : Type 0 where
  pub inode : ℕ
  pub impl : ℕ
  pub recreate : Recreate

-- `iso9660_fs`
pub record IsoFs : Type 0 where
  pub dev : ℕ
  pub mountpoint : Mini

-- `fs_node_t` as this file fills it in; the name is the string in memory from `address` on, and the
-- other callbacks are those of this file.
pub record IsoNode : Type 0 where
  pub address : ℕ
  pub mask : ℕ
  pub uid : ℕ
  pub gid : ℕ
  pub node_flags : ℕ
  pub node_inode : ℕ
  pub node_length : ℕ
  pub node_impl : ℕ
  pub node_recreate : Recreate
  pub parent : Mini

-- sizeof(fs_node_t) and sizeof(iso9660_fs)
abbrev pub node_size : ℕ
node_size = 332

abbrev pub info_size : ℕ
info_size = 16

-- The memory, the state of `main_heap`, and the `iso9660_fs` at each address.
pub record State (H : Type 0) : Type 0 where
  pub memory : Memory
  pub heap : H
  pub infos : ℕ → IsoFs

-- `kalloc` and `kfree` on `main_heap`, and the callback `read_block` of a device: the buffer, the
-- number of blocks and the first block come in, and the memory changes.
pub record Services : Type 1 where
  pub Heap : Type 0
  pub kalloc : ℕ → Heap → ℕ × Heap
  pub kfree : ℕ → Heap → Heap
  pub read_block : ℕ → ℕ → ℕ → ℕ → Memory → Memory
