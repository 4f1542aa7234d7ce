-- ===== src/Kernel/Vfs.antt =====
-- kernel/kernel/vfs.c and kernel/include/kernel/vfs.h: the nodes of the virtual file system, and the
-- file system at its root. A callback is an optional function on a state `S`; a pointer to a node is
-- a value of a type `P`, or none.
pub mod Root
pub mod Tests
use hexos.Base.{
  ℕ, zero, suc, ◌+◌, ◌^◌, Bool, true, false, ◌&&◌, Option, none, some, List, [], ◌∷◌, if◌then◌else◌,
  ◌==◌, bit_and,
}

abbrev pub fs_directory : ℕ
fs_directory = 2

-- `dirent`
pub record Dirent : Type 0 where
  pub d_ino : ℕ
  pub d_name : List ℕ

-- `fs_node_mini_t`: the inode, the number for the file system, and the callback that makes the node
-- again, which takes the two.
pub record FsNodeMini (S P : Type 0) : Type 0 where
  pub mini_inode : ℕ
  pub mini_impl : ℕ
  pub recreate : Option (ℕ → ℕ → S → Option P × S)

-- `fs_node_t`, without the owner, the permissions and the name, which nothing here reads. `read` and `write`
-- take the offset and the size.
pub record FsNode (S P : Type 0) : Type 0 where
  pub flags : ℕ
  pub inode : ℕ
  pub length : ℕ
  pub read : Option (ℕ → ℕ → S → ℕ × S)
  pub write : Option (ℕ → ℕ → S → ℕ × S)
  pub open_node : Option (ℕ → ℕ → S → S)
  pub close_node : Option (S → S)
  pub readdir : Option (ℕ → S → Option Dirent × S)
  pub finddir : Option (List ℕ → S → Option P × S)
  pub free_node : Option (S → S)
  pub parent : FsNodeMini S P

module _ {S : Type 0} where
  abbrev pub transfer : Option (ℕ → ℕ → S → ℕ × S) → ℕ → ℕ → S → ℕ × S
  transfer none offset size s = (0, s)
  transfer (some f) offset size s = f offset size s

  abbrev pub effect : Option (S → S) → S → S
  effect none s = s
  effect (some f) s = f s

  abbrev pub opened : Option (ℕ → ℕ → S → S) → ℕ → ℕ → S → S
  opened none read write s = s
  opened (some f) read write s = f read write s

  abbrev pub listed : Option (ℕ → S → Option Dirent × S) → ℕ → S → Option Dirent × S
  listed none index s = (none, s)
  listed (some f) index s = f index s

module _ {S P : Type 0} where
  abbrev pub is_directory : FsNode S P → Bool
  is_directory node = bit_and node.flags 7 == fs_directory

  abbrev pub looked_up : Option (List ℕ → S → Option P × S) → List ℕ → S → Option P × S
  looked_up none name s = (none, s)
  looked_up (some f) name s = f name s

  unfoldable pub read_fs : FsNode S P → ℕ → ℕ → S → ℕ × S
  read_fs node offset size s = transfer node.read offset size s

  unfoldable pub write_fs : FsNode S P → ℕ → ℕ → S → ℕ × S
  write_fs node offset size s = transfer node.write offset size s

  unfoldable pub open_fs : FsNode S P → ℕ → ℕ → S → S
  open_fs node read write s = opened node.open_node read write s

  unfoldable pub close_fs : FsNode S P → S → S
  close_fs node s = effect node.close_node s

  unfoldable pub readdir_fs : FsNode S P → ℕ → S → Option Dirent × S
  readdir_fs node index s = if is_directory node then listed node.readdir index s else (none, s)

  unfoldable pub finddir_fs : FsNode S P → List ℕ → S → Option P × S
  finddir_fs node name s = if is_directory node then looked_up node.finddir name s else (none, s)

  unfoldable pub free_node_fs : FsNode S P → S → S
  free_node_fs node s = effect node.free_node s

-- `fs_root`, `fs_mnt` and `fs_cdrom_mnt`
pub data RootNode : Type 0 where
  fs_root : RootNode
  fs_mnt : RootNode
  fs_cdrom_mnt : RootNode

-- "mnt" and "cdrom0"
abbrev pub mnt_name : List ℕ
mnt_name = 109 ∷ 110 ∷ 116 ∷ []

abbrev pub cdrom_name : List ℕ
cdrom_name = 99 ∷ 100 ∷ 114 ∷ 111 ∷ 109 ∷ 48 ∷ []

-- `!strcmp(a, b)`
abbrev pub same_name : List ℕ → List ℕ → Bool
same_name [] [] = true
same_name [] (d ∷ b) = false
same_name (c ∷ a) [] = false
same_name (c ∷ a) (d ∷ b) = (c == d) && same_name a b

-- By the inode of the node.
unfoldable pub root_readdir : ℕ → ℕ → Option Dirent
root_readdir inode num =
    if inode == 0
    then if num == 0 then some (record { d_ino = 0; d_name = mnt_name }) else none
    else if inode == 1
    then if num == 0 then some (record { d_ino = 0; d_name = cdrom_name }) else none
    else none

unfoldable pub root_finddir : RootNode → List ℕ → Option RootNode
root_finddir fs_root name = if same_name name mnt_name then some fs_mnt else none
root_finddir fs_mnt name = if same_name name cdrom_name then some fs_cdrom_mnt else none
root_finddir fs_cdrom_mnt name = none

unfoldable pub root_recreate : ℕ → Option RootNode
root_recreate inode = if inode == 0 then some fs_root else if inode == 1 then some fs_mnt else none

-- The nodes once `vfs_init` has run; `before` is what `fs_cdrom_mnt` held, which a mount fills in.
unfoldable pub vfs_init : {S : Type 0} → FsNode S RootNode → RootNode → FsNode S RootNode
vfs_init before fs_root = record {
  flags = fs_directory;
  inode = 0;
  length = 0;
  read = none;
  write = none;
  open_node = none;
  close_node = none;
  readdir = some λ num s. (root_readdir 0 num, s);
  finddir = some λ name s. (root_finddir fs_root name, s);
  free_node = some λ s. s;
  parent = record { mini_inode = 0; mini_impl = 0; recreate = none };
}
vfs_init before fs_mnt = record {
  flags = fs_directory;
  inode = 1;
  length = 0;
  read = none;
  write = none;
  open_node = none;
  close_node = none;
  readdir = some λ num s. (root_readdir 1 num, s);
  finddir = some λ name s. (root_finddir fs_mnt name, s);
  free_node = some λ s. s;
  parent = record {
    mini_inode = 0;
    mini_impl = 0;
    recreate = some λ inode impl s. (root_recreate inode, s);
  };
}
vfs_init before fs_cdrom_mnt = record before { free_node = some λ s. s }
