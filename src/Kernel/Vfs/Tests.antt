-- ===== src/Kernel/Vfs/Tests.antt =====
-- The root file system with nothing mounted.
use hexos.Base.{ℕ, ◌↔◌, none}
use hexos.Kernel.Vfs.{FsNode, RootNode, fs_root, fs_mnt, mnt_name}
use hexos.Kernel.Vfs.Root.{Found, Listed, finddir_fs_iff_Listed}

abbrev unmounted : FsNode ℕ RootNode
unmounted = record {
  flags = 0;
  inode = 0;
  length = 0;
  read = none;
  write = none;
  open_node = none;
  close_node = none;
  readdir = none;
  finddir = none;
  free_node = none;
  parent = record { mini_inode = 0; mini_impl = 0; recreate = none };
}

finddir_fs_iff_Listed_example :
    (Found unmounted 7 fs_root mnt_name ↔ Listed unmounted 7 fs_root mnt_name)
    × (Found unmounted 7 fs_mnt mnt_name ↔ Listed unmounted 7 fs_mnt mnt_name)
finddir_fs_iff_Listed_example = finddir_fs_iff_Listed unmounted 7 mnt_name
