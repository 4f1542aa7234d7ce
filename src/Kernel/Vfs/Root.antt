-- ===== src/Kernel/Vfs/Root.antt =====
-- The file system at the root: a name is found exactly where it is listed.
use hexos.Base.{
  ℕ, ◌≡◌, refl, ◌↔◌, ap₂, arith, true, some, List, [], ◌∷◌, Bool-cases, inl, inr, sym, ◌==◌,
}
use hexos.Kernel.Vfs.{
  Dirent, FsNode, RootNode, fs_root, fs_mnt, fs_cdrom_mnt, mnt_name, cdrom_name, same_name,
  root_readdir, root_finddir, vfs_init, readdir_fs, finddir_fs,
}

pub same_name-eq : (a b : List ℕ) → same_name a b ≡ true → a ≡ b
same_name-eq [] [] h = refl
same_name-eq [] (d ∷ b) h = cc
same_name-eq (c ∷ a) [] h = cc
same_name-eq (c ∷ a) (d ∷ b) h =
    let heads : c ≡ d = ground arith in ap₂ ◌∷◌ heads (same_name-eq a b (ground arith))

module _ {S : Type 0} (before : FsNode S RootNode) (s : S) where
  abbrev node : RootNode → FsNode S RootNode
  node p = vfs_init before p

  -- The name is listed in the directory, at some index.
  abbrev pub Listed : RootNode → List ℕ → Type 0
  Listed p name =
      (num : ℕ) × (e : Dirent) × ((readdir_fs (node p) num s).0 ≡ some e) × (e.d_name ≡ name)

  abbrev pub Found : RootNode → List ℕ → Type 0
  Found p name = (q : RootNode) × ((finddir_fs (node p) name s).0 ≡ some q)

  abbrev entry : List ℕ → Dirent
  entry name = record { d_ino = 0; d_name = name }

  Found-root : (name : List ℕ) → Found fs_root name → Listed fs_root name
  unfolding vfs_init readdir_fs finddir_fs root_readdir root_finddir
  Found-root name (q, e) = elim (Bool-cases (same_name name mnt_name)) [
    | inl same ↦ (0, entry mnt_name, refl, sym (same_name-eq name mnt_name same))
    | inr other ↦ absurd (cc (rw other at e))
  ]

  Found-mnt : (name : List ℕ) → Found fs_mnt name → Listed fs_mnt name
  unfolding vfs_init readdir_fs finddir_fs root_readdir root_finddir
  Found-mnt name (q, e) = elim (Bool-cases (same_name name cdrom_name)) [
    | inl same ↦ (0, entry cdrom_name, refl, sym (same_name-eq name cdrom_name same))
    | inr other ↦ absurd (cc (rw other at e))
  ]

  name_eq :
      {e : Dirent} {name text : List ℕ} → some (entry text) ≡ some e → e.d_name ≡ name → name ≡ text
  name_eq e h = cc

  Listed-root : (name : List ℕ) → Listed fs_root name → Found fs_root name
  unfolding vfs_init readdir_fs finddir_fs root_readdir root_finddir
  Listed-root name (num, e, at, named) = elim (Bool-cases (num == 0)) [
    | inl first ↦
        let same : name ≡ mnt_name = name_eq (rw first at at) named in (fs_mnt, rw same refl)
    | inr more ↦ absurd (cc (rw more at at))
  ]

  Listed-mnt : (name : List ℕ) → Listed fs_mnt name → Found fs_mnt name
  unfolding vfs_init readdir_fs finddir_fs root_readdir root_finddir
  Listed-mnt name (num, e, at, named) = elim (Bool-cases (num == 0)) [
    | inl first ↦
        let same : name ≡ cdrom_name = name_eq (rw first at at) named in
        (fs_cdrom_mnt, rw same refl)
    | inr more ↦ absurd (cc (rw more at at))
  ]

  -- Once `vfs_init` has run, a name is found in the root directory, and in the directory of mounts,
  -- exactly if it is listed there at some index.
  pub finddir_fs_iff_Listed :
      (name : List ℕ)
      → (Found fs_root name ↔ Listed fs_root name) × (Found fs_mnt name ↔ Listed fs_mnt name)
  finddir_fs_iff_Listed name =
      ((Found-root name, Listed-root name), (Found-mnt name, Listed-mnt name))
