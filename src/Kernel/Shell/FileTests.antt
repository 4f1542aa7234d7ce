-- ===== src/Kernel/Shell/FileTests.antt =====
-- A directory with one file of two blocks; the state is the buffer.
use hexos.Base.{
  ℕ, zero, suc, ◌+◌, ◌*◌, ◌%◌, ◌≡◌, refl, arith, Option, none, some, [], ◌∷◌, ◌++◌, if◌then◌else◌,
  ◌==◌, get_or, get_elem?, ap,
}
use native.Mathlib.Nat.{zero-add}
use hexos.Kernel.Vfs.{Dirent, FsNode, same_name, readdir_fs, finddir_fs, read_fs}
use hexos.Kernel.Shell.{Command, ls, cat}
use hexos.Kernel.Shell.Commands.{codes, Files, Session, Outcome, done, run_command, string_in}
use hexos.Kernel.Shell.Files.{IsFile, slice, cat-prints}
use hexos.Kernel.Shell.Listing.{IsListing, lines, ls-prints}

abbrev content : ℕ → ℕ
content j = 65 + j % 26

abbrev Node : Type 0
Node = FsNode (ℕ → ℕ) ℕ

abbrev entry : Dirent
entry = record { d_ino = 0; d_name = codes "A.TXT" }

abbrev directory : Node
directory = record {
  flags = 2;
  inode = 0;
  length = 0;
  read = none;
  write = none;
  open_node = none;
  close_node = none;
  readdir = some λ i s. (listed i, s);
  finddir = some λ name s. (if same_name name entry.d_name then some 1 else none, s);
  free_node = none;
  parent = record { mini_inode = 0; mini_impl = 0; recreate = none };
}
  where
    listed : ℕ → Option Dirent
    listed zero = some entry
    listed (suc i) = none

abbrev readme : Node
readme = record {
  flags = 1;
  inode = 1;
  length = 3000;
  read = some λ block size s. (size, λ k. content (block * 2048 + k));
  write = none;
  open_node = none;
  close_node = none;
  readdir = none;
  finddir = none;
  free_node = none;
  parent = record { mini_inode = 0; mini_impl = 0; recreate = none };
}

abbrev files : Files (ℕ → ℕ) ℕ
files = record {
  node = λ p s. if p == 0 then directory else readme;
  take_buffer = λ s. s;
  drop_buffer = λ s. s;
  buffer = λ s. s;
}

abbrev Anywhere : (ℕ → ℕ) → Type 0
Anywhere s = Unit {0}

abbrev start : Session (ℕ → ℕ) ℕ
start = record { current = some 0; state = λ k. 0; text = [] }

abbrev others : Command → Session (ℕ → ℕ) ℕ → Outcome (ℕ → ℕ) ℕ
others command s = done s

-- "A.TXT" at 4
abbrev typed : ℕ → ℕ
typed k = get_or (codes "cat A.TXT") k 0

readme-IsFile : IsFile files Anywhere 1 3000 content
unfolding read_fs
readme-IsFile = record {
  length_at = λ s ok. refl;
  keeps = λ s block size ok. tt;
  brings = λ s block size j ok small lt inside. refl;
  text = λ j lt z. omega arith;
}

directory-IsListing : IsListing files Anywhere 0 0 (entry ∷ [])
unfolding readdir_fs
directory-IsListing = record { entries = λ s k ok. one s k; keeps = λ s k ok. tt }
  where
    one : (s : ℕ → ℕ) (k : ℕ) → (readdir_fs (files.node 0 s) (0 + k) s).0 ≡ get_elem? (entry ∷ []) k
    one s zero = refl
    one s (suc k) = ap (λ a. (readdir_fs (files.node 0 s) a s).0) (zero-add (suc k))

typed-found :
    finddir_fs (files.node 0 start.state) (string_in 256 4 typed) start.state
    ≡ (some 1, start.state)
unfolding finddir_fs string_in
typed-found = refl

cat-prints_example :
    (t : Session (ℕ → ℕ) ℕ) × (run_command files 2 others typed (cat 4) start ≡ done t)
    × (t.text ≡ ([] ++ slice 3000 0 content) ++ codes "\n")
    × (t.current ≡ some 0)
cat-prints_example =
    cat-prints files Anywhere 1 0 3000 content 2 4 others typed start start.state readme-IsFile refl
      typed-found refl tt (omega arith) (omega arith)

ls-prints_example :
    (t : Session (ℕ → ℕ) ℕ) × (run_command files 2 others typed ls start ≡ done t)
    × (t.text ≡ [] ++ lines (entry ∷ []))
    × (t.current ≡ some 0)
ls-prints_example =
    ls-prints files Anywhere 0 (entry ∷ []) 2 others typed start directory-IsListing refl tt
      (omega arith) (omega arith)
