-- ===== src/Kernel/Iso/Tests.antt =====
-- A disc of one directory, and a heap that hands out one address after the other.
use hexos.Base.{
  within, replicate, length, ℕ, ◌+◌, ◌-◌, ◌≡◌, refl, arith, ◌==◌, List, [], ◌∷◌, ◌++◌, get_or, some,
  none, if◌then◌else◌, inl, inr,
}
use hexos.Libc.Memory.{Memory}
use hexos.Kernel.Iso.Records.{Mini, IsoFs, IsoNode, State, Services, iso9660, other}
use hexos.Kernel.Iso.Search.{load_directory, readdir, finddir}
use hexos.Kernel.Iso.Volume.{find_parent}
use hexos.Kernel.Iso.Entries.{Entry, IsEntry, Directory}
use hexos.Kernel.Iso.Listing.{Listed, readdir-Listed}
use hexos.Kernel.Iso.Nodes.{Answered, finddir-Answered}
use hexos.Kernel.Iso.Tight.{finddir-tight}
use hexos.Kernel.Iso.Paths.{PathEntry, parent_mini, find_parent-PathTable}

-- A record with a block below 256, a length below 256, and an identifier.
abbrev record_bytes : Entry → List ℕ
record_bytes e =
    (e.size ∷ 0 ∷ e.block ∷ replicate 7 0)
    ++ (e.bytes ∷ replicate 14 0)
    ++ (e.flag ∷ replicate 6 0)
    ++ (length e.name ∷ e.name)
    ++ replicate (e.size - 33 - length e.name) 0

abbrev self : Entry
self = record { size = 34; name = 0 ∷ []; block = 20; bytes = 100; flag = 2 }

abbrev up : Entry
up = record { size = 34; name = 1 ∷ []; block = 19; bytes = 100; flag = 2 }

-- "AB", with a byte behind it
abbrev padded : Entry
padded = record { size = 36; name = 65 ∷ 66 ∷ []; block = 30; bytes = 5; flag = 0 }

-- "A", with none
abbrev tight : Entry
tight = record { size = 34; name = 65 ∷ []; block = 31; bytes = 7; flag = 0 }

abbrev directory : ℕ → List ℕ
directory block =
    if block == 20
    then record_bytes self ++ record_bytes up ++ record_bytes padded
    else record_bytes self ++ record_bytes up ++ record_bytes tight ++ record_bytes padded

abbrev disc : ℕ → ℕ → ℕ
disc block k = get_or (directory block) k 0

abbrev services : Services
services = record {
  Heap = ℕ;
  kalloc = λ n h. (h, h + n);
  kfree = λ a h. h;
  read_block =
      λ dev buffer n block m x. if within buffer 2048 x then disc block (x - buffer) else m x;
}

-- The string "AB" at 100.
abbrev memory : Memory
memory x = if x == 100 then 65 else if x == 101 then 66 else 0

abbrev root : Mini
root = record { inode = 1; impl = 0; recreate = other 7 }

abbrev start : State ℕ
start = record { memory = memory; heap = 5000; infos = λ a. record { dev = 2; mountpoint = root } }

abbrev node : ℕ → IsoNode
node block = record {
  address = 3000;
  mask = 0;
  uid = 0;
  gid = 0;
  node_flags = 2;
  node_inode = block;
  node_length = 100;
  node_impl = 4000;
  node_recreate = iso9660;
  parent = root;
}

abbrev files : List Entry
files = up ∷ padded ∷ []

-- The memory with the directory in its buffer, at 5000.
abbrev loaded : ℕ → Memory
loaded block = (load_directory services (node block) start).1.memory

up-IsEntry : IsEntry up (loaded 20) 5034 5200
up-IsEntry = record {
  size_at = refl;
  name_length = refl;
  name_at = omega arith;
  named = cc;
  short = omega arith;
  fits = omega arith;
  inside = omega arith;
  block_at = refl;
  bytes_at = refl;
  flag_at = refl;
}

padded-IsEntry : IsEntry padded (loaded 20) 5068 5200
padded-IsEntry = record {
  size_at = refl;
  name_length = refl;
  name_at = omega arith;
  named = cc;
  short = omega arith;
  fits = omega arith;
  inside = omega arith;
  block_at = refl;
  bytes_at = refl;
  flag_at = refl;
}

up-IsEntry_tight : IsEntry up (loaded 21) 5034 5200
up-IsEntry_tight = record {
  size_at = refl;
  name_length = refl;
  name_at = omega arith;
  named = cc;
  short = omega arith;
  fits = omega arith;
  inside = omega arith;
  block_at = refl;
  bytes_at = refl;
  flag_at = refl;
}

tight-IsEntry : IsEntry tight (loaded 21) 5068 5200
tight-IsEntry = record {
  size_at = refl;
  name_length = refl;
  name_at = omega arith;
  named = cc;
  short = omega arith;
  fits = omega arith;
  inside = omega arith;
  block_at = refl;
  bytes_at = refl;
  flag_at = refl;
}

padded-IsEntry_behind : IsEntry padded (loaded 21) 5102 5200
padded-IsEntry_behind = record {
  size_at = refl;
  name_length = refl;
  name_at = omega arith;
  named = cc;
  short = omega arith;
  fits = omega arith;
  inside = omega arith;
  block_at = refl;
  bytes_at = refl;
  flag_at = refl;
}

files-Directory : Directory 34 (up ∷ padded ∷ []) (loaded 20) 5000 5200
files-Directory = record {
  first_at = refl;
  nonempty = omega arith;
  entries = (up-IsEntry, (padded-IsEntry, refl));
}

tight-Directory : Directory 34 (up ∷ tight ∷ padded ∷ []) (loaded 21) 5000 5200
tight-Directory = record {
  first_at = refl;
  nonempty = omega arith;
  entries = (up-IsEntry_tight, (tight-IsEntry, (padded-IsEntry_behind, refl)));
}

readdir-Listed_example :
    Listed services 200 5000
      (load_directory services (node 20) start).1
      (some padded)
      (readdir services 10 200 (node 20) 0 start)
readdir-Listed_example =
    readdir-Listed services 10 200 0 34 5200 (node 20) start (up ∷ padded ∷ []) files-Directory
      (omega arith) (omega arith) (omega arith)

finddir-Answered_example :
    Answered services 5000
      (node 20)
      (load_directory services (node 20) start).1
      (some padded)
      (finddir services 10 (node 20) 100 start)
finddir-Answered_example =
    finddir-Answered services 10 100 34 5200 (node 20) start (65 ∷ 66 ∷ []) (up ∷ padded ∷ [])
      files-Directory (inl refl, (inr (omega arith), tt)) (omega arith) (inl (omega arith))
      (inr (omega arith)) (omega arith)

finddir-tight_example :
    (m : Memory) × (finddir services 10 (node 21) 100 start
      ≡ some (none, record (load_directory services (node 21) start).1 { memory = m; heap = 7048 }))
finddir-tight_example =
    finddir-tight services 10 100 34 5200 (node 21) start (65 ∷ 66 ∷ []) up tight (padded ∷ [])
      tight-Directory refl refl refl refl (omega arith) (inl (omega arith)) (omega arith)

-- A path table of the root and one directory in it.
abbrev path_bytes : List ℕ
path_bytes = 1 ∷ 0 ∷ 20 ∷ 0 ∷ 0 ∷ 0 ∷ 1 ∷ 0 ∷ 0 ∷ 0 ∷ 2 ∷ 0 ∷ 25 ∷ 0 ∷ 0 ∷ 0 ∷ 1 ∷ 0 ∷ 68 ∷ 69 ∷ []

abbrev path_memory : Memory
path_memory x = get_or path_bytes x 0

abbrev path_root : PathEntry
path_root = record { name_length = 1; block = 20; up = 1 }

abbrev path_sub : PathEntry
path_sub = record { name_length = 2; block = 25; up = 1 }

abbrev info : IsoFs
info = record { dev = 2; mountpoint = root }

find_parent-PathTable_example :
    find_parent 9 0 25 4000 info path_memory ≡ some (some (parent_mini info 4000 path_root 1))
find_parent-PathTable_example =
    find_parent-PathTable (path_root ∷ path_sub ∷ []) 1 9 0 25 4000 info path_memory path_sub
      path_root
      (
        record { length_at = refl; named = omega arith; block_at = refl; up_at = refl },
        (record { length_at = refl; named = omega arith; block_at = refl; up_at = refl }, refl),
      )
      (omega arith) refl refl (omega arith)
