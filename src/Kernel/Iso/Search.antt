-- ===== src/Kernel/Iso/Search.antt =====
-- kernel/kernel/fs/iso9660.c: listing a directory, looking a name up, and making a node of a directory
-- record. The loops run on fuel, `none` when it runs out. A buffer is the memory from an address on,
-- with what lies behind it.
use mathlib.Core.Option
use hexos.Base.{
  ℕ, zero, suc, ◌+◌, Bool, true, false, not, ◌&&◌, Option, none, some, if◌then◌else◌, ◌==◌, leb,
  ◌>>=◌, add32, bit_and,
}
use hexos.Base.Int.{ℤ, pos, negsuc}
use hexos.Libc.Memory.{Memory, store, strcmp, strcpy}
use hexos.Kernel.Iso.Records.{
  Mini, IsoNode, State, Services, iso9660, node_size, clear_dword, length_of_record, lba,
  length_of_file, flags, length_of_file_identifier, identifier,
}

-- A copied identifier has at most 255 characters.
abbrev pub name_fuel : ℕ
name_fuel = 256

-- strcpy(d, "error"); d[6] = 0;
abbrev pub error_name : ℕ → Memory → Memory
error_name d m = store (d + 6) 0 (
    store (d + 5) 0 (
      store (d + 4) 114
        (store (d + 3) 111 (store (d + 2) 114 (store (d + 1) 114 (store d 101 m))))))

-- The test that leaves out the first record and the one of the parent.
abbrev pub is_shown : Bool → ℕ → Memory → Bool
is_shown skip_first entry m = not skip_first && not (m (identifier entry) == 1)

-- file_identifier_and_system_use[length_of_file_identifier] = '\0'
abbrev pub terminate : ℕ → Memory → Memory
terminate entry m = store (identifier entry + length_of_file_identifier m entry) 0 m

-- The answer of `iso9660_readdir` in `iso9660_resp`, at address `resp`: `d_ino`, and `d_name` behind it.
unfoldable pub respond : ℕ → ℕ → Memory → Option Memory
respond resp entry m =
    let named =
      if leb (length_of_file_identifier m entry) 255
      then strcpy name_fuel (resp + 4) (identifier entry) (terminate entry m)
      else some (error_name (resp + 4) m) in
    Option.map (clear_dword resp) named

-- The loop of `iso9660_readdir`, which returns whether there is an answer.
unfoldable pub readdir_loop : ℕ → ℕ → ℕ → ℕ → Bool → ℕ → Memory → Option (Bool × Memory)
readdir_loop zero resp i entry skip_first count m = none
readdir_loop (suc fuel) resp i entry skip_first count m =
    let shown = is_shown skip_first entry m in
    let next = if shown then add32 count 1 else count in
    let rest = readdir_loop fuel resp i (entry + length_of_record m entry) false next m in
    if length_of_record m entry == 0
    then some (false, m)
    else if shown && (count == i)
    then Option.map (λ m'. (true, m')) (respond resp entry m)
    else rest

-- `if (!strcmp(...))`, by the result of `strcmp`.
unfoldable pub on_equal : {R : Type 0} → ℤ → R → R → R
on_equal (pos n) found rest = if n == 0 then found else rest
on_equal (negsuc n) found rest = rest

-- The loop of `iso9660_finddir`, which returns the record that it finds.
unfoldable pub finddir_loop : ℕ → ℕ → ℕ → Bool → Memory → Option (Option ℕ × Memory)
finddir_loop zero name entry skip_first m = none
finddir_loop (suc fuel) name entry skip_first m =
    let shown = is_shown skip_first entry m in
    let m' = if shown then terminate entry m else m in
    let rest = finddir_loop fuel name (entry + length_of_record m' entry) false m' in
    let picked : ℤ → Option (Option ℕ × Memory) = λ d. on_equal d (some (some entry, m')) rest in
    if length_of_record m entry == 0
    then some (none, m)
    else if not shown
    then rest
    else if leb (length_of_file_identifier m entry) 255
    then strcmp name_fuel (identifier entry) name m' >>= picked
    else some (none, m)

-- The fields of a new node at `response`, but for the name.
abbrev pub node_of : ℕ → ℕ → ℕ → Mini → Memory → IsoNode
node_of response entry impl parent m = record {
  address = response;
  mask = 0;
  uid = 0;
  gid = 0;
  node_flags = if bit_and (flags m entry) 2 == 0 then 1 else 2;
  node_inode = lba m entry;
  node_length = length_of_file m entry;
  node_impl = impl;
  node_recreate = iso9660;
  parent = parent;
}

module _ (services : Services) where
  open services use {Heap, kalloc, kfree, read_block}

  -- `fuel` is for the copy of the name; `impl` is the address of the `iso9660_fs`. The fields behind
  -- the name, bytes 256 to 331 of the node, are in the record and not in the memory.
  unfoldable pub entry_to_node_mini : ℕ → ℕ → ℕ → Mini → State Heap → Option (IsoNode × State Heap)
  entry_to_node_mini fuel entry impl parent s =
      let (response, h) = kalloc node_size s.heap in
      let named =
        if leb (length_of_file_identifier s.memory entry) 255
        then Option.map (λ m. store (response + length_of_file_identifier m entry) 0 m)
            (strcpy fuel response (identifier entry) s.memory)
        else some (error_name response s.memory) in
      Option.map (λ m. (node_of response entry impl parent m, record s { memory = m; heap = h }))
        named

  unfoldable pub entry_to_node : ℕ → ℕ → ℕ → IsoNode → State Heap → Option (IsoNode × State Heap)
  entry_to_node fuel entry impl parent s =
      entry_to_node_mini fuel entry impl
        (record {
          inode = parent.node_inode;
          impl = parent.node_impl;
          recreate = parent.node_recreate;
        })
        s

  -- The buffer with the first block of a directory.
  abbrev pub load_directory : IsoNode → State Heap → ℕ × State Heap
  load_directory node s =
      let (buffer, h) = kalloc 2048 s.heap in
      let info = s.infos node.node_impl in
      (
        buffer,
        record s { memory = read_block info.dev buffer 1 node.node_inode s.memory; heap = h },
      )

  unfoldable pub readdir : ℕ → ℕ → IsoNode → ℕ → State Heap → Option (Bool × State Heap)
  readdir fuel resp node i s =
      let (buffer, s') = load_directory node s in
      Option.map (λ (found, m). (found, record s' { memory = m; heap = kfree buffer s'.heap }))
        (readdir_loop fuel resp i buffer true 0 s'.memory)

  abbrev pub free_buffer : {R : Type 0} → ℕ → R × State Heap → R × State Heap
  free_buffer buffer (r, s) = (r, record s { heap = kfree buffer s.heap })

  abbrev pub respond_node :
      ℕ → IsoNode → Option ℕ → State Heap → Option (Option IsoNode × State Heap)
  respond_node fuel node none s = some (none, s)
  respond_node fuel node (some entry) s =
      Option.map (λ (found, s'). (some found, s')) (entry_to_node fuel entry node.node_impl node s)

  unfoldable pub finddir : ℕ → IsoNode → ℕ → State Heap → Option (Option IsoNode × State Heap)
  finddir fuel node name s =
      let (buffer, s') = load_directory node s in
      Option.map (free_buffer buffer) (
        finddir_loop fuel name buffer true s'.memory >>= λ (found, m).
        respond_node name_fuel node found (record s' { memory = m }))
