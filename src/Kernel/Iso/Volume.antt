-- ===== src/Kernel/Iso/Volume.antt =====
-- kernel/kernel/fs/iso9660.c: the volume's path table, the way back from a directory to its parent, and
-- the reading of a file. The loops run on fuel, `none` when it runs out.
use mathlib.Core.Option
use hexos.Base.{
  ℕ, zero, suc, ◌+◌, ◌-◌, ◌%◌, Bool, true, false, Option, none, some, if◌then◌else◌, ◌==◌, ltb,
  ◌>>=◌, add32,
}
use hexos.Libc.Memory.{Memory, store, memcpy}
use hexos.Kernel.Iso.Records.{
  Mini, IsoFs, IsoNode, State, Services, iso9660, node_size, info_size,
  length_of_directory_identifier, path_lba, parent_dir_num, typel_path_table,
}
use hexos.Kernel.Iso.Search.{entry_to_node_mini}

-- ISO9660_OFFSET
abbrev pub volume_block : ℕ
volume_block = 16

-- entry_len
abbrev pub path_entry_size : ℕ → Memory → ℕ
path_entry_size e m =
    let n = length_of_directory_identifier m e in if n % 2 == 1 then 8 + n + 1 else 8 + n

-- The loop that looks a block up: the entry, and whether it is the first; or no such entry.
unfoldable pub seek_lba : ℕ → ℕ → ℕ → Bool → Memory → Option (Option (ℕ × Bool))
seek_lba zero inode e is_first m = none
seek_lba (suc fuel) inode e is_first m =
    let rest = seek_lba fuel inode (e + path_entry_size e m) false m in
    if path_lba m e == inode
    then some (some (e, is_first))
    else if length_of_directory_identifier m e == 0
    then some none
    else rest

-- The loop that goes `n` entries on, unless the table ends before.
unfoldable pub seek_number : ℕ → ℕ → Memory → Option ℕ
seek_number zero e m = some e
seek_number (suc n) e m =
    let rest = seek_number n (e + path_entry_size e m) m in
    if length_of_directory_identifier m e == 0 then none else rest

-- The parent in `iso9660_recreate`, from the entry that was found in the table at `table`.
unfoldable pub parent_of : ℕ → ℕ → IsoFs → Memory → ℕ × Bool → Option Mini
parent_of table impl info m (e, true) = some info.mountpoint
parent_of table impl info m (e, false) =
    Option.map (λ p. record { inode = path_lba m p; impl = impl; recreate = iso9660 })
      (seek_number (parent_dir_num m e - 1) table m)

-- The parent in `iso9660_recreate`, from the block of the directory and the table at `table`.
unfoldable pub find_parent : ℕ → ℕ → ℕ → ℕ → IsoFs → Memory → Option (Option Mini)
find_parent fuel table inode impl info m =
    Option.map (λ found. found >>= parent_of table impl info m) (seek_lba fuel inode table true m)

-- The loop `while (blocksize % 2048 != 0) blocksize++`.
unfoldable pub round_up : ℕ → ℕ → Option ℕ
round_up zero n = none
round_up (suc fuel) n =
    let rest = round_up fuel (add32 n 1) in if n % 2048 == 0 then some n else rest

module _ (services : Services) where
  open services use {Heap, kalloc, kfree, read_block}

  -- The last lines of `iso9660_recreate`; without a parent there is no such block.
  abbrev pub recreate_entry :
      ℕ → ℕ → ℕ → Option Mini → State Heap → Option (Option IsoNode × State Heap)
  recreate_entry fuel entry impl none s = some (none, s)
  recreate_entry fuel entry impl (some parent) s =
      Option.map (λ (node, s'). (some node, s'))
        (entry_to_node_mini services fuel entry impl parent s)

  -- The node that the first line allocates is never used, and never freed.
  unfoldable pub recreate : ℕ → Mini → State Heap → Option (Option IsoNode × State Heap)
  recreate fuel mini s =
      let (_, h) = kalloc node_size s.heap in
      let info = s.infos mini.impl in
      let (entry_buffer, h1) = kalloc 2048 h in
      let m1 = read_block info.dev entry_buffer 1 mini.inode s.memory in
      let (table, h2) = kalloc 2048 h1 in
      let m2 = read_block info.dev table 1 volume_block m1 in
      let m3 = read_block info.dev table 1 (typel_path_table m2 table) m2 in
      let freed = record s { memory = m3; heap = kfree entry_buffer (kfree table h2) } in
      find_parent fuel table mini.inode mini.impl info m3 >>= λ parent.
      recreate_entry fuel entry_buffer mini.impl parent freed

  unfoldable pub free_node : IsoNode → State Heap → State Heap
  free_node node s = record s { heap = kfree node.address s.heap }

  -- What `iso9660_init_volume` makes of `target`, which lies at `target`; it sets no other field of the
  -- node, so `before` gives them. The name is "mnt".
  unfoldable pub init_volume : ℕ → IsoNode → Mini → State Heap → IsoNode × State Heap
  init_volume dev before target_parent s =
      let (fs_info, h1) = kalloc info_size s.heap in
      let (buffer, h2) = kalloc 2048 h1 in
      let m1 = read_block dev buffer 1 volume_block s.memory in
      let (buffer2, h3) = kalloc 2048 (kfree buffer h2) in
      let m2 = read_block dev buffer2 1 (typel_path_table m1 buffer) m1 in
      let info : IsoFs = record { dev = dev; mountpoint = target_parent } in
      let at = before.address in
      let m3 = store (at + 3) 0 (store (at + 2) 116 (store (at + 1) 110 (store at 109 m2))) in
      (
        record before {
          node_inode = path_lba m2 buffer2;
          node_impl = fs_info;
          node_flags = 2;
          parent = target_parent;
        },
        record s { memory = m3; heap = h3; infos = λ a. if a == fs_info then info else s.infos a },
      )

  -- `iso9660_read`; it has no `return`, so there is no result but the state.
  unfoldable pub read : ℕ → IsoNode → ℕ → ℕ → ℕ → State Heap → Option (State Heap)
  read fuel node offset size buffer s =
      let info = s.infos node.node_impl in
      let readsize = if ltb node.node_length size then node.node_length else size in
      Option.map
        (λ blocksize.
          let (blockbuf, h) = kalloc blocksize s.heap in
          let m = read_block info.dev blockbuf 1 (add32 node.node_inode offset) s.memory in
          record s { memory = (memcpy buffer blockbuf readsize m).1; heap = kfree blockbuf h })
        (round_up fuel readsize)

  -- `iso9660_write`
  unfoldable pub write : IsoNode → ℕ → ℕ → ℕ → State Heap → ℕ × State Heap
  write node offset size buffer s = (0, s)
