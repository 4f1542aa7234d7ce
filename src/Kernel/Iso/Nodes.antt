-- ===== src/Kernel/Iso/Nodes.antt =====
-- `iso9660_entry_to_node` and `iso9660_finddir`: the node of a directory record.
use mathlib.Core.Option
use hexos.Base.{
  ℕ, zero, suc, ◌+◌, ◌<◌, ◌≤◌, ◌≡◌, refl, ap, ◌∙◌, arith, true, leb, ◌==◌, List, [], ◌∷◌, length,
  Option, none, some, if◌then◌else◌, ◌⊎◌, inl, inr, bit_and, ◌>>=◌,
}
use hexos.Libc.Memory.{Memory, store, strcpy}
use hexos.Libc.Memory.Strings.{Holds, Holds-agree, strcpy-Copied}
use hexos.Kernel.Iso.Records.{IsoNode, Mini, State, Services, node_size, length_of_file_identifier}
use hexos.Kernel.Iso.Search.{
  name_fuel, node_of, entry_to_node_mini, entry_to_node, load_directory, finddir, finddir_loop,
  free_buffer, respond_node,
}
use hexos.Kernel.Iso.Entries.{Entry, IsEntry, IsEntry-agree, Directory}
use hexos.Kernel.Iso.Lookup.{
  Padded, Outside, Found, find_entry, finddir_loop-Found, further, earlier, finddir_first,
}

-- The node says what the record says; its name is the string at its address.
pub record IsNode (e : Entry) (impl : ℕ) (parent : Mini) (node : IsoNode) (m : Memory)
    : Type 0 where
  pub name_at : Holds m node.address e.name
  pub block : node.node_inode ≡ e.block
  pub bytes : node.node_length ≡ e.bytes
  pub kind : node.node_flags ≡ (if bit_and e.flag 2 == 0 then 1 else 2)
  pub same_impl : node.node_impl ≡ impl
  pub same_parent : node.parent ≡ parent

-- The place `p` of a node lies outside the memory from `from` to `end`.
abbrev pub Clear : ℕ → ℕ → ℕ → Type 0
Clear p from end = (p + node_size ≤ from) ⊎ (end ≤ p)

-- The parent that `iso9660_entry_to_node` gives a node.
abbrev pub mini_of : IsoNode → Mini
mini_of parent = record {
  inode = parent.node_inode;
  impl = parent.node_impl;
  recreate = parent.node_recreate;
}

Holds-end : (text : List ℕ) (s : ℕ) (m : Memory) → Holds m s text → m (s + length text) ≡ 0
Holds-end [] s m h = ap m (omega arith) ∙ h
Holds-end (c ∷ text) s m h = ap m (omega arith) ∙ Holds-end text (s + 1) m h.3

module _ (services : Services) where
  open services use {Heap, kalloc, kfree}

  module _ {e : Entry} {at end : ℕ} (s : State Heap) (v : IsEntry e s.memory at end) where
    module _ (text : Holds s.memory (at + 33) e.name) where
      copied :
          Clear (kalloc node_size s.heap).0 at end
          → (m : Memory) × (strcpy name_fuel (kalloc node_size s.heap).0 (at + 33) s.memory
              ≡ some m)
            × Holds m (kalloc node_size s.heap).0 e.name
            × IsEntry e m at end
      copied (inl below) =
          let p = (kalloc node_size s.heap).0 in
          let (m, ran, c) =
            strcpy-Copied e.name name_fuel p (at + 33) s.memory text (omega (arith, v.short))
              (inl (omega arith)) in
          (
            m,
            ran,
            c.string,
            IsEntry-agree e s.memory m at end (λ x inside. c.frame x (ground (arith, v.short))) v,
          )
      copied (inr above) =
          let p = (kalloc node_size s.heap).0 in
          let (m, ran, c) =
            strcpy-Copied e.name name_fuel p (at + 33) s.memory text (omega (arith, v.short))
              (inr (omega (arith, v.fits, v.inside))) in
          (
            m,
            ran,
            c.string,
            IsEntry-agree e s.memory m at end
                (λ x inside. c.frame x (ground (arith, v.fits, v.inside))) v,
          )

      kept :
          Clear (kalloc node_size s.heap).0 at end
          → (m : Memory) → IsEntry e m at end
          → IsEntry e
              (store ((kalloc node_size s.heap).0 + length_of_file_identifier m at) 0 m)
              at
              end
      kept (inl below) m w =
          IsEntry-agree e m _ at end (λ x inside. ground (arith, w.name_length, w.short)) w
      kept (inr above) m w =
          IsEntry-agree e m _ at end (λ x inside. ground (arith, w.name_length, w.fits, w.inside)) w

      pub entry_to_node-IsNode :
          (impl : ℕ) (parent : IsoNode)
          → Clear (kalloc node_size s.heap).0 at end
          → (node : IsoNode) × (m : Memory) × (entry_to_node services name_fuel at impl parent s
              ≡ some (node, record s { memory = m; heap = (kalloc node_size s.heap).1 }))
            × IsNode e impl (mini_of parent) node m
      unfolding entry_to_node entry_to_node_mini
      entry_to_node-IsNode impl parent clear =
          let p = (kalloc node_size s.heap).0 in
          let (m, ran, string, w) = copied clear in
          let allowed : leb (length_of_file_identifier s.memory at) 255 ≡ true =
            ground (arith, v.name_length, v.short) in
          let ended = store (p + length_of_file_identifier m at) 0 m in
          let u : IsEntry e ended at end = kept clear m w in
          (
            node_of p at impl (mini_of parent) ended,
            ended,
            rw (allowed, ran) refl,
            record {
              name_at =
                  Holds-agree e.name p m ended
                    (λ x inside. ground (arith, w.name_length, Holds-end e.name p m string)) string;
              block = u.block_at;
              bytes = u.bytes_at;
              kind = ap (λ f. if bit_and f 2 == 0 then 1 else 2) u.flag_at;
              same_impl = refl;
              same_parent = refl;
            },
          )

-- What `iso9660_finddir` comes to, from the state `s` with the directory in `buffer`.
abbrev pub Answered :
    (services : Services)
    → ℕ
    → IsoNode
    → State services.Heap
    → Option Entry
    → Option (Option IsoNode × State services.Heap)
    → Type 0
Answered services buffer dir s none r =
    (m : Memory) × (r ≡ some (none, record s { memory = m; heap = services.kfree buffer s.heap }))
Answered services buffer dir s (some e) r =
    (node : IsoNode) × (m : Memory) × (r
      ≡ some (
        some node,
        record s { memory = m; heap = services.kfree buffer (services.kalloc node_size s.heap).1 },
      ))
    × IsNode e dir.node_impl (mini_of dir) node m

pub finish :
    (services : Services) (buffer at end : ℕ) (dir : IsoNode) (s : State services.Heap)
    (o : Option Entry) (r : Option (Option ℕ × Memory))
    → Clear (services.kalloc node_size s.heap).0 at end
    → Found at end o r
    → Answered services buffer dir s o (
        Option.map
          (free_buffer services buffer)
          (r >>= λ (found, m). respond_node services name_fuel dir found (record s { memory = m })))
finish services buffer at end dir s none r clear (m, ran) = (m, rw ran refl)
finish services buffer at end dir s (some e) r clear (a, m, ran, f) =
    let (node, m', made, n) =
      entry_to_node-IsNode services (record s { memory = m }) f.entry f.string dir.node_impl dir
        (later clear) in
    (node, m', rw (ran, made) refl, n)
  where
    later :
        Clear (services.kalloc node_size s.heap).0 at end
        → Clear (services.kalloc node_size s.heap).0 a end
    later (inl below) = inl (omega (arith, f.behind))
    later (inr above) = inr above

-- On a directory that lies in the block read, every record of which but the parent's leaves a byte
-- behind its identifier, with the name looked for and the 332 bytes of a new node outside of it,
-- `iso9660_finddir` ends. It returns a node for the first of the listed records that has the name, with
-- the name, block, length, kind and parent that the record and the directory say; and 0 if no listed
-- record has the name. It frees the buffer on both paths.
pub finddir-Answered :
    (services : Services) (fuel name first end : ℕ) (dir : IsoNode) (s : State services.Heap)
    (text : List ℕ) (es : List Entry)
    → Directory first es
        (load_directory services dir s).1.memory
        (load_directory services dir s).0
        end
    → Padded es
    → Holds (load_directory services dir s).1.memory name text
    → Outside name text (load_directory services dir s).0 end
    → Clear
        (services.kalloc node_size (load_directory services dir s).1.heap).0
        (load_directory services dir s).0
        end
    → length es + 1 < fuel
    → Answered services
        (load_directory services dir s).0
        dir
        (load_directory services dir s).1
        (find_entry text es)
        (finddir services fuel dir name s)
unfolding finddir
finddir-Answered services zero name first end dir s text es d padded holds apart clear lt =
    absurd (omega arith)
finddir-Answered services (suc fuel) name first end dir s text es d padded holds apart clear lt =
    let (buffer, s') = load_directory services dir s in
    let begun = finddir_first first fuel name buffer s'.memory d.first_at d.nonempty in
    finish services buffer buffer end dir s' (find_entry text es)
      (finddir_loop (suc fuel) name buffer true s'.memory) clear
      (rw begun (
        earlier buffer (buffer + first) end (find_entry text es) _ (omega arith) (
          finddir_loop-Found es fuel name (buffer + first) end text s'.memory d.entries padded holds
            (further text (omega arith) apart) (omega arith))))
