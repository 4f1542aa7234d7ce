-- ===== src/Kernel/Iso/Tight.antt =====
-- `iso9660_finddir` on a record that ends with its identifier, as one with an identifier of an odd
-- length and no system use does.
use hexos.Base.{
  ℕ, suc, ◌+◌, ◌<◌, ◌≡◌, refl, ◌∙◌, arith, true, false, ◌==◌, List, ◌∷◌, length, none, some,
}
use hexos.Libc.Memory.{Memory}
use hexos.Libc.Memory.Strings.{Holds, strcmp-Compared}
use hexos.Kernel.Iso.Records.{IsoNode, State, Services, length_of_record}
use hexos.Kernel.Vfs.{same_name}
use hexos.Kernel.Iso.Search.{terminate, name_fuel, finddir_loop, finddir, load_directory}
use hexos.Kernel.Iso.Entries.{Entry, IsEntry, Directory, is_parent, terminate-Holds}
use hexos.Kernel.Iso.Lookup.{
  Outside, terminate-Outside, further, unequal, on_equal-other, step_parent, step_compared,
  finddir_first,
}

-- The record is as long as its header and its identifier.
abbrev pub IsTight : Entry → Type 0
IsTight e = e.size ≡ 33 + length e.name

-- The loop stops at the zero that it has written over the length of the next record.
stops :
    (x : Entry) (fuel name at end : ℕ) (text : List ℕ) (m : Memory)
    → IsEntry x m at end
    → IsTight x
    → is_parent x.name ≡ false
    → same_name x.name text ≡ false
    → Holds m name text
    → Outside name text at end
    → finddir_loop (suc (suc fuel)) name at false m ≡ some (none, terminate at m)
unfolding finddir_loop
stops x fuel name at end text m v tight p differ holds apart =
    let m' = terminate at m in
    let (d, ran, k) =
      strcmp-Compared x.name text name_fuel (at + 33) name m' (terminate-Holds v)
        (terminate-Outside name text v apart holds) (omega (arith, v.short)) in
    let cleared : (length_of_record m' (at + x.size) == 0) ≡ true =
      ground (arith, v.name_length, tight) in
    step_compared v (suc fuel) name d p ran
    ∙ on_equal-other _ _ d (unequal k.only_if_equal differ)
    ∙ rw cleared refl

-- Where the record of the parent is followed by a record `x` that ends with its identifier, and `x` has
-- another name, `iso9660_finddir` finds nothing, whatever records come behind `x`: the zero that it
-- writes behind the identifier is the length of the next record.
pub finddir-tight :
    (services : Services) (fuel name first end : ℕ) (dir : IsoNode) (s : State services.Heap)
    (text : List ℕ) (up x : Entry) (es : List Entry)
    → Directory first
        (up ∷ x ∷ es)
        (load_directory services dir s).1.memory
        (load_directory services dir s).0
        end
    → is_parent up.name ≡ true
    → is_parent x.name ≡ false
    → IsTight x
    → same_name x.name text ≡ false
    → Holds (load_directory services dir s).1.memory name text
    → Outside name text (load_directory services dir s).0 end
    → 3 < fuel
    → (m : Memory) × (finddir services fuel dir name s
        ≡ some (
          none,
          record (load_directory services dir s).1 {
            memory = m;
            heap =
                services.kfree
                  (load_directory services dir s).0
                  (load_directory services dir s).1.heap;
          },
        ))
unfolding finddir
finddir-tight services (suc (suc (suc (suc fuel)))) name first end dir s text up x es d parent p
      tight differ holds apart lt =
    let (buffer, s') = load_directory services dir s in
    let at = buffer + first in
    let begun =
      finddir_first first (suc (suc (suc fuel))) name buffer s'.memory d.first_at d.nonempty in
    let skipped = step_parent d.entries.0 (suc (suc fuel)) name parent in
    let ended =
      stops x fuel name (at + up.size) end text s'.memory d.entries.1.0 tight p differ holds
        (further text (omega arith) apart) in
    (terminate (at + up.size) s'.memory, rw (begun, skipped, ended) refl)
finddir-tight services fuel name first end dir s text up x es d parent p tight differ holds apart
      lt =
    absurd (omega arith)
