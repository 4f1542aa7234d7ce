-- ===== src/Kernel/Iso/Listing.antt =====
-- `iso9660_readdir` gives the names of a directory by their numbers.
use mathlib.Core.Option
use hexos.Base.{
  ℕ, zero, suc, ◌+◌, ◌<◌, ◌≤◌, ◌^◌, ◌≡◌, refl, arith, Bool, true, false, ◌==◌, leb, List, [], ◌∷◌,
  length, Option, none, some, if◌then◌else◌, Bool-cases, inl, inr, add32,
}
use hexos.Libc.Memory.{Memory}
use hexos.Libc.Memory.Strings.{Holds, Holds-agree, strcpy-Copied}
use hexos.Kernel.Iso.Records.{
  IsoNode, State, Services, dword, clear_dword, length_of_record, length_of_file_identifier,
}
use hexos.Kernel.Iso.Search.{terminate, name_fuel, respond, readdir_loop, readdir, load_directory}
use hexos.Kernel.Iso.Entries.{
  Entry, IsEntry, Entries, Directory, is_parent, is_shown-IsEntry, terminate-Holds,
}

-- The records that are listed, by their numbers.
abbrev pub nth_shown : List Entry → ℕ → Option Entry
nth_shown [] n = none
nth_shown (e ∷ es) zero = if is_parent e.name then nth_shown es zero else some e
nth_shown (e ∷ es) (suc n) = nth_shown es (if is_parent e.name then suc n else n)

-- The answer that stands at `resp`.
pub record IsAnswer (resp : ℕ) (e : Entry) (m : Memory) : Type 0 where
  pub name_at : Holds m (resp + 4) e.name
  pub no_inode : dword m resp ≡ 0

abbrev pub Answer : ℕ → Memory → Option Entry → Option (Bool × Memory) → Type 0
Answer resp m none r = r ≡ some (false, m)
Answer resp m (some e) r = (m' : Memory) × (r ≡ some (true, m')) × IsAnswer resp e m'

module _ (resp : ℕ) where
  respond-IsAnswer :
      (e : Entry) (m : Memory) (at end : ℕ)
      → IsEntry e m at end
      → resp + 260 ≤ at
      → (m' : Memory) × (respond resp at m ≡ some m') × IsAnswer resp e m'
  unfolding respond
  respond-IsAnswer e m at end v apart =
      let (copy, ran, copied) =
        strcpy-Copied e.name name_fuel (resp + 4) (at + 33) (terminate at m) (terminate-Holds v)
          (omega (arith, v.short)) (inl (omega arith)) in
      let allowed : leb (length_of_file_identifier m at) 255 ≡ true =
        ground (arith, v.name_length, v.short) in
      (
        clear_dword resp copy,
        rw (allowed, ran) refl,
        record {
          name_at =
              Holds-agree e.name (resp + 4) copy (clear_dword resp copy) (λ x inside. ground arith)
                copied.string;
          no_inode = ground arith;
        },
      )

  module _ {x : Entry} {m : Memory} {at end : ℕ} (v : IsEntry x m at end) (fuel i count : ℕ) where
    going : (length_of_record m at == 0) ≡ false
    going = ground (arith, v.size_at, v.fits)

    step_parent :
        is_parent x.name ≡ true
        → readdir_loop (suc fuel) resp i at false count m
          ≡ readdir_loop fuel resp i (at + x.size) false count m
    unfolding readdir_loop
    step_parent p = rw (going, (is_shown-IsEntry v).0 p, v.size_at) refl

    step_other :
        is_parent x.name ≡ false
        → (count == i) ≡ false
        → count + 1 < 2 ^ 32
        → readdir_loop (suc fuel) resp i at false count m
          ≡ readdir_loop fuel resp i (at + x.size) false (count + 1) m
    unfolding readdir_loop
    step_other p ne small =
        let counted : add32 count 1 ≡ count + 1 = omega arith in
        rw (going, (is_shown-IsEntry v).1 p, ne, v.size_at, counted) refl

    step_found :
        is_parent x.name ≡ false
        → (count == i) ≡ true
        → readdir_loop (suc fuel) resp i at false count m
          ≡ Option.map (λ m'. (true, m')) (respond resp at m)
    unfolding readdir_loop
    step_found p eq = rw (going, (is_shown-IsEntry v).1 p, eq) refl

  readdir_loop-Answer :
      (es : List Entry) (fuel i at count n end : ℕ) (m : Memory)
      → Entries es m at end
      → resp + 260 ≤ at
      → length es < fuel
      → count + n ≡ i
      → count + length es < 2 ^ 32
      → Answer resp m (nth_shown es n) (readdir_loop fuel resp i at false count m)
  unfolding readdir_loop
  readdir_loop-Answer es zero i at count n end m h apart lt e small = absurd (omega arith)
  readdir_loop-Answer [] (suc fuel) i at count n end m h apart lt e small = rw h refl
  readdir_loop-Answer (x ∷ es) (suc fuel) i at count zero end m h apart lt e small =
      elim (Bool-cases (is_parent x.name)) [
        | inl p ↦
            rw (p, step_parent h.0 fuel i count p)
              (readdir_loop-Answer es fuel i (at + x.size) count zero end m h.1 (omega arith)
                (omega arith) e (omega arith))
        | inr p ↦
            let (m', ran, a) = respond-IsAnswer x m at end h.0 apart in
            let here : (count == i) ≡ true = ground arith in
            rw (p, step_found h.0 fuel i count p here, ran) (m', refl, a)
      ]
  readdir_loop-Answer (x ∷ es) (suc fuel) i at count (suc n) end m h apart lt e small =
      elim (Bool-cases (is_parent x.name)) [
        | inl p ↦
            rw (p, step_parent h.0 fuel i count p)
              (readdir_loop-Answer es fuel i (at + x.size) count (suc n) end m h.1 (omega arith)
                (omega arith) e (omega arith))
        | inr p ↦
            let on : (count == i) ≡ false = ground arith in
            rw (p, step_other h.0 fuel i count p on (omega arith))
              (readdir_loop-Answer es fuel i (at + x.size) (count + 1) n end m h.1 (omega arith)
                (omega arith) (omega arith) (omega arith))
      ]

  -- The first record is never listed.
  readdir_first :
      (first fuel i buffer : ℕ) (m : Memory)
      → m buffer ≡ first
      → 0 < first
      → readdir_loop (suc fuel) resp i buffer true 0 m
        ≡ readdir_loop fuel resp i (buffer + first) false 0 m
  unfolding readdir_loop
  readdir_first first fuel i buffer m h pos =
      let going : (length_of_record m buffer == 0) ≡ false = ground arith in rw (going, h) refl

-- What `iso9660_readdir` comes to, from the state `s` with the directory in `buffer`.
abbrev pub Listed :
    (services : Services)
    → ℕ
    → ℕ
    → State services.Heap
    → Option Entry
    → Option (Bool × State services.Heap)
    → Type 0
Listed services resp buffer s none r =
    r ≡ some (false, record s { heap = services.kfree buffer s.heap })
Listed services resp buffer s (some e) r =
    (m : Memory) × (r ≡ some (true, record s { memory = m; heap = services.kfree buffer s.heap }))
    × IsAnswer resp e m

finish :
    (services : Services) (resp buffer : ℕ) (s : State services.Heap) (o : Option Entry)
    (r : Option (Bool × Memory))
    → Answer resp s.memory o r
    → Listed services resp buffer s o (
        Option.map
          (λ (found, m). (found, record s { memory = m; heap = services.kfree buffer s.heap }))
          r)
finish services resp buffer s none r a = rw a refl
finish services resp buffer s (some e) r (m, ran, a) = (m, rw ran refl, a)

-- On a directory that lies in the block read, above the answer's place, `iso9660_readdir` ends. With
-- number `i` it answers with the name of the `i`-th record, counted from 0, that is neither the first
-- nor the parent's, and with inode 0; with a number from their count on it returns 0 and leaves the
-- memory as it was. On every path it frees the buffer.
pub readdir-Listed :
    (services : Services) (fuel resp i first end : ℕ) (node : IsoNode) (s : State services.Heap)
    (es : List Entry)
    → Directory first es
        (load_directory services node s).1.memory
        (load_directory services node s).0
        end
    → resp + 260 ≤ (load_directory services node s).0
    → length es + 1 < fuel
    → length es < 2 ^ 32
    → Listed services resp
        (load_directory services node s).0
        (load_directory services node s).1
        (nth_shown es i)
        (readdir services fuel resp node i s)
unfolding readdir
readdir-Listed services zero resp i first end node s es d apart lt small = absurd (omega arith)
readdir-Listed services (suc fuel) resp i first end node s es d apart lt small =
    let (buffer, s') = load_directory services node s in
    finish services resp buffer s' (nth_shown es i)
      (readdir_loop (suc fuel) resp i buffer true 0 s'.memory)
      (rw (readdir_first resp first fuel i buffer s'.memory d.first_at d.nonempty) (
        readdir_loop-Answer resp es fuel i (buffer + first) 0 i end s'.memory d.entries
          (omega arith) (omega arith) (omega arith) (omega arith)))
