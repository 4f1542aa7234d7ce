-- ===== src/Kernel/Iso/Lookup.antt =====
-- `iso9660_finddir` finds what `iso9660_readdir` lists, where every listed record leaves a byte behind its
-- identifier.
use hexos.Base.{
  ℕ, zero, suc, ◌+◌, ◌<◌, ◌≤◌, ◌≡◌, ◌≢◌, refl, sym, ap, ◌∙◌, subst, arith, true, false, not, ◌&&◌,
  ◌==◌, leb, List, [], ◌∷◌, length, Option, none, some, if◌then◌else◌, Bool-cases, ◌⊎◌, inl, inr,
}
use hexos.Base.Int.{ℤ, pos, negsuc}
use hexos.Libc.Memory.{Memory, strcmp}
use hexos.Libc.Memory.Strings.{Holds, Holds-agree, strcmp-Compared}
use hexos.Kernel.Iso.Records.{length_of_record, length_of_file_identifier}
use hexos.Kernel.Vfs.{same_name}
use hexos.Kernel.Vfs.Root.{same_name-eq}
use hexos.Kernel.Iso.Search.{terminate, name_fuel, on_equal, finddir_loop}
use hexos.Kernel.Iso.Entries.{
  Entry, IsEntry, Entries, Entries-agree, is_parent, is_shown-IsEntry, terminate-Holds,
  terminate-IsEntry,
}

-- The first record with the name `text` among those that are listed.
abbrev pub find_entry : List ℕ → List Entry → Option Entry
find_entry text [] = none
find_entry text (e ∷ es) =
    if not (is_parent e.name) && same_name e.name text then some e else find_entry text es

-- Every listed record has a byte behind its identifier, as padding or the system use.
abbrev pub Padded : List Entry → Type 0
Padded [] = Unit {0}
Padded (e ∷ es) = ((is_parent e.name ≡ true) ⊎ (33 + length e.name < e.size)) × Padded es

room :
    (e : Entry)
    → is_parent e.name ≡ false
    → (is_parent e.name ≡ true) ⊎ (33 + length e.name < e.size)
    → 33 + length e.name < e.size
room e p (inl q) = cc
room e p (inr h) = h

-- The string `text` at `name` lies outside the records from `at` to `end`.
abbrev pub Outside : ℕ → List ℕ → ℕ → ℕ → Type 0
Outside name text at end = (name + length text < at) ⊎ (end ≤ name)

-- What the loop finds: the address of the record, with its identifier made a string.
pub record IsFound (e : Entry) (m : Memory) (at end a : ℕ) : Type 0 where
  pub entry : IsEntry e m a end
  pub string : Holds m (a + 33) e.name
  pub behind : at ≤ a

abbrev pub Found : ℕ → ℕ → Option Entry → Option (Option ℕ × Memory) → Type 0
Found at end none r = (m : Memory) × (r ≡ some (none, m))
Found at end (some e) r = (a : ℕ) × (m : Memory) × (r ≡ some (some a, m)) × IsFound e m at end a

pub earlier :
    (at at' end : ℕ) (o : Option Entry) (r : Option (Option ℕ × Memory))
    → at ≤ at'
    → Found at' end o r
    → Found at end o r
earlier at at' end none r le f = f
earlier at at' end (some e) r le (a, m, ran, f) =
    (a, m, ran, record { entry = f.entry; string = f.string; behind = omega (arith, f.behind) })

on_equal-zero : {R : Type 0} (found rest : R) → on_equal (pos 0) found rest ≡ found
unfolding on_equal
on_equal-zero found rest = refl

pub on_equal-other :
    {R : Type 0} (found rest : R) (d : ℤ) → d ≢ pos 0 → on_equal d found rest ≡ rest
unfolding on_equal
on_equal-other found rest (pos zero) ne = absurd (ne refl)
on_equal-other found rest (pos (suc n)) ne = ground arith
on_equal-other found rest (negsuc n) ne = refl

module _ {x : Entry} {m : Memory} {at end : ℕ} (v : IsEntry x m at end) (fuel name : ℕ) where
  going : (length_of_record m at == 0) ≡ false
  going = ground (arith, v.size_at, v.fits)

  pub step_parent :
      is_parent x.name ≡ true
      → finddir_loop (suc fuel) name at false m ≡ finddir_loop fuel name (at + x.size) false m
  unfolding finddir_loop
  step_parent p = rw (going, (is_shown-IsEntry v).0 p, v.size_at) refl

  pub step_compared :
      (d : ℤ)
      → is_parent x.name ≡ false
      → strcmp name_fuel (at + 33) name (terminate at m) ≡ some d
      → finddir_loop (suc fuel) name at false m
        ≡ on_equal d
            (some (some at, terminate at m))
            (finddir_loop fuel name (at + x.size) false (terminate at m))
  unfolding finddir_loop
  step_compared d p ran =
      let allowed : leb (length_of_file_identifier m at) 255 ≡ true =
        ground (arith, v.name_length, v.short) in
      rw (going, (is_shown-IsEntry v).1 p, allowed, ran) refl
      ∙ ap
          (λ n.
            on_equal d (some (some at, terminate at m))
              (finddir_loop fuel name (at + n) false (terminate at m)))
          (terminate-IsEntry v).size_at

pub same_name_refl : (a : List ℕ) → same_name a a ≡ true
same_name_refl [] = refl
same_name_refl (c ∷ a) = ground (arith, same_name_refl a)

-- The names differ, and the loop goes on over the record.
pub unequal : {t1 t2 : List ℕ} {d : ℤ} → (d ≡ pos 0 → t1 ≡ t2) → same_name t1 t2 ≡ false → d ≢ pos 0
unequal {t1} only differ z = bad (subst (λ t. same_name t1 t ≡ false) (sym (only z)) differ)
  where
    bad : same_name t1 t1 ≡ false → ⊥
    bad e = cc (same_name_refl t1)

pub further :
    {name at at' end : ℕ} (text : List ℕ)
    → at ≤ at'
    → Outside name text at end
    → Outside name text at' end
further text le (inl below) = inl (omega arith)
further text le (inr above) = inr (omega arith)

-- The zero behind an identifier does not touch a string outside the records.
pub terminate-Outside :
    {x : Entry} {m : Memory} {at end : ℕ} (name : ℕ) (text : List ℕ)
    → IsEntry x m at end
    → Outside name text at end
    → Holds m name text
    → Holds (terminate at m) name text
terminate-Outside {m = m} {at = at} name text v (inl below) holds =
    Holds-agree text name m (terminate at m) (λ x inside. ground (arith, v.name_length)) holds
terminate-Outside {m = m} {at = at} name text v (inr above) holds =
    Holds-agree text name m (terminate at m)
      (λ x inside. ground (arith, v.name_length, v.fits, v.inside)) holds

pub finddir_loop-Found :
    (es : List Entry) (fuel name at end : ℕ) (text : List ℕ) (m : Memory)
    → Entries es m at end
    → Padded es
    → Holds m name text
    → Outside name text at end
    → length es < fuel
    → Found at end (find_entry text es) (finddir_loop fuel name at false m)
unfolding finddir_loop
finddir_loop-Found es zero name at end text m h padded holds apart lt = absurd (omega arith)
finddir_loop-Found [] (suc fuel) name at end text m h padded holds apart lt = (m, rw h refl)
finddir_loop-Found (x ∷ es) (suc fuel) name at end text m h padded holds apart lt =
    elim (Bool-cases (is_parent x.name)) [
      | inl p ↦
          rw (p, step_parent h.0 fuel name p)
            (earlier at (at + x.size) end (find_entry text es) _ (omega arith) (
              finddir_loop-Found es fuel name (at + x.size) end text m h.1 padded.1 holds
                (further text (omega arith) apart) (omega arith)))
      | inr p ↦
          let m' = terminate at m in
          let string : Holds m' name text = terminate-Outside name text h.0 apart holds in
          let (d, ran, k) =
            strcmp-Compared x.name text name_fuel (at + 33) name m' (terminate-Holds h.0) string
              (omega (arith, h.0.short)) in
          rw (p, step_compared h.0 fuel name d p ran)
            (elim (Bool-cases (same_name x.name text)) [
              | inl same ↦
                  rw (same, k.if_equal (same_name-eq x.name text same), on_equal-zero)
                    (
                      at,
                      m',
                      refl,
                      record {
                        entry = terminate-IsEntry h.0;
                        string = terminate-Holds h.0;
                        behind = omega arith;
                      },
                    )
              | inr differ ↦
                  rw (differ, on_equal-other _ _ d (unequal k.only_if_equal differ))
                    (earlier at (at + x.size) end (find_entry text es) _ (omega arith) (
                      finddir_loop-Found es fuel name (at + x.size) end text m'
                        (Entries-agree es m m' (at + x.size) end
                          (λ y above. ground (arith, h.0.name_length, room x p padded.0)) h.1)
                        padded.1 string (further text (omega arith) apart) (omega arith)))
            ])
    ]

-- The first record is never compared.
pub finddir_first :
    (first fuel name buffer : ℕ) (m : Memory)
    → m buffer ≡ first
    → 0 < first
    → finddir_loop (suc fuel) name buffer true m ≡ finddir_loop fuel name (buffer + first) false m
unfolding finddir_loop
finddir_first first fuel name buffer m h positive =
    let going : (length_of_record m buffer == 0) ≡ false = ground arith in rw (going, h) refl
