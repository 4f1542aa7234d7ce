-- ===== src/Kernel/Iso/Paths.antt =====
-- The path table of a volume, and the parent that `iso9660_recreate` finds in it.
use hexos.Base.{
  ℕ, zero, suc, ◌+◌, ◌-◌, ◌%◌, ◌<◌, ◌≡◌, ◌≢◌, refl, ap, ◌∙◌, arith, Bool, true, false, ◌==◌, subst,
  List, [], ◌∷◌, length, get_elem?, some,
}
use hexos.Libc.Memory.{Memory}
use hexos.Kernel.Iso.Records.{
  Mini, IsoFs, iso9660, path_lba, parent_dir_num, length_of_directory_identifier,
}
use hexos.Kernel.Iso.Volume.{path_entry_size, seek_lba, seek_number, parent_of, find_parent}

-- An entry: the length of its identifier, the block of its directory, and the number of its parent.
pub record PathEntry : Type 0 where
  pub name_length : ℕ
  pub block : ℕ
  pub up : ℕ

-- An identifier of an odd length has a byte behind it.
abbrev pub entry_size : PathEntry → ℕ
entry_size e = 8 + e.name_length + e.name_length % 2

pub record IsPathEntry (e : PathEntry) (m : Memory) (at : ℕ) : Type 0 where
  pub length_at : m at ≡ e.name_length
  pub named : 0 < e.name_length
  pub block_at : path_lba m at ≡ e.block
  pub up_at : parent_dir_num m at ≡ e.up

abbrev pub PathTable : List PathEntry → Memory → ℕ → Type 0
PathTable [] m at = m at ≡ 0
PathTable (e ∷ es) m at = IsPathEntry e m at × PathTable es m (at + entry_size e)

-- The address of entry `k`, counted from 0.
abbrev pub entry_at : List PathEntry → ℕ → ℕ → ℕ
entry_at [] at k = at
entry_at (e ∷ es) at zero = at
entry_at (e ∷ es) at (suc k) = entry_at es (at + entry_size e) k

-- Entry `k` is the first whose directory begins at `block`.
abbrev pub FirstAt : ℕ → List PathEntry → ℕ → Type 0
FirstAt block [] k = ⊥
FirstAt block (e ∷ es) zero = e.block ≡ block
FirstAt block (e ∷ es) (suc k) = (e.block ≢ block) × FirstAt block es k

-- The flag of the loop behind `k` entries.
abbrev first_behind : Bool → ℕ → Bool
first_behind first zero = first
first_behind first (suc k) = false

length_of_get :
    (es : List PathEntry) (n : ℕ) {e : PathEntry} → get_elem? es n ≡ some e → n < length es
length_of_get [] n g = cc
length_of_get (x ∷ es) zero g = omega arith
length_of_get (x ∷ es) (suc n) g = omega (arith, length_of_get es n g)

some_eq : {x e : PathEntry} → some x ≡ some e → x ≡ e
some_eq g = cc

path_entry_size-eq :
    {e : PathEntry} {m : Memory} {at : ℕ} → IsPathEntry e m at → path_entry_size at m ≡ entry_size e
path_entry_size-eq v = ground (arith, v.length_at)

behind_false : (k : ℕ) → first_behind false k ≡ false
behind_false zero = refl
behind_false (suc k) = refl

seek_lba-FirstAt :
    (es : List PathEntry) (k fuel block at : ℕ) (first : Bool) (m : Memory)
    → PathTable es m at
    → FirstAt block es k
    → k < fuel
    → seek_lba fuel block at first m ≡ some (some (entry_at es at k, first_behind first k))
unfolding seek_lba
seek_lba-FirstAt es k zero block at first m h f lt = absurd (omega arith)
seek_lba-FirstAt [] k (suc fuel) block at first m h f lt = absurd f
seek_lba-FirstAt (e ∷ es) zero (suc fuel) block at first m h f lt =
    let here : (path_lba m at == block) ≡ true = ground (arith, h.0.block_at) in rw here refl
seek_lba-FirstAt (e ∷ es) (suc k) (suc fuel) block at first m h f lt =
    let on : (path_lba m at == block) ≡ false = ground (arith, h.0.block_at, f.0) in
    let more : (length_of_directory_identifier m at == 0) ≡ false =
      ground (arith, h.0.length_at, h.0.named) in
    let tail = seek_lba-FirstAt es k fuel block (at + entry_size e) false m h.1 f.1 (omega arith) in
    rw (on, more, path_entry_size-eq h.0)
      (tail ∙ ap (λ b. some (some (entry_at es (at + entry_size e) k, b))) (behind_false k))

seek_number-entry :
    (es : List PathEntry) (n at : ℕ) (m : Memory)
    → PathTable es m at
    → n < length es
    → seek_number n at m ≡ some (entry_at es at n)
unfolding seek_number
seek_number-entry [] n at m h lt = absurd (omega arith)
seek_number-entry (e ∷ es) zero at m h lt = refl
seek_number-entry (e ∷ es) (suc n) at m h lt =
    let more : (length_of_directory_identifier m at == 0) ≡ false =
      ground (arith, h.0.length_at, h.0.named) in
    rw (more, path_entry_size-eq h.0)
      (seek_number-entry es n (at + entry_size e) m h.1 (omega arith))

IsPathEntry-at :
    (es : List PathEntry) (k at : ℕ) (m : Memory) {e : PathEntry}
    → PathTable es m at
    → get_elem? es k ≡ some e
    → IsPathEntry e m (entry_at es at k)
IsPathEntry-at [] k at m h g = cc
IsPathEntry-at (x ∷ es) zero at m {e} h g = subst (λ y. IsPathEntry y m at) (some_eq g) h.0
IsPathEntry-at (x ∷ es) (suc k) at m h g = IsPathEntry-at es k (at + entry_size x) m h.1 g

-- The parent of the directory of entry `k`: the mount point for the first, else the one of entry `p`.
abbrev pub parent_mini : IsoFs → ℕ → PathEntry → ℕ → Mini
parent_mini info impl p zero = info.mountpoint
parent_mini info impl p (suc k) = record { inode = p.block; impl = impl; recreate = iso9660 }

-- Where the path table lies in memory, a directory's block is in it, and so is the parent that its
-- entry numbers from 1 on, `iso9660_recreate` finds the parent: the mount point for the first entry,
-- and the block of the numbered entry for the others.
pub find_parent-PathTable :
    (es : List PathEntry) (k fuel table block impl : ℕ) (info : IsoFs) (m : Memory)
    (e p : PathEntry)
    → PathTable es m table
    → FirstAt block es k
    → get_elem? es k ≡ some e
    → get_elem? es (e.up - 1) ≡ some p
    → k < fuel
    → find_parent fuel table block impl info m ≡ some (some (parent_mini info impl p k))
unfolding find_parent parent_of
find_parent-PathTable es zero fuel table block impl info m e p h f at_k at_up lt =
    rw (seek_lba-FirstAt es zero fuel block table true m h f lt) refl
find_parent-PathTable es (suc k) fuel table block impl info m e p h f at_k at_up lt =
    let v = IsPathEntry-at es (suc k) table m h at_k in
    let w = IsPathEntry-at es (e.up - 1) table m h at_up in
    let steps = seek_number-entry es (e.up - 1) table m h (length_of_get es (e.up - 1) at_up) in
    rw (seek_lba-FirstAt es (suc k) fuel block table true m h f lt, v.up_at, steps, w.block_at) refl
