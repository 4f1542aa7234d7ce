-- ===== src/Kernel/Shell/Listing.antt =====
-- What `ls` prints.
use hexos.Base.{
  ℕ, zero, suc, ◌+◌, ◌^◌, ◌<◌, ◌≡◌, refl, sym, ap, ◌∙◌, arith, List, [], ◌∷◌, ◌++◌, length,
  get_elem?, none, some, add32,
}
use native.Mathlib.Nat.{add-zero, add_assoc}
use mathlib.Core.List.{append_assoc, append-nil}
use hexos.Kernel.Vfs.{Dirent, readdir_fs}
use hexos.Kernel.Shell.{Command, ls}
use hexos.Kernel.Shell.Commands.{
  codes, say, Files, Session, Outcome, done, list_names, list_entry, list_directory, run_command,
}

-- The lines of a listing.
abbrev pub lines : List Dirent → List ℕ
lines [] = []
lines (e ∷ es) = (e.d_name ++ codes "\n") ++ lines es

module _ {S P : Type 0} (files : Files S P) where
  open files use {node}

  -- The node `dir` lists `es`, in the states in which `Ok` holds.
  pub record IsListing (Ok : S → Type 0) (dir : P) (i : ℕ) (es : List Dirent) : Type 0 where
    pub entries : (s : S) (k : ℕ) → Ok s → (readdir_fs (node dir s) (i + k) s).0 ≡ get_elem? es k
    pub keeps : (s : S) (k : ℕ) → Ok s → Ok (readdir_fs (node dir s) k s).1

  list_names-lines :
      (Ok : S → Type 0) (dir : P) (es : List Dirent) (fuel i : ℕ) (s : Session S P)
      → IsListing Ok dir i es
      → Ok s.state
      → length es < fuel
      → i + length es < 2 ^ 32
      → (t : Session S P) × (list_names files fuel dir i s ≡ done t)
        × (t.text ≡ s.text ++ lines es)
        × (t.current ≡ s.current)
  unfolding list_names
  list_names-lines Ok dir es zero i s l ok enough small = absurd (omega arith)
  list_names-lines Ok dir [] (suc fuel) i s l ok enough small =
      let answered = readdir_fs (node dir s.state) i s.state in
      let none_left : answered.0 ≡ none =
        ap (λ k. (readdir_fs (node dir s.state) k s.state).0) (sym (add-zero i))
        ∙ l.entries s.state 0 ok in
      (
        record s { state = answered.1 },
        ap
            (λ o.
              list_entry files (λ s'. list_names files fuel dir (add32 i 1) s') s (o, answered.1))
            none_left,
        sym (append-nil s.text),
        refl,
      )
  list_names-lines Ok dir (e ∷ es) (suc fuel) i s l ok enough small =
      let answered = readdir_fs (node dir s.state) i s.state in
      let one : answered.0 ≡ some e =
        ap (λ k. (readdir_fs (node dir s.state) k s.state).0) (sym (add-zero i))
        ∙ l.entries s.state 0 ok in
      let next : add32 i 1 ≡ i + 1 = omega arith in
      let s' = say (e.d_name ++ codes "\n") (record s { state = answered.1 }) in
      let (t, ran, said, same) =
        list_names-lines Ok dir es fuel (i + 1) s'
          (record {
            entries = λ u k ok_u.
                ap (λ a. (readdir_fs (node dir u) a u).0)
                  (add_assoc i 1 k ∙ ap (λ b. i + b) (omega arith))
                ∙ l.entries u (suc k) ok_u;
            keeps = l.keeps;
          })
          (l.keeps s.state i ok) (omega arith) (omega arith) in
      (
        t,
        ap
              (λ o.
                list_entry files (λ s'. list_names files fuel dir (add32 i 1) s') s (o, answered.1))
              one
            ∙ ap (λ a. list_names files fuel dir a s') next
            ∙ ran,
        said ∙ append_assoc s.text (e.d_name ++ codes "\n") (lines es),
        same,
      )

  -- `ls` in a directory that lists `es` ends and prints their names in order, each with a line end;
  -- the current directory stays.
  pub ls-prints :
      (Ok : S → Type 0) (dir : P) (es : List Dirent) (fuel : ℕ)
      (others : Command → Session S P → Outcome S P) (line : ℕ → ℕ) (s : Session S P)
      → IsListing Ok dir 0 es
      → s.current ≡ some dir
      → Ok s.state
      → length es < fuel
      → length es < 2 ^ 32
      → (t : Session S P) × (run_command files fuel others line ls s ≡ done t)
        × (t.text ≡ s.text ++ lines es)
        × (t.current ≡ s.current)
  unfolding run_command
  ls-prints Ok dir es fuel others line s l here ok enough small =
      let (t, ran, said, same) = list_names-lines Ok dir es fuel 0 s l ok enough (omega arith) in
      (t, ap (λ d. list_directory files fuel d s) here ∙ ran, said, same)
