-- ===== src/Kernel/Shell/Files.antt =====
-- What `cat` prints.
use hexos.Base.{
  ℕ, zero, suc, ◌+◌, ◌-◌, ◌*◌, ◌/◌, ◌^◌, ◌<◌, ◌≤◌, ◌≡◌, ◌≢◌, refl, sym, ap, ap₂, ◌∙◌, arith, true,
  false, ◌==◌, leb, Bool-cases, inl, inr, List, [], ◌∷◌, ◌++◌, Option, some,
}
use native.Mathlib.Nat.{add-zero, zero-add}
use mathlib.Core.List.{append_assoc}
use hexos.Kernel.Vfs.{is_directory, read_fs, open_fs, finddir_fs}
use hexos.Kernel.Shell.{Command, cat}
use hexos.Kernel.Shell.Commands.{
  codes, say, string_in, Files, Session, Outcome, done, print_file, show_node, show_file, look_up,
  answer, run_command,
}

-- The `n` bytes of `content` from `at` on.
abbrev pub slice : ℕ → ℕ → (ℕ → ℕ) → List ℕ
slice zero at content = []
slice (suc n) at content = content at ∷ slice n (at + 1) content

slice-add :
    (a b at : ℕ) (content : ℕ → ℕ)
    → slice (a + b) at content ≡ slice a at content ++ slice b (at + a) content
slice-add zero b at content = rw (zero-add, add-zero) refl
slice-add (suc a) b at content =
    let count : suc a + b ≡ suc (a + b) = omega arith in
    let next : at + suc a ≡ at + 1 + a = omega arith in
    rw (count, next) (ap (λ l. content at ∷ l) (slice-add a b (at + 1) content))

-- Bytes other than 0 are a string up to their end.
string_in-slice :
    (n at base : ℕ) (bytes content : ℕ → ℕ)
    → ((j : ℕ) → j < n → bytes (at + j) ≡ content (base + j))
    → ((j : ℕ) → j < n → content (base + j) ≢ 0)
    → string_in n at bytes ≡ slice n base content
unfolding string_in
string_in-slice zero at base bytes content same text = refl
string_in-slice (suc n) at base bytes content same text =
    let here : bytes at ≡ content base =
      ap bytes (omega arith) ∙ same 0 (omega arith) ∙ ap content (omega arith) in
    let first : content base ≢ 0 = λ z. text 0 (omega arith) (ap content (omega arith) ∙ z) in
    let more : (bytes at == 0) ≡ false = ground arith in
    rw (more, here)
      (ap (λ l. content base ∷ l)
        (string_in-slice n (at + 1) (base + 1) bytes content
          (λ j lt. ap bytes (omega arith) ∙ same (suc j) (omega arith) ∙ ap content (omega arith))
          (λ j lt z. text (suc j) (omega arith) (ap content (omega arith) ∙ z))))

module _ {S P : Type 0} (files : Files S P) where
  open files use {node, take_buffer, drop_buffer, buffer}

  -- The node `p` is a file of `n` bytes other than 0, in the states in which `Ok` holds: a read of a
  -- block brings its bytes into the buffer, and the file stays what it is.
  pub record IsFile (Ok : S → Type 0) (p : P) (n : ℕ) (content : ℕ → ℕ) : Type 0 where
    pub length_at : (s : S) → Ok s → (node p s).length ≡ n
    pub keeps : (s : S) (block size : ℕ) → Ok s → Ok (read_fs (node p s) block size s).1
    pub brings :
        (s : S) (block size j : ℕ)
        → Ok s
        → size ≤ 2048
        → j < size
        → block * 2048 + j < n
        → buffer (read_fs (node p s) block size s).1 j ≡ content (block * 2048 + j)
    pub text : (j : ℕ) → j < n → content j ≢ 0

  module _ (Ok : S → Type 0) (p : P) (n : ℕ) (content : ℕ → ℕ) (f : IsFile Ok p n content) where
    -- The state after a block is read, and the text that is printed of it.
    abbrev after_block : ℕ → ℕ → S → S
    after_block block size s = (read_fs (node p s) block size s).1

    block_text :
        (block size : ℕ) (s : S)
        → Ok s
        → size ≤ 2048
        → block * 2048 + size ≤ n
        → string_in size 0 (buffer (after_block block size s)) ≡ slice size (block * 2048) content
    block_text block size s ok small inside =
        string_in-slice size 0 (block * 2048) (buffer (after_block block size s)) content
          (λ j lt.
            ap (buffer (after_block block size s)) (zero-add j)
            ∙ f.brings s block size j ok small lt (omega arith))
          (λ j lt. f.text (block * 2048 + j) (omega arith))

    -- The session after a block is printed.
    abbrev printed : ℕ → ℕ → Session S P → Session S P
    printed block size s =
        say (string_in size 0 (buffer (after_block block size s.state)))
          (record s { state = after_block block size s.state })

    joined :
        (left block : ℕ) (s : Session S P)
        → string_in 2048 0 (buffer (after_block block 2048 s.state))
          ≡ slice 2048 (block * 2048) content
        → 2048 ≤ left
        → block * 2048 + 2048 ≡ (block + 1) * 2048
        → (printed block 2048 s).text ++ slice (left - 2048) ((block + 1) * 2048) content
          ≡ s.text ++ slice left (block * 2048) content
    joined left block s text full on =
        let whole : 2048 + (left - 2048) ≡ left = omega arith in
        append_assoc s.text (string_in 2048 0 (buffer (after_block block 2048 s.state)))
          (slice (left - 2048) ((block + 1) * 2048) content)
        ∙ ap (λ l. s.text ++ l)
            (ap₂ ◌++◌ text (ap (λ a. slice (left - 2048) a content) (sym on))
              ∙ sym (slice-add 2048 (left - 2048) (block * 2048) content)
              ∙ ap (λ k. slice k (block * 2048) content) whole)

    abbrev Printed : ℕ → ℕ → Session S P → Outcome S P → Type 0
    Printed left block s o =
        (t : Session S P) × (o ≡ done t)
        × Ok t.state
        × (t.text ≡ s.text ++ slice left (block * 2048) content)
        × (t.current ≡ s.current)

    -- The rest of the file is printed, a block after the other.
    print_file-Printed :
        (fuel left block : ℕ) (s : Session S P)
        → Ok s.state
        → block * 2048 + left ≡ n
        → left < fuel * 2048
        → Printed left block s (print_file files fuel p left (block * 2048) s)
    unfolding print_file
    print_file-Printed zero left block s ok total enough = absurd (omega arith)
    print_file-Printed (suc fuel) left block s ok total enough =
        let number : block * 2048 / 2048 ≡ block = omega arith in
        elim (Bool-cases (leb 2048 left)) [
          | inl full ↦
              let ok' = f.keeps s.state block 2048 ok in
              let text = block_text block 2048 s.state ok (omega arith) (ground arith) in
              elim (Bool-cases (left - 2048 == 0)) [
                | inl last ↦
                    let all : left ≡ 2048 = ground arith in
                    rw (full, number, last)
                      (
                        _,
                        refl,
                        ok',
                        ap (λ l. s.text ++ l)
                            (text ∙ ap (λ k. slice k (block * 2048) content) (sym all)),
                        refl,
                      )
                | inr more ↦
                    let on : block * 2048 + 2048 ≡ (block + 1) * 2048 = omega arith in
                    let s1 = printed block 2048 s in
                    let (t, ran, ok'', said, same) =
                      print_file-Printed fuel (left - 2048) (block + 1) s1 ok' (ground arith)
                        (ground arith) in
                    rw (full, number, more, on)
                      (t, ran, ok'', said ∙ joined left block s text (ground arith) on, same)
              ]
          | inr part ↦
              let small : left < 2048 = ground arith in
              let none_left : (left - left == 0) ≡ true = ground arith in
              rw (part, number, none_left)
                (
                  _,
                  refl,
                  f.keeps s.state block left ok,
                  ap (λ l. s.text ++ l)
                      (block_text block left s.state ok (omega arith) (omega arith)),
                  refl,
                )
        ]

  -- `cat` in a directory, and once a name has been looked up.
  abbrev show_file_in : ℕ → List ℕ → Option P → Session S P → Outcome S P
  show_file_in fuel name d s = look_up files "cat: " name (show_node files fuel name) d s

  abbrev show_found : ℕ → List ℕ → Session S P → Option P × S → Outcome S P
  show_found fuel name s found = answer files "cat: " name (show_node files fuel name) s found

  -- `cat` of a name that stands for a file of `n` bytes below 2^31, none of them 0, ends and prints these bytes in
  -- order and a line end, however many blocks they fill; the current directory stays.
  pub cat-prints :
      (Ok : S → Type 0) (p dir : P) (n : ℕ) (content : ℕ → ℕ) (fuel at : ℕ)
      (others : Command → Session S P → Outcome S P) (line : ℕ → ℕ) (s : Session S P) (state : S)
      → IsFile Ok p n content
      → s.current ≡ some dir
      → finddir_fs (node dir s.state) (string_in 256 at line) s.state ≡ (some p, state)
      → is_directory (node p state) ≡ false
      → Ok (open_fs (node p state) 1 0 (take_buffer state))
      → n < 2 ^ 31
      → n < fuel * 2048
      → (t : Session S P) × (run_command files fuel others line (cat at) s ≡ done t)
        × (t.text ≡ (s.text ++ slice n 0 content) ++ codes "\n")
        × (t.current ≡ s.current)
  unfolding run_command show_file
  cat-prints Ok p dir n content fuel at others line s state f here found file ok small enough =
      let positive : leb (2 ^ 31) n ≡ false = ground arith in
      let opened = open_fs (node p state) 1 0 (take_buffer state) in
      let (t, ran, _, said, same) =
        print_file-Printed Ok p n content f fuel n 0 (record s { state = opened }) ok (omega arith)
          enough in
      let name = string_in 256 at line in
      (
        record t { text = t.text ++ codes "\n"; state = drop_buffer t.state },
        ap (λ d. show_file_in fuel name d s) here
            ∙ ap (show_found fuel name s) found
            ∙ rw (file, f.length_at opened ok, positive, ran) refl,
        ap (λ l. l ++ codes "\n") said,
        same,
      )
