-- ===== src/Kernel/Shell/Commands.antt =====
-- kernel/kernel/shell.c: the commands of `shell_runcmd` that work on the file system. The text that
-- they print is a list of characters. Loops run on fuel.
use Prim.Native.Char.{code}
use Prim.Native.String.{String}
use hexos.Base.{
  ℕ, zero, suc, ◌+◌, ◌-◌, ◌/◌, ◌^◌, true, false, Option, none, some, List, [], ◌∷◌, ◌++◌,
  if◌then◌else◌, ◌==◌, leb, add32,
}
use hexos.Kernel.Vfs.{Dirent, FsNode, is_directory, read_fs, open_fs, readdir_fs, finddir_fs}
use hexos.Kernel.Shell.{Command, nothing, uname, ls, cd_up, cd_to, cat, filesize, pwd, mem}
use hexos.Libc.Printf.{printf_int}

-- The characters of a text.
abbrev pub codes : String → List ℕ
codes String.[] = []
codes (String.◌∷◌ c s) = code c ∷ codes s

-- The string in at most `n` bytes from `at` on.
unfoldable pub string_in : ℕ → ℕ → (ℕ → ℕ) → List ℕ
string_in zero at bytes = []
string_in (suc n) at bytes =
    let rest = string_in n (at + 1) bytes in if bytes at == 0 then [] else bytes at ∷ rest

-- The file systems as the shell meets them: the node at a pointer, and the 2049 bytes of `filebuf`,
-- which `kalloc` and `kfree` take and give back.
pub record Files (S P : Type 0) : Type 0 where
  pub node : P → S → FsNode S P
  pub take_buffer : S → S
  pub drop_buffer : S → S
  pub buffer : S → ℕ → ℕ

-- `current_dir`, which may be null; the state of the file systems; and the text printed so far.
pub record Session (S P : Type 0) : Type 0 where
  pub current : Option P
  pub state : S
  pub text : List ℕ

-- What a command comes to. A fault is an access through a null pointer or outside of `filebuf`.
pub data Outcome (S P : Type 0) : Type 0 where
  done : Session S P → Outcome S P
  fault : Outcome S P
  out_of_fuel : Outcome S P

module _ {S P : Type 0} where
  abbrev pub say : List ℕ → Session S P → Session S P
  say text s = record s { text = s.text ++ text }

  -- printf("<command>: %s<problem>\n", name)
  abbrev pub complain : String → List ℕ → String → Session S P → Session S P
  complain command name problem s = say (codes command ++ name ++ codes problem) s

module _ {S P : Type 0} (files : Files S P) where
  open files use {node, take_buffer, drop_buffer, buffer}

  -- What a round of `ls` does with an answer of `readdir_fs`; `rest` are the other rounds.
  abbrev pub list_entry :
      (Session S P → Outcome S P) → Session S P → Option Dirent × S → Outcome S P
  list_entry rest s (none, state) = done (record s { state = state })
  list_entry rest s (some e, state) =
      rest (say (e.d_name ++ codes "\n") (record s { state = state }))

  -- The loop of `ls` from number `i` on.
  unfoldable pub list_names : ℕ → P → ℕ → Session S P → Outcome S P
  list_names zero dir i s = out_of_fuel
  list_names (suc fuel) dir i s =
      list_entry (λ s'. list_names fuel dir (add32 i 1) s') s
        (readdir_fs (node dir s.state) i s.state)

  -- `cd ..`
  unfoldable pub go_up : Option P → Session S P → Outcome S P
  go_up none s = fault
  go_up (some dir) s =
      let here = node dir s.state in
      elim here.parent.recreate [
        | none ↦ done (say (codes "cd: cannot go up further\n") s)
        | some again ↦
            let (up, state) = again here.parent.mini_inode here.parent.mini_impl s.state in
            elim (node dir state).free_node [
              | none ↦ fault
              | some free ↦ done (record s { current = up; state = free state })
            ]
      ]

  -- What a command does with the answer of `finddir_fs`; `found` goes on with the node.
  abbrev pub answer :
      String → List ℕ → (P → Session S P → Outcome S P) → Session S P → Option P × S → Outcome S P
  answer command name found s (none, state) =
      done (complain command name ": no such file or directory\n" (record s { state = state }))
  answer command name found s (some p, state) = found p (record s { state = state })

  -- A name is looked up in the current directory.
  abbrev pub look_up :
      String → List ℕ → (P → Session S P → Outcome S P) → Option P → Session S P → Outcome S P
  look_up command name found none s = fault
  look_up command name found (some dir) s =
      answer command name found s (finddir_fs (node dir s.state) name s.state)

  -- `cd` of a name.
  unfoldable pub change_directory : List ℕ → Session S P → Outcome S P
  change_directory name s =
      look_up "cd: " name
        (λ p s'.
          if is_directory (node p s'.state)
          then done (record s' { current = some p })
          else done (complain "cd: " name ": is a file\n" s'))
        s.current s

  -- The loop of `cat`: `left` bytes are left from `offset` on. Both are an `int` that is not negative.
  unfoldable pub print_file : ℕ → P → ℕ → ℕ → Session S P → Outcome S P
  print_file zero p left offset s = out_of_fuel
  print_file (suc fuel) p left offset s =
      let size = if leb 2048 left then 2048 else left in
      let state = (read_fs (node p s.state) (offset / 2048) size s.state).1 in
      let s' = say (string_in size 0 (buffer state)) (record s { state = state }) in
      let rest = print_file fuel p (left - size) (offset + size) s' in
      if left - size == 0 then done s' else rest

  -- The end of `cat`.
  abbrev pub close_file : Outcome S P → Outcome S P
  close_file (done s) = done (record s { text = s.text ++ codes "\n"; state = drop_buffer s.state })
  close_file fault = fault
  close_file out_of_fuel = out_of_fuel

  -- `cat` of the node `p`. A length from 2^31 on is a negative `int`, at which a zero is written.
  abbrev pub show_node : ℕ → List ℕ → P → Session S P → Outcome S P
  show_node fuel name p s =
      if is_directory (node p s.state)
      then done (complain "cat: " name ": is a directory\n" s)
      else let opened = open_fs (node p s.state) 1 0 (take_buffer s.state) in
        let length = (node p opened).length in
        if leb (2 ^ 31) length
        then fault
        else close_file (print_file fuel p length 0 (record s { state = opened }))

  unfoldable pub show_file : ℕ → List ℕ → Session S P → Outcome S P
  show_file fuel name s = look_up "cat: " name (show_node fuel name) s.current s

  -- The length as an `int`.
  abbrev pub length_text : ℕ → Option (List ℕ)
  length_text n = if leb (2 ^ 31) n then printf_int true (2 ^ 32 - n) else printf_int false n

  abbrev pub print_length : Option (List ℕ) → Session S P → Outcome S P
  print_length none s = out_of_fuel
  print_length (some text) s = done (say (text ++ codes "\n") s)

  unfoldable pub show_length : List ℕ → Session S P → Outcome S P
  show_length name s =
      look_up "filesize: " name
        (λ p s'.
          if is_directory (node p s'.state)
          then done (complain "filesize: " name ": is a directory\n" s')
          else print_length (length_text (node p s'.state).length) s')
        s.current s

  abbrev pub list_directory : ℕ → Option P → Session S P → Outcome S P
  list_directory fuel none s = fault
  list_directory fuel (some dir) s = list_names fuel dir 0 s

  -- The commands of `shell_runcmd`, with the shell's buffer; `others` are those that do
  -- not work on the file system.
  unfoldable pub run_command :
      ℕ → (Command → Session S P → Outcome S P) → (ℕ → ℕ) → Command → Session S P → Outcome S P
  run_command fuel others line nothing s = done s
  run_command fuel others line uname s = done (say (codes "HexOS\n") s)
  run_command fuel others line ls s = list_directory fuel s.current s
  run_command fuel others line cd_up s = go_up s.current s
  run_command fuel others line (cd_to at) s = change_directory (string_in 256 at line) s
  run_command fuel others line (cat at) s = show_file fuel (string_in 256 at line) s
  run_command fuel others line (filesize at) s = show_length (string_in 256 at line) s
  run_command fuel others line pwd s = done (say (codes "hex\n") s)
  run_command fuel others line mem s = done (say (codes "TODO: this\n") s)
  run_command fuel others line Command.unknown s =
      done (say (codes "Unknown or invalid command!\n") s)
  run_command fuel others line command s = others command s
