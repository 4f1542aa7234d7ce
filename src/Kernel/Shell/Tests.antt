-- ===== src/Kernel/Shell/Tests.antt =====
-- The shell with the text "ls" typed.
use hexos.Base.{ℕ, ◌<◌, ◌≡◌, refl, List, [], ◌∷◌, arith, ◌==◌, if◌then◌else◌, get_or, zero, suc}
use hexos.Arch.Tty.{Tty}
use hexos.Kernel.Shell.{Shell, shell_putchar, command, ls, same_string}
use hexos.Kernel.Shell.Editor.{Holds, SameBehind, shell_putchar-type, shell_putchar-backspace}

abbrev tty : Tty
tty = record { row = 0; column = 4; color = 7; buffer = λ i. 0 }

abbrev typed : Shell
typed = record {
  buffer = λ i. if i == 0 then 108 else if i == 1 then 115 else 0;
  buffer_len = 2;
  tty = tty;
}

abbrev ls_text : List ℕ
ls_text = 108 ∷ 115 ∷ []

typed-bytes : (i : ℕ) → i < 2 → typed.buffer i ≡ get_or ls_text i 0
typed-bytes zero h = refl
typed-bytes (suc zero) h = refl
typed-bytes (suc (suc i)) h = absurd (omega arith)

typed-Holds : Holds ls_text typed
typed-Holds = record { len = refl; bytes = typed-bytes; end = refl }

typed-command : command typed ≡ ls
unfolding command same_string
typed-command = refl

shell_putchar-type_example :
    Holds (108 ∷ 115 ∷ 97 ∷ []) (shell_putchar (λ s. s) 97 typed)
    × SameBehind typed (shell_putchar (λ s. s) 97 typed)
shell_putchar-type_example =
    shell_putchar-type (λ s. s) 97 typed ls_text typed-Holds (λ e. omega arith) (λ e. omega arith)
      (omega arith)

shell_putchar-backspace_example :
    (Holds (108 ∷ 115 ∷ []) typed → Holds (108 ∷ []) (shell_putchar (λ s. s) 8 typed))
    × (Holds [] typed → shell_putchar (λ s. s) 8 typed ≡ typed)
shell_putchar-backspace_example = shell_putchar-backspace (λ s. s) 115 typed (108 ∷ [])

abbrev full : Shell
full = record typed { buffer_len = 127 }
