-- ===== src/Shell/Commands.antt =====
-- userland/shell/commands.c and the loop of `main` in userland/shell/shell.c.
-- A run gives what reaches the kernel, in its order: the bytes written, and the calls of `sys_clear`.
-- Where the compiler puts a literal is a parameter, and so is the fuel of the string functions.
pub mod Dispatch
pub mod Echo
pub mod Fixed
pub mod Replies
pub mod Turns
pub mod Session
pub mod Sample
mod Examples
use little_os.Base.{
  ℕ, zero, suc, ◌+◌, ◌-◌, Bool, true, false, Option, none, some, List, [], ◌∷◌, Memory, ltb, ◌==◌,
  if◌then◌else◌, bytes,
}
use mathlib.Core.List.{map}
use little_os.Strings.{ℤ, pos, negsuc, strcmp}
use little_os.Stdio.{Output, then_print, printf, gets}
use little_os.Shell.{max_args, Tokens, tokenize}

pub data Event : Type 0 where
  wrote : ℕ → Event
  cleared : Event

abbrev pub Run : Type 0
Run = Option (List Event)

-- The functions of the table.
pub data Command : Type 0 where
  help clear echo about : Command

pub record Builtin : Type 0 where
  pub name : ℕ
  pub description : ℕ
  pub func : Command

-- `strcmp(..) == 0`
pub is_zero : ℤ → Bool
is_zero (pos zero) = true
is_zero (pos (suc n)) = false
is_zero (negsuc n) = false

pub write_all : Output → Run
write_all none = none
write_all (some out) = some (map wrote out)

-- The text under the title of `help`.
abbrev pub rule : List ℕ
rule = bytes "-----------------------------------------------------------------\n"

-- A turn of `main`.
pub record Round : Type 0 where
  pub count : ℕ
  pub args : ℕ → ℕ
  pub before : Memory
  pub memory : Memory

module _ (place : List ℕ → ℕ) (fuel : ℕ) where
  -- `builtin_commands`
  pub builtin_commands : List Builtin
  builtin_commands =
      record {
        name = place (bytes "help");
        description = place (bytes "Display information about builtin commands");
        func = help;
      }
      ∷ record {
        name = place (bytes "clear");
        description = place (bytes "Clear the terminal screen");
        func = clear;
      }
      ∷ record {
        name = place (bytes "echo");
        description = place (bytes "Display a line of text");
        func = echo;
      }
      ∷ record {
        name = place (bytes "about");
        description = place (bytes "Display system and kernel information");
        func = about;
      }
      ∷ []

  module _ (m : Memory) where
    -- `printf` of a literal.
    pub say : (format args : List ℕ) → Run
    say format args = write_all (printf fuel fuel m (place format) args)

    pub help_rows : List Builtin → Run
    help_rows [] = some []
    help_rows (b ∷ bs) =
        then_print (say (bytes "  %s\t\t- %s\n") (b.name ∷ b.description ∷ [])) (help_rows bs)

    pub cmd_help : Run
    cmd_help =
        then_print (say (bytes "\nAetherOS Shell - Built-in Commands:\n") [])
          (then_print (say rule []) (then_print (help_rows builtin_commands) (say rule [])))

    pub cmd_clear : Run
    cmd_clear = some (cleared ∷ [])

    -- The loop of `cmd_echo`: `left` is `argc - i`.
    pub echo_loop : (left i argc : ℕ) → (argv : ℕ → ℕ) → Run
    echo_loop zero i argc argv = some []
    echo_loop (suc left) i argc argv = then_print (say (bytes "%s") (argv i ∷ [])) (
        then_print (if ltb i (argc - 1) then say (bytes " ") [] else some [])
          (echo_loop left (i + 1) argc argv))

    pub cmd_echo : (argc : ℕ) → (argv : ℕ → ℕ) → Run
    cmd_echo argc argv = then_print (echo_loop (argc - 1) 1 argc argv) (say (bytes "\n") [])

    pub cmd_about : Run
    cmd_about =
        then_print
          (say (bytes "\n=================================================================\n") [])
          (then_print
            (say (bytes "       AetherOS (LittleOS) - x86 32-bit Operating System         \n") [])
            (then_print
              (say (bytes "       Kernel Mode: Higher-Half Paging (0xC0100000) Ring 0       \n") [])
              (then_print
                (say (bytes "       User Mode  : Flat Binary at 0x00000000 Ring 3             \n")
                  [])
                (then_print
                  (say (bytes "       Developed with Pair Programming by AmiyaSokiya & AI       \n")
                    [])
                  (say
                    (bytes "=================================================================\n\n")
                    [])))))

    pub call : Command → (argc : ℕ) → (argv : ℕ → ℕ) → Run
    call help argc argv = cmd_help
    call clear argc argv = cmd_clear
    call echo argc argv = cmd_echo argc argv
    call about argc argv = cmd_about

    -- The loop over the table and what follows it.
    pub run_builtin : List Builtin → (argc : ℕ) → (argv : ℕ → ℕ) → Run
    run_builtin [] argc argv =
        say (bytes "AetherOS: command not found: %s. Type 'help' for available commands.\n")
          (argv 0 ∷ [])
    run_builtin (b ∷ bs) argc argv = elim (strcmp fuel m (argv 0) b.name) [
      | none ↦ none
      | some order ↦ elim (is_zero order) [
        | true ↦ call b.func argc argv
        | false ↦ run_builtin bs argc argv
      ]
    ]

  -- What `main` prints before its loop.
  pub greet : Memory → Run
  greet m =
      then_print
        (say m (bytes "\n=================================================================\n") [])
        (then_print
          (say m (bytes "         Welcome to AetherOS Userland Shell (Ring 3)             \n") [])
          (then_print
            (say m (bytes "         Type 'help' to see available commands.                  \n") [])
            (say m (bytes "=================================================================\n\n")
              [])))

  -- A turn of `main` behind `gets`; `args` is what the turn before left in `argv`.
  pub respond : (line : ℕ) → (args : ℕ → ℕ) → Memory → Run
  respond line args m = elim (line == 0) [
    | true ↦ some []
    | false ↦ elim (tokenize fuel line args max_args m) [
      | none ↦ none
      | some t ↦ elim (t.count == 0) [
        | true ↦ some []
        | false ↦ run_builtin t.memory builtin_commands t.count t.args
      ]
    ]
  ]

  -- `main` behind its prompt: `count` is the result of `sys_read`, and `m` the memory that it leaves.
  pub answer : (line_buf count : ℕ) → (args : ℕ → ℕ) → Memory → Run
  answer line_buf count args m = respond (gets line_buf count) args m

  -- A turn of `main`: the prompt is written before the line is read.
  pub turn : (line_buf count : ℕ) → (args : ℕ → ℕ) → (before m : Memory) → Run
  turn line_buf count args before m =
      then_print (say before (bytes "AetherOS> ") []) (answer line_buf count args m)

  -- The loop of `main`, turn by turn: what each one finds in `argv` and in the memory, and what its
  -- `sys_read` returns and leaves.
  pub main_loop : (line_buf : ℕ) → List Round → Run
  main_loop line_buf [] = some []
  main_loop line_buf (r ∷ rs) =
      then_print (turn line_buf r.count r.args r.before r.memory) (main_loop line_buf rs)

  pub main : (line_buf : ℕ) → Memory → List Round → Run
  main line_buf m rs = then_print (greet m) (main_loop line_buf rs)
