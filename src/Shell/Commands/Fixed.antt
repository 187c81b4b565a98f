-- ===== src/Shell/Commands/Fixed.antt =====
-- What the commands `help` and `about` write.
use little_os.Base.{
  ℕ, ◌<◌, ◌≤◌, ◌≡◌, ◌≢◌, refl, ◌∙◌, some, List, [], ◌∷◌, ◌++◌, arith, length, Memory, bytes,
}
use mathlib.Core.List.{map-append}
use little_os.Strings.Content.{IsString}
use little_os.Stdio.{then_print}
use little_os.Stdio.Fields.{Field}
use little_os.Shell.Commands.{rule, say, help_rows, builtin_commands, cmd_help, cmd_about}
use little_os.Shell.Commands.Dispatch.{sent, say_text, say_fields}

-- The texts of the builtins.
abbrev pub about_help : List ℕ
about_help = bytes "Display information about builtin commands"

abbrev pub about_clear : List ℕ
about_clear = bytes "Clear the terminal screen"

abbrev pub about_echo : List ℕ
about_echo = bytes "Display a line of text"

abbrev pub about_about : List ℕ
about_about = bytes "Display system and kernel information"

abbrev pub title : List ℕ
title = bytes "\nAetherOS Shell - Built-in Commands:\n"

abbrev pub row_format : List ℕ
row_format = bytes "  %s\t\t- %s\n"

abbrev row : (name description : List ℕ) → List ℕ
row name description = bytes "  " ++ (name ++ (bytes "\t\t- " ++ (description ++ bytes "\n")))

-- The table of the commands, between two rules.
abbrev pub help_text : List ℕ
help_text =
    title
    ++ (rule
        ++ ((row (bytes "help") about_help
              ++ (row (bytes "clear") about_clear
                  ++ (row (bytes "echo") about_echo ++ row (bytes "about") about_about)))
            ++ rule))

-- The lines of `about`.
abbrev pub about_1 : List ℕ
about_1 = bytes "\n=================================================================\n"

abbrev pub about_2 : List ℕ
about_2 = bytes "       AetherOS (LittleOS) - x86 32-bit Operating System         \n"

abbrev pub about_3 : List ℕ
about_3 = bytes "       Kernel Mode: Higher-Half Paging (0xC0100000) Ring 0       \n"

abbrev pub about_4 : List ℕ
about_4 = bytes "       User Mode  : Flat Binary at 0x00000000 Ring 3             \n"

abbrev pub about_5 : List ℕ
about_5 = bytes "       Developed with Pair Programming by AmiyaSokiya & AI       \n"

abbrev pub about_6 : List ℕ
about_6 = bytes "=================================================================\n\n"

abbrev pub about_text : List ℕ
about_text = about_1 ++ (about_2 ++ (about_3 ++ (about_4 ++ (about_5 ++ about_6))))

-- A literal stands at its place, which is not null.
pub record IsLoaded (place : List ℕ → ℕ) (m : Memory) (t : List ℕ) : Type 0 where
  pub string : IsString m (place t) t
  pub given : place t ≢ 0

module _ (place : List ℕ → ℕ) (fuel : ℕ) (m : Memory) (enough : 130 ≤ fuel) where
  -- The fields of a row of the table.
  abbrev fields : (name description : List ℕ) → List Field
  fields name description =
      record { text = bytes "  "; at = place name; word = name }
      ∷ record { text = bytes "\t\t- "; at = place description; word = description }
      ∷ []

  say_row :
      (name description : List ℕ)
      → IsLoaded place m row_format
      → IsLoaded place m name
      → IsLoaded place m description
      → length name < 130
      → length description < 130
      → say place fuel m row_format (place name ∷ place description ∷ [])
        ≡ some (sent (row name description))
  say_row name description format n d short short' =
      say_fields place fuel m (fields name description) (bytes "\n") refl
        (
          record { text = refl; given = n.given; string = n.string; long = omega arith },
          (record { text = refl; given = d.given; string = d.string; long = omega arith }, tt),
        )
        format.string (omega arith)
      ∙ simp map-append

  module _ (format : IsLoaded place m row_format) (top : IsLoaded place m title)
      (line : IsLoaded place m rule) (help : IsLoaded place m (bytes "help"))
      (clear : IsLoaded place m (bytes "clear")) (echo : IsLoaded place m (bytes "echo"))
      (about : IsLoaded place m (bytes "about")) (help' : IsLoaded place m about_help)
      (clear' : IsLoaded place m about_clear) (echo' : IsLoaded place m about_echo)
      (about' : IsLoaded place m about_about) where
    -- `help` writes the table of the commands.
    pub cmd_help_lem : cmd_help place fuel m ≡ some (sent help_text)
    unfolding cmd_help help_rows builtin_commands then_print
    cmd_help_lem =
        rw
          (
            say_text place fuel m title refl top.string (omega arith),
            say_text place fuel m rule refl line.string (omega arith),
            say_row (bytes "help") about_help format help help' (omega arith) (omega arith),
            say_row (bytes "clear") about_clear format clear clear' (omega arith) (omega arith),
            say_row (bytes "echo") about_echo format echo echo' (omega arith) (omega arith),
            say_row (bytes "about") about_about format about about' (omega arith) (omega arith),
          )
          refl

  -- `about` writes its lines.
  pub cmd_about_lem :
      IsLoaded place m about_1
      → IsLoaded place m about_2
      → IsLoaded place m about_3
      → IsLoaded place m about_4
      → IsLoaded place m about_5
      → IsLoaded place m about_6
      → cmd_about place fuel m ≡ some (sent about_text)
  unfolding cmd_about then_print
  cmd_about_lem l1 l2 l3 l4 l5 l6 =
      rw
        (
          say_text place fuel m about_1 refl l1.string (omega arith),
          say_text place fuel m about_2 refl l2.string (omega arith),
          say_text place fuel m about_3 refl l3.string (omega arith),
          say_text place fuel m about_4 refl l4.string (omega arith),
          say_text place fuel m about_5 refl l5.string (omega arith),
          say_text place fuel m about_6 refl l6.string (omega arith),
        )
        refl
