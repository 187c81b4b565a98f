-- ===== src/Shell/Commands/Sample.antt =====
-- A memory with the literals of the shell and a line, for the examples.
use little_os.Base.{
  ℕ, ◌+◌, ◌-◌, ◌*◌, ◌/◌, ◌%◌, ◌≡◌, refl, Bool, true, false, not, ◌&&◌, List, [], ◌∷◌, ◌++◌, ◌==◌,
  ltb, inr, if◌then◌else◌, arith, bytes, get_or, Memory,
}
use little_os.Strings.Content.{IsString}
use little_os.Shell.Commands.{rule}
use little_os.Shell.Commands.Fixed.{
  title, row_format, about_help, about_clear, about_echo, about_about, about_1, about_2, about_3,
  about_4, about_5, about_6,
}
use little_os.Shell.Commands.Replies.{Literals, not_found, hint}
use little_os.Shell.Commands.Session.{prompt, welcome_1, welcome_2, welcome_3, welcome_4, Welcomes}
use little_os.Shell.Commands.Turns.{Stands}

abbrev pub is_string : Memory → ℕ → List ℕ → Bool
is_string m a [] = m a == 0
is_string m a (c ∷ cs) = m a == c && (not (c == 0) && is_string m (a + 1) cs)

pub is_string-IsString :
    (m : Memory) (a : ℕ) (cs : List ℕ) → is_string m a cs ≡ true → IsString m a cs
is_string-IsString m a [] h = ground (arith, h)
is_string-IsString m a (c ∷ cs) h =
    (ground (arith, h), ground (arith, h), is_string-IsString m (a + 1) cs (ground (arith, h)))

abbrev texts : List (List ℕ)
texts =
    bytes "help"
    ∷ bytes "clear"
    ∷ bytes "echo"
    ∷ bytes "about"
    ∷ bytes "%s"
    ∷ bytes " "
    ∷ bytes "\n"
    ∷ (not_found ++ (b'%' ∷ b's' ∷ hint))
    ∷ title
    ∷ rule
    ∷ row_format
    ∷ about_help
    ∷ about_clear
    ∷ about_echo
    ∷ about_about
    ∷ about_1
    ∷ about_2
    ∷ about_3
    ∷ about_4
    ∷ about_5
    ∷ about_6
    ∷ welcome_2
    ∷ welcome_3
    ∷ prompt
    ∷ []

abbrev same_text : List ℕ → List ℕ → Bool
same_text [] [] = true
same_text [] (d ∷ ds) = false
same_text (c ∷ cs) [] = false
same_text (c ∷ cs) (d ∷ ds) = c == d && same_text cs ds

abbrev index_of : List ℕ → List (List ℕ) → ℕ
index_of t [] = 0
index_of t (u ∷ us) = if same_text t u then 0 else 1 + index_of t us

-- The texts stand one behind another, 128 bytes each.
abbrev pub place : List ℕ → ℕ
place t = 1024 + 128 * index_of t texts

-- The literals, and a line at 64.
abbrev pub holding : List ℕ → Memory
holding line x =
    if ltb x 1024
    then (if ltb x 64 then 0 else get_or line (x - 64) 0)
    else get_or (get_or texts ((x - 1024) / 128) []) ((x - 1024) % 128) 0

stands :
    (line t : List ℕ)
    → is_string (holding line) (place t) t ≡ true
    → Stands place (holding line) 64 t
stands line t h = record {
  string = is_string-IsString (holding line) (place t) t h;
  given = omega arith;
  apart = inr (omega arith);
}

pub line-Literals : (line : List ℕ) → Literals (Stands place (holding line) 64)
line-Literals line = record {
  help = stands line _ refl;
  clear = stands line _ refl;
  echo = stands line _ refl;
  about = stands line _ refl;
  string = stands line _ refl;
  blank = stands line _ refl;
  newline = stands line _ refl;
  unknown = stands line _ refl;
  title = stands line _ refl;
  rule = stands line _ refl;
  row = stands line _ refl;
  help_line = stands line _ refl;
  clear_line = stands line _ refl;
  echo_line = stands line _ refl;
  about_line = stands line _ refl;
  line_1 = stands line _ refl;
  line_2 = stands line _ refl;
  line_3 = stands line _ refl;
  line_4 = stands line _ refl;
  line_5 = stands line _ refl;
  line_6 = stands line _ refl;
}

pub prompt-IsString : (line : List ℕ) → IsString (holding line) (place prompt) prompt
prompt-IsString line = (stands line prompt refl).string

pub line-Welcomes : (line : List ℕ) → Welcomes place (holding line)
line-Welcomes line = record {
  first = (stands line welcome_1 refl).string;
  second = (stands line welcome_2 refl).string;
  third = (stands line welcome_3 refl).string;
  fourth = (stands line welcome_4 refl).string;
}
