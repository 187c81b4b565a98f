-- ===== src/Shell.antt =====
-- userland/shell/shell.c: the tokenizer of the shell, in place in the line buffer.
-- The line is bytes of the memory, and the argument vector is a function of the index.
pub mod Words
pub mod Skip
pub mod Cut
pub mod Tokenize
pub mod Commands
mod Examples
use little_os.Base.{
  ℕ, zero, suc, ◌+◌, Bool, true, false, not, ◌&&◌, ◌||◌, Option, none, some, Memory, store8, ltb,
  ◌==◌, if◌then◌else◌,
}

abbrev pub max_line_len : ℕ
max_line_len = 128

abbrev pub max_args : ℕ
max_args = 16

-- The four whitespace characters of the conditions.
unfoldable pub is_space : ℕ → Bool
is_space c = c == b' ' || c == b'\t' || c == b'\n' || c == b'\r'

pub is_word : ℕ → Bool
is_word c = not (c == 0) && not (is_space c)

-- `while (p(*line)) line++`
pub skip : (p : ℕ → Bool) → (fuel : ℕ) → Memory → (line : ℕ) → Option ℕ
skip p zero m line = none
skip p (suc fuel) m line = elim (p (m line)) [ true ↦ skip p fuel m (line + 1) | false ↦ some line ]

-- `*line++ = '\0'` behind a word, unless the line ends there.
pub next_line : Memory → ℕ → ℕ
next_line m end = if m end == 0 then end else end + 1

pub cut : Memory → ℕ → Memory
cut m end = if m end == 0 then m else store8 m end 0

-- What the loop leaves: `count`, `args` and the line.
pub record Tokens : Type 0 where
  pub count : ℕ
  pub args : ℕ → ℕ
  pub memory : Memory

-- `while (*line != '\0' && count < max_args)`. `none` is that the fuel runs out.
pub tokenize_loop : (fuel line count limit : ℕ) → (args : ℕ → ℕ) → Memory → Option Tokens
tokenize_loop zero line count limit args m = none
tokenize_loop (suc fuel) line count limit args m = elim (not (m line == 0) && ltb count limit) [
  | false ↦ some (record { count = count; args = args; memory = m })
  | true ↦ elim (skip is_space fuel m line) [
    | none ↦ none
    | some start ↦ elim (m start == 0) [
      | true ↦ some (record { count = count; args = args; memory = m })
      | false ↦ elim (skip is_word fuel m start) [
        | none ↦ none
        | some end ↦
            tokenize_loop fuel (next_line m end) (count + 1) limit (store8 args count start)
              (cut m end)
      ]
    ]
  ]
]

-- `args[count] = (char *)0`
pub end_args : Option Tokens → Option Tokens
end_args none = none
end_args (some t) = some (record t { args = store8 t.args t.count 0 })

pub tokenize : (fuel line : ℕ) → (args : ℕ → ℕ) → (limit : ℕ) → Memory → Option Tokens
tokenize fuel line args limit m = end_args (tokenize_loop fuel line 0 limit args m)
