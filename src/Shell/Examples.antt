-- ===== src/Shell/Examples.antt =====
-- The tokenizer on a line of two words, and on a line that fills the vector.
use little_os.Base.{
  ℕ, ◌<◌, ◌≡◌, ◌↔◌, refl, some, List, [], ◌∷◌, length, take, Memory, store8, arith,
}
use little_os.Strings.Content.{IsString}
use little_os.Shell.{Tokens, tokenize, is_space}
use little_os.Shell.Words.{words}
use little_os.Shell.Tokenize.{Splits, tokenize_lem, tokenize_overruns}

abbrev hi_you : List ℕ
hi_you = b' ' ∷ b'h' ∷ b'i' ∷ b' ' ∷ b'u' ∷ []

-- The line at 64.
abbrev typed : Memory
typed = store8 (store8 (store8 (store8 (store8 (λ a. 0) 64 b' ') 65 b'h') 66 b'i') 67 b' ') 68 b'u'

abbrev vector : ℕ → ℕ
vector i = 9

typed-IsString : IsString typed 64 hi_you
unfolding store8
typed-IsString = (
  refl,
  omega arith,
  (refl, omega arith, (refl, omega arith, (refl, omega arith, (refl, omega arith, refl)))),
)

hi_you-words : words hi_you ≡ (b'h' ∷ b'i' ∷ []) ∷ (b'u' ∷ []) ∷ []
unfolding words is_space
hi_you-words = refl

split_run :
    (t : Tokens) × (tokenize 8 64 vector 2 typed ≡ some t)
    × Splits typed vector 64 5 (take 2 (words hi_you)) t
split_run = tokenize_lem 8 64 vector 2 typed hi_you typed-IsString (omega arith)

tokenize_lem_example :
    (t : Tokens) × (tokenize 8 64 vector 2 typed ≡ some t)
    × Splits typed vector 64 5 (take 2 (words hi_you)) t
tokenize_lem_example = tokenize_lem 8 64 vector 2 typed hi_you typed-IsString (omega arith)

-- Two words and an array of two pointers: the third entry is written.
abbrev filled : Tokens
filled = split_run.0

tokenize_overruns_example : (filled.args 2 ≡ 9) ↔ (length (words hi_you) < 2)
tokenize_overruns_example =
    tokenize_overruns 8 64 vector 2 typed hi_you filled typed-IsString (omega arith) (omega arith)
      split_run.1
