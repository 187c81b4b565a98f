-- ===== src/Shell/Commands/Examples.antt =====
-- Turns of the shell at lines of two words.
use little_os.Base.{[], ◌∷◌, ℕ, ◌≡◌, refl, some, List, ◌++◌, arith, bytes, take}
use little_os.Shell.{max_args}
use little_os.Shell.Words.{words}
use little_os.Shell.Commands.{Event, Round, turn, main}
use little_os.Shell.Commands.Dispatch.{sent}
use little_os.Shell.Commands.Replies.{Replies}
use little_os.Shell.Commands.Turns.{turn_always}
use little_os.Shell.Commands.Session.{Session, ReadsAll, welcome, main_lem}
use little_os.Shell.Commands.Sample.{
  prompt-IsString, line-Welcomes, is_string-IsString, place, holding, line-Literals,
}

abbrev typed : List ℕ
typed = bytes " echo hi  you"

turn_always_example :
    (out : List Event) × Replies (take max_args (words typed)) out
    × (turn place 130 64 13 (λ i. 0) (holding []) (holding typed)
        ≡ some (sent (bytes "AetherOS> ") ++ out))
turn_always_example =
    turn_always place 130 64 13 (λ i. 0) (holding []) (holding typed) typed (omega arith)
      (omega arith) (omega arith) (omega arith) (prompt-IsString []) (line-Literals typed)
      (is_string-IsString (holding typed) 64 typed refl) (omega arith)

abbrev asked : List ℕ
asked = bytes "help"

-- A line of words, Enter alone, and a command.
abbrev rounds : List Round
rounds =
    record { count = 13; args = λ i. 0; before = holding []; memory = holding typed }
    ∷ record { count = 0; args = λ i. 64; before = holding typed; memory = holding [] }
    ∷ record { count = 4; args = λ i. 64; before = holding []; memory = holding asked }
    ∷ []

rounds-ReadsAll : ReadsAll place 64 rounds (typed ∷ [] ∷ asked ∷ [])
rounds-ReadsAll = (
  record {
    counted = refl;
    prompts = prompt-IsString [];
    stand = line-Literals typed;
    here = is_string-IsString (holding typed) 64 typed refl;
    short = omega arith;
  },
  (
    record {
      counted = refl;
      prompts = prompt-IsString typed;
      stand = line-Literals [];
      here = is_string-IsString (holding []) 64 [] refl;
      short = omega arith;
    },
    (
      record {
        counted = refl;
        prompts = prompt-IsString [];
        stand = line-Literals asked;
        here = is_string-IsString (holding asked) 64 asked refl;
        short = omega arith;
      },
      tt,
    ),
  ),
)

main_lem_example :
    (out : List Event) × Session (typed ∷ [] ∷ asked ∷ []) out
    × (main place 130 64 (holding []) rounds ≡ some (sent welcome ++ out))
main_lem_example =
    main_lem place 130 64 (omega arith) (omega arith) (holding []) rounds (typed ∷ [] ∷ asked ∷ [])
      (line-Welcomes []) rounds-ReadsAll
