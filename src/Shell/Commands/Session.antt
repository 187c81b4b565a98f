-- ===== src/Shell/Commands/Session.antt =====
-- `main` of the shell over any number of turns.
use little_os.Base.{
  ℕ, ◌<◌, ◌≤◌, ◌≡◌, ◌≢◌, refl, some, List, [], ◌∷◌, ◌++◌, arith, length, take, Memory, bytes,
}
use little_os.Strings.Content.{IsString}
use little_os.Stdio.{then_print, gets}
use little_os.Shell.{max_args}
use little_os.Shell.Words.{words}
use little_os.Shell.Commands.{Event, Round, greet, turn, answer, respond, main_loop, main}
use little_os.Shell.Commands.Dispatch.{sent, say_text}
use little_os.Shell.Commands.Replies.{Replies, nothing, Literals}
use little_os.Shell.Commands.Turns.{Stands, turn_always}

abbrev pub prompt : List ℕ
prompt = bytes "AetherOS> "

abbrev pub welcome_1 : List ℕ
welcome_1 = bytes "\n=================================================================\n"

abbrev pub welcome_2 : List ℕ
welcome_2 = bytes "         Welcome to AetherOS Userland Shell (Ring 3)             \n"

abbrev pub welcome_3 : List ℕ
welcome_3 = bytes "         Type 'help' to see available commands.                  \n"

abbrev pub welcome_4 : List ℕ
welcome_4 = bytes "=================================================================\n\n"

abbrev pub welcome : List ℕ
welcome = welcome_1 ++ (welcome_2 ++ (welcome_3 ++ welcome_4))

-- The texts that `main` itself writes stand in the memory.
pub record Welcomes (place : List ℕ → ℕ) (m : Memory) : Type 0 where
  pub first : IsString m (place welcome_1) welcome_1
  pub second : IsString m (place welcome_2) welcome_2
  pub third : IsString m (place welcome_3) welcome_3
  pub fourth : IsString m (place welcome_4) welcome_4

-- A turn reads a line of fewer than 128 bytes, and `sys_read` returns their number.
pub record Reads (place : List ℕ → ℕ) (line_buf : ℕ) (r : Round) (line : List ℕ) : Type 0 where
  pub counted : r.count ≡ length line
  pub prompts : IsString r.before (place prompt) prompt
  pub stand : Literals (Stands place r.memory line_buf)
  pub here : IsString r.memory line_buf line
  pub short : length line < 128

-- What a session writes for its lines: the prompt and the reply of each.
pub data Session : List (List ℕ) → List Event → Type 0 where
  ended : Session [] []
  answered :
      {line : List ℕ} {lines : List (List ℕ)} {out rest : List Event}
      → Replies (take max_args (words line)) out
      → Session lines rest
      → Session (line ∷ lines) ((sent prompt ++ out) ++ rest)

-- The rounds read the lines, one each.
abbrev pub ReadsAll : (place : List ℕ → ℕ) (line_buf : ℕ) → List Round → List (List ℕ) → Type 0
ReadsAll place line_buf [] [] = Unit
ReadsAll place line_buf (r ∷ rs) (line ∷ lines) =
    Reads place line_buf r line × ReadsAll place line_buf rs lines
ReadsAll place line_buf _ _ = ⊥

module _ (place : List ℕ → ℕ) (fuel line_buf : ℕ) (enough : 130 ≤ fuel) (given : line_buf ≢ 0) where
  greet_lem : (m : Memory) → Welcomes place m → greet place fuel m ≡ some (sent welcome)
  unfolding greet then_print
  greet_lem m w =
      rw
        (
          say_text place fuel m welcome_1 refl w.first (omega arith),
          say_text place fuel m welcome_2 refl w.second (omega arith),
          say_text place fuel m welcome_3 refl w.third (omega arith),
          say_text place fuel m welcome_4 refl w.fourth (omega arith),
        )
        refl

  -- Enter alone: `gets` gives null, and the turn writes its prompt and no more.
  turn_empty :
      (r : Round)
      → r.count ≡ 0
      → IsString r.before (place prompt) prompt
      → turn place fuel line_buf r.count r.args r.before r.memory ≡ some (sent prompt)
  unfolding turn answer respond gets then_print
  turn_empty r none_read prompts =
      rw (none_read, say_text place fuel r.before prompt refl prompts (omega arith)) refl

  turn_read :
      (r : Round) (line : List ℕ)
      → Reads place line_buf r line
      → (out : List Event) × Replies (take max_args (words line)) out
        × (turn place fuel line_buf r.count r.args r.before r.memory ≡ some (sent prompt ++ out))
  unfolding words
  turn_read r [] h = ([], nothing, turn_empty r h.counted h.prompts)
  turn_read r (c ∷ cs) h =
      turn_always place fuel line_buf r.count r.args r.before r.memory (c ∷ cs) enough
        (omega (arith, h.counted)) (omega (arith, h.counted, h.short)) given h.prompts h.stand
        h.here h.short

  main_loop_lem :
      (rs : List Round) (lines : List (List ℕ))
      → ReadsAll place line_buf rs lines
      → (out : List Event) × Session lines out × (main_loop place fuel line_buf rs ≡ some out)
  unfolding main_loop then_print
  main_loop_lem [] [] h = ([], ended, refl)
  main_loop_lem [] (line ∷ lines) h = absurd h
  main_loop_lem (r ∷ rs) [] h = absurd h
  main_loop_lem (r ∷ rs) (line ∷ lines) (h, hs) =
      let (out, replies, run) = turn_read r line h in
      let (rest, session, later) = main_loop_lem rs lines hs in
      ((sent prompt ++ out) ++ rest, answered replies session, rw (run, later, main_loop) refl)

  -- `main` of the shell, with fuel from 130 on, a line buffer that is not at null and its literals in
  -- the memory, writes its welcome and then, for as many lines of fewer than 128 bytes as it reads, the
  -- prompt and the reply of each, in their order. Each read returns the length of its line. A line may
  -- be empty, as after Enter alone: its reply is nothing, and the next turn follows.
  pub main_lem :
      (m : Memory) (rs : List Round) (lines : List (List ℕ))
      → Welcomes place m
      → ReadsAll place line_buf rs lines
      → (out : List Event) × Session lines out
        × (main place fuel line_buf m rs ≡ some (sent welcome ++ out))
  unfolding main then_print
  main_lem m rs lines w h =
      let (out, session, run) = main_loop_lem rs lines h in
      (out, session, rw (greet_lem m w, run, main) refl)
