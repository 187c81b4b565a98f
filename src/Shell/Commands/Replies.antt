-- ===== src/Shell/Commands/Replies.antt =====
-- What the shell replies to the words of a line.
use little_os.Base.{
  ℕ, suc, ◌<◌, ◌≤◌, ◌≡◌, ◌≢◌, refl, ◌∙◌, ap, some, List, [], ◌∷◌, ◌++◌, arith, All, length, Memory,
  bytes, get_or, ℕ_discrete,
}
use little_os.Strings.Content.{IsString}
use little_os.Shell.Cut.{IsArgs}
use little_os.Shell.Commands.{
  Event, Command, cleared, builtin_commands, rule, call, cmd_clear, run_builtin,
}
use little_os.Shell.Commands.Dispatch.{sent, say_string, run_builtin_here, run_builtin_later}
use little_os.Shell.Commands.Fixed.{
  help_text, about_text, title, row_format, about_help, about_clear, about_echo, about_about,
  about_1, about_2, about_3, about_4, about_5, about_6, IsLoaded, cmd_help_lem, cmd_about_lem,
}
use little_os.Shell.Commands.Echo.{join, cmd_echo_lem}

abbrev pub not_found : List ℕ
not_found = bytes "AetherOS: command not found: "

abbrev pub hint : List ℕ
hint = bytes ". Type 'help' for available commands.\n"

-- The reply to a line of words: every one has a reply, as `Replies-total` says.
pub data Replies : List (List ℕ) → List Event → Type 0 where
  nothing : Replies [] []
  echoes : (ws : List (List ℕ)) → Replies (bytes "echo" ∷ ws) (sent (join ws ++ bytes "\n"))
  helps : (ws : List (List ℕ)) → Replies (bytes "help" ∷ ws) (sent help_text)
  abouts : (ws : List (List ℕ)) → Replies (bytes "about" ∷ ws) (sent about_text)
  clears : (ws : List (List ℕ)) → Replies (bytes "clear" ∷ ws) (cleared ∷ [])
  unknown :
      (w : List ℕ) (ws : List (List ℕ))
      → w ≢ bytes "help"
      → w ≢ bytes "clear"
      → w ≢ bytes "echo"
      → w ≢ bytes "about"
      → Replies (w ∷ ws) (sent (not_found ++ (w ++ hint)))

-- What holds of the literals that these replies use.
pub record Literals (P : List ℕ → Type 0) : Type 0 where
  pub help : P (bytes "help")
  pub clear : P (bytes "clear")
  pub echo : P (bytes "echo")
  pub about : P (bytes "about")
  pub string : P (bytes "%s")
  pub blank : P (bytes " ")
  pub newline : P (bytes "\n")
  pub unknown : P (not_found ++ (b'%' ∷ b's' ∷ hint))
  pub title : P title
  pub rule : P rule
  pub row : P row_format
  pub help_line : P about_help
  pub clear_line : P about_clear
  pub echo_line : P about_echo
  pub about_line : P about_about
  pub line_1 : P about_1
  pub line_2 : P about_2
  pub line_3 : P about_3
  pub line_4 : P about_4
  pub line_5 : P about_5
  pub line_6 : P about_6

pub Literals-map : {P Q : List ℕ → Type 0} → ((t : List ℕ) → P t → Q t) → Literals P → Literals Q
Literals-map f l = record {
  help = f _ l.help;
  clear = f _ l.clear;
  echo = f _ l.echo;
  about = f _ l.about;
  string = f _ l.string;
  blank = f _ l.blank;
  newline = f _ l.newline;
  unknown = f _ l.unknown;
  title = f _ l.title;
  rule = f _ l.rule;
  row = f _ l.row;
  help_line = f _ l.help_line;
  clear_line = f _ l.clear_line;
  echo_line = f _ l.echo_line;
  about_line = f _ l.about_line;
  line_1 = f _ l.line_1;
  line_2 = f _ l.line_2;
  line_3 = f _ l.line_3;
  line_4 = f _ l.line_4;
  line_5 = f _ l.line_5;
  line_6 = f _ l.line_6;
}

first_differs : {c d : ℕ} {cs ds : List ℕ} → c ≢ d → c ∷ cs ≢ d ∷ ds
first_differs apart e = apart (ap (λ (l : List ℕ). get_or l 0 0) e)

word_discrete : Discrete (List ℕ)
word_discrete = hlevel (ℕ_discrete)

word_decided : (w v : List ℕ) → Dec (w ≡ v)
word_decided w v = word_discrete w v

-- The words of a line have a reply.
pub Replies-total : (ws : List (List ℕ)) → (out : List Event) × Replies ws out
Replies-total [] = ([], nothing)
Replies-total (w ∷ ws) = elim (word_decided w (bytes "help")) [
  | yes help ↦ (sent help_text, rw help (helps ws))
  | no help ↦ elim (word_decided w (bytes "clear")) [
    | yes clear ↦ (cleared ∷ [], rw clear (clears ws))
    | no clear ↦ elim (word_decided w (bytes "echo")) [
      | yes echo ↦ (sent (join ws ++ bytes "\n"), rw echo (echoes ws))
      | no echo ↦ elim (word_decided w (bytes "about")) [
        | yes about ↦ (sent about_text, rw about (abouts ws))
        | no about ↦ (sent (not_found ++ (w ++ hint)), unknown w ws help clear echo about)
      ]
    ]
  ]
]

module _ (place : List ℕ → ℕ) (fuel : ℕ) (m : Memory) (argv : ℕ → ℕ) (argc : ℕ)
    (loaded : Literals (IsLoaded place m)) (enough : 130 ≤ fuel)
    (given : (j : ℕ) → j < argc → argv j ≢ 0) where
  call_clear : call place fuel m Command.clear argc argv ≡ some (cleared ∷ [])
  unfolding call cmd_clear
  call_clear = refl

  call_help : call place fuel m Command.help argc argv ≡ some (sent help_text)
  unfolding call
  call_help =
      cmd_help_lem place fuel m enough loaded.row loaded.title loaded.rule loaded.help loaded.clear
        loaded.echo loaded.about loaded.help_line loaded.clear_line loaded.echo_line
        loaded.about_line

  call_about : call place fuel m Command.about argc argv ≡ some (sent about_text)
  unfolding call
  call_about =
      cmd_about_lem place fuel m enough loaded.line_1 loaded.line_2 loaded.line_3 loaded.line_4
        loaded.line_5 loaded.line_6

  call_echo :
      (ws : List (List ℕ))
      → IsArgs m argv 1 ws
      → argc ≡ suc (length ws)
      → All (λ w. length w < fuel) ws
      → call place fuel m Command.echo argc argv ≡ some (sent (join ws ++ bytes "\n"))
  unfolding call
  call_echo ws h total long =
      cmd_echo_lem place fuel m argv argc loaded.string.string loaded.blank.string (omega arith) ws
        loaded.newline.string h total given long

  not_found_lem :
      (w : List ℕ)
      → IsString m (argv 0) w
      → argv 0 ≢ 0
      → length w < fuel
      → run_builtin place fuel m [] argc argv ≡ some (sent (not_found ++ (w ++ hint)))
  unfolding run_builtin
  not_found_lem w word there long =
      say_string place fuel m not_found hint (argv 0) w refl refl loaded.unknown.string
        (omega arith) there word long

  -- The dispatch of a line with words.
  pub run_builtin-Replies :
      (ws : List (List ℕ)) (out : List Event)
      → Replies ws out
      → IsArgs m argv 0 ws
      → 0 < argc
      → argc ≡ length ws
      → All (λ w. length w < fuel) ws
      → run_builtin place fuel m (builtin_commands place fuel) argc argv ≡ some out
  unfolding builtin_commands
  run_builtin-Replies _ _ nothing h some_words total long = absurd (omega (arith, total))
  run_builtin-Replies _ _ (echoes ws) h some_words total long =
      run_builtin_later place fuel m _ _ argc argv (bytes "echo") (bytes "help") h.0
        loaded.help.string long.0 (first_differs (omega arith))
      ∙ run_builtin_later place fuel m _ _ argc argv (bytes "echo") (bytes "clear") h.0
          loaded.clear.string long.0 (first_differs (omega arith))
      ∙ run_builtin_here place fuel m _ _ argc argv (bytes "echo") (bytes "echo") h.0
          loaded.echo.string long.0 refl
      ∙ call_echo ws h.1 total long.1
  run_builtin-Replies _ _ (helps ws) h some_words total long =
      run_builtin_here place fuel m _ _ argc argv (bytes "help") (bytes "help") h.0
        loaded.help.string long.0 refl
      ∙ call_help
  run_builtin-Replies _ _ (abouts ws) h some_words total long =
      run_builtin_later place fuel m _ _ argc argv (bytes "about") (bytes "help") h.0
        loaded.help.string long.0 (first_differs (omega arith))
      ∙ run_builtin_later place fuel m _ _ argc argv (bytes "about") (bytes "clear") h.0
          loaded.clear.string long.0 (first_differs (omega arith))
      ∙ run_builtin_later place fuel m _ _ argc argv (bytes "about") (bytes "echo") h.0
          loaded.echo.string long.0 (first_differs (omega arith))
      ∙ run_builtin_here place fuel m _ _ argc argv (bytes "about") (bytes "about") h.0
          loaded.about.string long.0 refl
      ∙ call_about
  run_builtin-Replies _ _ (clears ws) h some_words total long =
      run_builtin_later place fuel m _ _ argc argv (bytes "clear") (bytes "help") h.0
        loaded.help.string long.0 (first_differs (omega arith))
      ∙ run_builtin_here place fuel m _ _ argc argv (bytes "clear") (bytes "clear") h.0
          loaded.clear.string long.0 refl
      ∙ call_clear
  run_builtin-Replies _ _ (unknown w ws help clear echo about) h some_words total long =
      run_builtin_later place fuel m _ _ argc argv w (bytes "help") h.0 loaded.help.string long.0
        help
      ∙ run_builtin_later place fuel m _ _ argc argv w (bytes "clear") h.0 loaded.clear.string
          long.0 clear
      ∙ run_builtin_later place fuel m _ _ argc argv w (bytes "echo") h.0 loaded.echo.string long.0
          echo
      ∙ run_builtin_later place fuel m _ _ argc argv w (bytes "about") h.0 loaded.about.string
          long.0 about
      ∙ not_found_lem w h.0 (given 0 some_words) long.0
