-- ===== src/Shell/Commands/Echo.antt =====
-- What the command `echo` writes.
use little_os.Base.{
  append_nil, ℕ, suc, ◌+◌, ◌-◌, ◌<◌, ◌≤◌, ◌≡◌, ◌≢◌, refl, ◌∙◌, ap, sym, true, false, some, List, [],
  ◌∷◌, ◌++◌, ltb, arith, All, length, Memory, bytes,
}
use little_os.Strings.Content.{IsString}
use little_os.Stdio.{then_print}
use little_os.Shell.Cut.{IsArgs}
use little_os.Shell.Commands.{Event, wrote, say, echo_loop, cmd_echo}
use little_os.Shell.Commands.Dispatch.{sent, sent-append, say_text, say_string}

-- The words with a blank between each two.
unfoldable pub join : List (List ℕ) → List ℕ
join [] = []
join (w ∷ []) = w
join (w ∷ v ∷ ws) = w ++ (b' ' ∷ join (v ∷ ws))

module _ (place : List ℕ → ℕ) (fuel : ℕ) (m : Memory) (argv : ℕ → ℕ) (argc : ℕ)
    (string : IsString m (place (bytes "%s")) (bytes "%s"))
    (blank : IsString m (place (bytes " ")) (bytes " ")) (enough : 2 < fuel) where
  say_word :
      (i : ℕ) (w : List ℕ)
      → argv i ≢ 0
      → IsString m (argv i) w
      → length w < fuel
      → say place fuel m (bytes "%s") (argv i ∷ []) ≡ some (sent w)
  say_word i w given word long =
      say_string place fuel m [] [] (argv i) w refl refl string (omega arith) given word long
      ∙ ap (λ r. some (sent r)) (append_nil w)

  echo_loop_none : (i : ℕ) → echo_loop place fuel m 0 i argc argv ≡ some []
  unfolding echo_loop
  echo_loop_none i = refl

  echo_loop_last :
      (i : ℕ) (out : List Event)
      → suc i ≡ argc
      → say place fuel m (bytes "%s") (argv i ∷ []) ≡ some out
      → echo_loop place fuel m 1 i argc argv ≡ some out
  unfolding echo_loop then_print
  echo_loop_last i out total first =
      let last : ltb i (argc - 1) ≡ false = ground (arith, total) in
      rw (first, last) (ap some (append_nil out))

  echo_loop_more :
      (left i : ℕ) (out rest : List Event)
      → suc i < argc
      → say place fuel m (bytes "%s") (argv i ∷ []) ≡ some out
      → echo_loop place fuel m left (i + 1) argc argv ≡ some rest
      → echo_loop place fuel m (suc left) i argc argv ≡ some (out ++ (wrote b' ' ∷ rest))
  unfolding echo_loop then_print
  echo_loop_more left i out rest later first behind =
      let more : ltb i (argc - 1) ≡ true = ground (arith, later) in
      let between = say_text place fuel m (bytes " ") refl blank (omega arith) in
      rw (first, more, between, behind) refl

  echo_loop_lem :
      (ws : List (List ℕ)) (i : ℕ)
      → IsArgs m argv i ws
      → argc ≡ i + length ws
      → ((j : ℕ) → i ≤ j → j < argc → argv j ≢ 0)
      → All (λ w. length w < fuel) ws
      → echo_loop place fuel m (length ws) i argc argv ≡ some (sent (join ws))
  unfolding join
  echo_loop_lem [] i h total given long = echo_loop_none i
  echo_loop_lem (w ∷ []) i h total given long =
      echo_loop_last i (sent w) (omega (arith, total))
        (say_word i w (given i (omega arith) (omega (arith, total))) h.0 long.0)
  echo_loop_lem (w ∷ v ∷ ws) i h total given long =
      echo_loop_more (length (v ∷ ws)) i (sent w) (sent (join (v ∷ ws))) (omega (arith, total))
        (say_word i w (given i (omega arith) (omega (arith, total))) h.0 long.0)
        (echo_loop_lem (v ∷ ws) (i + 1) h.1 (omega (arith, total))
          (λ j lo hi. given j (omega arith) hi) long.1)
      ∙ ap some (sym (sent-append w (b' ' ∷ join (v ∷ ws))))

  -- `echo` writes its arguments with a blank between each two, and ends the line.
  pub cmd_echo_lem :
      (ws : List (List ℕ))
      → IsString m (place (bytes "\n")) (bytes "\n")
      → IsArgs m argv 1 ws
      → argc ≡ suc (length ws)
      → ((j : ℕ) → j < argc → argv j ≢ 0)
      → All (λ w. length w < fuel) ws
      → cmd_echo place fuel m argc argv ≡ some (sent (join ws ++ bytes "\n"))
  unfolding cmd_echo then_print
  cmd_echo_lem ws newline h total given long =
      let left : argc - 1 ≡ length ws = omega (arith, total) in
      let words = echo_loop_lem ws 1 h (omega (arith, total)) (λ j lo hi. given j hi) long in
      let end = say_text place fuel m (bytes "\n") refl newline (omega arith) in
      rw (left, words, end) (ap some (sym (sent-append (join ws) (bytes "\n"))))
