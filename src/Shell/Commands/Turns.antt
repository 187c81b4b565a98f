-- ===== src/Shell/Commands/Turns.antt =====
-- Turns of the shell: what a line makes it write.
use little_os.Base.{
  ℕ, zero, suc, ◌+◌, ◌^◌, ◌<◌, ◌≤◌, ◌≡◌, ◌≢◌, refl, ◌∙◌, ap, true, false, some, List, [], ◌∷◌, ◌++◌,
  ◌==◌, arith, dec_lt, All, length, take, Memory, bytes, ◌⊎◌,
}
use little_os.Strings.Content.{IsString, IsString-same}
use little_os.Stdio.{then_print}
use little_os.Stdio.Texts.{gets_lem}
use little_os.Shell.{max_args, Tokens, tokenize}
use little_os.Shell.Words.{words, length-words}
use little_os.Shell.Tokenize.{Splits, tokenize_lem}
use little_os.Shell.Commands.{Event, builtin_commands, run_builtin, respond, answer, turn}
use little_os.Shell.Commands.Dispatch.{sent, say_text}
use little_os.Shell.Commands.Fixed.{IsLoaded}
use little_os.Shell.Commands.Replies.{
  Replies, nothing, echoes, helps, abouts, clears, unknown, Literals, Literals-map,
  run_builtin-Replies, Replies-total,
}

-- A literal stands in the memory, apart from the line buffer of 128 bytes.
pub record Stands (place : List ℕ → ℕ) (m : Memory) (line_buf : ℕ) (t : List ℕ) : Type 0 where
  pub string : IsString m (place t) t
  pub given : place t ≢ 0
  pub apart : (place t + length t < line_buf) ⊎ (line_buf + 128 ≤ place t)

-- A literal stays where the memory changes in the line buffer alone.
pub Stands-same :
    (place : List ℕ → ℕ) (m m' : Memory) (line_buf : ℕ) (t : List ℕ)
    → ((x : ℕ) → (x < line_buf) ⊎ (line_buf + 128 ≤ x) → m' x ≡ m x)
    → Stands place m line_buf t
    → Stands place m' line_buf t
Stands-same place m m' line_buf t same h = record {
  string =
      IsString-same m m' (place t) t (λ x lo hi. same x (omega (arith, h.apart, lo, hi))) h.string;
  given = h.given;
  apart = h.apart;
}

beyond : (line n x : ℕ) → n < 128 → (x < line) ⊎ (line + 128 ≤ x) → (x < line) ⊎ (line + n ≤ x)
beyond line n x short far = omega (arith, far, short)

Stands-IsLoaded :
    (place : List ℕ → ℕ) (m : Memory) (line_buf : ℕ) (t : List ℕ)
    → Stands place m line_buf t
    → IsLoaded place m t
Stands-IsLoaded place m line_buf t h = record { string = h.string; given = h.given }

All-take : (P : List ℕ → Type 0) (n : ℕ) (ws : List (List ℕ)) → All P ws → All P (take n ws)
All-take P zero ws h = tt
All-take P (suc n) [] h = tt
All-take P (suc n) (w ∷ ws) h = (h.0, All-take P n ws h.1)

All-grow :
    {n k : ℕ}
    → n < k
    → (ws : List (List ℕ)) → All (λ w. length w ≤ n) ws
    → All (λ w. length w < k) ws
All-grow small [] h = tt
All-grow small (w ∷ ws) h = (omega (arith, h.0, small), All-grow small ws h.1)

module _ (place : List ℕ → ℕ) (fuel line : ℕ) (args : ℕ → ℕ) (m : Memory) (t : Tokens)
    (given : line ≢ 0) (split : tokenize fuel line args max_args m ≡ some t) where
  respond_blank : t.count ≡ 0 → respond place fuel line args m ≡ some []
  unfolding respond
  respond_blank empty =
      let there : (line == 0) ≡ false = ground (arith, given) in
      let none : (t.count == 0) ≡ true = ground (arith, empty) in
      rw (respond, there, split, none) refl

  respond_words :
      t.count ≢ 0
      → respond place fuel line args m
        ≡ run_builtin place fuel t.memory (builtin_commands place fuel) t.count t.args
  unfolding respond
  respond_words more =
      let there : (line == 0) ≡ false = ground (arith, given) in
      let some_words : (t.count == 0) ≡ false = ground (arith, more) in
      rw (respond, there, split, some_words) refl

module _ (place : List ℕ → ℕ) (fuel line : ℕ) (args : ℕ → ℕ) (m : Memory) (cs : List ℕ)
    (out : List Event) (enough : 130 ≤ fuel) (given : line ≢ 0)
    (stand : Literals (Stands place m line)) (string : IsString m line cs) (short : length cs < 128)
    (r : Replies (take max_args (words cs)) out) where
  reply_to :
      (t : Tokens)
      → tokenize fuel line args max_args m ≡ some t
      → Splits m args line (length cs) (take max_args (words cs)) t
      → respond place fuel line args m ≡ some out
  reply_to t split s = elim (dec_lt 0 t.count) [
    | yes more ↦
        respond_words place fuel line args m t given split (omega arith)
        ∙ run_builtin-Replies place fuel t.memory t.args t.count
            (Literals-map
              (λ l here. Stands-IsLoaded place t.memory line l (
                Stands-same place m t.memory line l
                  (λ x far. s.kept x (beyond line (length cs) x short far)) here))
              stand)
            enough (λ j below. omega (arith, s.in_line j below, given)) (take max_args (words cs))
            out r s.found more s.counted
            (All-grow (omega arith) (take max_args (words cs))
              (All-take (λ w. length w ≤ length cs) max_args (words cs) (length-words cs)))
    | no none ↦
        respond_blank place fuel line args m t given split (omega arith)
        ∙ ap some (no_words (take max_args (words cs)) out (omega (arith, s.counted)) r)
  ]
    where
      no_words : (ws : List (List ℕ)) (out : List Event) → length ws ≡ 0 → Replies ws out → [] ≡ out
      no_words _ _ empty nothing = refl
      no_words _ _ empty (echoes ws) = absurd (omega (arith, empty))
      no_words _ _ empty (helps ws) = absurd (omega (arith, empty))
      no_words _ _ empty (abouts ws) = absurd (omega (arith, empty))
      no_words _ _ empty (clears ws) = absurd (omega (arith, empty))
      no_words _ _ empty (unknown w ws _ _ _ _) = absurd (omega (arith, empty))

-- The reply behind the prompt.
pub answer-Replies :
    (place : List ℕ → ℕ) (fuel line_buf count : ℕ) (args : ℕ → ℕ) (m : Memory) (cs : List ℕ)
    (out : List Event)
    → 130 ≤ fuel
    → 0 < count
    → count < 2 ^ 31
    → line_buf ≢ 0
    → Literals (Stands place m line_buf)
    → IsString m line_buf cs
    → length cs < 128
    → Replies (take max_args (words cs)) out
    → answer place fuel line_buf count args m ≡ some out
unfolding answer
answer-Replies place fuel line_buf count args m cs out enough got small given stand line short r =
    let split = tokenize_lem fuel line_buf args max_args m cs line (omega arith) in
    let buffer = gets_lem line_buf count got small in
    let reply =
      reply_to place fuel line_buf args m cs out enough given stand line short r split.0 split.1
        split.2 in
    rw (buffer, reply) refl

-- A turn of the shell writes the prompt and then the reply.
pub turn-Replies :
    (place : List ℕ → ℕ) (fuel line_buf count : ℕ) (args : ℕ → ℕ) (before m : Memory) (cs : List ℕ)
    (out : List Event)
    → 130 ≤ fuel
    → 0 < count
    → count < 2 ^ 31
    → line_buf ≢ 0
    → IsString before (place (bytes "AetherOS> ")) (bytes "AetherOS> ")
    → Literals (Stands place m line_buf)
    → IsString m line_buf cs
    → length cs < 128
    → Replies (take max_args (words cs)) out
    → turn place fuel line_buf count args before m ≡ some (sent (bytes "AetherOS> ") ++ out)
unfolding turn then_print
turn-Replies place fuel line_buf count args before m cs out enough got small given prompt stand line
      short r =
    let reply =
      answer-Replies place fuel line_buf count args m cs out enough got small given stand line short
        r in
    let asked = say_text place fuel before (bytes "AetherOS> ") refl prompt (omega arith) in
    rw (asked, reply) refl

-- A turn of the shell on a line of fewer than 128 bytes, from a read of some bytes into a buffer that
-- is not at null, with fuel from 130 on and the literals in the memory and apart from the line, ends:
-- it writes the prompt and then the reply to the words of the line, 16 at most. Every line has a
-- reply: for `echo` the words behind it with a blank between each two, for `clear` the call that
-- clears the screen, for `help` the table of the commands, for `about` its lines, for another word
-- that it was not found, and nothing for a line without words.
pub turn_always :
    (place : List ℕ → ℕ) (fuel line_buf count : ℕ) (args : ℕ → ℕ) (before m : Memory) (cs : List ℕ)
    → 130 ≤ fuel
    → 0 < count
    → count < 2 ^ 31
    → line_buf ≢ 0
    → IsString before (place (bytes "AetherOS> ")) (bytes "AetherOS> ")
    → Literals (Stands place m line_buf)
    → IsString m line_buf cs
    → length cs < 128
    → (out : List Event) × Replies (take max_args (words cs)) out
      × (turn place fuel line_buf count args before m ≡ some (sent (bytes "AetherOS> ") ++ out))
turn_always place fuel line_buf count args before m cs enough got small given prompt stand line
      short =
    let (out, r) = Replies-total (take max_args (words cs)) in
    (
      out,
      r,
      turn-Replies place fuel line_buf count args before m cs out enough got small given prompt
          stand line short r,
    )
