-- ===== src/Shell/Cut.antt =====
-- A round of the tokenizer: what the cut behind a word leaves, and what a word adds to the rest.
use little_os.Base.{
  ℕ, suc, ◌+◌, ◌<◌, ◌≤◌, ◌≡◌, ◌≢◌, refl, ◌∙◌, sym, inl, inr, true, false, not, ◌&&◌, Option, some,
  List, [], ◌∷◌, ◌==◌, dec_lt, arith, length, Memory, store8, store8_self, store8_ne, ◌⊎◌, ltb,
}
use little_os.Strings.Content.{IsString, IsString-same}
use little_os.Shell.{is_space, is_word, skip, next_line, cut, Tokens, tokenize_loop}
use little_os.Shell.Words.{words, words_space, Stops, is_word_lem}

-- The line `now` from `next` on, behind a word that ends at `end`, before the bytes `r`.
pub record Cuts (m : Memory) (end : ℕ) (r : List ℕ) (next : ℕ) (now : Memory) : Type 0 where
  pub tail : List ℕ
  pub string : IsString now next tail
  pub same_words : words tail ≡ words r
  pub same_end : next + length tail ≡ end + length r
  pub behind : (end < next) ⊎ ((end ≡ next) × (length r ≡ 0))
  pub ended : now end ≡ 0
  pub kept : (x : ℕ) → (x < end) ⊎ (end + length r ≤ x) → now x ≡ m x

pub cut-Cuts :
    (m : Memory) (end : ℕ) (r : List ℕ)
    → IsString m end r
    → Stops is_word r
    → Cuts m end r (next_line m end) (cut m end)
unfolding next_line cut
cut-Cuts m end [] h stops =
    let at_end : (m end == 0) ≡ true = ground (arith, h) in
    rw (next_line, cut, at_end)
      record {
        tail = [];
        string = h;
        same_words = refl;
        same_end = refl;
        behind = inr (refl, refl);
        ended = h;
        kept = λ x far. refl;
      }
cut-Cuts m end (e ∷ es) h stops =
    let inside : (m end == 0) ≡ false = ground (arith, h.0, h.1) in
    let space : is_space e ≡ true = ground (arith, is_word_lem e h.1, stops) in
    rw (next_line, cut, inside)
      record {
        tail = es;
        string =
            IsString-same m (store8 m end 0) (end + 1) es
              (λ x from to. store8_ne m end 0 x (omega (arith, from))) h.2;
        same_words = sym (words_space e es space);
        same_end = omega arith;
        behind = inl (omega arith);
        ended = store8_self m end 0;
        kept = λ x far. store8_ne m end 0 x (omega (arith, far));
      }

-- The entries of the vector from `i` on are the words.
abbrev pub IsArgs : Memory → (args : ℕ → ℕ) → (i : ℕ) → List (List ℕ) → Type 0
IsArgs m args i [] = Unit
IsArgs m args i (w ∷ ws) = IsString m (args i) w × IsArgs m args (i + 1) ws

-- What the loop leaves, from `count` words on, for the words `ws` of the line.
pub record Finds (m : Memory) (args : ℕ → ℕ) (line count length_left : ℕ) (ws : List (List ℕ))
    (t : Tokens) : Type 0 where
  pub counted : t.count ≡ count + length ws
  pub found : IsArgs t.memory t.args count ws
  pub in_line :
      (j : ℕ) → count ≤ j → j < t.count → (line ≤ t.args j) × (t.args j ≤ line + length_left)
  pub kept_args : (j : ℕ) → (j < count) ⊎ (t.count ≤ j) → t.args j ≡ args j
  pub kept : (x : ℕ) → (x < line) ⊎ (line + length_left ≤ x) → t.memory x ≡ m x

-- The loop ends, and has found the words.
unfoldable pub Result :
    Memory → (args : ℕ → ℕ) → (line count length_left : ℕ) → List (List ℕ) → Option Tokens → Type 0
Result m args line count left ws r = (t : Tokens) × (r ≡ some t) × Finds m args line count left ws t

pub nothing_more :
    (m : Memory) (args : ℕ → ℕ) (line count left : ℕ)
    → Finds m args line count left [] (record { count = count; args = args; memory = m })
nothing_more m args line count left = record {
  counted = omega arith;
  found = tt;
  in_line = λ j from below. absurd (omega (arith, from, below));
  kept_args = λ j lt. refl;
  kept = λ x far. refl;
}

module _ (fuel line count limit : ℕ) (args : ℕ → ℕ) (m : Memory) where
  pub loop_done :
      (not (m line == 0) && ltb count limit) ≡ false
      → tokenize_loop (suc fuel) line count limit args m
        ≡ some (record { count = count; args = args; memory = m })
  unfolding tokenize_loop
  loop_done e = rw (e, tokenize_loop) refl

  module _ (go : (not (m line == 0) && ltb count limit) ≡ true) (start : ℕ)
      (skipped : skip is_space fuel m line ≡ some start) where
    pub loop_blank :
        m start ≡ 0
        → tokenize_loop (suc fuel) line count limit args m
          ≡ some (record { count = count; args = args; memory = m })
    unfolding tokenize_loop
    loop_blank e =
        let blank : (m start == 0) ≡ true = ground (arith, e) in
        rw (go, tokenize_loop, skipped, blank) refl

    pub loop_word :
        (end : ℕ)
        → m start ≢ 0
        → skip is_word fuel m start ≡ some end
        → tokenize_loop (suc fuel) line count limit args m
          ≡ tokenize_loop fuel
              (next_line m end)
              (count + 1)
              limit
              (store8 args count start)
              (cut m end)
    unfolding tokenize_loop
    loop_word end e word =
        let other : (m start == 0) ≡ false = ground (arith, e) in
        rw (go, tokenize_loop, skipped, other, word) refl

-- The word that a round finds, in front of the words of the rounds behind it.
module _ (m : Memory) (args : ℕ → ℕ) (line count left start : ℕ) (w : List ℕ)
    (piece : (now : Memory)
      → ((x : ℕ) → start ≤ x → x < start + length w → now x ≡ m x)
      → now (start + length w) ≡ 0
      → IsString now start w)
    (from : line ≤ start) where
  pub word-Finds :
      (r : List ℕ) (next : ℕ) (now : Memory) (ws : List (List ℕ)) (t : Tokens)
      → start + length w + length r ≡ line + left
      → (k : Cuts m (start + length w) r next now)
      → Finds now (store8 args count start) next (count + 1) (length k.tail) ws t
      → Finds m args line count left (w ∷ ws) t
  word-Finds r next now ws t total k f =
      let end : ℕ = start + length w in
      let far_end : (end < next) ⊎ (next + length k.tail ≤ end) =
        omega (arith, k.behind, k.same_end) in
      let address : t.args count ≡ start =
        f.kept_args count (inl (omega arith)) ∙ store8_self args count start in
      let in_line : (j : ℕ)
          → count ≤ j
          → j < t.count
          → (line ≤ t.args j) × (t.args j ≤ line + left) =
        λ j lo hi. elim (dec_lt count j) [
          | yes later ↦
              let there = f.in_line j (omega arith) hi in
              (
                omega (arith, there, k.behind, k.same_end, from),
                omega (arith, there, k.behind, k.same_end, total),
              )
          | no here ↦
              let same : j ≡ count = omega arith in rw (same, address) (from, omega (arith, total))
        ] in
      let word : IsString t.memory start w =
        piece t.memory (λ x lo hi. f.kept x (omega (arith, k.behind, hi)) ∙ k.kept x (inl hi))
          (f.kept end far_end ∙ k.ended) in
      record {
        counted = omega (arith, f.counted);
        found = (rw address word, f.found);
        in_line = in_line;
        kept_args = λ j lt.
            f.kept_args j (omega (arith, lt))
            ∙ store8_ne args count start j (omega (arith, lt, f.counted));
        kept = λ x far.
            f.kept x (omega (arith, far, k.behind, k.same_end, total))
            ∙ k.kept x (omega (arith, far, total));
      }
