-- ===== src/Shell/Words.antt =====
-- The words of a line, and where a line of bytes splits.
use little_os.Base.{
  suc, ◌≤◌, length, ℕ, ◌≡◌, ◌≢◌, refl, ◌∙◌, ap, inl, inr, Bool, true, false, not, Bool-cases, List,
  [], ◌∷◌, ◌==◌, if◌then◌else◌, arith, All,
}
use little_os.Shell.{is_space, is_word}

-- A character goes to the word that starts behind it, or is a word of its own.
abbrev pub to_first : ℕ → List (List ℕ) → List (List ℕ)
to_first c [] = (c ∷ []) ∷ []
to_first c (w ∷ ws) = (c ∷ w) ∷ ws

abbrev pub attach : ℕ → List ℕ → List (List ℕ) → List (List ℕ)
attach c [] ws = (c ∷ []) ∷ ws
attach c (d ∷ _) ws = if is_space d then (c ∷ []) ∷ ws else to_first c ws

-- The words of a line are its longest pieces without whitespace.
unfoldable pub words : List ℕ → List (List ℕ)
words [] = []
words (c ∷ cs) = let rest = words cs in if is_space c then rest else attach c cs rest

-- The longest piece at the start with `p`, and what is behind it.
unfoldable pub prefix : (ℕ → Bool) → List ℕ → List ℕ
prefix p [] = []
prefix p (c ∷ cs) = let more = prefix p cs in if p c then c ∷ more else []

unfoldable pub rest : (ℕ → Bool) → List ℕ → List ℕ
rest p [] = []
rest p (c ∷ cs) = let more = rest p cs in if p c then more else c ∷ cs

pub prefix_nil : (p : ℕ → Bool) → prefix p [] ≡ []
unfolding prefix
prefix_nil p = refl

pub rest_nil : (p : ℕ → Bool) → rest p [] ≡ []
unfolding rest
rest_nil p = refl

module _ (p : ℕ → Bool) (c : ℕ) (cs : List ℕ) where
  pub prefix_in : p c ≡ true → prefix p (c ∷ cs) ≡ c ∷ prefix p cs
  unfolding prefix
  prefix_in e = rw e refl

  pub prefix_out : p c ≡ false → prefix p (c ∷ cs) ≡ []
  unfolding prefix
  prefix_out e = rw e refl

  pub rest_in : p c ≡ true → rest p (c ∷ cs) ≡ rest p cs
  unfolding rest
  rest_in e = rw e refl

  pub rest_out : p c ≡ false → rest p (c ∷ cs) ≡ c ∷ cs
  unfolding rest
  rest_out e = rw e refl

pub words_space : (c : ℕ) (cs : List ℕ) → is_space c ≡ true → words (c ∷ cs) ≡ words cs
unfolding words
words_space c cs space = rw space refl

words_last :
    (c : ℕ)
    → is_space c ≡ false
    → words (c ∷ []) ≡ (c ∷ prefix is_word []) ∷ words (rest is_word [])
unfolding words prefix rest
words_last c e = rw e refl

words_alone :
    (c d : ℕ) (ds : List ℕ)
    → is_space c ≡ false
    → is_space d ≡ true
    → words (c ∷ d ∷ ds) ≡ (c ∷ []) ∷ words (d ∷ ds)
unfolding words
words_alone c d ds e space = rw (e, space) refl

words_joined :
    (c d : ℕ) (ds : List ℕ)
    → is_space c ≡ false
    → is_space d ≡ false
    → words (c ∷ d ∷ ds) ≡ to_first c (words (d ∷ ds))
unfolding words
words_joined c d ds e other = rw (e, other) refl

-- The words do not see the whitespace in front.
pub words-rest : (cs : List ℕ) → words (rest is_space cs) ≡ words cs
words-rest [] = ap words (rest_nil is_space)
words-rest (c ∷ cs) = elim (Bool-cases (is_space c)) [
  | inl space ↦ rw (rest_in is_space c cs space, words_space c cs space) (words-rest cs)
  | inr other ↦ rw (rest_out is_space c cs other) refl
]

-- The bytes of a string are not zero.
abbrev pub IsVisible : ℕ → Type 0
IsVisible c = c ≢ 0

pub is_word_lem : (c : ℕ) → c ≢ 0 → is_word c ≡ not (is_space c)
unfolding is_word
is_word_lem c v = let other : (c == 0) ≡ false = ground (arith, v) in rw other refl

pub is_word_zero : is_word 0 ≡ false
unfolding is_word
is_word_zero = refl

pub is_space_zero : is_space 0 ≡ false
unfolding is_space
is_space_zero = refl

-- A line that starts with a word.
pub words-word :
    (c : ℕ) (cs : List ℕ)
    → is_space c ≡ false
    → All IsVisible (c ∷ cs)
    → words (c ∷ cs) ≡ prefix is_word (c ∷ cs) ∷ words (rest is_word (c ∷ cs))
words-word c [] e v =
    let word : is_word c ≡ true = is_word_lem c v.0 ∙ ap not e in
    rw (prefix_in is_word c [] word, rest_in is_word c [] word) (words_last c e)
words-word c (d ∷ ds) e v =
    let word : is_word c ≡ true = is_word_lem c v.0 ∙ ap not e in
    rw (prefix_in is_word c (d ∷ ds) word, rest_in is_word c (d ∷ ds) word)
      (elim (Bool-cases (is_space d)) [
        | inl space ↦
            let stop : is_word d ≡ false = is_word_lem d v.1.0 ∙ ap not space in
            rw (prefix_out is_word d ds stop, rest_out is_word d ds stop)
              (words_alone c d ds e space)
        | inr other ↦ words_joined c d ds e other ∙ ap (to_first c) (words-word d ds other v.1)
      ])

-- What is behind a longest piece is nothing, or starts outside `p`.
abbrev pub Stops : (ℕ → Bool) → List ℕ → Type 0
Stops p [] = Unit
Stops p (c ∷ cs) = p c ≡ false

pub rest-Stops : (p : ℕ → Bool) (cs : List ℕ) → Stops p (rest p cs)
rest-Stops p [] = rw (rest_nil p) tt
rest-Stops p (c ∷ cs) = elim (Bool-cases (p c)) [
  | inl go ↦ rw (rest_in p c cs go) (rest-Stops p cs)
  | inr stop ↦ rw (rest_out p c cs stop) stop
]

pub words_nil : words [] ≡ []
unfolding words
words_nil = refl

All-length_grow :
    (n : ℕ) (ws : List (List ℕ)) → All (λ w. length w ≤ n) ws → All (λ w. length w ≤ suc n) ws
All-length_grow n [] h = tt
All-length_grow n (w ∷ ws) h = (omega (arith, h.0), All-length_grow n ws h.1)

length-attach :
    (c : ℕ) (cs : List ℕ) (ws : List (List ℕ))
    → All (λ w. length w ≤ length cs) ws
    → All (λ w. length w ≤ suc (length cs)) (attach c cs ws)
length-attach c [] ws h = (omega arith, All-length_grow 0 ws h)
length-attach c (d ∷ cs) ws h = elim (Bool-cases (is_space d)) [
  | inl space ↦ rw space (omega arith, All-length_grow (suc (length cs)) ws h)
  | inr other ↦ rw other (joined ws h)
]
  where
    joined :
        (ws : List (List ℕ))
        → All (λ w. length w ≤ suc (length cs)) ws
        → All (λ w. length w ≤ suc (suc (length cs))) (to_first c ws)
    joined [] h = (omega arith, tt)
    joined (w ∷ ws) h = (omega (arith, h.0), All-length_grow (suc (length cs)) ws h.1)

-- No word is longer than its line.
pub length-words : (cs : List ℕ) → All (λ w. length w ≤ length cs) (words cs)
unfolding words
length-words [] = tt
length-words (c ∷ cs) = elim (Bool-cases (is_space c)) [
  | inl space ↦ rw space (All-length_grow (length cs) (words cs) (length-words cs))
  | inr other ↦ rw other (length-attach c cs (words cs) (length-words cs))
]
