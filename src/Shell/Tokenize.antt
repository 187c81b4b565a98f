-- ===== src/Shell/Tokenize.antt =====
-- The tokenizer leaves the words of the line in the line, and their addresses in the vector.
use little_os.Base.{
  ℕ, zero, suc, ◌+◌, ◌-◌, ◌<◌, ◌≤◌, ◌≡◌, ◌≢◌, refl, ◌∙◌, ap, sym, inl, inr, true, false, not,
  Bool-cases, ◌&&◌, some, List, [], ◌∷◌, ◌==◌, arith, length, take, Memory, store8, store8_self,
  store8_ne, ◌⊎◌, ltb, dec_lt, ◌↔◌,
}
use mathlib.Core.Option.{some-injective}
use little_os.Strings.Content.{IsString}
use little_os.Shell.{
  is_space, is_word, skip, next_line, cut, Tokens, tokenize_loop, end_args, tokenize,
}
use little_os.Shell.Words.{
  words, words_nil, words-rest, words-word, prefix, rest, Stops, rest-Stops, is_word_lem,
  is_word_zero, is_space_zero, prefix_in,
}
use little_os.Shell.Skip.{skip_lem, prefix-IsString, IsVisible-IsString}
use little_os.Shell.Cut.{
  cut-Cuts, IsArgs, Finds, Result, nothing_more, loop_done, loop_blank, loop_word, word-Finds,
}

take-nil : (n : ℕ) {ws : List (List ℕ)} → ws ≡ [] → take n ws ≡ []
take-nil zero e = refl
take-nil (suc n) e = rw e refl

-- The loop with one turn more, from what it does with `fuel` turns.
module _ (fuel limit : ℕ)
    (later : (line count : ℕ) (args : ℕ → ℕ) (m : Memory) (cs : List ℕ)
      → IsString m line cs
      → length cs + 1 < fuel
      → count ≤ limit
      → Result m args line count
          (length cs)
          (take (limit - count) (words cs))
          (tokenize_loop fuel line count limit args m))
    (line count : ℕ) (args : ℕ → ℕ) (m : Memory) (left : ℕ) (small : left < fuel)
    (room : count < limit) (go : (not (m line == 0) && ltb count limit) ≡ true) (start : ℕ)
    (skipped : skip is_space fuel m line ≡ some start) (from : line ≤ start) where
  rest-Result :
      (r : List ℕ)
      → IsString m start r
      → Stops is_space r
      → start + length r ≡ line + left
      → Result m args line count left
          (take (limit - count) (words r))
          (tokenize_loop (suc fuel) line count limit args m)
  unfolding Result
  rest-Result [] h stops total =
      let none_left : take (limit - count) (words []) ≡ [] = take-nil (limit - count) words_nil in
      rw none_left (
        record { count = count; args = args; memory = m },
        loop_blank fuel line count limit args m go start skipped h,
        nothing_more m args line count left,
      )
  rest-Result (c ∷ cs) h stops total =
      let w : List ℕ = prefix is_word (c ∷ cs) in
      let r : List ℕ = rest is_word (c ∷ cs) in
      let end : ℕ = start + length w in
      let visible = IsVisible-IsString m start (c ∷ cs) h in
      let word : is_word c ≡ true = is_word_lem c h.1 ∙ ap not stops in
      let long : length w ≡ suc (length (prefix is_word cs)) =
        ap length (prefix_in is_word c cs word) in
      let sk = skip_lem is_word fuel m start (c ∷ cs) is_word_zero h (omega (arith, total, from)) in
      let k = cut-Cuts m end r sk.1 (rest-Stops is_word (c ∷ cs)) in
      let ih =
        later (next_line m end) (count + 1) (store8 args count start) (cut m end) k.tail k.string
          (omega (arith, k.behind, k.same_end, sk.2, long, total, from)) (omega arith) in
      let the_room : limit - count ≡ suc (limit - (count + 1)) = omega arith in
      let split : take (limit - count) (words (c ∷ cs))
          ≡ w ∷ take (limit - (count + 1)) (words k.tail) =
        rw (the_room, words-word c cs stops visible, k.same_words) refl in
      let run = loop_word fuel line count limit args m go start skipped end (rw h.0 h.1) sk.0 in
      let found =
        word-Finds m args line count left start w
          (λ now same ended. prefix-IsString is_word m now start (c ∷ cs) h same ended) from r
          (next_line m end) (cut m end) (take (limit - (count + 1)) (words k.tail)) ih.0
          (omega (arith, sk.2, total)) k ih.2 in
      rw split (ih.0, run ∙ ih.1, found)

done-Result :
    (fuel limit line count : ℕ) (args : ℕ → ℕ) (m : Memory) (cs : List ℕ)
    → IsString m line cs
    → (not (m line == 0) && ltb count limit) ≡ false
    → Result m args line count
        (length cs)
        (take (limit - count) (words cs))
        (tokenize_loop (suc fuel) line count limit args m)
unfolding Result
done-Result fuel limit line count args m cs h done = rw (no_words cs h) (
  record { count = count; args = args; memory = m },
  loop_done fuel line count limit args m done,
  nothing_more m args line count (length cs),
)
  where
    no_words : (cs : List ℕ) → IsString m line cs → take (limit - count) (words cs) ≡ []
    no_words [] h = take-nil (limit - count) words_nil
    no_words (c ∷ cs) h =
        let full : limit - count ≡ 0 = ground (arith, done, h.0, h.1) in rw full refl

tokenize_loop_lem :
    (fuel limit line count : ℕ) (args : ℕ → ℕ) (m : Memory) (cs : List ℕ)
    → IsString m line cs
    → length cs + 1 < fuel
    → count ≤ limit
    → Result m args line count
        (length cs)
        (take (limit - count) (words cs))
        (tokenize_loop fuel line count limit args m)
tokenize_loop_lem zero limit line count args m cs h enough fits = absurd (omega arith)
tokenize_loop_lem (suc fuel) limit line count args m cs h enough fits =
    elim (Bool-cases (not (m line == 0) && ltb count limit)) [
      | inr done ↦ done-Result fuel limit line count args m cs h done
      | inl go ↦
          let sk = skip_lem is_space fuel m line cs is_space_zero h (omega arith) in
          let start : ℕ = line + length (prefix is_space cs) in
          let found =
            rest-Result fuel limit (tokenize_loop_lem fuel limit) line count args m (length cs)
              (omega arith) (ground (arith, go)) go start sk.0 (omega arith) (rest is_space cs) sk.1
              (rest-Stops is_space cs) (omega (arith, sk.2)) in
          rw (words-rest cs) at found
    ]

IsArgs-store8 :
    (m : Memory) (args : ℕ → ℕ) (i n : ℕ) (ws : List (List ℕ))
    → i + length ws ≤ n
    → IsArgs m args i ws
    → IsArgs m (store8 args n 0) i ws
IsArgs-store8 m args i n [] fits h = tt
IsArgs-store8 m args i n (w ∷ ws) fits h =
    let same : store8 args n 0 i ≡ args i = store8_ne args n 0 i (inl (omega arith)) in
    (rw same h.0, IsArgs-store8 m args (i + 1) n ws (omega arith) h.1)

-- What `tokenize` leaves for the words `ws`.
pub record Splits (m : Memory) (args : ℕ → ℕ) (line left : ℕ) (ws : List (List ℕ)) (t : Tokens)
    : Type 0 where
  pub counted : t.count ≡ length ws
  pub found : IsArgs t.memory t.args 0 ws
  pub in_line : (j : ℕ) → j < t.count → (line ≤ t.args j) × (t.args j ≤ line + left)
  pub ended : t.args t.count ≡ 0
  pub kept_args : (j : ℕ) → t.count < j → t.args j ≡ args j
  pub kept : (x : ℕ) → (x < line) ⊎ (line + left ≤ x) → t.memory x ≡ m x

end_args-Splits :
    (m : Memory) (args : ℕ → ℕ) (line left : ℕ) (ws : List (List ℕ)) (t : Tokens)
    → Finds m args line 0 left ws t
    → Splits m args line left ws (record t { args = store8 t.args t.count 0 })
end_args-Splits m args line left ws t f = record {
  counted = omega (arith, f.counted);
  found = IsArgs-store8 t.memory t.args 0 t.count ws (omega (arith, f.counted)) f.found;
  in_line = λ j below.
      let same : store8 t.args t.count 0 j ≡ t.args j = store8_ne t.args t.count 0 j (inl below) in
      rw same (f.in_line j (omega arith) below);
  ended = store8_self t.args t.count 0;
  kept_args =
      λ j beyond. store8_ne t.args t.count 0 j (inr beyond) ∙ f.kept_args j (inr (omega arith));
  kept = f.kept;
}

-- `tokenize` of a string, with fuel for two turns more than its length, ends. It counts the words
-- of the line, `limit` at most, puts the address of each in the vector, where it stands as a string
-- in the line, and a null pointer behind them. It changes no other entry, and no byte outside the line.
pub tokenize_lem :
    (fuel line : ℕ) (args : ℕ → ℕ) (limit : ℕ) (m : Memory) (cs : List ℕ)
    → IsString m line cs
    → length cs + 1 < fuel
    → (t : Tokens) × (tokenize fuel line args limit m ≡ some t)
      × Splits m args line (length cs) (take limit (words cs)) t
unfolding tokenize end_args Result
tokenize_lem fuel line args limit m cs h enough =
    let loop = tokenize_loop_lem fuel limit line 0 args m cs h enough (omega arith) in
    let all : limit - 0 ≡ limit = omega arith in
    let f : Finds m args line 0 (length cs) (take limit (words cs)) loop.0 = rw all at loop.2 in
    (
      record loop.0 { args = store8 loop.0.args loop.0.count 0 },
      ap end_args loop.1,
      end_args-Splits m args line (length cs) (take limit (words cs)) loop.0 f,
    )

length-take_of_lt : (n : ℕ) (ws : List (List ℕ)) → length ws < n → length (take n ws) ≡ length ws
length-take_of_lt zero ws h = absurd (omega arith)
length-take_of_lt (suc n) [] h = refl
length-take_of_lt (suc n) (w ∷ ws) h = omega (arith, length-take_of_lt n ws (omega arith))

length-take_of_ge : (n : ℕ) (ws : List (List ℕ)) → n ≤ length ws → length (take n ws) ≡ n
length-take_of_ge zero ws h = refl
length-take_of_ge (suc n) [] h = absurd (omega arith)
length-take_of_ge (suc n) (w ∷ ws) h = omega (arith, length-take_of_ge n ws (omega arith))

-- Where the entry behind an array of `limit` pointers is not null, and the fuel is for two turns more
-- than the length of the line, `tokenize` leaves that entry as it is exactly for the lines of fewer
-- than `limit` words: with `limit` words or more, it stores the null pointer there.
pub tokenize_overruns :
    (fuel line : ℕ) (args : ℕ → ℕ) (limit : ℕ) (m : Memory) (cs : List ℕ) (t : Tokens)
    → IsString m line cs
    → length cs + 1 < fuel
    → args limit ≢ 0
    → tokenize fuel line args limit m ≡ some t
    → (t.args limit ≡ args limit) ↔ (length (words cs) < limit)
tokenize_overruns fuel line args limit m cs t h enough used e =
    let run = tokenize_lem fuel line args limit m cs h enough in
    let same : run.0 ≡ t = some-injective _ _ (sym run.1 ∙ e) in
    let splits = rw same at run.2 in
    (
      λ kept. elim (dec_lt (length (words cs)) limit) [
        | yes fits ↦ fits
        | no many ↦
            let full : t.count ≡ limit =
              splits.counted ∙ length-take_of_ge limit (words cs) (omega arith) in
            let ended = rw full at splits.ended in absurd (used (sym kept ∙ ended))
      ],
      λ fits.
          splits.kept_args limit
            (omega (arith, splits.counted, length-take_of_lt limit (words cs) fits)),
    )
