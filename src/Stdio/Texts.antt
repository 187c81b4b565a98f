-- ===== src/Stdio/Texts.antt =====
-- What `printf` prints of a format of texts and strings.
use little_os.Base.{
  append_nil, ◌||◌, leb, ◌^◌, ℕ, ◌+◌, ◌<◌, ◌≡◌, ◌≢◌, refl, ◌∙◌, ap, sym, true, false, not, ◌&&◌,
  some, none, List, [], ◌∷◌, ◌++◌, Bool, ◌==◌, arith, All, length, Memory, u8,
}
use mathlib.Core.List.{map}
use little_os.Strings.Content.{IsString}
use little_os.Strings.Measure.{strlen_lem}
use little_os.Stdio.{gets, Output, then_print, printf, putchar, bytes_at, print_string, convert}
use little_os.Stdio.Format.{Piece, plain, conversion, spell, IsPlain, render, printf_lem}

bytes_at-IsString :
    (m : Memory) (a : ℕ) (cs : List ℕ) → IsString m a cs → bytes_at m a (length cs) ≡ map u8 cs
unfolding bytes_at
bytes_at-IsString m a [] h = refl
bytes_at-IsString m a (c ∷ cs) h = rw (h.0, bytes_at-IsString m (a + 1) cs h.2) refl

pub print_string_lem :
    (fuel : ℕ) (m : Memory) (a : ℕ) (cs : List ℕ)
    → a ≢ 0
    → IsString m a cs
    → length cs < fuel
    → print_string fuel m a ≡ some (map u8 cs)
unfolding print_string
print_string_lem fuel m a cs given h enough =
    rw (print_string, strlen_lem fuel m a cs given h enough, bytes_at-IsString m a cs h) refl

-- The pieces of a text without conversions, in front of others.
abbrev pub text_pieces : List ℕ → List Piece → List Piece
text_pieces [] ps = ps
text_pieces (c ∷ cs) ps = plain c ∷ text_pieces cs ps

abbrev pub is_text : List ℕ → Bool
is_text [] = true
is_text (c ∷ cs) = not (c == b'%') && is_text cs

pub text-IsPlain :
    (cs : List ℕ) (ps : List Piece)
    → is_text cs ≡ true
    → All IsPlain ps
    → All IsPlain (text_pieces cs ps)
text-IsPlain [] ps text h = h
text-IsPlain (c ∷ cs) ps text h =
    (ground (arith, text), text-IsPlain cs ps (ground (arith, text)) h)

pub then_print-some :
    (x : ℕ) (xs : List ℕ) (out : Output)
    → then_print (some (x ∷ [])) (then_print (some xs) out) ≡ then_print (some (x ∷ xs)) out
unfolding then_print
then_print-some x xs none = refl
then_print-some x xs (some out) = refl

then_print-none : (out : Output) → then_print (some []) out ≡ out
unfolding then_print
then_print-none none = refl
then_print-none (some out) = refl

pub render_pieces :
    (strings : ℕ) (m : Memory) (cs : List ℕ) (ps : List Piece) (args : List ℕ)
    → render strings m (text_pieces cs ps) args
      ≡ then_print (some (map u8 cs)) (render strings m ps args)
unfolding render putchar
render_pieces strings m [] ps args = sym (then_print-none (render strings m ps args))
render_pieces strings m (c ∷ cs) ps args =
    rw (render_pieces strings m cs ps args)
      (then_print-some (u8 c) (map u8 cs) (render strings m ps args))

pub spell-text_pieces : (cs : List ℕ) (ps : List Piece) → spell (text_pieces cs ps) ≡ cs ++ spell ps
spell-text_pieces [] ps = refl
spell-text_pieces (c ∷ cs) ps = ap (λ (r : List ℕ). c ∷ r) (spell-text_pieces cs ps)

pub length-text_pieces :
    (cs : List ℕ) (ps : List Piece) → length (text_pieces cs ps) ≡ length cs + length ps
length-text_pieces [] ps = omega arith
length-text_pieces (c ∷ cs) ps = omega (arith, length-text_pieces cs ps)

module _ (fuel strings : ℕ) (m : Memory) (format : ℕ) where
  -- A format without conversions prints itself.
  pub printf_text :
      (cs args : List ℕ)
      → is_text cs ≡ true
      → IsString m format cs
      → length cs < fuel
      → printf fuel strings m format args ≡ some (map u8 cs)
  unfolding render then_print
  printf_text cs args text h enough =
      let spelt : spell (text_pieces cs []) ≡ cs = spell-text_pieces cs [] ∙ append_nil cs in
      let run =
        printf_lem strings m fuel format (text_pieces cs []) args (text-IsPlain cs [] text tt)
          (rw spelt h) (omega (arith, length-text_pieces cs [])) in
      run ∙ render_pieces strings m cs [] args ∙ ap some (append_nil (map u8 cs))

  -- A format of a text, `%s` and a text prints the string of its argument between the texts.
  pub printf_string :
      (before after : List ℕ) (a : ℕ) (w : List ℕ)
      → is_text before ≡ true
      → is_text after ≡ true
      → IsString m format (before ++ (b'%' ∷ b's' ∷ after))
      → length before + length after + 1 < fuel
      → a ≢ 0
      → IsString m a w
      → length w < strings
      → printf fuel strings m format (a ∷ []) ≡ some (map u8 before ++ (map u8 w ++ map u8 after))
  unfolding render then_print convert
  printf_string before after a w text text' h enough given string long =
      let ps : List Piece = conversion b's' ∷ text_pieces after [] in
      let spelt : spell (text_pieces before ps) ≡ before ++ (b'%' ∷ b's' ∷ after) =
        spell-text_pieces before ps
        ∙ ap (λ (r : List ℕ). before ++ (b'%' ∷ b's' ∷ r))
            (spell-text_pieces after [] ∙ append_nil after) in
      let run =
        printf_lem strings m fuel format (text_pieces before ps) (a ∷ [])
          (text-IsPlain before ps text (tt, text-IsPlain after [] text' tt)) (rw spelt h)
          (omega (arith, length-text_pieces before ps, length-text_pieces after [])) in
      let not_null : (a == 0) ≡ false = ground (arith, given) in
      let out = print_string_lem strings m a w given string long in
      let behind = render_pieces strings m after [] [] ∙ ap some (append_nil (map u8 after)) in
      run ∙ render_pieces strings m before ps (a ∷ []) ∙ rw (not_null, out, behind) refl

-- `gets` of a read of some bytes is the buffer.
pub gets_lem : (buf count : ℕ) → 0 < count → count < 2 ^ 31 → gets buf count ≡ buf
unfolding gets
gets_lem buf count got small =
    let read : (count == 0 || leb (2 ^ 31) count) ≡ false = ground arith in rw read refl
