-- ===== src/Stdio/Format.antt =====
-- `printf` prints its format piece by piece.
use little_os.Base.{
  ℕ, zero, suc, ◌+◌, ◌<◌, ◌≡◌, ◌≢◌, refl, ◌∙◌, ap, true, false, some, List, [], ◌∷◌, Memory, length,
  All, u8, ◌==◌, arith,
}
use mathlib.Core.List.{map}
use little_os.Strings.Content.{IsString}
use little_os.Stdio.{Output, then_print, putchar, convert, printf}

-- A piece of a format is a character or a conversion.
pub data Piece : Type 0 where
  plain conversion : ℕ → Piece

-- The format that the pieces make up.
abbrev pub spell : List Piece → List ℕ
spell [] = []
spell (plain c ∷ ps) = c ∷ spell ps
spell (conversion c ∷ ps) = b'%' ∷ c ∷ spell ps

abbrev pub IsPlain : Piece → Type 0
IsPlain (plain c) = c ≢ b'%'
IsPlain (conversion c) = Unit

-- What the pieces print, one behind another.
unfoldable pub render : (strings : ℕ) → Memory → List Piece → List ℕ → Output
render strings m [] args = some []
render strings m (plain c ∷ ps) args = then_print (some (putchar c)) (render strings m ps args)
render strings m (conversion c ∷ ps) args =
    let (out, args') = convert strings m c args in then_print out (render strings m ps args')

module _ (strings : ℕ) (m : Memory) where
  printf_end : (fuel a : ℕ) (args : List ℕ) → m a ≡ 0 → printf (suc fuel) strings m a args ≡ some []
  unfolding printf
  printf_end fuel a args e =
      let done : (m a == 0) ≡ true = ground (arith, e) in rw (done, printf) refl

  printf_plain :
      (fuel a c : ℕ) (args : List ℕ)
      → m a ≡ c
      → c ≢ 0
      → (c == b'%') ≡ false
      → printf (suc fuel) strings m a args
        ≡ then_print (some (putchar c)) (printf fuel strings m (a + 1) args)
  unfolding printf
  printf_plain fuel a c args e v p =
      let more : (m a == 0) ≡ false = ground (arith, e, v) in
      let other : (m a == b'%') ≡ false = rw e p in rw (more, printf, other, e) refl

  printf_conversion :
      (fuel a c d : ℕ) (args : List ℕ)
      → m a ≡ c
      → (c == b'%') ≡ true
      → m (a + 1) ≡ d
      → printf (suc fuel) strings m a args ≡ (
          let (out, args') = convert strings m d args in
          then_print out (printf fuel strings m (a + 2) args'))
  unfolding printf
  printf_conversion fuel a c d args e p f =
      let more : (m a == 0) ≡ false = ground (arith, e, p) in
      let percent : (m a == b'%') ≡ true = rw e p in rw (more, printf, percent, f) refl

  -- `printf` of a format, with fuel for one turn more than it has pieces, prints the pieces in order:
  -- a character as it is, a conversion with the next of the arguments.
  pub printf_lem :
      (fuel a : ℕ) (ps : List Piece) (args : List ℕ)
      → All IsPlain ps
      → IsString m a (spell ps)
      → length ps < fuel
      → printf fuel strings m a args ≡ render strings m ps args
  unfolding render
  printf_lem zero a ps args p h enough = absurd (omega arith)
  printf_lem (suc fuel) a [] args p h enough = printf_end fuel a args h
  printf_lem (suc fuel) a (plain c ∷ ps) args p h enough =
      printf_plain fuel a c args h.0 h.1 (ground (arith, p.0))
      ∙ ap (then_print (some (putchar c))) (printf_lem fuel (a + 1) ps args p.1 h.2 (omega arith))
  printf_lem (suc fuel) a (conversion c ∷ ps) args p h enough =
      let place : a + 1 + 1 ≡ a + 2 = omega arith in
      let tail = rw place at h.2.2 in
      printf_conversion fuel a b'%' c args h.0 refl h.2.0
      ∙ ap (then_print (convert strings m c args).0)
          (printf_lem fuel (a + 2) ps (convert strings m c args).1 p.1 tail (omega arith))

-- A format without conversions prints itself.
pub render_text :
    (strings : ℕ) (m : Memory) (cs args : List ℕ)
    → render strings m (map plain cs) args ≡ some (map u8 cs)
unfolding render then_print putchar
render_text strings m [] args = refl
render_text strings m (c ∷ cs) args = rw (render_text strings m cs args) refl
