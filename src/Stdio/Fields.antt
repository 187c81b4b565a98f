-- ===== src/Stdio/Fields.antt =====
-- What `printf` prints of a format with any number of strings in it.
use little_os.Base.{
  append_nil, ℕ, ◌<◌, ◌≡◌, ◌≢◌, refl, ◌∙◌, ap, true, false, some, List, [], ◌∷◌, ◌++◌, ◌==◌, arith,
  All, length, length-append, ◌≤◌, Memory, u8,
}
use mathlib.Core.List.{map}
use little_os.Strings.Content.{IsString}
use little_os.Stdio.{then_print, printf, convert}
use little_os.Stdio.Format.{Piece, conversion, spell, IsPlain, render, printf_lem}
use little_os.Stdio.Texts.{
  is_text, text_pieces, text-IsPlain, render_pieces, spell-text_pieces, length-text_pieces,
  print_string_lem,
}

-- A text, and the string of a `%s` behind it, which stands at an address.
pub record Field : Type 0 where
  pub text : List ℕ
  pub at : ℕ
  pub word : List ℕ

-- The format, its arguments, and what it prints.
abbrev pub format_of : List Field → (last : List ℕ) → List ℕ
format_of [] last = last
format_of (f ∷ fs) last = f.text ++ (b'%' ∷ b's' ∷ format_of fs last)

abbrev pub args_of : List Field → List ℕ
args_of [] = []
args_of (f ∷ fs) = f.at ∷ args_of fs

abbrev pub printed : List Field → (last : List ℕ) → List ℕ
printed [] last = map u8 last
printed (f ∷ fs) last = map u8 f.text ++ (map u8 f.word ++ printed fs last)

abbrev pieces_of : List Field → (last : List ℕ) → List Piece
pieces_of [] last = text_pieces last []
pieces_of (f ∷ fs) last = text_pieces f.text (conversion b's' ∷ pieces_of fs last)

-- The text has no conversion, and the string is there.
pub record IsField (strings : ℕ) (m : Memory) (f : Field) : Type 0 where
  pub text : is_text f.text ≡ true
  pub given : f.at ≢ 0
  pub string : IsString m f.at f.word
  pub long : length f.word < strings

module _ (strings : ℕ) (m : Memory) (last : List ℕ) (plain_last : is_text last ≡ true) where
  pieces_of-IsPlain :
      (fs : List Field) → All (IsField strings m) fs → All IsPlain (pieces_of fs last)
  pieces_of-IsPlain [] h = text-IsPlain last [] plain_last tt
  pieces_of-IsPlain (f ∷ fs) h = text-IsPlain f.text _ h.0.text (tt, pieces_of-IsPlain fs h.1)

  spell-pieces_of : (fs : List Field) → spell (pieces_of fs last) ≡ format_of fs last
  spell-pieces_of [] = spell-text_pieces last [] ∙ append_nil last
  spell-pieces_of (f ∷ fs) =
      spell-text_pieces f.text _
      ∙ ap (λ (r : List ℕ). f.text ++ (b'%' ∷ b's' ∷ r)) (spell-pieces_of fs)

  length-pieces_of : (fs : List Field) → length (pieces_of fs last) ≤ length (format_of fs last)
  length-pieces_of [] = omega (arith, length-text_pieces last [])
  length-pieces_of (f ∷ fs) = omega (
    arith,
    length-text_pieces f.text (conversion b's' ∷ pieces_of fs last),
    length-append f.text (b'%' ∷ b's' ∷ format_of fs last),
    length-pieces_of fs,
  )

  render-pieces_of :
      (fs : List Field)
      → All (IsField strings m) fs
      → render strings m (pieces_of fs last) (args_of fs) ≡ some (printed fs last)
  unfolding render then_print convert
  render-pieces_of [] h = render_pieces strings m last [] [] ∙ ap some (append_nil (map u8 last))
  render-pieces_of (f ∷ fs) h =
      let not_null : (f.at == 0) ≡ false = ground (arith, h.0.given) in
      let out = print_string_lem strings m f.at f.word h.0.given h.0.string h.0.long in
      render_pieces strings m f.text (conversion b's' ∷ pieces_of fs last) (args_of (f ∷ fs))
      ∙ rw (not_null, out, render-pieces_of fs h.1) refl

  -- A format prints its texts and the strings between them.
  pub printf_fields :
      (fuel format : ℕ) (fs : List Field)
      → All (IsField strings m) fs
      → IsString m format (format_of fs last)
      → length (format_of fs last) < fuel
      → printf fuel strings m format (args_of fs) ≡ some (printed fs last)
  printf_fields fuel format fs h here enough =
      printf_lem strings m fuel format (pieces_of fs last) (args_of fs) (pieces_of-IsPlain fs h)
        (rw (spell-pieces_of fs) here) (omega (arith, enough, length-pieces_of fs))
      ∙ render-pieces_of fs h
