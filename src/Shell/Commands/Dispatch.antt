-- ===== src/Shell/Commands/Dispatch.antt =====
-- What a literal prints, and which command a line runs.
use little_os.Base.{
  ℕ, zero, suc, ◌+◌, ◌<◌, ◌≡◌, ◌≢◌, refl, ◌∙◌, ap, true, false, some, List, [], ◌∷◌, ◌++◌, length,
  Memory, u8, All,
}
use mathlib.Core.List.{map}
use little_os.Strings.{ℤ, pos, negsuc}
use little_os.Strings.Content.{IsString}
use little_os.Strings.Compare.{strcmp_lem, strcmp_zero, difference}
use little_os.Stdio.Texts.{is_text, printf_text, printf_string}
use little_os.Stdio.Fields.{Field, format_of, args_of, printed, IsField, printf_fields}
use little_os.Shell.Commands.{Event, wrote, Builtin, is_zero, write_all, say, call, run_builtin}

-- The bytes that are written.
abbrev pub sent : List ℕ → List Event
sent cs = map wrote (map u8 cs)

pub sent-append : (cs ds : List ℕ) → sent (cs ++ ds) ≡ sent cs ++ sent ds
sent-append [] ds = refl
sent-append (c ∷ cs) ds = ap (λ (r : List Event). wrote (u8 c) ∷ r) (sent-append cs ds)

map-u8-append : (cs ds : List ℕ) → map u8 (cs ++ ds) ≡ map u8 cs ++ map u8 ds
map-u8-append [] ds = refl
map-u8-append (c ∷ cs) ds = ap (λ (r : List ℕ). u8 c ∷ r) (map-u8-append cs ds)

is_zero-false : (z : ℤ) → z ≢ pos 0 → is_zero z ≡ false
unfolding is_zero
is_zero-false (pos zero) other = absurd (other refl)
is_zero-false (pos (suc n)) other = refl
is_zero-false (negsuc n) other = refl

module _ (place : List ℕ → ℕ) (fuel : ℕ) (m : Memory) where
  pub say_text :
      (cs : List ℕ)
      → is_text cs ≡ true
      → IsString m (place cs) cs
      → length cs < fuel
      → say place fuel m cs [] ≡ some (sent cs)
  unfolding say write_all
  say_text cs text h enough = rw (printf_text fuel fuel m (place cs) cs [] text h enough) refl

  -- A literal of a text, `%s` and a text.
  pub say_string :
      (before after : List ℕ) (a : ℕ) (w : List ℕ)
      → is_text before ≡ true
      → is_text after ≡ true
      → IsString m (place (before ++ (b'%' ∷ b's' ∷ after))) (before ++ (b'%' ∷ b's' ∷ after))
      → length before + length after + 1 < fuel
      → a ≢ 0
      → IsString m a w
      → length w < fuel
      → say place fuel m (before ++ (b'%' ∷ b's' ∷ after)) (a ∷ [])
        ≡ some (sent (before ++ (w ++ after)))
  unfolding say write_all
  say_string before after a w text text' h enough given string long =
      let run =
        printf_string fuel fuel m (place (before ++ (b'%' ∷ b's' ∷ after))) before after a w text
          text' h enough given string long in
      let joined : map u8 (before ++ (w ++ after)) ≡ map u8 before ++ (map u8 w ++ map u8 after) =
        map-u8-append before (w ++ after)
        ∙ ap (λ (r : List ℕ). map u8 before ++ r) (map-u8-append w after) in
      rw (run, joined) refl

  -- A literal with any number of strings in it.
  pub say_fields :
      (fs : List Field) (last : List ℕ)
      → is_text last ≡ true
      → All (IsField fuel m) fs
      → IsString m (place (format_of fs last)) (format_of fs last)
      → length (format_of fs last) < fuel
      → say place fuel m (format_of fs last) (args_of fs) ≡ some (map wrote (printed fs last))
  unfolding say write_all
  say_fields fs last plain h here enough =
      rw (printf_fields fuel m last plain fuel (place (format_of fs last)) fs h here enough) refl

  module _ (b : Builtin) (bs : List Builtin) (argc : ℕ) (argv : ℕ → ℕ) (w name : List ℕ)
      (word : IsString m (argv 0) w) (named : IsString m b.name name)
      (enough : length w < fuel) where
    -- The first argument is the name of the builtin.
    pub run_builtin_here :
        w ≡ name → run_builtin place fuel m (b ∷ bs) argc argv ≡ call place fuel m b.func argc argv
    unfolding run_builtin is_zero
    run_builtin_here same =
        let value = (strcmp_zero fuel m (argv 0) b.name w name word named enough).1 same in
        rw (run_builtin, value) refl

    pub run_builtin_later :
        w ≢ name
        → run_builtin place fuel m (b ∷ bs) argc argv ≡ run_builtin place fuel m bs argc argv
    unfolding run_builtin
    run_builtin_later other =
        let value = strcmp_lem fuel m (argv 0) b.name w name word named enough in
        let not_zero : difference w name ≢ pos 0 = λ zero_value. other (
          (strcmp_zero fuel m (argv 0) b.name w name word named enough).0
            (value ∙ ap some zero_value)) in
        let differs = is_zero-false (difference w name) not_zero in
        rw (run_builtin, value, differs) refl
