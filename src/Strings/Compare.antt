-- ===== src/Strings/Compare.antt =====
-- `strcmp` and `strncmp` on two strings.
use little_os.Base.{
  ℕ, zero, suc, ◌+◌, ◌<◌, ◌≡◌, ◌≢◌, ◌↔◌, refl, ◌∙◌, ap, sym, inl, inr, true, false, not, ◌&&◌,
  Bool-cases, Option, none, some, List, [], ◌∷◌, Memory, length, ◌==◌, if◌then◌else◌, leb, arith,
}
use little_os.Strings.{ℤ, pos, negsuc, byte_difference, strcmp}
use little_os.Strings.Content.{IsString}

-- The difference of the first two bytes that differ; a string ends with a zero.
unfoldable pub difference : List ℕ → List ℕ → ℤ
difference [] [] = pos 0
difference [] (d ∷ ds) = byte_difference 0 d
difference (c ∷ cs) [] = byte_difference c 0
difference (c ∷ cs) (d ∷ ds) = if c == d then difference cs ds else byte_difference c d

same_byte : byte_difference 0 0 ≡ pos 0
unfolding byte_difference
same_byte = refl

strcmp-differ :
    (fuel : ℕ) (m : Memory) (s t : ℕ) {a b : ℕ}
    → m s ≡ a
    → m t ≡ b
    → (not (a == 0) && a == b) ≡ false
    → strcmp (suc fuel) m s t ≡ some (byte_difference a b)
unfolding strcmp
strcmp-differ fuel m s t {a} {b} p q test =
    let test' : (not (m s == 0) && m s == m t) ≡ false = rw (p, q) test in
    rw (test', strcmp, p, q) refl

strcmp-agree :
    (fuel : ℕ) (m : Memory) (s t : ℕ)
    → (not (m s == 0) && m s == m t) ≡ true
    → strcmp (suc fuel) m s t ≡ strcmp fuel m (s + 1) (t + 1)
unfolding strcmp
strcmp-agree fuel m s t test = rw (test, strcmp) refl

-- `strcmp` of two strings is the difference of the first bytes that differ, and it ends when its
-- fuel is more than the length of the first.
pub strcmp_lem :
    (fuel : ℕ) (m : Memory) (s t : ℕ) (cs ds : List ℕ)
    → IsString m s cs
    → IsString m t ds
    → length cs < fuel
    → strcmp fuel m s t ≡ some (difference cs ds)
unfolding strcmp difference
strcmp_lem zero m s t cs ds h g enough = absurd (omega arith)
strcmp_lem (suc fuel) m s t [] [] h g enough = strcmp-differ fuel m s t h g refl ∙ ap some same_byte
strcmp_lem (suc fuel) m s t [] (d ∷ ds) h g enough = strcmp-differ fuel m s t h g.0 refl
strcmp_lem (suc fuel) m s t (c ∷ cs) [] h g enough =
    strcmp-differ fuel m s t h.0 g (ground (arith, h.1))
strcmp_lem (suc fuel) m s t (c ∷ cs) (d ∷ ds) h g enough = elim (Bool-cases (c == d)) [
  | inl equal ↦
      let rest = strcmp_lem fuel m (s + 1) (t + 1) cs ds h.2 g.2 (omega arith) in
      rw equal (strcmp-agree fuel m s t (ground (arith, h, g.0, equal)) ∙ rest)
  | inr distinct ↦ rw distinct (strcmp-differ fuel m s t h.0 g.0 (ground (arith, distinct)))
]

abbrev magnitude : ℤ → ℕ
magnitude (pos n) = n
magnitude (negsuc n) = suc n

abbrev value_of : Option ℤ → ℤ
value_of none = pos 0
value_of (some z) = z

-- Bytes that differ have a difference.
difference_apart : (a b : ℕ) → a ≢ b → byte_difference a b ≢ pos 0
unfolding byte_difference
difference_apart a b apart e = elim (Bool-cases (leb b a)) [
  | inl le ↦ let e' = rw le at e in ground (arith, ap magnitude e', le)
  | inr gt ↦ let e' = rw gt at e in ground (arith, ap magnitude e')
]

difference_zero :
    (m : Memory) (s t : ℕ) (cs ds : List ℕ)
    → IsString m s cs
    → IsString m t ds
    → difference cs ds ≡ pos 0
    → cs ≡ ds
unfolding difference
difference_zero m s t [] [] h g e = refl
difference_zero m s t [] (d ∷ ds) h g e = absurd (difference_apart 0 d (ground (arith, g.1)) e)
difference_zero m s t (c ∷ cs) [] h g e = absurd (difference_apart c 0 h.1 e)
difference_zero m s t (c ∷ cs) (d ∷ ds) h g e = elim (Bool-cases (c == d)) [
  | inl equal ↦
      let e' = rw equal at e in
      let head : c ≡ d = ground (arith, equal) in
      rw (head, difference_zero m (s + 1) (t + 1) cs ds h.2 g.2 e') refl
  | inr distinct ↦
      let e' = rw distinct at e in absurd (difference_apart c d (ground (arith, distinct)) e')
]

difference_self : (cs : List ℕ) → difference cs cs ≡ pos 0
unfolding difference
difference_self [] = refl
difference_self (c ∷ cs) = let same : (c == c) ≡ true = ground arith in rw same (difference_self cs)

-- `strcmp` of two strings, with fuel for more than the length of the first, is zero exactly when
-- they are equal.
pub strcmp_zero :
    (fuel : ℕ) (m : Memory) (s t : ℕ) (cs ds : List ℕ)
    → IsString m s cs
    → IsString m t ds
    → length cs < fuel
    → (strcmp fuel m s t ≡ some (pos 0)) ↔ (cs ≡ ds)
strcmp_zero fuel m s t cs ds h g enough =
    let value = strcmp_lem fuel m s t cs ds h g enough in
    (
      λ e. difference_zero m s t cs ds h g (ap value_of (sym value ∙ e)),
      λ e. value ∙ rw e (ap some (difference_self ds)),
    )
