-- ===== src/Shell/Skip.antt =====
-- The two inner loops of the tokenizer, on a string.
use little_os.Base.{
  ℕ, zero, suc, ◌+◌, ◌<◌, ◌≤◌, ◌≡◌, refl, ◌∙◌, inl, inr, Bool, true, false, Bool-cases, Option,
  some, List, [], ◌∷◌, arith, All, length, Memory,
}
use little_os.Strings.Content.{IsString}
use little_os.Shell.{skip}
use little_os.Shell.Words.{
  prefix, rest, prefix_nil, rest_nil, prefix_in, prefix_out, rest_in, rest_out, IsVisible,
}

pub IsVisible-IsString : (m : Memory) (a : ℕ) (cs : List ℕ) → IsString m a cs → All IsVisible cs
IsVisible-IsString m a [] h = tt
IsVisible-IsString m a (c ∷ cs) h = (h.1, IsVisible-IsString m (a + 1) cs h.2)

skip_step :
    (p : ℕ → Bool) (fuel : ℕ) (m : Memory) (a : ℕ)
    → p (m a) ≡ true
    → skip p (suc fuel) m a ≡ skip p fuel m (a + 1)
unfolding skip
skip_step p fuel m a e = rw (e, skip) refl

skip_stop :
    (p : ℕ → Bool) (fuel : ℕ) (m : Memory) (a : ℕ)
    → p (m a) ≡ false
    → skip p (suc fuel) m a ≡ some a
unfolding skip
skip_stop p fuel m a e = rw (e, skip) refl

-- The loop stops behind the longest piece with `p`.
abbrev pub SkipsTo : (p : ℕ → Bool) → Memory → (a : ℕ) → List ℕ → Option ℕ → Type 0
SkipsTo p m a cs r =
    (r ≡ some (a + length (prefix p cs)))
    × IsString m (a + length (prefix p cs)) (rest p cs)
    × (length (prefix p cs) + length (rest p cs) ≡ length cs)

pub skip_lem :
    (p : ℕ → Bool) (fuel : ℕ) (m : Memory) (a : ℕ) (cs : List ℕ)
    → p 0 ≡ false
    → IsString m a cs
    → length cs < fuel
    → SkipsTo p m a cs (skip p fuel m a)
skip_lem p zero m a cs ends h enough = absurd (omega arith)
skip_lem p (suc fuel) m a [] ends h enough =
    let here : p (m a) ≡ false = rw h ends in
    let place : a + 0 ≡ a = omega arith in
    rw (skip_stop p fuel m a here, prefix_nil p, rest_nil p, place) (refl, h, refl)
skip_lem p (suc fuel) m a (c ∷ cs) ends h enough = elim (Bool-cases (p c)) [
  | inl go ↦
      let here : p (m a) ≡ true = rw h.0 go in
      let ih = skip_lem p fuel m (a + 1) cs ends h.2 (omega arith) in
      let place : a + 1 + length (prefix p cs) ≡ a + suc (length (prefix p cs)) = omega arith in
      let ih' = rw place at ih in
      rw (skip_step p fuel m a here, prefix_in p c cs go, rest_in p c cs go)
        (ih'.0, ih'.1, omega (arith, ih'.2))
  | inr stop ↦
      let here : p (m a) ≡ false = rw h.0 stop in
      let place : a + 0 ≡ a = omega arith in
      rw (skip_stop p fuel m a here, prefix_out p c cs stop, rest_out p c cs stop, place)
        (refl, h, omega arith)
]

-- A longest piece is a string of its own once a zero stands behind it.
pub prefix-IsString :
    (p : ℕ → Bool) (m m' : Memory) (a : ℕ) (cs : List ℕ)
    → IsString m a cs
    → ((x : ℕ) → a ≤ x → x < a + length (prefix p cs) → m' x ≡ m x)
    → m' (a + length (prefix p cs)) ≡ 0
    → IsString m' a (prefix p cs)
prefix-IsString p m m' a [] h same ended =
    let place : a + 0 ≡ a = omega arith in
    let ended' = rw (prefix_nil p, place) at ended in rw (prefix_nil p) ended'
prefix-IsString p m m' a (c ∷ cs) h same ended = elim (Bool-cases (p c)) [
  | inl go ↦
      let same' = rw (prefix_in p c cs go) at same in
      let ended' = rw (prefix_in p c cs go) at ended in
      let place : a + suc (length (prefix p cs)) ≡ a + 1 + length (prefix p cs) = omega arith in
      let ended'' = rw place at ended' in
      rw (prefix_in p c cs go) (
        same' a (omega arith) (omega arith) ∙ h.0,
        h.1,
        prefix-IsString p m m' (a + 1) cs h.2
            (λ x from before. same' x (omega (arith, from)) (omega (arith, before))) ended'',
      )
  | inr stop ↦
      let place : a + 0 ≡ a = omega arith in
      let ended' = rw (prefix_out p c cs stop, place) at ended in rw (prefix_out p c cs stop) ended'
]
