-- ===== src/Strings/Content.antt =====
-- What a C string holds.
use little_os.Base.{ℕ, ◌+◌, ◌≤◌, ◌≡◌, ◌≢◌, ◌∙◌, Memory, List, [], ◌∷◌, length, arith}

-- The bytes of the list stand from `s` on, before a zero.
abbrev pub IsString : Memory → (s : ℕ) → List ℕ → Type 0
IsString m s [] = m s ≡ 0
IsString m s (c ∷ cs) = (m s ≡ c) × (c ≢ 0) × IsString m (s + 1) cs

-- A string depends on its bytes and its end.
pub IsString-same :
    (m m' : Memory) (s : ℕ) (cs : List ℕ)
    → ((x : ℕ) → s ≤ x → x ≤ s + length cs → m' x ≡ m x)
    → IsString m s cs
    → IsString m' s cs
IsString-same m m' s [] same h = same s (omega arith) (omega arith) ∙ h
IsString-same m m' s (c ∷ cs) same h = (
  same s (omega arith) (omega arith) ∙ h.0,
  h.1,
  IsString-same m m' (s + 1) cs (λ x p q. same x (omega (arith, p)) (omega (arith, q))) h.2,
)
