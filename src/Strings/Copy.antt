-- ===== src/Strings/Copy.antt =====
-- `strcpy` on strings that do not overlap.
use little_os.Base.{
  ℕ, zero, suc, ◌+◌, ◌<◌, ◌≡◌, ◌⊎◌, refl, ◌∙◌, inl, true, false, some, List, [], ◌∷◌, Memory,
  store8, store8_self, store8_ne, length, ◌==◌, arith,
}
use little_os.Strings.{strcpy}
use little_os.Strings.Content.{IsString, IsString-same}

-- `strcpy` ends, makes the string at `d`, and changes no byte but those of the copy, when its fuel
-- is more than the length and the two ranges do not overlap.
pub strcpy_lem :
    (fuel d src : ℕ) (m : Memory) (cs : List ℕ)
    → IsString m src cs
    → (src + length cs < d) ⊎ (d + length cs < src)
    → length cs < fuel
    → (m' : Memory) × (strcpy fuel d src m ≡ some m')
      × IsString m' d cs
      × ((x : ℕ) → (x < d) ⊎ (d + length cs < x) → m' x ≡ m x)
unfolding strcpy
strcpy_lem zero d src m cs h apart enough = absurd (omega arith)
strcpy_lem (suc fuel) d src m [] h apart enough =
    let stop : (m src == 0) ≡ true = ground (arith, h) in
    (
      store8 m d (m src),
      rw (stop, strcpy) refl,
      store8_self m d (m src) ∙ h,
      λ x far. store8_ne m d (m src) x (omega (arith, far)),
    )
strcpy_lem (suc fuel) d src m (c ∷ cs) h apart enough =
    let more : (m src == 0) ≡ false = ground (arith, h) in
    let copied : Memory = store8 m d (m src) in
    let tail =
      IsString-same m copied (src + 1) cs
        (λ x p q. store8_ne m d (m src) x (omega (arith, p, q, apart))) h.2 in
    let rest =
      strcpy_lem fuel (d + 1) (src + 1) copied cs tail (omega (arith, apart)) (omega arith) in
    let first : rest.0 d ≡ c = rest.3 d (inl (omega arith)) ∙ store8_self m d (m src) ∙ h.0 in
    (
      rest.0,
      rw (more, strcpy) rest.1,
      (first, h.1, rest.2),
      λ x far. rest.3 x (omega (arith, far)) ∙ store8_ne m d (m src) x (omega (arith, far)),
    )
