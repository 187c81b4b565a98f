-- ===== src/Strings/Measure.antt =====
-- `strlen` and `strchr` on a string.
use little_os.Base.{
  ℕ, zero, suc, ◌+◌, ◌<◌, ◌≡◌, ◌≢◌, refl, ◌∙◌, ap, inl, inr, true, false, not, ◌&&◌, Bool-cases,
  some, List, [], ◌∷◌, Memory, length, ◌==◌, if◌then◌else◌, u8, arith,
}
use little_os.Strings.{strlen_loop, strlen, strchr}
use little_os.Strings.Content.{IsString}

strlen_loop_lem :
    (fuel : ℕ) (m : Memory) (s len : ℕ) (cs : List ℕ)
    → s ≢ 0
    → IsString m (s + len) cs
    → length cs < fuel
    → strlen_loop fuel m s len ≡ some (len + length cs)
unfolding strlen_loop
strlen_loop_lem zero m s len cs given h enough = absurd (omega arith)
strlen_loop_lem (suc fuel) m s len [] given h enough =
    let stop : (not (s == 0) && not (m (s + len) == 0)) ≡ false = ground (arith, h) in
    rw (stop, strlen_loop) (ap some (omega arith))
strlen_loop_lem (suc fuel) m s len (c ∷ cs) given h enough =
    let more : (not (s == 0) && not (m (s + len) == 0)) ≡ true = ground (arith, h, given) in
    let place : s + len + 1 ≡ s + (len + 1) = omega arith in
    let tail = rw place at h.2 in
    let rest = strlen_loop_lem fuel m s (len + 1) cs given tail (omega arith) in
    rw (more, strlen_loop) (rest ∙ ap some (omega arith))

-- `strlen` of a string that is not at null is its length, and it ends when its fuel is more than that.
pub strlen_lem :
    (fuel : ℕ) (m : Memory) (s : ℕ) (cs : List ℕ)
    → s ≢ 0
    → IsString m s cs
    → length cs < fuel
    → strlen fuel m s ≡ some (length cs)
unfolding strlen
strlen_lem fuel m s cs given h enough =
    let start : s + 0 ≡ s = omega arith in
    strlen_loop_lem fuel m s 0 cs given (rw start h) enough ∙ ap some (omega arith)

-- The address of the first `c` of the string at `s`, the end of the string for 0, or null.
unfoldable pub find : (s c : ℕ) → List ℕ → ℕ
find s c [] = if c == 0 then s else 0
find s c (d ∷ cs) = if d == c then s else find (s + 1) c cs

-- `strchr` finds the first place of the byte `c`, and ends when its fuel is more than the length.
pub strchr_lem :
    (fuel : ℕ) (m : Memory) (s c : ℕ) (cs : List ℕ)
    → c < 256
    → IsString m s cs
    → length cs < fuel
    → strchr fuel m s c ≡ some (find s c cs)
unfolding strchr find
strchr_lem zero m s c cs byte h enough = absurd (omega arith)
strchr_lem (suc fuel) m s c [] byte h enough =
    let stop : (m s == 0) ≡ true = ground (arith, h) in rw (stop, strchr) refl
strchr_lem (suc fuel) m s c (d ∷ cs) byte h enough =
    let more : (m s == 0) ≡ false = ground (arith, h) in
    let cast : u8 c ≡ c = omega arith in
    let rest = strchr_lem fuel m (s + 1) c cs byte h.2 (omega arith) in
    elim (Bool-cases (d == c)) [
      | inl here ↦ rw (more, strchr, cast, h.0, here) refl
      | inr later ↦ rw (more, strchr, cast, h.0, later) rest
    ]
