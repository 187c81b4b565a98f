-- ===== src/Strings/Examples.antt =====
-- The string functions on a memory with two strings.
use little_os.Base.{ℕ, ◌<◌, ◌≡◌, ◌⊎◌, ◌↔◌, inl, refl, some, List, [], ◌∷◌, Memory, store8, arith}
use little_os.Strings.{
  pos, negsuc, strcmp, strcpy, strncmp, strncpy, byte_difference, strncmp_loop, strncpy_loop,
  strncpy_pad,
}
use little_os.Strings.Content.{IsString}
use little_os.Strings.Compare.{strcmp_zero}
use little_os.Strings.Copy.{strcpy_lem}

abbrev ls : List ℕ
ls = b'l' ∷ b's' ∷ []

abbrev l : List ℕ
l = b'l' ∷ []

-- `ls` at 16 and `l` at 32.
abbrev names : Memory
names = store8 (store8 (store8 (λ a. 0) 16 b'l') 17 b's') 32 b'l'

ls-IsString : IsString names 16 ls
unfolding store8
ls-IsString = (refl, omega arith, (refl, omega arith, refl))

l-IsString : IsString names 32 l
unfolding store8
l-IsString = (refl, omega arith, refl)

strncmp_one : strncmp names 16 32 1 ≡ pos 0
unfolding strncmp strncmp_loop store8
strncmp_one = refl

strncmp_two : strncmp names 32 16 2 ≡ negsuc 114
unfolding strncmp strncmp_loop store8 byte_difference
strncmp_two = refl

strncpy_pads : strncpy 64 32 4 (store8 names 66 9) 66 ≡ 0
unfolding strncpy strncpy_loop strncpy_pad store8
strncpy_pads = refl

strcmp_zero_example : (strcmp 3 names 16 32 ≡ some (pos 0)) ↔ (ls ≡ l)
strcmp_zero_example = strcmp_zero 3 names 16 32 ls l ls-IsString l-IsString (omega arith)

strcpy_lem_example :
    (m' : Memory) × (strcpy 3 64 16 names ≡ some m')
    × IsString m' 64 ls
    × ((x : ℕ) → (x < 64) ⊎ (66 < x) → m' x ≡ names x)
strcpy_lem_example = strcpy_lem 3 64 16 names ls ls-IsString (inl (omega arith)) (omega arith)
