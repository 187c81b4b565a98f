-- ===== src/Paging/Walk.antt =====
-- How the processor translates an address: the two levels of the 32-bit page tables.
use little_os.Base.{
  ℕ, ◌+◌, ◌*◌, ◌/◌, ◌%◌, ◌^◌, ◌≤◌, ◌<◌, ◌≡◌, refl, true, false, Bool, Bool-cases, inl, inr, ◌&&◌,
  Option, none, some, bit_or, bit_or_fields, ◌==◌, if◌then◌else◌, arith,
}

pub record Mapping : Type 0 where
  pub address : ℕ
  pub user : Bool
  pub writable : Bool

-- Bits 0, 1 and 2 of an entry: present, writable, user.
abbrev pub present : ℕ → Bool
present e = e % 2 == 1

abbrev pub writable : ℕ → Bool
writable e = e / 2 % 2 == 1

abbrev pub user : ℕ → Bool
user e = e / 4 % 2 == 1

abbrev pub frame : ℕ → ℕ
frame e = e / 4096 * 4096

abbrev pub through : (v e f : ℕ) → Option Mapping
through v e f =
    if present f
    then some (record {
      address = frame f + v % 4096;
      user = user e && user f;
      writable = writable e && writable f;
    })
    else none

-- `ram a` is the entries of the page of physical memory at `a`.
unfoldable pub walk : (ram : ℕ → ℕ → ℕ) → (cr3 v : ℕ) → Option Mapping
walk ram cr3 v =
    let e = ram (frame cr3) (v / 2 ^ 22) in
    if present e then through v e (ram (frame e) (v / 2 ^ 12 % 1024)) else none

-- The start of a page in the kernel's half of the address space.
abbrev pub IsPage : ℕ → Type 0
IsPage a = (a % 4096 ≡ 0) × (0xC0000000 ≤ a) × (a < 2 ^ 32)

pub flags_lem : (a k : ℕ) → a % 4096 ≡ 0 → k < 4096 → bit_or a k ≡ a + k
flags_lem a k aligned small =
    let whole : a / 4096 * 2 ^ 12 ≡ a = omega arith in
    let sum = bit_or_fields 12 (a / 4096) k small in rw whole at sum

-- A walk through two entries of a user.
pub walk_user :
    (ram : ℕ → ℕ → ℕ) (cr3 v t b : ℕ)
    → cr3 % 4096 ≡ 0
    → t % 4096 ≡ 0
    → b % 4096 ≡ 0
    → ram cr3 (v / 2 ^ 22) ≡ t + 7
    → ram t (v / 2 ^ 12 % 1024) ≡ b + 7
    → walk ram cr3 v ≡ some (record { address = b + v % 4096; user = true; writable = true })
unfolding walk
walk_user ram cr3 v t b c_ok t_ok b_ok e f =
    let c_frame : frame cr3 ≡ cr3 = omega arith in
    let t_frame : frame (t + 7) ≡ t = omega arith in
    let b_frame : frame (b + 7) ≡ b = omega arith in
    let t_present : present (t + 7) ≡ true = ground arith in
    let b_present : present (b + 7) ≡ true = ground arith in
    let t_user : user (t + 7) ≡ true = ground arith in
    let b_user : user (b + 7) ≡ true = ground arith in
    let t_write : writable (t + 7) ≡ true = ground arith in
    let b_write : writable (b + 7) ≡ true = ground arith in
    rw (c_frame, e, t_present, t_frame, f, b_present, b_frame, t_user, b_user, t_write, b_write)
      refl

-- A user process may access the address.
abbrev pub user_can : Option Mapping → Bool
user_can none = false
user_can (some mp) = mp.user

through_access :
    (v e f : ℕ) → user_can (through v e f) ≡ true → (user e ≡ true) × (present f ≡ true)
through_access v e f h = elim (Bool-cases (present f)) [
  | inl p ↦
      let h' = rw p at h in
      elim (Bool-cases (user e)) [ inl u ↦ (u, p) | inr k ↦ let h'' = rw k at h' in cc ]
  | inr absent ↦ let h' = rw absent at h in cc
]

-- What a walk that gives a user access has met.
pub walk_access :
    (ram : ℕ → ℕ → ℕ) (cr3 v e : ℕ)
    → cr3 % 4096 ≡ 0
    → ram cr3 (v / 2 ^ 22) ≡ e
    → user_can (walk ram cr3 v) ≡ true
    → (present e ≡ true) × (user e ≡ true) × (present (ram (frame e) (v / 2 ^ 12 % 1024)) ≡ true)
unfolding walk
walk_access ram cr3 v e c_ok at_e h =
    let c_frame : frame cr3 ≡ cr3 = omega arith in
    let h' = rw (c_frame, at_e) at h in
    elim (Bool-cases (present e)) [
      | inl p ↦
          let h'' = rw p at h' in
          let both = through_access v e (ram (frame e) (v / 2 ^ 12 % 1024)) h'' in
          (p, both.0, both.1)
      | inr absent ↦ let h'' = rw absent at h' in cc
    ]
