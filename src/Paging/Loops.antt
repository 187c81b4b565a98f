-- ===== src/Paging/Loops.antt =====
-- What the loops over the tables and the page frames leave, entry by entry.
use little_os.Base.{
  ℕ, zero, suc, ◌+◌, ◌≤◌, ◌<◌, ◌≡◌, ◌⊎◌, inl, inr, refl, ◌∙◌, true, false, Memory, store8,
  store8_self, store8_ne, ltb, if◌then◌else◌, u8, u32, arith, dec_lt,
}
use little_os.Paging.{Paging, clear_tables, clear_page, set_page, clear_pages, copy_bytes}

clear_page_outside :
    (left i : ℕ) (page : ℕ → ℕ) (x : ℕ)
    → (x < i) ⊎ (i + left ≤ x)
    → clear_page left i page x ≡ page x
unfolding clear_page
clear_page_outside zero i page x far = refl
clear_page_outside (suc left) i page x far =
    clear_page_outside left (i + 1) (store8 page i 0) x (omega (arith, far))
    ∙ store8_ne page i 0 x (omega (arith, far))

pub clear_page_inside :
    (left i : ℕ) (page : ℕ → ℕ) (x : ℕ) → i ≤ x → x < i + left → clear_page left i page x ≡ 0
unfolding clear_page
clear_page_inside zero i page x from to = absurd (omega arith)
clear_page_inside (suc left) i page x from to = elim (dec_lt i x) [
  | yes later ↦ clear_page_inside left (i + 1) (store8 page i 0) x (omega arith) (omega arith)
  | no here ↦
      let same : x ≡ i = omega arith in
      rw same (
        clear_page_outside left (i + 1) (store8 page i 0) i (inl (omega arith))
        ∙ store8_self page i 0)
]

-- The loop over the tables clears each, and nothing else.
pub clear_tables_lem :
    (left i : ℕ) (s : Paging)
    → clear_tables left i s ≡ record s {
      user_directory = clear_page left i s.user_directory;
      code_table = clear_page left i s.code_table;
      stack_table = clear_page left i s.stack_table;
    }
unfolding clear_tables clear_page
clear_tables_lem zero i s = refl
clear_tables_lem (suc left) i s = clear_tables_lem left (i + 1) (record s {
  user_directory = store8 s.user_directory i 0;
  code_table = store8 s.code_table i 0;
  stack_table = store8 s.stack_table i 0;
})

pub set_page_self : (pages : ℕ → ℕ → ℕ) (p : ℕ) (page : ℕ → ℕ) → set_page pages p page p ≡ page
unfolding set_page
set_page_self pages p page = let same : ltb p p ≡ false = ground arith in rw same refl

pub set_page_ne :
    (pages : ℕ → ℕ → ℕ) (p : ℕ) (page : ℕ → ℕ) (q : ℕ)
    → (q < p) ⊎ (p < q)
    → set_page pages p page q ≡ pages q
unfolding set_page
set_page_ne pages p page q (inl h) = let e : ltb q p ≡ true = ground arith in rw e refl
set_page_ne pages p page q (inr h) =
    let e : ltb q p ≡ false = ground arith in
    let f : ltb p q ≡ true = ground arith in rw (e, f) refl

clear_pages_outside :
    (left p : ℕ) (pages : ℕ → ℕ → ℕ) (q : ℕ)
    → (q < p) ⊎ (p + left ≤ q)
    → clear_pages left p pages q ≡ pages q
unfolding clear_pages
clear_pages_outside zero p pages q far = refl
clear_pages_outside (suc left) p pages q far =
    clear_pages_outside left (p + 1) (set_page pages p (clear_page 4096 0 (pages p))) q
      (omega (arith, far))
    ∙ set_page_ne pages p (clear_page 4096 0 (pages p)) q (omega (arith, far))

pub clear_pages_inside :
    (left p : ℕ) (pages : ℕ → ℕ → ℕ) (q x : ℕ)
    → p ≤ q
    → q < p + left
    → x < 4096
    → clear_pages left p pages q x ≡ 0
unfolding clear_pages
clear_pages_inside zero p pages q x from to small = absurd (omega arith)
clear_pages_inside (suc left) p pages q x from to small =
    let pages' : ℕ → ℕ → ℕ = set_page pages p (clear_page 4096 0 (pages p)) in
    elim (dec_lt p q) [
      | yes later ↦ clear_pages_inside left (p + 1) pages' q x (omega arith) (omega arith) small
      | no here ↦
          let same : q ≡ p = omega arith in
          let kept : clear_pages left (p + 1) pages' p ≡ clear_page 4096 0 (pages p) =
            clear_pages_outside left (p + 1) pages' p (inl (omega arith))
            ∙ set_page_self pages p (clear_page 4096 0 (pages p)) in
          rw (same, kept) (clear_page_inside 4096 0 (pages p) x (omega arith) small)
    ]

module _ (memory : Memory) (src : ℕ) where
  copy_bytes_outside :
      (left i : ℕ) (page : ℕ → ℕ) (x : ℕ)
      → (x < i) ⊎ (i + left ≤ x)
      → copy_bytes left i memory src page x ≡ page x
  unfolding copy_bytes
  copy_bytes_outside zero i page x far = refl
  copy_bytes_outside (suc left) i page x far =
      copy_bytes_outside left (i + 1) (store8 page i (u8 (memory (u32 (src + i))))) x
        (omega (arith, far))
      ∙ store8_ne page i (u8 (memory (u32 (src + i)))) x (omega (arith, far))

  copy_bytes_inside :
      (left i : ℕ) (page : ℕ → ℕ) (x : ℕ)
      → i ≤ x
      → x < i + left
      → copy_bytes left i memory src page x ≡ u8 (memory (u32 (src + x)))
  unfolding copy_bytes
  copy_bytes_inside zero i page x from to = absurd (omega arith)
  copy_bytes_inside (suc left) i page x from to =
      let v : ℕ = u8 (memory (u32 (src + i))) in
      elim (dec_lt i x) [
        | yes later ↦ copy_bytes_inside left (i + 1) (store8 page i v) x (omega arith) (omega arith)
        | no here ↦
            let same : x ≡ i = omega arith in
            rw same (
              copy_bytes_outside left (i + 1) (store8 page i v) i (inl (omega arith))
              ∙ store8_self page i v)
      ]

  -- A copy of `left` bytes onto a page of zeros.
  pub copy_bytes_onto :
      (left : ℕ) (page : ℕ → ℕ) (x : ℕ)
      → page x ≡ 0
      → copy_bytes left 0 memory src page x
        ≡ (if ltb x left then u8 (memory (u32 (src + x))) else 0)
  copy_bytes_onto left page x blank = elim (dec_lt x left) [
    | yes copied ↦
        let e : ltb x left ≡ true = ground arith in
        rw e (copy_bytes_inside left 0 page x (omega arith) (omega arith))
    | no beyond ↦
        let e : ltb x left ≡ false = ground arith in
        rw e (copy_bytes_outside left 0 page x (inr (omega arith)) ∙ blank)
  ]
