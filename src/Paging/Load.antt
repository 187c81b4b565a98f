-- ===== src/Paging/Load.antt =====
-- The loop of `paging_setup_user_process` that copies the module and maps its pages.
use little_os.Base.{
  ℕ, zero, suc, ◌+◌, ◌*◌, ◌≤◌, ◌<◌, ◌≡◌, ◌⊎◌, inl, inr, refl, ◌∙◌, ap, true, false, bit_or, Memory,
  store8, store8_self, store8_ne, ltb, if◌then◌else◌, u8, u32, arith, dec_lt,
}
use little_os.Paging.{
  Places, Paging, virtual_to_physical, user_page, set_page, copy_bytes, to_copy, load_page,
  load_pages,
}
use little_os.Paging.Loops.{set_page_self, set_page_ne, copy_bytes_onto}

-- The byte of the process at `v`: that of the module, or zero behind it.
unfoldable pub image : Memory → (start size v : ℕ) → ℕ
image memory start size v = if ltb v size then u8 (memory (u32 (start + v))) else 0

-- What a round makes of the page `p`.
pub loaded : Memory → (start size p : ℕ) → (ℕ → ℕ) → ℕ → ℕ
loaded memory start size p page =
    if ltb (p * 4096) size
    then copy_bytes (to_copy (p * 4096) size) 0 memory (start + p * 4096) page
    else page

pub loaded_lem :
    (memory : Memory) (start size p : ℕ) (page : ℕ → ℕ) (x : ℕ)
    → x < 4096
    → page x ≡ 0
    → loaded memory start size p page x ≡ image memory start size (p * 4096 + x)
unfolding loaded image to_copy
loaded_lem memory start size p page x small blank = elim (dec_lt (p * 4096) size) [
  | no beyond ↦
      let e : ltb (p * 4096) size ≡ false = ground arith in
      let f : ltb (p * 4096 + x) size ≡ false = ground arith in rw (e, f) blank
  | yes some_left ↦
      let e : ltb (p * 4096) size ≡ true = ground arith in
      let place : start + p * 4096 + x ≡ start + (p * 4096 + x) = omega arith in
      let onto = copy_bytes_onto memory (start + p * 4096) (to_copy (p * 4096) size) page x blank in
      let bound : ltb x (to_copy (p * 4096) size) ≡ ltb (p * 4096 + x) size = ground arith in
      rw e (onto ∙ rw (bound, place) refl)
]

abbrev pub entry : Places → ℕ → ℕ
entry at p = bit_or (virtual_to_physical (at.code_pages + p * 4096)) user_page

module _ (at : Places) (memory : Memory) (start size : ℕ) where
  -- The parts of the state that the loop keeps.
  pub record Keeps (s t : Paging) : Type 0 where
    pub boot_directory : t.boot_directory ≡ s.boot_directory
    pub user_directory : t.user_directory ≡ s.user_directory
    pub stack_table : t.stack_table ≡ s.stack_table
    pub stack_page : t.stack_page ≡ s.stack_page

  pub load_pages-Keeps :
      (left p : ℕ) (s : Paging) → Keeps s (load_pages at memory start size left p s)
  unfolding load_pages load_page
  load_pages-Keeps zero p s = record {
    boot_directory = refl;
    user_directory = refl;
    stack_table = refl;
    stack_page = refl;
  }
  load_pages-Keeps (suc left) p s =
      let k = load_pages-Keeps left (p + 1) (load_page at memory start size p s) in
      record {
        boot_directory = k.boot_directory;
        user_directory = k.user_directory;
        stack_table = k.stack_table;
        stack_page = k.stack_page;
      }

  load_page_table :
      (p : ℕ) (s : Paging)
      → (load_page at memory start size p s).code_table ≡ store8 s.code_table p (entry at p)
  unfolding load_page
  load_page_table p s = refl

  load_page_pages :
      (p : ℕ) (s : Paging)
      → (load_page at memory start size p s).code_pages
        ≡ set_page s.code_pages p (loaded memory start size p (s.code_pages p))
  unfolding load_page loaded
  load_page_pages p s = refl

  pub load_pages_outside :
      (left p : ℕ) (s : Paging) (q : ℕ)
      → (q < p) ⊎ (p + left ≤ q)
      → ((load_pages at memory start size left p s).code_table q ≡ s.code_table q)
        × ((load_pages at memory start size left p s).code_pages q ≡ s.code_pages q)
  unfolding load_pages
  load_pages_outside zero p s q far = (refl, refl)
  load_pages_outside (suc left) p s q far =
      let next : Paging = load_page at memory start size p s in
      let rest = load_pages_outside left (p + 1) next q (omega (arith, far)) in
      (
        rest.0
            ∙ ap (λ (f : ℕ → ℕ). f q) (load_page_table p s)
            ∙ store8_ne s.code_table p (entry at p) q (omega (arith, far)),
        rest.1
            ∙ ap (λ (f : ℕ → ℕ → ℕ). f q) (load_page_pages p s)
            ∙ set_page_ne s.code_pages p (loaded memory start size p (s.code_pages p)) q
                (omega (arith, far)),
      )

  pub load_pages_inside :
      (left p : ℕ) (s : Paging) (q : ℕ)
      → p ≤ q
      → q < p + left
      → ((load_pages at memory start size left p s).code_table q ≡ entry at q)
        × ((load_pages at memory start size left p s).code_pages q
            ≡ loaded memory start size q (s.code_pages q))
  unfolding load_pages
  load_pages_inside zero p s q from to = absurd (omega arith)
  load_pages_inside (suc left) p s q from to =
      let next : Paging = load_page at memory start size p s in
      elim (dec_lt p q) [
        | yes later ↦
            let rest = load_pages_inside left (p + 1) next q (omega arith) (omega arith) in
            let before : next.code_pages q ≡ s.code_pages q =
              ap (λ (f : ℕ → ℕ → ℕ). f q) (load_page_pages p s)
              ∙ set_page_ne s.code_pages p (loaded memory start size p (s.code_pages p)) q
                  (inr later) in
            (rest.0, rest.1 ∙ ap (loaded memory start size q) before)
        | no here ↦
            let same : p ≡ q = omega arith in
            let rest = load_pages_outside left (p + 1) next p (inl (omega arith)) in
            rw (← same) (
              rest.0
                  ∙ ap (λ (f : ℕ → ℕ). f p) (load_page_table p s)
                  ∙ store8_self s.code_table p (entry at p),
              rest.1
                  ∙ ap (λ (f : ℕ → ℕ → ℕ). f p) (load_page_pages p s)
                  ∙ set_page_self s.code_pages p (loaded memory start size p (s.code_pages p)),
            )
      ]
