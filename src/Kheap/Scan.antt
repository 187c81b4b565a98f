-- ===== src/Kheap/Scan.antt =====
-- The scan of `kmalloc` against what first fit means.
use little_os.Base.{
  ℕ, zero, suc, ◌+◌, ◌≤◌, ◌<◌, ◌≡◌, ◌≢◌, refl, inl, inr, true, false, Option, none, some, ◌==◌,
  if◌then◌else◌, arith, Bool-cases, dec_lt,
}
use little_os.Kheap.{Bitmap, bitmap_test, scan}

-- `need` blocks from `s` on are free.
abbrev pub Fits : Bitmap → (need s : ℕ) → Type 0
Fits bm need s = (j : ℕ) → s ≤ j → j < s + need → bitmap_test bm j ≡ false

-- `s` is the lowest block below `total` at which the request fits.
pub record IsFirstFit (bm : Bitmap) (need total s : ℕ) : Type 0 where
  pub within : s + need ≤ total
  pub fits : Fits bm need s
  pub lowest : (r : ℕ) → r < s → ¬ Fits bm need r

-- What a scan says: the first fit, or that there is none.
abbrev pub Scanned : Bitmap → (need total : ℕ) → Option ℕ → Type 0
Scanned bm need total (some s) = IsFirstFit bm need total s
Scanned bm need total none = (r : ℕ) → r + need ≤ total → ¬ Fits bm need r

-- The loop's state at block `i`: the `free` blocks below `i` are free, and no request that starts
-- below them fits.
record IsScanning (bm : Bitmap) (need i free start : ℕ) : Type 0 where
  run_in : free ≤ i
  run_short : free < need
  start_of_run : 0 < free → start + free ≡ i
  run : (j : ℕ) → i ≤ j + free → j < i → bitmap_test bm j ≡ false
  skipped : (r : ℕ) → r + free < i → ¬ Fits bm need r

module _ (bm : Bitmap) (need i free start : ℕ) (v : IsScanning bm need i free start) where
  used_step : bitmap_test bm i ≡ true → IsScanning bm need (i + 1) 0 start
  used_step e = record {
    run_in = omega arith;
    run_short = omega arith;
    start_of_run = λ h. absurd (omega arith);
    run = λ j p q. absurd (omega arith);
    skipped = λ r p f. elim (dec_lt (r + free) i) [
      | yes q ↦ v.skipped r q f
      | no q ↦ cc (e, f i (omega arith) (omega arith))
    ];
  }

  free_step :
      bitmap_test bm i ≡ false
      → free + 1 ≢ need
      → IsScanning bm need (i + 1) (free + 1) (if free == 0 then i else start)
  free_step e ne = record {
    run_in = omega arith;
    run_short = omega arith;
    start_of_run = λ h. ground (arith, v.start_of_run);
    run = λ j p q. elim (dec_lt j i) [
      | yes h ↦ v.run j (omega arith) h
      | no h ↦ let same : j ≡ i = omega arith in rw same e
    ];
    skipped = λ r p f. v.skipped r (omega arith) f;
  }

  found :
      (total : ℕ)
      → i < total
      → bitmap_test bm i ≡ false
      → free + 1 ≡ need
      → IsFirstFit bm need total (if free == 0 then i else start)
  found total lt e last = record {
    within = ground (arith, v.start_of_run);
    fits = λ j p q. elim (dec_lt j i) [
      | yes h ↦ v.run j (ground (arith, v.start_of_run)) h
      | no h ↦ let same : j ≡ i = ground (arith, v.start_of_run) in rw same e
    ];
    lowest = λ r p f. v.skipped r (ground (arith, v.start_of_run)) f;
  }

module _ (bm : Bitmap) (need : ℕ) where
  scan-Scanned_from :
      (total left i free start : ℕ)
      → i + left ≡ total
      → IsScanning bm need i free start
      → Scanned bm need total (scan bm need left i free start)
  unfolding scan
  scan-Scanned_from total zero i free start e v = λ r p f. v.skipped r (omega arith) f
  scan-Scanned_from total (suc left) i free start e v = elim (Bool-cases (bitmap_test bm i)) [
    | inl used ↦
        rw (used, scan, Scanned)
          (scan-Scanned_from total left (i + 1) 0 start (omega arith)
            (used_step bm need i free start v used))
    | inr unused ↦ elim (Bool-cases (free + 1 == need)) [
      | inl last ↦
          rw (unused, last, scan, Scanned)
            (found bm need i free start v total (omega arith) unused (ground arith))
      | inr more ↦
          rw (unused, more, scan, Scanned)
            (scan-Scanned_from total left (i + 1) (free + 1) _ (omega arith)
              (free_step bm need i free start v unused (ground arith)))
    ]
  ]

  -- The scan finds the lowest place where the request fits, and fails only if there is none.
  pub scan-Scanned : (total : ℕ) → 0 < need → Scanned bm need total (scan bm need total 0 0 0)
  scan-Scanned total pos = scan-Scanned_from total total 0 0 0 (omega arith) (record {
    run_in = omega arith;
    run_short = omega arith;
    start_of_run = λ h. refl;
    run = λ j p q. absurd (omega arith);
    skipped = λ r p f. absurd (omega arith);
  })

  -- A request for no block, which only a wrapped size makes, is never found.
  pub scan_no_blocks : (left i free start : ℕ) → need ≡ 0 → scan bm need left i free start ≡ none
  unfolding scan
  scan_no_blocks zero i free start e = refl
  scan_no_blocks (suc left) i free start e = ground (
    arith,
    scan_no_blocks left (i + 1) 0 start e,
    scan_no_blocks left (i + 1) (free + 1) (if free == 0 then i else start) e,
  )
