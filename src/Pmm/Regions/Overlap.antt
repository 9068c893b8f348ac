-- ===== src/Pmm/Regions/Overlap.antt =====
-- `pmm_is_region_reserved` against the addresses that the table covers.
use unidos.Base.{
  ℕ, ◌+◌, ◌≤◌, ◌<◌, ◌≡◌, ◌↔◌, max, true, List, [], ◌∷◌, arith, Bool-cases, inl, inr, is_some,
}
use unidos.Pmm.Regions.{MemRegion, overlaps, find_overlap, pmm_is_region_reserved}
use unidos.Pmm.Regions.Covers.{covered_by, covers}

-- An address of the span that the table covers.
abbrev pub Meets : ℕ → ℕ → List MemRegion → Type 0
Meets address len regions =
    (x : ℕ) × (address ≤ x) × (x < address + len) × (covers x regions ≡ true)

overlaps-covered_by :
    (address len : ℕ) (r : MemRegion)
    → 0 < len
    → overlaps address len r ≡ true
    → (address ≤ max address r.base)
      × (max address r.base < address + len)
      × (covered_by (max address r.base) r ≡ true)
unfolding overlaps covered_by
overlaps-covered_by address len r pos e = ground arith

covered_by-overlaps :
    (address len x : ℕ) (r : MemRegion)
    → address ≤ x
    → x < address + len
    → covered_by x r ≡ true
    → overlaps address len r ≡ true
unfolding overlaps covered_by
covered_by-overlaps address len x r lo hi e = ground arith

module _ (address len : ℕ) (pos : 0 < len) where
  find_overlap-Meets :
      (rs : List MemRegion) → is_some (find_overlap address len rs) ≡ true → Meets address len rs
  unfolding find_overlap covers
  find_overlap-Meets [] e = absurd (ground arith)
  find_overlap-Meets (r ∷ rs) e = elim (Bool-cases (overlaps address len r)) [
    | inl here ↦
        let (lo, hi, c) = overlaps-covered_by address len r pos here in
        (max address r.base, lo, hi, rw c)
    | inr later ↦
        let (x, lo, hi, c) = find_overlap-Meets rs (rw later at e) in (x, lo, hi, ground arith)
  ]

  Meets-find_overlap :
      (rs : List MemRegion) (x : ℕ)
      → address ≤ x
      → x < address + len
      → covers x rs ≡ true
      → is_some (find_overlap address len rs) ≡ true
  unfolding find_overlap covers
  Meets-find_overlap [] x lo hi c = absurd (ground arith)
  Meets-find_overlap (r ∷ rs) x lo hi c =
      ground (arith, covered_by-overlaps address len x r lo hi, Meets-find_overlap rs x lo hi)

  -- `pmm_is_region_reserved` answers `true` exactly when the span, which is not empty, holds an
  -- address that the table covers.
  pub is_region_reserved-Meets :
      (rs : List MemRegion)
      → (is_some (pmm_is_region_reserved rs address len) ≡ true) ↔ Meets address len rs
  unfolding pmm_is_region_reserved
  is_region_reserved-Meets rs = (
    λ e. find_overlap-Meets rs (ground arith),
    λ (x, lo, hi, c). ground (arith, Meets-find_overlap rs x lo hi c),
  )
