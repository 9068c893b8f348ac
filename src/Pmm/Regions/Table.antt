-- ===== src/Pmm/Regions/Table.antt =====
-- `pmm_reserve_range` on the table: afterwards the reserved addresses are those of before and those
-- of the range, no more and no less.
use unidos.Base.{
  ℕ, suc, ◌+◌, ◌-◌, ◌^◌, ◌≤◌, ◌<◌, ◌≡◌, ◌≢◌, refl, Bool, false, ◌&&◌, ◌||◌, none, some, List, [],
  ◌∷◌, arith, ltb, leb, length, set, inl, inr, Option-cases, ◌∙◌, u32,
}
use unidos.Pmm.Regions.{
  MemRegion, region, reserved, Merge, merge, merge_loop, no_more_region_slots, place, reserve_table,
}
use unidos.Pmm.Regions.Covers.{
  covered_by, covers, in_span, PrimaryInside, Merged, merge_loop-Merged,
}
use unidos.Pmm.Regions.Loop.{
  AllBelow, merge_loop-below, covers-compact, covers-append, covers-set_primary, merge_loop-index,
  merge_loop-none,
}

-- The addresses of a range.
abbrev pub in_range : ℕ → ℕ → ℕ → Bool
in_range x base len = leb base x && ltb x (base + len)

abbrev pub start : ℕ → ℕ → Merge
start base len = merge base (base + len) none false

pub PrimaryInside-none :
    (i : ℕ) (m : Merge) (rs : List MemRegion) → m.primary_idx ≡ none → PrimaryInside i m rs
PrimaryInside-none i m [] e = tt
PrimaryInside-none i m (r ∷ rs) e = (λ q. absurd (ground arith), PrimaryInside-none (suc i) m rs e)

pub covered_by-span :
    (x : ℕ) (m : Merge)
    → m.merged_base ≤ m.merged_end
    → m.merged_end - m.merged_base < 2 ^ 32
    → m.merged_base < 2 ^ 32
    → covered_by x (region (u32 m.merged_base) (u32 (m.merged_end - m.merged_base)) reserved)
      ≡ in_span x m
unfolding covered_by in_span
covered_by-span x m ordered small low = ground arith

place-covers :
    (base len x : ℕ) (m : Merge) (rs regions : List MemRegion) (p : ℕ)
    → Merged (start base len) regions m rs
    → m.primary_idx ≡ some p
    → p < length rs
    → m.merged_end - m.merged_base < 2 ^ 32
    → m.merged_base < 2 ^ 32
    → covers x (place base len (m, rs)).table ≡ (covers x regions || in_range x base len)
unfolding place in_span
place-covers base len x m rs regions p h e lt small low =
    let q = region (u32 m.merged_base) (u32 (m.merged_end - m.merged_base)) reserved in
    rw (e, place)
      (covers-compact x (set rs p q)
        ∙ (covers-set_primary x 0 p m rs q (ground arith) lt h.inside
              (covered_by-span x m (omega (arith, h.grows)) small low)
            ∙ h.covered x))

-- The span leaves out an address that nothing covers, so its length fits 32 bits.
pub span-small :
    (base len free top : ℕ) (m : Merge) (rs regions : List MemRegion)
    → Merged (start base len) regions m rs
    → 0 < len
    → m.merged_end ≤ top
    → free < top
    → covers free regions ≡ false
    → in_range free base len ≡ false
    → (m.merged_end - m.merged_base < top) × (m.merged_base < top)
unfolding in_span
span-small base len free top m rs regions h pos below lt e o =
    ground (arith, h.covered free, h.grows)

place-append-covers :
    (base len x : ℕ) (regions : List MemRegion)
    → (place base len (start base len, regions)).result ≢ no_more_region_slots
    → covers x (place base len (start base len, regions)).table
      ≡ (covers x regions || in_range x base len)
unfolding place covered_by
place-append-covers base len x regions room =
    ground (arith, covers-append x regions (region base len reserved))

module _ (base len : ℕ) (regions : List MemRegion) where
  unfoldable pub outcome : Merge × List MemRegion
  outcome = merge_loop (length regions + 2) (start base len) regions

  pub outcome-Merged : Merged (start base len) regions outcome.0 outcome.1
  unfolding outcome
  outcome-Merged =
      merge_loop-Merged (length regions + 2) (start base len) regions (omega arith)
        (PrimaryInside-none 0 (start base len) regions refl)

  pub unchanged : outcome.0.primary_idx ≡ none → outcome ≡ (start base len, regions)
  unfolding outcome
  unchanged e = merge_loop-none (length regions + 2) (start base len) regions refl e

  pub in_table : (p : ℕ) → outcome.0.primary_idx ≡ some p → p < length outcome.1
  unfolding outcome
  in_table p e =
      let n =
        merge_loop-index (length regions + 2) (start base len) regions (length regions)
          (λ q h. absurd (ground arith)) refl in
      omega (arith, n.0 p e, n.1)

  pub bounded :
      base + len ≤ 2 ^ 32
      → AllBelow (2 ^ 32) regions
      → (outcome.0.merged_end ≤ 2 ^ 32) × AllBelow (2 ^ 32) outcome.1
  unfolding outcome
  bounded fits below =
      merge_loop-below (2 ^ 32) (length regions + 2) (start base len) regions fits below

  pub reserve_table-place : 0 < len → reserve_table base len regions ≡ place base len outcome
  unfolding reserve_table outcome
  reserve_table-place pos = ground arith

  -- The reserved addresses after `pmm_reserve_range` are exactly those of before and those of the
  -- range. The range and the regions end by 4 GiB, some address below stays free, and the table
  -- had room.
  pub reserve_table-covers :
      (free x : ℕ)
      → 0 < len
      → base + len ≤ 2 ^ 32
      → AllBelow (2 ^ 32) regions
      → free < 2 ^ 32
      → covers free regions ≡ false
      → in_range free base len ≡ false
      → (reserve_table base len regions).result ≢ no_more_region_slots
      → covers x (reserve_table base len regions).table ≡ (covers x regions || in_range x base len)
  reserve_table-covers free x pos fits below lt e o room =
      elim (Option-cases outcome.0.primary_idx) [
        | inl empty ↦
            rw (reserve_table-place pos, unchanged empty)
              (place-append-covers base len x regions
                (rw (reserve_table-place pos, unchanged empty) at room))
        | inr (p, found) ↦
            let small =
              span-small base len free (2 ^ 32) outcome.0 outcome.1 regions outcome-Merged pos
                (bounded fits below).0 lt e o in
            rw (reserve_table-place pos) (
              place-covers base len x outcome.0 outcome.1 regions p outcome-Merged found
                (in_table p found) small.0 small.1)
      ]
