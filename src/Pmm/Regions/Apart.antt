-- ===== src/Pmm/Regions/Apart.antt =====
-- The table of `kernel/kmem.c` holds regions that neither overlap nor touch, and
-- `pmm_reserve_range` keeps that.
use unidos.Base.{
  ℕ, ◌+◌, ◌-◌, ◌^◌, ◌≤◌, ◌<◌, ◌≡◌, refl, false, some, List, arith, leb, length, set, Bool-cases,
  inl, inr, Option-cases, u32,
}
use unidos.Pmm.Regions.{MemRegion, region, reserved, Merge, place, reserve_table}
use unidos.Pmm.Regions.Covers.{covers}
use unidos.Pmm.Regions.Settles.{merge_loop-Settled}
use unidos.Pmm.Regions.Table.{
  in_range, start, PrimaryInside-none, outcome, unchanged, span-small, bounded, outcome-Merged,
  reserve_table-place,
}
use unidos.Pmm.Regions.Loop.{AllBelow}
use unidos.Pmm.Regions.Pairs.{
  PairwiseApart, merge_loop-PairwiseApart, Quiet, PairwiseApart-compact, Quiet-of_Settled,
  PairwiseApart-set, PairwiseApart-append,
}

module _ (base len : ℕ) (regions : List MemRegion) where
  outcome-Quiet : Quiet 0 (outcome base len regions).0 (outcome base len regions).1
  unfolding outcome
  outcome-Quiet = Quiet-of_Settled (outcome base len regions).0 (outcome base len regions).1 (
      merge_loop-Settled (start base len) regions (omega arith)
        (PrimaryInside-none 0 (start base len) regions refl))

  outcome-PairwiseApart : PairwiseApart regions → PairwiseApart (outcome base len regions).1
  unfolding outcome
  outcome-PairwiseApart = merge_loop-PairwiseApart (length regions + 2) (start base len) regions

  place-PairwiseApart :
      (m : Merge) (rs : List MemRegion) (p : ℕ)
      → m.primary_idx ≡ some p
      → (m.merged_base ≤ m.merged_end)
      → (m.merged_end - m.merged_base < 2 ^ 32) × (m.merged_base < 2 ^ 32)
      → Quiet 0 m rs
      → PairwiseApart rs
      → PairwiseApart (place base len (m, rs)).table
  unfolding place
  place-PairwiseApart m rs p e ordered small quiet apart =
      let q = region (u32 m.merged_base) (u32 (m.merged_end - m.merged_base)) reserved in
      rw (e, place)
        (PairwiseApart-compact (set rs p q)
          (PairwiseApart-set m q (omega arith) (omega arith) 0 p rs (ground arith) quiet apart))

  place-append-PairwiseApart :
      Quiet 0 (start base len) regions
      → PairwiseApart regions
      → PairwiseApart (place base len (start base len, regions)).table
  unfolding place
  place-append-PairwiseApart quiet apart = elim (Bool-cases (leb 256 (length regions))) [
    | inl full ↦ rw (full) apart
    | inr room ↦ rw room (
        PairwiseApart-append (start base len) (region base len reserved) refl refl 0 regions refl
          quiet apart)
  ]

  -- Regions that neither overlap nor touch stay so: whatever the range meets is merged into one.
  -- The range is not empty, it and the regions end by 4 GiB, and some address below is in none of
  -- them.
  pub reserve_table-PairwiseApart :
      (free : ℕ)
      → 0 < len
      → base + len ≤ 2 ^ 32
      → AllBelow (2 ^ 32) regions
      → free < 2 ^ 32
      → covers free regions ≡ false
      → in_range free base len ≡ false
      → PairwiseApart regions
      → PairwiseApart (reserve_table base len regions).table
  reserve_table-PairwiseApart free pos fits below lt e o apart =
      let m = (outcome base len regions).0 in
      let rs = (outcome base len regions).1 in
      elim (Option-cases m.primary_idx) [
        | inl empty ↦
            let same = unchanged base len regions empty in
            rw (reserve_table-place base len regions pos, same)
              (place-append-PairwiseApart (rw same at outcome-Quiet) apart)
        | inr (p, found) ↦ rw (reserve_table-place base len regions pos) (
            place-PairwiseApart m rs p found
              (omega (arith, (outcome-Merged base len regions).grows))
              (span-small base len free (2 ^ 32) m rs regions (outcome-Merged base len regions) pos
                (bounded base len regions fits below).0 lt e o)
              outcome-Quiet (outcome-PairwiseApart apart))
      ]
