-- ===== src/Pmm/Regions/Entry.antt =====
-- The entry that a reservation writes takes in the whole range, and the table stays within 4 GiB.
use unidos.Base.{
  ℕ, zero, suc, ◌+◌, ◌-◌, ◌^◌, ◌≤◌, ◌<◌, ◌≡◌, ◌≢◌, refl, true, false, ◌||◌, none, some, List, [],
  ◌∷◌, ◌++◌, arith, ◌==◌, leb, length, set, Bool-cases, inl, inr, Option-cases, ◌∙◌, ap, u32,
}
use unidos.Pmm.Regions.{
  MemRegion, region, is_reserved, reserved, Merge, compact, Reservation, no_more_region_slots,
  mem_regions_max, place, reserve_table,
}
use unidos.Pmm.Regions.Covers.{covers, covered_by, in_span, Merged, Grows}
use unidos.Pmm.Regions.Loop.{AllBelow}
use unidos.Pmm.Regions.Table.{
  in_range, start, outcome, unchanged, span-small, covered_by-span, bounded, outcome-Merged,
  reserve_table-place,
}

-- A live reserved entry, within 4 GiB, that holds the range.
pub record Takes (base len : ℕ) (r : MemRegion) : Type 0 where
  pub kind : is_reserved r.type ≡ true
  pub lower : r.base ≤ base
  pub upper : base + len ≤ r.base + r.length
  pub top : r.base + r.length ≤ 2 ^ 32

-- The entry and the table of a reservation.
pub record IsSound (base len : ℕ) (regions : List MemRegion) (o : Reservation) : Type 0 where
  pub region : MemRegion
  pub entry : o.entry ≡ some region
  pub takes : Takes base len region
  pub below : AllBelow (2 ^ 32) o.table
  pub within :
      (x : ℕ) → covered_by x region ≡ true → (covers x regions || in_range x base len) ≡ true

AllBelow-compact : (top : ℕ) (rs : List MemRegion) → AllBelow top rs → AllBelow top (compact rs)
unfolding compact
AllBelow-compact top [] h = tt
AllBelow-compact top (r ∷ rs) h = elim (Bool-cases (r.length == 0)) [
  | inl gone ↦ rw gone (AllBelow-compact top rs h.1)
  | inr stays ↦ rw stays (h.0, AllBelow-compact top rs h.1)
]

AllBelow-set :
    (top p : ℕ) (rs : List MemRegion) (q : MemRegion)
    → q.base + q.length ≤ top
    → AllBelow top rs
    → AllBelow top (set rs p q)
AllBelow-set top p [] q le h = tt
AllBelow-set top zero (r ∷ rs) q le h = (le, h.1)
AllBelow-set top (suc p) (r ∷ rs) q le h = (h.0, AllBelow-set top p rs q le h.1)

AllBelow-append :
    (top : ℕ) (rs : List MemRegion) (q : MemRegion)
    → q.base + q.length ≤ top
    → AllBelow top rs
    → AllBelow top (rs ++ q ∷ [])
AllBelow-append top [] q le h = (le, tt)
AllBelow-append top (r ∷ rs) q le h = (h.0, AllBelow-append top rs q le h.1)

module _ (base len : ℕ) (fits : base + len ≤ 2 ^ 32) where
  place-IsSound :
      (m : Merge) (rs regions : List MemRegion) (p : ℕ)
      → m.primary_idx ≡ some p
      → Merged (start base len) regions m rs
      → m.merged_end ≤ 2 ^ 32
      → (m.merged_end - m.merged_base < 2 ^ 32) × (m.merged_base < 2 ^ 32)
      → AllBelow (2 ^ 32) rs
      → IsSound base len regions (place base len (m, rs))
  unfolding place in_span
  place-IsSound m rs regions p e merged fit small below =
      let grows : Grows (start base len) m = merged.grows in
      let q = region (u32 m.merged_base) (u32 (m.merged_end - m.merged_base)) reserved in
      let takes : Takes base len q = record {
        kind = refl;
        lower = omega (arith, grows, small);
        upper = omega (arith, grows, small);
        top = omega (arith, grows, small);
      } in
      rw (e, place)
        (record {
          region = q;
          entry = refl;
          takes = takes;
          below =
              AllBelow-compact (2 ^ 32) (set rs p q)
                (AllBelow-set (2 ^ 32) p rs q (takes.top) below);
          within = λ x c. ground (
            arith,
            merged.covered x,
            c,
            covered_by-span x m (omega (arith, grows)) small.0 small.1,
          );
        })

  place-append-IsSound :
      (regions : List MemRegion)
      → AllBelow (2 ^ 32) regions
      → (place base len (start base len, regions)).result ≢ no_more_region_slots
      → IsSound base len regions (place base len (start base len, regions))
  unfolding place covered_by
  place-append-IsSound regions below room = elim (Bool-cases (leb 256 (length regions))) [
    | inl full ↦ absurd (room (ground arith))
    | inr free ↦ rw free (record {
      region = region base len reserved;
      entry = refl;
      takes = record { kind = refl; lower = omega arith; upper = omega arith; top = omega arith };
      below = AllBelow-append (2 ^ 32) regions (region base len reserved) fits below;
      within = λ x c. ground (arith, c);
    })
  ]

  pub reserve_table-IsSound :
      (regions : List MemRegion) (free : ℕ)
      → 0 < len
      → AllBelow (2 ^ 32) regions
      → free < 2 ^ 32
      → covers free regions ≡ false
      → in_range free base len ≡ false
      → (reserve_table base len regions).result ≢ no_more_region_slots
      → IsSound base len regions (reserve_table base len regions)
  reserve_table-IsSound regions free pos below lt e o room =
      let m = (outcome base len regions).0 in
      let rs = (outcome base len regions).1 in
      let merged = outcome-Merged base len regions in
      let bound = bounded base len regions fits below in
      elim (Option-cases m.primary_idx) [
        | inl empty ↦
            let same = unchanged base len regions empty in
            rw (reserve_table-place base len regions pos, same)
              (place-append-IsSound regions below
                (rw (reserve_table-place base len regions pos, same) at room))
        | inr (p, found) ↦ rw (reserve_table-place base len regions pos) (
            place-IsSound m rs regions p found merged bound.0
              (span-small base len free (2 ^ 32) m rs regions merged pos bound.0 lt e o) bound.1)
      ]

place-full :
    (base len : ℕ) (m : Merge) (rs : List MemRegion)
    → (place base len (m, rs)).result ≡ no_more_region_slots
    → (m.primary_idx ≡ none)
      × ((place base len (m, rs)).table ≡ rs)
      × ((place base len (m, rs)).entry ≡ none)
unfolding place
place-full base len m rs e = ground arith

-- A reservation that finds no slot changes nothing.
pub reserve_table-full :
    (base len : ℕ) (regions : List MemRegion)
    → 0 < len
    → (reserve_table base len regions).result ≡ no_more_region_slots
    → ((reserve_table base len regions).table ≡ regions)
      × ((reserve_table base len regions).entry ≡ none)
reserve_table-full base len regions pos e =
    let out = outcome base len regions in
    let full =
      place-full base len out.0 out.1 (rw (reserve_table-place base len regions pos) at e) in
    let same : out.1 ≡ regions =
      ap (λ (o : Merge × List MemRegion). o.1) (unchanged base len regions full.0) in
    rw (reserve_table-place base len regions pos) (full.1 ∙ same, full.2)

place-no_room :
    (base len : ℕ) (m : Merge) (rs : List MemRegion)
    → (place base len (m, rs)).result ≡ no_more_region_slots
    → mem_regions_max ≤ length rs
unfolding place
place-no_room base len m rs e = ground arith

-- A reservation finds no slot only where all slots are in use.
pub reserve_table-no_room :
    (base len : ℕ) (regions : List MemRegion)
    → 0 < len
    → (reserve_table base len regions).result ≡ no_more_region_slots
    → mem_regions_max ≤ length regions
reserve_table-no_room base len regions pos e =
    let out = outcome base len regions in
    let e' = rw (reserve_table-place base len regions pos) at e in
    let full = place-full base len out.0 out.1 e' in
    let same : out.1 ≡ regions =
      ap (λ (o : Merge × List MemRegion). o.1) (unchanged base len regions full.0) in
    rw same at (place-no_room base len out.0 out.1 e')
