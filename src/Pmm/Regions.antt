-- ===== src/Pmm/Regions.antt =====
-- The table of reserved memory regions of `kernel/kmem.c`, and the part of `pmm_reserve_range` that
-- works on it. The list holds the first `mem_region_count` entries of `mem_regions`.
pub mod Covers
pub mod Settles
pub mod Table
pub mod Loop
pub mod Pairs
pub mod Apart
pub mod Entry
pub mod Overlap
use unidos.Base.{
  ℕ, zero, suc, ◌+◌, ◌-◌, min, max, Bool, true, false, not, ◌&&◌, ◌||◌, Option, none, some, List,
  [], ◌∷◌, ◌++◌, ◌==◌, ltb, leb, if◌then◌else◌, length, set, is_some, u32,
}

pub data MemType : Type 0 where
  usable : MemType
  reserved : MemType

abbrev pub is_reserved : MemType → Bool
is_reserved usable = false
is_reserved reserved = true

pub record MemRegion : Type 0 where
  pub base : ℕ
  pub length : ℕ
  pub type : MemType

abbrev pub region : ℕ → ℕ → MemType → MemRegion
region b l t = record { base = b; length = l; type = t }

-- One entry against a span: overlap with a reserved region of nonzero length.
unfoldable pub overlaps : ℕ → ℕ → MemRegion → Bool
overlaps address len r =
    not (r.length == 0)
    && (is_reserved r.type && (ltb address (r.base + r.length) && ltb r.base (address + len)))

find_overlap : ℕ → ℕ → List MemRegion → Option MemRegion
find_overlap address len [] = none
find_overlap address len (r ∷ rs) =
    let rest = find_overlap address len rs in if overlaps address len r then some r else rest

-- `some r` is the answer `true` with `*out_overlap` set to `r`.
unfoldable pub pmm_is_region_reserved : List MemRegion → ℕ → ℕ → Option MemRegion
unfolding find_overlap
pmm_is_region_reserved regions address len =
    if len == 0 then none else find_overlap address len regions

-- The variables of the merging loop. `merged_base` and `merged_end` are 64 bits wide, so that the
-- sum of two 32-bit words is exact; `primary_idx` is there once a candidate has been found.
pub record Merge : Type 0 where
  pub merged_base : ℕ
  pub merged_end : ℕ
  pub primary_idx : Option ℕ
  pub changed : Bool

abbrev pub merge : ℕ → ℕ → Option ℕ → Bool → Merge
merge b e p c = record { merged_base = b; merged_end = e; primary_idx = p; changed = c }

-- Overlap or direct adjacency of half-open intervals, for a live reserved entry.
unfoldable pub can_merge : Merge → MemRegion → Bool
can_merge m r =
    is_reserved r.type
    && (not (r.length == 0) && (leb m.merged_base (r.base + r.length) && leb r.base m.merged_end))

tombstone : MemRegion → MemRegion
tombstone r = record r { length = 0; type = usable }

-- The body of the `for` loop at entry `i`, once `can_merge` holds.
unfoldable pub absorb : ℕ → Merge → MemRegion → Merge × MemRegion
unfolding tombstone
absorb i m r =
    let b = min m.merged_base r.base in
    let e = max m.merged_end (r.base + r.length) in
    let grown = not (b == m.merged_base) || not (e == m.merged_end) in
    elim m.primary_idx [
      | none ↦ (merge b e (some i) true, r)
      | some p ↦
          if i == p
          then (merge b e (some p) (m.changed || grown), r)
          else (merge b e (some p) true, tombstone r)
    ]

unfoldable pub visit : ℕ → Merge → MemRegion → Merge × MemRegion
unfolding absorb can_merge
visit i m r = if can_merge m r then absorb i m r else (m, r)

-- One `for` loop, from entry `i` on.
unfoldable pub merge_pass : ℕ → Merge → List MemRegion → Merge × List MemRegion
unfolding visit
merge_pass i m [] = (m, [])
merge_pass i m (r ∷ rs) =
    let (m', r') = visit i m r in let (m'', rs') = merge_pass (suc i) m' rs in (m'', r' ∷ rs')

-- `do { changed = false; ... } while (changed)`
unfoldable pub merge_loop : ℕ → Merge → List MemRegion → Merge × List MemRegion
unfolding merge_pass
merge_loop zero m rs = (m, rs)
merge_loop (suc fuel) m rs =
    let (m', rs') = merge_pass 0 (record m { changed = false }) rs in
    let rest = merge_loop fuel m' rs' in if m'.changed then rest else (m', rs')

-- The compaction: entries of length 0 are left out.
unfoldable pub compact : List MemRegion → List MemRegion
compact [] = []
compact (r ∷ rs) = if r.length == 0 then compact rs else r ∷ compact rs

pub data PmmReserveResult : Type 0 where
  reserve_success : PmmReserveResult
  no_more_region_slots : PmmReserveResult
  invalid_region_length : PmmReserveResult
  updated_existing_region : PmmReserveResult

abbrev pub mem_regions_max : ℕ
mem_regions_max = 256

-- The result code, the new table, and the entry whose frames `init` marks in the bitmap.
pub record Reservation : Type 0 where
  pub result : PmmReserveResult
  pub table : List MemRegion
  pub entry : Option MemRegion

-- What `pmm_reserve_range` does after the loop. The words are 32 bits wide again.
unfoldable pub place : ℕ → ℕ → Merge × List MemRegion → Reservation
unfolding compact
place base len (m, rs) = elim m.primary_idx [
  | some p ↦
      let primary = region (u32 m.merged_base) (u32 (m.merged_end - m.merged_base)) reserved in
      record {
        result = updated_existing_region;
        table = compact (set rs p primary);
        entry = some primary;
      }
  | none ↦
      if leb mem_regions_max (length rs)
      then record { result = no_more_region_slots; table = rs; entry = none }
      else record {
        result = reserve_success;
        table = rs ++ region base len reserved ∷ [];
        entry = some (region base len reserved);
      }
]

-- `pmm_reserve_range`, as far as it works on the table. `length + 2` rounds are enough.
unfoldable pub reserve_table : ℕ → ℕ → List MemRegion → Reservation
unfolding merge_loop place
reserve_table base len regions =
    if len == 0
    then record { result = invalid_region_length; table = regions; entry = none }
    else place base len
        (merge_loop (length regions + 2) (merge base (base + len) none false) regions)
