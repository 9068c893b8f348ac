-- ===== src/Pmm/Regions/Settles.antt =====
-- The merging loop of `pmm_reserve_range` ends: each round that changes something finds the primary
-- entry or removes a live one.
use unidos.Base.{
  ℕ, zero, suc, ◌+◌, ◌≤◌, ◌<◌, ◌≡◌, refl, true, false, not, ◌&&◌, none, some, List, [], ◌∷◌, arith,
  ◌==◌, if◌then◌else◌, length, Bool-cases, inl, inr,
}
use unidos.Pmm.Regions.{MemRegion, is_reserved, Merge, visit, merge_pass, merge_loop}
use unidos.Pmm.Regions.Covers.{
  restart, merge_pass-Merged, IsInside, PrimaryInside, PrimaryInside-restart, PrimaryInside-visit,
}

live : MemRegion → ℕ
live r = if is_reserved r.type && not (r.length == 0) then 1 else 0

live_count : List MemRegion → ℕ
live_count [] = 0
live_count (r ∷ rs) = live r + live_count rs

live_count-le : (rs : List MemRegion) → live_count rs ≤ length rs
unfolding live_count live
live_count-le [] = omega arith
live_count-le (r ∷ rs) = ground (arith, live_count-le rs)

to_find : Merge → ℕ
to_find m = elim m.primary_idx [ none ↦ 1 | some _ ↦ 0 ]

module _ (i : ℕ) (m : Merge) (r : MemRegion) where
  visit-le : live (visit i m r).1 + to_find (visit i m r).0 ≤ live r + to_find m
  unfolding visit live to_find
  visit-le = ground arith

  visit-lt :
      (m.primary_idx ≡ some i → IsInside m r)
      → m.changed ≡ false
      → (visit i m r).0.changed ≡ true
      → live (visit i m r).1 + to_find (visit i m r).0 < live r + to_find m
  unfolding visit live to_find
  visit-lt inside old now = ground (arith, inside)

  pub visit-quiet : (visit i m r).0.changed ≡ false → visit i m r ≡ (m, r)
  unfolding visit
  visit-quiet e = ground arith

  visit-keeps_changed : m.changed ≡ true → (visit i m r).0.changed ≡ true
  unfolding visit
  visit-keeps_changed e = ground arith

pub merge_pass-keeps_changed :
    (i : ℕ) (m : Merge) (rs : List MemRegion)
    → m.changed ≡ true
    → (merge_pass i m rs).0.changed ≡ true
unfolding merge_pass
merge_pass-keeps_changed i m [] e = e
merge_pass-keeps_changed i m (r ∷ rs) e =
    merge_pass-keeps_changed (suc i) (visit i m r).0 rs (visit-keeps_changed i m r e)

measure : Merge × List MemRegion → ℕ
measure (m, rs) = live_count rs + to_find m

merge_pass-le :
    (i : ℕ) (m : Merge) (rs : List MemRegion) → measure (merge_pass i m rs) ≤ measure (m, rs)
unfolding merge_pass measure live_count
merge_pass-le i m [] = omega arith
merge_pass-le i m (r ∷ rs) = omega (arith, visit-le i m r, merge_pass-le (suc i) (visit i m r).0 rs)

merge_pass-lt :
    (i : ℕ) (m : Merge) (rs : List MemRegion)
    → PrimaryInside i m rs
    → m.changed ≡ false
    → (merge_pass i m rs).0.changed ≡ true
    → measure (merge_pass i m rs) < measure (m, rs)
unfolding merge_pass measure live_count
merge_pass-lt i m [] h old now = ground arith
merge_pass-lt i m (r ∷ rs) h old now = elim (Bool-cases (visit i m r).0.changed) [
  | inl here ↦ omega (arith, visit-lt i m r h.0 old here, merge_pass-le (suc i) (visit i m r).0 rs)
  | inr later ↦ omega (
    arith,
    visit-le i m r,
    merge_pass-lt (suc i) (visit i m r).0 rs (PrimaryInside-visit i m r rs h.1) later now,
  )
]

merge_pass-quiet :
    (i : ℕ) (m : Merge) (rs : List MemRegion)
    → (merge_pass i m rs).0.changed ≡ false
    → merge_pass i m rs ≡ (m, rs)
unfolding merge_pass
merge_pass-quiet i m [] e = refl
merge_pass-quiet i m (r ∷ rs) e = elim (Bool-cases (visit i m r).0.changed) [
  | inl here ↦ absurd (ground (arith, merge_pass-keeps_changed (suc i) (visit i m r).0 rs here))
  | inr later ↦
      ground (arith, visit-quiet i m r later, merge_pass-quiet (suc i) (visit i m r).0 rs e)
]

unfoldable pub Settled : Merge × List MemRegion → Type 0
Settled (m, rs) = (m.changed ≡ false) × (merge_pass 0 m rs ≡ (m, rs))

merge_loop-Settled_of :
    (fuel : ℕ) (m : Merge) (rs : List MemRegion)
    → m.merged_base ≤ m.merged_end
    → PrimaryInside 0 m rs
    → measure (m, rs) < fuel
    → Settled (merge_loop fuel m rs)
unfolding merge_loop measure Settled to_find
merge_loop-Settled_of zero m rs o h lt = elim lt [ ]
merge_loop-Settled_of (suc fuel) m rs o h lt =
    let one = merge_pass-Merged m rs o h in
    let start = PrimaryInside-restart m rs h in
    elim (Bool-cases (merge_pass 0 (restart m) rs).0.changed) [
      | inl again ↦ rw again (
          merge_loop-Settled_of fuel (merge_pass 0 (restart m) rs).0 (merge_pass 0 (restart m) rs).1
            (omega (arith, one.grows)) one.inside
            (omega (arith, merge_pass-lt 0 (restart m) rs start refl again)))
      | inr done ↦
          let quiet = merge_pass-quiet 0 (restart m) rs done in rw (done, quiet, quiet) (refl, refl)
    ]

live_count-start : (m : Merge) (rs : List MemRegion) → measure (m, rs) < length rs + 2
unfolding measure to_find
live_count-start m rs = ground (arith, live_count-le rs)

-- As many rounds as the table has entries, and two more, are enough: the last round changes
-- nothing.
pub merge_loop-Settled :
    (m : Merge) (rs : List MemRegion)
    → m.merged_base ≤ m.merged_end
    → PrimaryInside 0 m rs
    → Settled (merge_loop (length rs + 2) m rs)
merge_loop-Settled m rs o h = merge_loop-Settled_of (length rs + 2) m rs o h (live_count-start m rs)
