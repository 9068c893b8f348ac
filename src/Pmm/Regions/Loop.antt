-- ===== src/Pmm/Regions/Loop.antt =====
-- The merging loop of `pmm_reserve_range`: bounds, the index of the primary entry, coverage.
use unidos.Base.{
  ℕ, zero, suc, ◌+◌, ◌≤◌, ◌<◌, ◌≡◌, refl, false, ◌||◌, none, some, List, [], ◌∷◌, ◌++◌, arith,
  length, set, Bool-cases, inl, inr, Option-cases, ◌∙◌, ap,
}
use unidos.Pmm.Regions.{MemRegion, Merge, visit, merge_pass, merge_loop, compact}
use unidos.Pmm.Regions.Covers.{covered_by, covers, in_span, IsInside, PrimaryInside, restart}

-- Every region ends by `top`, the end of the physical address space.
abbrev pub AllBelow : ℕ → List MemRegion → Type 0
AllBelow top [] = Unit
AllBelow top (r ∷ rs) = (r.base + r.length ≤ top) × AllBelow top rs

module _ (top : ℕ) where
  visit-below :
      (i : ℕ) (m : Merge) (r : MemRegion)
      → m.merged_end ≤ top
      → r.base + r.length ≤ top
      → ((visit i m r).0.merged_end ≤ top) × ((visit i m r).1.base + (visit i m r).1.length ≤ top)
  unfolding visit
  visit-below i m r hm hr = ground arith

  merge_pass-below :
      (i : ℕ) (m : Merge) (rs : List MemRegion)
      → m.merged_end ≤ top
      → AllBelow top rs
      → ((merge_pass i m rs).0.merged_end ≤ top) × AllBelow top (merge_pass i m rs).1
  unfolding merge_pass
  merge_pass-below i m [] hm h = (hm, tt)
  merge_pass-below i m (r ∷ rs) hm h =
      let v = visit-below i m r hm h.0 in
      let rest = merge_pass-below (suc i) (visit i m r).0 rs v.0 h.1 in (rest.0, (v.1, rest.1))

  pub merge_loop-below :
      (fuel : ℕ) (m : Merge) (rs : List MemRegion)
      → m.merged_end ≤ top
      → AllBelow top rs
      → ((merge_loop fuel m rs).0.merged_end ≤ top) × AllBelow top (merge_loop fuel m rs).1
  unfolding merge_loop
  merge_loop-below zero m rs hm h = (hm, h)
  merge_loop-below (suc fuel) m rs hm h =
      let one = merge_pass-below 0 (restart m) rs hm h in
      elim (Bool-cases (merge_pass 0 (restart m) rs).0.changed) [
        | inl again ↦ rw again (
            merge_loop-below fuel (merge_pass 0 (restart m) rs).0 (merge_pass 0 (restart m) rs).1
              one.0 one.1)
        | inr done ↦ rw done one
      ]

pub covers-compact : (x : ℕ) (rs : List MemRegion) → covers x (compact rs) ≡ covers x rs
unfolding covers compact covered_by
covers-compact x [] = refl
covers-compact x (r ∷ rs) = ground (arith, covers-compact x rs)

pub covers-append :
    (x : ℕ) (rs : List MemRegion) (r : MemRegion)
    → covers x (rs ++ r ∷ []) ≡ (covers x rs || covered_by x r)
unfolding covers
covers-append x [] r = ground arith
covers-append x (q ∷ rs) r = ground (arith, covers-append x rs r)

-- The primary entry lies inside the span, so writing the whole span there loses nothing.
pub covers-set_primary :
    (x i p : ℕ) (m : Merge) (rs : List MemRegion) (q : MemRegion)
    → m.primary_idx ≡ some (i + p)
    → p < length rs
    → PrimaryInside i m rs
    → covered_by x q ≡ in_span x m
    → covers x (set rs p q) ≡ (covers x rs || in_span x m)
unfolding covers covered_by in_span
covers-set_primary x i p m [] q e lt h eq = elim lt [ ]
covers-set_primary x i zero m (r ∷ rs) q e lt h eq =
    let inside : IsInside m r = h.0 (ground arith) in ground arith
covers-set_primary x i (suc p) m (r ∷ rs) q e lt h eq =
    ground (arith, covers-set_primary x (suc i) p m rs q (ground arith) (omega arith) h.1 eq)

module _ (i : ℕ) (m : Merge) (r : MemRegion) where
  visit-index :
      (n : ℕ)
      → ((p : ℕ) → m.primary_idx ≡ some p → p < n)
      → i < n
      → (p : ℕ) → (visit i m r).0.primary_idx ≡ some p
      → p < n
  unfolding visit
  visit-index n old lt p e = ground (arith, old p)

  visit-none : (visit i m r).0.primary_idx ≡ none → visit i m r ≡ (m, r)
  unfolding visit
  visit-none e = ground arith

  visit-keeps : (p : ℕ) → m.primary_idx ≡ some p → (visit i m r).0.primary_idx ≡ some p
  unfolding visit
  visit-keeps p e = ground arith

merge_pass-keeps :
    (i : ℕ) (m : Merge) (rs : List MemRegion) (p : ℕ)
    → m.primary_idx ≡ some p
    → (merge_pass i m rs).0.primary_idx ≡ some p
unfolding merge_pass
merge_pass-keeps i m [] p e = e
merge_pass-keeps i m (r ∷ rs) p e =
    merge_pass-keeps (suc i) (visit i m r).0 rs p (visit-keeps i m r p e)

merge_loop-keeps :
    (fuel : ℕ) (m : Merge) (rs : List MemRegion) (p : ℕ)
    → m.primary_idx ≡ some p
    → (merge_loop fuel m rs).0.primary_idx ≡ some p
unfolding merge_loop
merge_loop-keeps zero m rs p e = e
merge_loop-keeps (suc fuel) m rs p e =
    let one = merge_pass-keeps 0 (restart m) rs p e in
    elim (Bool-cases (merge_pass 0 (restart m) rs).0.changed) [
      | inl again ↦ rw again (
          merge_loop-keeps fuel (merge_pass 0 (restart m) rs).0 (merge_pass 0 (restart m) rs).1 p
            one)
      | inr done ↦ rw done one
    ]

merge_pass-index :
    (i : ℕ) (m : Merge) (rs : List MemRegion) (n : ℕ)
    → ((p : ℕ) → m.primary_idx ≡ some p → p < n)
    → i + length rs ≤ n
    → ((p : ℕ) → (merge_pass i m rs).0.primary_idx ≡ some p → p < n)
      × (length (merge_pass i m rs).1 ≡ length rs)
unfolding merge_pass
merge_pass-index i m [] n old le = (old, refl)
merge_pass-index i m (r ∷ rs) n old le =
    let rest =
      merge_pass-index (suc i) (visit i m r).0 rs n (visit-index i m r n old (omega arith))
        (omega arith) in
    (rest.0, ap suc rest.1)

pub merge_loop-index :
    (fuel : ℕ) (m : Merge) (rs : List MemRegion) (n : ℕ)
    → ((p : ℕ) → m.primary_idx ≡ some p → p < n)
    → length rs ≡ n
    → ((p : ℕ) → (merge_loop fuel m rs).0.primary_idx ≡ some p → p < n)
      × (length (merge_loop fuel m rs).1 ≡ n)
unfolding merge_loop
merge_loop-index zero m rs n old e = (old, e)
merge_loop-index (suc fuel) m rs n old e =
    let one = merge_pass-index 0 (restart m) rs n old (omega arith) in
    elim (Bool-cases (merge_pass 0 (restart m) rs).0.changed) [
      | inl again ↦ rw again (
          merge_loop-index fuel (merge_pass 0 (restart m) rs).0 (merge_pass 0 (restart m) rs).1 n
            one.0 (one.1 ∙ e))
      | inr done ↦ rw done (one.0, one.1 ∙ e)
    ]

merge_pass-none :
    (i : ℕ) (m : Merge) (rs : List MemRegion)
    → (merge_pass i m rs).0.primary_idx ≡ none
    → merge_pass i m rs ≡ (m, rs)
unfolding merge_pass
merge_pass-none i m [] e = refl
merge_pass-none i m (r ∷ rs) e =
    let rest = merge_pass-none (suc i) (visit i m r).0 rs e in
    ground (arith, rest, visit-none i m r)

-- Without a candidate the loop has changed nothing.
pub merge_loop-none :
    (fuel : ℕ) (m : Merge) (rs : List MemRegion)
    → m.changed ≡ false
    → (merge_loop fuel m rs).0.primary_idx ≡ none
    → merge_loop fuel m rs ≡ (m, rs)
unfolding merge_loop
merge_loop-none zero m rs c e = refl
merge_loop-none (suc fuel) m rs c e = elim (Bool-cases (merge_pass 0 (restart m) rs).0.changed) [
  | inl again ↦ elim (Option-cases (merge_pass 0 (restart m) rs).0.primary_idx) [
    | inl empty ↦ absurd (ground (arith, merge_pass-none 0 (restart m) rs empty))
    | inr (p, found) ↦ absurd (
        ground (
          arith,
          merge_loop-keeps fuel (merge_pass 0 (restart m) rs).0 (merge_pass 0 (restart m) rs).1 p
              found,
        ))
  ]
  | inr done ↦ ground (arith, merge_pass-none 0 (restart m) rs, done)
]
