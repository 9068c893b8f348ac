-- ===== src/Pmm/Regions/Covers.antt =====
-- Which addresses the reserved regions cover, and that merging covers no more and no less.
use unidos.Base.{
  ℕ, zero, suc, ◌+◌, ◌≤◌, ◌<◌, ◌≡◌, ◌≢◌, refl, Bool, true, false, ◌&&◌, ◌||◌, some, List, [], ◌∷◌,
  arith, ltb, leb, Bool-cases, inl, inr, ◌∙◌,
}
use unidos.Pmm.Regions.{MemRegion, is_reserved, Merge, visit, merge_pass, merge_loop}

unfoldable pub covered_by : ℕ → MemRegion → Bool
covered_by x r = is_reserved r.type && (leb r.base x && ltb x (r.base + r.length))

unfoldable pub covers : ℕ → List MemRegion → Bool
covers x [] = false
covers x (r ∷ rs) = covered_by x r || covers x rs

unfoldable pub in_span : ℕ → Merge → Bool
in_span x m = leb m.merged_base x && ltb x m.merged_end

-- A live reserved entry inside the span.
pub record IsInside (m : Merge) (r : MemRegion) : Type 0 where
  pub kind : is_reserved r.type ≡ true
  pub live : 0 < r.length
  pub above : m.merged_base ≤ r.base
  pub below : r.base + r.length ≤ m.merged_end

-- The span has grown from `m` to `m'`.
pub record Grows (m m' : Merge) : Type 0 where
  pub base_le : m'.merged_base ≤ m.merged_base
  pub end_le : m.merged_end ≤ m'.merged_end

module _ (i : ℕ) (m : Merge) (r : MemRegion) where
  visit-covers :
      (x : ℕ)
      → m.merged_base ≤ m.merged_end
      → (covered_by x (visit i m r).1 || in_span x (visit i m r).0)
        ≡ (covered_by x r || in_span x m)
  unfolding visit covered_by in_span
  visit-covers x ordered = ground arith

  visit-Grows : Grows m (visit i m r).0
  unfolding visit
  visit-Grows = ground arith

  -- Entry `i`, if it is the primary one, is left alone and lies inside.
  visit-IsInside :
      ((m.primary_idx ≡ some i) → IsInside m r)
      → (visit i m r).0.primary_idx ≡ some i
      → IsInside (visit i m r).0 (visit i m r).1
  unfolding visit
  visit-IsInside old now = ground (arith, old)

  -- The primary entry is chosen once, and only at the entry that is visited.
  visit-primary : (j : ℕ) → j ≢ i → (visit i m r).0.primary_idx ≡ some j → m.primary_idx ≡ some j
  unfolding visit
  visit-primary j other e = ground arith

  visit-ordered :
      m.merged_base ≤ m.merged_end → (visit i m r).0.merged_base ≤ (visit i m r).0.merged_end
  visit-ordered h = ground (arith, visit-Grows)

Grows-trans : {a b c : Merge} → Grows a b → Grows b c → Grows a c
Grows-trans p q = ground arith

IsInside-Grows : {m m' : Merge} {r : MemRegion} → Grows m m' → IsInside m r → IsInside m' r
IsInside-Grows g h = ground arith

pub merge_pass-Grows : (i : ℕ) (m : Merge) (rs : List MemRegion) → Grows m (merge_pass i m rs).0
unfolding merge_pass
merge_pass-Grows i m [] = omega arith
merge_pass-Grows i m (r ∷ rs) =
    Grows-trans (visit-Grows i m r) (merge_pass-Grows (suc i) (visit i m r).0 rs)

pub merge_pass-covers :
    (i : ℕ) (m : Merge) (rs : List MemRegion) (x : ℕ)
    → m.merged_base ≤ m.merged_end
    → (covers x (merge_pass i m rs).1 || in_span x (merge_pass i m rs).0)
      ≡ (covers x rs || in_span x m)
unfolding merge_pass covers
merge_pass-covers i m [] x h = refl
merge_pass-covers i m (r ∷ rs) x h = ground (
  arith,
  visit-covers i m r x,
  merge_pass-covers (suc i) (visit i m r).0 rs x (visit-ordered i m r h),
)

merge_pass-primary :
    (i j : ℕ) (m : Merge) (rs : List MemRegion)
    → j < i
    → (merge_pass i m rs).0.primary_idx ≡ some j
    → m.primary_idx ≡ some j
unfolding merge_pass
merge_pass-primary i j m [] lt e = e
merge_pass-primary i j m (r ∷ rs) lt e =
    visit-primary i m r j (omega arith)
      (merge_pass-primary (suc i) j (visit i m r).0 rs (omega arith) e)

-- The primary entry, if it is among those from index `i` on, lies inside the span.
abbrev pub PrimaryInside : ℕ → Merge → List MemRegion → Type 0
PrimaryInside i m [] = Unit
PrimaryInside i m (r ∷ rs) = ((m.primary_idx ≡ some i) → IsInside m r) × PrimaryInside (suc i) m rs

pub PrimaryInside-mono :
    (i : ℕ) {m m' : Merge} (rs : List MemRegion)
    → Grows m m'
    → ((j : ℕ) → i ≤ j → m'.primary_idx ≡ some j → m.primary_idx ≡ some j)
    → PrimaryInside i m rs
    → PrimaryInside i m' rs
PrimaryInside-mono i [] g same h = tt
PrimaryInside-mono i (r ∷ rs) g same h = (
  λ e. IsInside-Grows g (h.0 (same i (omega arith) e)),
  PrimaryInside-mono (suc i) rs g (λ j le. same j (omega arith)) h.1,
)

pub PrimaryInside-visit :
    (i : ℕ) (m : Merge) (r : MemRegion) (rs : List MemRegion)
    → PrimaryInside (suc i) m rs
    → PrimaryInside (suc i) (visit i m r).0 rs
PrimaryInside-visit i m r rs =
    PrimaryInside-mono (suc i) rs (visit-Grows i m r) (λ j le. visit-primary i m r j (omega arith))

pub merge_pass-PrimaryInside :
    (i : ℕ) (m : Merge) (rs : List MemRegion)
    → PrimaryInside i m rs
    → PrimaryInside i (merge_pass i m rs).0 (merge_pass i m rs).1
unfolding merge_pass
merge_pass-PrimaryInside i m [] h = tt
merge_pass-PrimaryInside i m (r ∷ rs) h = (
  λ e.
      IsInside-Grows (merge_pass-Grows (suc i) (visit i m r).0 rs) (
        visit-IsInside i m r h.0 (merge_pass-primary (suc i) i (visit i m r).0 rs (omega arith) e)),
  merge_pass-PrimaryInside (suc i) (visit i m r).0 rs (PrimaryInside-visit i m r rs h.1),
)

-- `changed = false` at the start of a round.
abbrev pub restart : Merge → Merge
restart m = record m { changed = false }

pub PrimaryInside-restart :
    (m : Merge) (rs : List MemRegion) → PrimaryInside 0 m rs → PrimaryInside 0 (restart m) rs
PrimaryInside-restart m rs = PrimaryInside-mono 0 rs (omega arith) (λ j le e. e)

-- What every round keeps, and so the whole loop: the addresses covered, the span's growth, and that
-- the primary entry is inside.
pub record Merged (m : Merge) (rs : List MemRegion) (m' : Merge) (rs' : List MemRegion)
    : Type 0 where
  pub grows : Grows m m'
  pub inside : PrimaryInside 0 m' rs'
  pub covered : (x : ℕ) → (covers x rs' || in_span x m') ≡ (covers x rs || in_span x m)

pub merge_pass-Merged :
    (m : Merge) (rs : List MemRegion)
    → m.merged_base ≤ m.merged_end
    → PrimaryInside 0 m rs
    → Merged m rs (merge_pass 0 (restart m) rs).0 (merge_pass 0 (restart m) rs).1
unfolding in_span
merge_pass-Merged m rs ordered h = record {
  grows = Grows-trans {b = restart m} (omega arith) (merge_pass-Grows 0 (restart m) rs);
  inside = merge_pass-PrimaryInside 0 (restart m) rs (PrimaryInside-restart m rs h);
  covered = λ x. merge_pass-covers 0 (restart m) rs x ordered;
}

Merged-trans :
    {a b c : Merge} {xs ys zs : List MemRegion}
    → Merged a xs b ys
    → Merged b ys c zs
    → Merged a xs c zs
Merged-trans p q = record {
  grows = Grows-trans p.grows q.grows;
  inside = q.inside;
  covered = λ x. q.covered x ∙ p.covered x;
}

pub merge_loop-Merged :
    (fuel : ℕ) (m : Merge) (rs : List MemRegion)
    → m.merged_base ≤ m.merged_end
    → PrimaryInside 0 m rs
    → Merged m rs (merge_loop fuel m rs).0 (merge_loop fuel m rs).1
unfolding merge_loop
merge_loop-Merged zero m rs ordered h = record {
  grows = omega arith;
  inside = h;
  covered = λ x. refl;
}
merge_loop-Merged (suc fuel) m rs ordered h =
    let one = merge_pass-Merged m rs ordered h in
    elim (Bool-cases (merge_pass 0 (restart m) rs).0.changed) [
      | inl again ↦ rw again (
          Merged-trans one (
            merge_loop-Merged fuel (merge_pass 0 (restart m) rs).0 (merge_pass 0 (restart m) rs).1
              (omega (arith, one.grows)) one.inside))
      | inr done ↦ rw done one
    ]
