-- ===== src/Pmm/Regions/Pairs.antt =====
-- Tables whose regions are pairwise apart, and what the loop and a new entry do to them.
use unidos.Base.{
  ℕ, zero, suc, ◌+◌, ◌<◌, ◌≡◌, Bool, true, false, not, ◌&&◌, none, some, List, [], ◌∷◌, ◌++◌, arith,
  ◌==◌, leb, set, Bool-cases, inl, inr, ◌⊎◌,
}
use unidos.Pmm.Regions.{
  MemRegion, is_reserved, Merge, can_merge, visit, merge_pass, merge_loop, compact,
}
use unidos.Pmm.Regions.Covers.{restart}
use unidos.Pmm.Regions.Settles.{Settled, merge_pass-keeps_changed, visit-quiet}

-- Two live reserved regions that overlap or are adjacent.
unfoldable pub touching : MemRegion → MemRegion → Bool
touching r q =
    (is_reserved r.type && not (r.length == 0))
    && ((is_reserved q.type && not (q.length == 0))
        && (leb r.base (q.base + q.length) && leb q.base (r.base + r.length)))

abbrev pub ApartFrom : MemRegion → List MemRegion → Type 0
ApartFrom r [] = Unit
ApartFrom r (q ∷ qs) = (touching r q ≡ false) × ApartFrom r qs

abbrev pub PairwiseApart : List MemRegion → Type 0
PairwiseApart [] = Unit
PairwiseApart (r ∷ rs) = ApartFrom r rs × PairwiseApart rs

-- An entry is the one of before, or has been emptied.
Thinned : MemRegion → MemRegion → Type 0
Thinned r r' = (r' ≡ r) ⊎ (r'.length ≡ 0)

AllThinned : List MemRegion → List MemRegion → Type 0
AllThinned [] [] = Unit
AllThinned (r ∷ rs) (r' ∷ rs') = Thinned r r' × AllThinned rs rs'
AllThinned _ _ = ⊥

visit-Thinned : (i : ℕ) (m : Merge) (r : MemRegion) → Thinned r (visit i m r).1
unfolding visit Thinned
visit-Thinned i m r = ground arith

merge_pass-AllThinned :
    (i : ℕ) (m : Merge) (rs : List MemRegion) → AllThinned rs (merge_pass i m rs).1
unfolding merge_pass AllThinned
merge_pass-AllThinned i m [] = tt
merge_pass-AllThinned i m (r ∷ rs) =
    (visit-Thinned i m r, merge_pass-AllThinned (suc i) (visit i m r).0 rs)

touching-Thinned :
    (r q r' q' : MemRegion)
    → Thinned r r'
    → Thinned q q'
    → touching r q ≡ false
    → touching r' q' ≡ false
unfolding touching Thinned
touching-Thinned r q r' q' a b e = ground arith

ApartFrom-Thinned :
    (r r' : MemRegion) (qs qs' : List MemRegion)
    → Thinned r r'
    → AllThinned qs qs'
    → ApartFrom r qs
    → ApartFrom r' qs'
unfolding AllThinned
ApartFrom-Thinned r r' [] [] a t h = tt
ApartFrom-Thinned r r' [] (q' ∷ qs') a t h = absurd t
ApartFrom-Thinned r r' (q ∷ qs) [] a t h = absurd t
ApartFrom-Thinned r r' (q ∷ qs) (q' ∷ qs') a t h =
    (touching-Thinned r q r' q' a t.0 h.0, ApartFrom-Thinned r r' qs qs' a t.1 h.1)

PairwiseApart-Thinned :
    (rs rs' : List MemRegion) → AllThinned rs rs' → PairwiseApart rs → PairwiseApart rs'
unfolding AllThinned
PairwiseApart-Thinned [] [] t h = tt
PairwiseApart-Thinned [] (r' ∷ rs') t h = absurd t
PairwiseApart-Thinned (r ∷ rs) [] t h = absurd t
PairwiseApart-Thinned (r ∷ rs) (r' ∷ rs') t h =
    (ApartFrom-Thinned r r' rs rs' t.0 t.1 h.0, PairwiseApart-Thinned rs rs' t.1 h.1)

pub merge_loop-PairwiseApart :
    (fuel : ℕ) (m : Merge) (rs : List MemRegion)
    → PairwiseApart rs
    → PairwiseApart (merge_loop fuel m rs).1
unfolding merge_loop
merge_loop-PairwiseApart zero m rs h = h
merge_loop-PairwiseApart (suc fuel) m rs h =
    let one =
      PairwiseApart-Thinned rs (merge_pass 0 (restart m) rs).1
        (merge_pass-AllThinned 0 (restart m) rs) h in
    elim (Bool-cases (merge_pass 0 (restart m) rs).0.changed) [
      | inl again ↦ rw again (
          merge_loop-PairwiseApart fuel (merge_pass 0 (restart m) rs).0
            (merge_pass 0 (restart m) rs).1 one)
      | inr done ↦ rw done one
    ]

-- Once a round changes nothing, only the primary entry can still be merged.
abbrev pub Quiet : ℕ → Merge → List MemRegion → Type 0
Quiet i m [] = Unit
Quiet i m (r ∷ rs) = ((can_merge m r ≡ true) → m.primary_idx ≡ some i) × Quiet (suc i) m rs

visit-Quiet :
    (i : ℕ) (m : Merge) (r : MemRegion)
    → visit i m r ≡ (m, r)
    → m.changed ≡ false
    → can_merge m r ≡ true
    → m.primary_idx ≡ some i
unfolding visit
visit-Quiet i m r e c h = ground arith

touching-span :
    (m : Merge) (r q : MemRegion)
    → q.base ≡ m.merged_base
    → q.base + q.length ≡ m.merged_end
    → can_merge m r ≡ false
    → (touching q r ≡ false) × (touching r q ≡ false)
unfolding touching can_merge
touching-span m r q b l e = ground arith

ApartFrom-compact :
    (r : MemRegion) (qs : List MemRegion) → ApartFrom r qs → ApartFrom r (compact qs)
unfolding compact
ApartFrom-compact r [] h = tt
ApartFrom-compact r (q ∷ qs) h = elim (Bool-cases (q.length == 0)) [
  | inl gone ↦ rw gone (ApartFrom-compact r qs h.1)
  | inr stays ↦ rw stays (h.0, ApartFrom-compact r qs h.1)
]

pub PairwiseApart-compact : (rs : List MemRegion) → PairwiseApart rs → PairwiseApart (compact rs)
unfolding compact
PairwiseApart-compact [] h = tt
PairwiseApart-compact (r ∷ rs) h = elim (Bool-cases (r.length == 0)) [
  | inl gone ↦ rw gone (PairwiseApart-compact rs h.1)
  | inr stays ↦ rw stays (ApartFrom-compact r rs h.0, PairwiseApart-compact rs h.1)
]

Quiet-of_pass :
    (i : ℕ) (m : Merge) (rs : List MemRegion)
    → m.changed ≡ false
    → (merge_pass i m rs).0.changed ≡ false
    → Quiet i m rs
unfolding merge_pass
Quiet-of_pass i m [] c e = tt
Quiet-of_pass i m (r ∷ rs) c e = elim (Bool-cases (visit i m r).0.changed) [
  | inl here ↦ absurd (ground (arith, merge_pass-keeps_changed (suc i) (visit i m r).0 rs here))
  | inr later ↦
      let alone = visit-quiet i m r later in
      (visit-Quiet i m r alone c, Quiet-of_pass (suc i) m rs c (rw alone at e))
]

pub Quiet-of_Settled : (m : Merge) (rs : List MemRegion) → Settled (m, rs) → Quiet 0 m rs
unfolding Settled
Quiet-of_Settled m rs s = Quiet-of_pass 0 m rs s.0 (ground (arith, s.1))

-- `q` is the span of `m`, written over entry `p`, the primary one, or put at the end.
module _ (m : Merge) (q : MemRegion) (b : q.base ≡ m.merged_base)
    (l : q.base + q.length ≡ m.merged_end) where
  ApartFrom-Quiet :
      (i : ℕ) (rs : List MemRegion)
      → ((p : ℕ) → m.primary_idx ≡ some p → p < i)
      → Quiet i m rs
      → ApartFrom q rs
  ApartFrom-Quiet i [] before h = tt
  ApartFrom-Quiet i (r ∷ rs) before h = elim (Bool-cases (can_merge m r)) [
    | inl still ↦ absurd (omega (arith, before i (h.0 still)))
    | inr apart ↦ (
      (touching-span m r q b l apart).0,
      ApartFrom-Quiet (suc i) rs (λ p e. omega (arith, before p e)) h.1,
    )
  ]

  ApartFrom-set :
      (r : MemRegion) (rs : List MemRegion) (p : ℕ)
      → touching r q ≡ false
      → ApartFrom r rs
      → ApartFrom r (set rs p q)
  ApartFrom-set r [] p e h = tt
  ApartFrom-set r (s ∷ rs) zero e h = (e, h.1)
  ApartFrom-set r (s ∷ rs) (suc p) e h = (h.0, ApartFrom-set r rs p e h.1)

  pub PairwiseApart-set :
      (i p : ℕ) (rs : List MemRegion)
      → m.primary_idx ≡ some (i + p)
      → Quiet i m rs
      → PairwiseApart rs
      → PairwiseApart (set rs p q)
  PairwiseApart-set i p [] e h a = tt
  PairwiseApart-set i zero (r ∷ rs) e h a =
      (ApartFrom-Quiet (suc i) rs (λ p f. ground arith) h.1, a.1)
  PairwiseApart-set i (suc p) (r ∷ rs) e h a = elim (Bool-cases (can_merge m r)) [
    | inl still ↦ absurd (ground (arith, h.0 still))
    | inr apart ↦ (
      ApartFrom-set r rs p (touching-span m r q b l apart).1 a.0,
      PairwiseApart-set (suc i) p rs (ground arith) h.1 a.1,
    )
  ]

  ApartFrom-append :
      (r : MemRegion) (rs : List MemRegion)
      → touching r q ≡ false
      → ApartFrom r rs
      → ApartFrom r (rs ++ q ∷ [])
  ApartFrom-append r [] e h = (e, tt)
  ApartFrom-append r (s ∷ rs) e h = (h.0, ApartFrom-append r rs e h.1)

  pub PairwiseApart-append :
      (i : ℕ) (rs : List MemRegion)
      → m.primary_idx ≡ none
      → Quiet i m rs
      → PairwiseApart rs
      → PairwiseApart (rs ++ q ∷ [])
  PairwiseApart-append i [] e h a = (tt, tt)
  PairwiseApart-append i (r ∷ rs) e h a = elim (Bool-cases (can_merge m r)) [
    | inl still ↦ absurd (ground (arith, h.0 still))
    | inr apart ↦ (
      ApartFrom-append r rs (touching-span m r q b l apart).1 a.0,
      PairwiseApart-append (suc i) rs e h.1 a.1,
    )
  ]
