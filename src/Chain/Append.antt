-- ===== src/Chain/Append.antt =====
-- One more node behind the last one of a linked list.
use unidos.Base.{
  ℕ, ◌≡◌, ◌≢◌, refl, arith, true, false, ◌||◌, ◌==◌, Option, none, some, List, [], ◌∷◌, ◌++◌,
}
use unidos.Chain.{Links, Runs, member, distinct}

-- The last entry of a list.
unfoldable pub last : List ℕ → Option ℕ
last [] = none
last (d ∷ []) = some d
last (d ∷ e ∷ ds) = last (e ∷ ds)

pub last-member : (t : ℕ) (ds : List ℕ) → last ds ≡ some t → member t ds ≡ true
unfolding last member
last-member t [] e = absurd cc
last-member t (d ∷ []) e = ground arith
last-member t (d ∷ e ∷ ds) l = ground (arith, last-member t (e ∷ ds) l)

pub last-some : (d : ℕ) (ds : List ℕ) → last (d ∷ ds) ≢ none
unfolding last
last-some d [] = λ e. cc
last-some d (e ∷ ds) = last-some e ds

pub last-append : (c : ℕ) (ds : List ℕ) → last (ds ++ c ∷ []) ≡ some c
unfolding last
last-append c [] = refl
last-append c (d ∷ []) = refl
last-append c (d ∷ e ∷ ds) = last-append c (e ∷ ds)

-- A list gets one more entry behind its last.
module _ (next next' : Links) (t c : ℕ) (from : next' t ≡ some c) (end : next' c ≡ none) where
  pub extend-Runs :
      (a : Option ℕ) (ds : List ℕ)
      → last ds ≡ some t
      → distinct ds ≡ true
      → ((i : ℕ) → member i ds ≡ true → (i == t) ≡ false → next' i ≡ next i)
      → Runs next a ds none
      → Runs next' a (ds ++ c ∷ []) none
  unfolding last member distinct Runs
  extend-Runs a [] l u same r = absurd cc
  extend-Runs a (d ∷ []) l u same (e, r) =
      let here : d ≡ t = ground arith in (e, (rw here from, end))
  extend-Runs a (d ∷ x ∷ ds) l u same (e, r) =
      let other : (d == t) ≡ false = ground (arith, last-member t (x ∷ ds) l) in
      (
        e,
        rw (same d (ground arith) other)
            (extend-Runs (next d) (x ∷ ds) l (ground arith) (λ i m q. same i (ground arith) q) r),
      )

pub append-member : (i c : ℕ) (ds : List ℕ) → member i (ds ++ c ∷ []) ≡ (member i ds || c == i)
unfolding member
append-member i c [] = ground arith
append-member i c (d ∷ ds) = ground (arith, append-member i c ds)

pub append-distinct :
    (c : ℕ) (ds : List ℕ)
    → member c ds ≡ false
    → distinct ds ≡ true
    → distinct (ds ++ c ∷ []) ≡ true
unfolding distinct member
append-distinct c [] out u = refl
append-distinct c (d ∷ ds) out u = ground (arith, append-distinct c ds, append-member d c ds)
