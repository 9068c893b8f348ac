-- ===== src/Vma/Areas.antt =====
-- Lists of areas that do not overlap, in the order of their addresses.
use unidos.Base.{
  ℕ, ◌≤◌, ◌<◌, ◌≡◌, refl, Bool, true, ◌&&◌, ◌||◌, leb, ltb, List, [], ◌∷◌, arith, none,
}
use unidos.Chain.{Runs, distinct, insert_while, remove}
use unidos.Chain.Order.{below, at_least, remove-at_least, at_least-insert_while}
use unidos.Vma.{Space, start_of, end_of, links_of}

-- Every area is not empty, and ends where the following ones have not begun.
unfoldable pub areas_ordered : (ℕ → ℕ) → (ℕ → ℕ) → List ℕ → Bool
areas_ordered start end [] = true
areas_ordered start end (v ∷ vs) =
    ltb (start v) (end v) && (at_least start (end v) vs && areas_ordered start end vs)

-- The interval `[a, b)` meets no area of the list.
unfoldable pub clear_of : (ℕ → ℕ) → (ℕ → ℕ) → ℕ → ℕ → List ℕ → Bool
clear_of start end a b [] = true
clear_of start end a b (v ∷ vs) = (leb (end v) a || leb b (start v)) && clear_of start end a b vs

-- The list of the space: its areas, each once, in the order of their addresses, and apart.
pub record HasAreas (m : Space) (vs : List ℕ) : Type 0 where
  pub linked : Runs (links_of m) m.vma_head vs none
  pub apart : distinct vs ≡ true
  pub inside : below m.vma_pool_count vs ≡ true
  pub ordered : areas_ordered (start_of m) (end_of m) vs ≡ true

module _ (start end : ℕ → ℕ) where
  at_least-weaken :
      (k j : ℕ) (vs : List ℕ) → j ≤ k → at_least start k vs ≡ true → at_least start j vs ≡ true
  unfolding at_least
  at_least-weaken k j [] le a = refl
  at_least-weaken k j (v ∷ vs) le a = ground (arith, at_least-weaken k j vs)

  clear_of-above :
      (a b k : ℕ) (vs : List ℕ)
      → areas_ordered start end vs ≡ true
      → clear_of start end a b vs ≡ true
      → a < b
      → at_least start a vs ≡ true
      → at_least start b vs ≡ true
  unfolding areas_ordered clear_of at_least
  clear_of-above a b k [] o c lt l = refl
  clear_of-above a b k (v ∷ vs) o c lt l = ground (arith, clear_of-above a b k vs)

  -- A new area goes behind those that start before it.
  pub areas_ordered-insert :
      (t : ℕ) (vs : List ℕ)
      → areas_ordered start end vs ≡ true
      → start t < end t
      → clear_of start end (start t) (end t) vs ≡ true
      → areas_ordered start end (insert_while (λ n. ltb (start n) (start t)) t vs) ≡ true
  unfolding areas_ordered clear_of insert_while at_least
  areas_ordered-insert t [] o lt c = ground arith
  areas_ordered-insert t (v ∷ vs) o lt c = ground (
    arith,
    areas_ordered-insert t vs,
    at_least-insert_while start (end v) t (λ n. ltb (start n) (start t)) vs,
    at_least-weaken (end v) (end t) vs,
  )

  pub areas_ordered-remove :
      (t : ℕ) (vs : List ℕ)
      → areas_ordered start end vs ≡ true
      → areas_ordered start end (remove t vs) ≡ true
  unfolding areas_ordered remove
  areas_ordered-remove t [] o = refl
  areas_ordered-remove t (v ∷ vs) o =
      ground (arith, areas_ordered-remove t vs, remove-at_least start (end v) t vs)
