-- ===== src/Vma/Find.antt =====
-- `vma_find`.
use unidos.Base.{
  ℕ, zero, suc, ◌≤◌, ◌≡◌, refl, true, false, if◌then◌else◌, inl, inr, ◌↔◌, Option, Option-cases,
  none, some, List, [], ◌∷◌, arith, length, sym, ◌∙◌,
}
use unidos.Chain.{Runs, member}
use unidos.Chain.Order.{at_least-member, length-below}
use unidos.Vma.{Space, start_of, end_of, links_of, contains, find_loop, vma_find}
use unidos.Vma.Areas.{HasAreas, areas_ordered}

-- The first area of the list that holds the address.
unfoldable pub first_with : Space → ℕ → List ℕ → Option ℕ
first_with m vaddr [] = none
first_with m vaddr (v ∷ vs) =
    let rest = first_with m vaddr vs in if contains m vaddr v then some v else rest

module _ (m : Space) (vaddr : ℕ) where
  find_loop-first :
      (fuel : ℕ) (current : Option ℕ) (vs : List ℕ)
      → Runs (links_of m) current vs none
      → length vs ≤ fuel
      → find_loop fuel m vaddr current ≡ first_with m vaddr vs
  unfolding Runs find_loop first_with
  find_loop-first zero current [] r le = refl
  find_loop-first zero current (v ∷ vs) r le = absurd (omega arith)
  find_loop-first (suc fuel) current [] r le = ground (arith, r)
  find_loop-first (suc fuel) current (v ∷ vs) (e, r) le =
      ground (arith, e, find_loop-first fuel (links_of m v) vs r)

  first_with-none :
      (v : ℕ) (vs : List ℕ)
      → first_with m vaddr vs ≡ none
      → member v vs ≡ true
      → contains m vaddr v ≡ false
  unfolding first_with member
  first_with-none v [] e here = absurd cc
  first_with-none v (u ∷ us) e here = ground (arith, first_with-none v us)

  first_with-holds :
      (v : ℕ) (vs : List ℕ)
      → first_with m vaddr vs ≡ some v
      → (member v vs ≡ true) × (contains m vaddr v ≡ true)
  unfolding first_with member
  first_with-holds v [] e = absurd cc
  first_with-holds v (u ∷ us) e = ground (arith, first_with-holds v us)

  first_with-only :
      (v : ℕ) (vs : List ℕ)
      → areas_ordered (start_of m) (end_of m) vs ≡ true
      → member v vs ≡ true
      → contains m vaddr v ≡ true
      → first_with m vaddr vs ≡ some v
  unfolding first_with member areas_ordered
  first_with-only v [] o here c = absurd cc
  first_with-only v (u ∷ us) o here c =
      ground (arith, first_with-only v us, at_least-member (start_of m) (end_of m u) v us)

  module _ (vs : List ℕ) (h : HasAreas m vs) where
    find-first : vma_find m vaddr ≡ first_with m vaddr vs
    unfolding vma_find
    find-first =
        find_loop-first m.vma_pool_count m.vma_head vs h.linked
          (length-below m.vma_pool_count vs h.apart h.inside)

    -- In a well-formed space `vma_find` answers the one area of the list that holds the address.
    pub find-contains :
        (v : ℕ)
        → ((vma_find m vaddr ≡ some v) ↔ ((member v vs ≡ true) × (contains m vaddr v ≡ true)))
    find-contains v = (
      λ e. first_with-holds v vs (sym find-first ∙ e),
      λ (here, c). find-first ∙ first_with-only v vs h.ordered here c,
    )

    -- In a well-formed space `vma_find` answers that there is no area exactly when no area of the
    -- list holds the address.
    pub find-none :
        (vma_find m vaddr ≡ none) ↔ ((v : ℕ) → member v vs ≡ true → contains m vaddr v ≡ false)
    find-none = (
      λ e v. first_with-none v vs (sym find-first ∙ e),
      λ out. elim (Option-cases (first_with m vaddr vs)) [
        | inl e ↦ find-first ∙ e
        | inr (v, e) ↦
            let (here, c) = first_with-holds v vs e in absurd (ground (arith, out v here, c))
      ],
    )
