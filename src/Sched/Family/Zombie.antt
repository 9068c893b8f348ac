-- ===== src/Sched/Family/Zombie.antt =====
-- `proc_find_zombie_child`.
use unidos.Base.{
  ℕ, zero, suc, ◌≤◌, ◌≡◌, refl, ◌∙◌, true, false, if◌then◌else◌, inl, inr, ◌⊎◌, Option,
  Option-cases, none, some, List, [], ◌∷◌, arith, length,
}
use unidos.Chain.{member, Runs}
use unidos.Chain.Order.{length-below}
use unidos.Sched.{Sched}
use unidos.Sched.Family.{
  sibling_links, children_of, is_reapable, zombie_loop, proc_find_zombie_child,
}
use unidos.Sched.Family.Children.{HasChildren}

unfoldable first_reapable : Sched → ℕ → List ℕ → Option ℕ
first_reapable s pid [] = none
first_reapable s pid (c ∷ cs) =
    let rest = first_reapable s pid cs in if is_reapable s pid c then some c else rest

module _ (s : Sched) (pid : ℕ) where
  zombie_loop-first :
      (fuel : ℕ) (child : Option ℕ) (cs : List ℕ)
      → Runs (sibling_links s) child cs none
      → length cs ≤ fuel
      → zombie_loop fuel s pid child ≡ first_reapable s pid cs
  unfolding Runs zombie_loop first_reapable
  zombie_loop-first zero child [] r le = refl
  zombie_loop-first zero child (c ∷ cs) r le = absurd (omega arith)
  zombie_loop-first (suc fuel) child [] r le = ground (arith, r)
  zombie_loop-first (suc fuel) child (c ∷ cs) (e, r) le =
      ground (arith, e, zombie_loop-first fuel (sibling_links s c) cs r)

  first_reapable-none :
      (c : ℕ) (cs : List ℕ)
      → first_reapable s pid cs ≡ none
      → member c cs ≡ true
      → is_reapable s pid c ≡ false
  unfolding first_reapable member
  first_reapable-none c [] e here = absurd cc
  first_reapable-none c (d ∷ ds) e here = ground (arith, first_reapable-none c ds)

  first_reapable-some :
      (c : ℕ) (cs : List ℕ)
      → first_reapable s pid cs ≡ some c
      → (member c cs ≡ true) × (is_reapable s pid c ≡ true)
  unfolding first_reapable member
  first_reapable-some c [] e = absurd cc
  first_reapable-some c (d ∷ ds) e = ground (arith, first_reapable-some c ds)

-- On a well-formed list of children `proc_find_zombie_child` answers a child that is a zombie and
-- has the process number, or any for -1; or there is no such child.
pub find_zombie_child-finds :
    (s : Sched) (p pid : ℕ) (cs : List ℕ)
    → HasChildren s p cs
    → let o = proc_find_zombie_child p pid s in
      ((o ≡ none) × ((c : ℕ) → member c cs ≡ true → is_reapable s pid c ≡ false))
      ⊎ ((c : ℕ) × (o ≡ some c) × (member c cs ≡ true) × (is_reapable s pid c ≡ true))
unfolding proc_find_zombie_child
find_zombie_child-finds s p pid cs w =
    let short = length-below s.process_pool_count cs w.apart w.inside in
    let loop = zombie_loop-first s pid s.process_pool_count (children_of s p) cs w.linked short in
    elim (Option-cases (first_reapable s pid cs)) [
      | inl e ↦ inl (loop ∙ e, λ c. first_reapable-none s pid c cs e)
      | inr (c, e) ↦
          let (here, fits) = first_reapable-some s pid c cs e in inr (c, loop ∙ e, here, fits)
    ]
