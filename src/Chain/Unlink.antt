-- ===== src/Chain/Unlink.antt =====
-- A node is taken out of a linked list.
use unidos.Base.{
  ℕ, zero, suc, ◌≤◌, ◌≡◌, ◌≢◌, refl, true, false, not, ◌==◌, inl, inr, none, some, List, [], ◌∷◌,
  arith, Bool-cases, length,
}
use unidos.Chain.{
  Links, link, member, distinct, Runs, advance, points, cut_from, unlink_from, remove, link-value,
  link-at, link-Runs, member-differs,
}
use unidos.Chain.Insert.{advance-member, advance-stops, advance-last}
use unidos.Chain.Order.{remove-member}

module _ (next : Links) where
  cut-here :
      (x t : ℕ) (xs : List ℕ)
      → next x ≡ some t
      → Runs next (next t) xs none
      → distinct (x ∷ t ∷ xs) ≡ true
      → let next' = link x (next t) next in Runs next' (next' x) xs none
  unfolding Runs member distinct
  cut-here x t xs e r d =
      rw (link-at x (next t) next) (link-Runs next x (next t) (next t) xs none (ground arith) r)

  cut_from-last : (fuel x t : ℕ) → next x ≡ none → cut_from fuel x t next ≡ next
  unfolding cut_from
  cut_from-last fuel x t e = rw (advance-last next (λ n. not (n == t)) fuel x e, e) refl

  cut_from-found :
      (fuel x t : ℕ) → next x ≡ some t → cut_from (suc fuel) x t next ≡ link x (next t) next
  unfolding cut_from
  cut_from-found fuel x t e = ground (arith, advance-stops next (λ n. not (n == t)) fuel x t e, e)

  cut_from-later :
      (fuel x t y : ℕ)
      → next x ≡ some y
      → (y == t) ≡ false
      → cut_from (suc fuel) x t next ≡ cut_from fuel y t next
  unfolding cut_from
  cut_from-later fuel x t y e c = rw (advance-stops next (λ n. not (n == t)) fuel x y e, c) refl

  cut_from-head :
      (fuel x t y : ℕ) (ys : List ℕ)
      → next x ≡ some y
      → Runs next (next y) ys none
      → distinct (x ∷ y ∷ ys) ≡ true
      → x ≢ t
      → y ≢ t
      → cut_from fuel y t next x ≡ some y
  unfolding cut_from member distinct
  cut_from-head fuel x t y ys e r d dx dy =
      let it = advance fuel next (λ n. not (n == t)) y in
      let here : member it (y ∷ ys) ≡ true = advance-member next (λ n. not (n == t)) fuel y ys r in
      let far : x ≢ it = member-differs x it (y ∷ ys) (ground arith) here in
      ground (arith, e, link-value it (next t) next x)

  pub cut_from-Runs :
      (fuel x t : ℕ) (xs : List ℕ)
      → length xs ≤ fuel
      → Runs next (next x) xs none
      → distinct (x ∷ xs) ≡ true
      → x ≢ t
      → let next' = cut_from fuel x t next in Runs next' (next' x) (remove t xs) none
  unfolding Runs remove member distinct
  cut_from-Runs fuel x t [] le r d dx = rw (cut_from-last fuel x t r) r
  cut_from-Runs zero x t (y ∷ ys) le (e, r) d dx = absurd (omega arith)
  cut_from-Runs (suc fuel) x t (y ∷ ys) le (e, r) d dx = elim (Bool-cases (y == t)) [
    | inl c ↦
        let same : y ≡ t = ground arith in
        let found : next x ≡ some t = ground (arith, e) in
        rw (cut_from-found fuel x t found, c) (cut-here x t ys found (rw same at r) (rw same at d))
    | inr c ↦
        let dy : y ≢ t = ground arith in
        rw (cut_from-later fuel x t y e c, c)
          (
            cut_from-head fuel x t y ys e r d dx dy,
            cut_from-Runs fuel y t ys (omega arith) r (ground arith) dy,
          )
  ]

  -- Clearing the link of the node that was cut out changes nothing for the others.
  pub unlink_from-Runs :
      (fuel x t : ℕ) (xs : List ℕ)
      → length xs ≤ fuel
      → Runs next (next x) xs none
      → distinct (x ∷ xs) ≡ true
      → x ≢ t
      → let next' = unlink_from fuel x t next in Runs next' (next' x) (remove t xs) none
  unfolding unlink_from cut_from distinct
  unlink_from-Runs fuel x t xs le r d dx =
      let it = advance fuel next (λ n. not (n == t)) x in
      let cut = cut_from-Runs fuel x t xs le r d dx in
      let gone : member t (remove t xs) ≡ false = ground (arith, remove-member t t xs) in
      elim (Bool-cases (points (next it) t)) [
        | inr c ↦ rw c (rw c at cut)
        | inl c ↦
            let next' = link it (next t) next in
            let kept : link t none next' x ≡ next' x = ground (arith, link-value t none next' x) in
            rw (c, kept) (link-Runs next' t none (next' x) (remove t xs) none gone (rw c at cut))
      ]
