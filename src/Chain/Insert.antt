-- ===== src/Chain/Insert.antt =====
-- A node is put into a linked list behind the nodes that pass a test.
use unidos.Base.{
  ℕ, zero, suc, ◌≤◌, ◌≡◌, ◌≢◌, refl, Bool, true, false, if◌then◌else◌, inl, inr, none, some, List,
  [], ◌∷◌, arith, Bool-cases, length,
}
use unidos.Chain.{
  Links, link, member, distinct, Runs, advance, insert_after, insert_while, link-value, link-at,
  link-Runs, member-differs,
}

module _ (next : Links) (pass : ℕ → Bool) where
  pub advance-member :
      (fuel x : ℕ) (xs : List ℕ)
      → Runs next (next x) xs none
      → member (advance fuel next pass x) (x ∷ xs) ≡ true
  unfolding Runs member advance
  advance-member zero x xs r = ground arith
  advance-member (suc fuel) x [] r = ground (arith, r)
  advance-member (suc fuel) x (y ∷ ys) (e, r) = ground (arith, e, advance-member fuel y ys r)

  pub advance-stops :
      (fuel x y : ℕ)
      → next x ≡ some y
      → advance (suc fuel) next pass x ≡ (if pass y then advance fuel next pass y else x)
  unfolding advance
  advance-stops fuel x y e = ground (arith, e)

  pub advance-last : (fuel x : ℕ) → next x ≡ none → advance fuel next pass x ≡ x
  unfolding advance
  advance-last zero x e = refl
  advance-last (suc fuel) x e = ground (arith, e)

  inserted-at : (x t : ℕ) → insert_after x t next x ≡ some t
  inserted-at x t = link-at x (some t) (link t (next x) next)

  inserted-next : (x t : ℕ) → x ≢ t → insert_after x t next t ≡ next x
  inserted-next x t d =
      ground (arith, link-value x (some t) (link t (next x) next) t, link-value t (next x) next t)

  inserted-here :
      (x t : ℕ) (xs : List ℕ)
      → Runs next (next x) xs none
      → distinct (x ∷ xs) ≡ true
      → member t (x ∷ xs) ≡ false
      → let next' = insert_after x t next in Runs next' (next' x) (t ∷ xs) none
  unfolding Runs member distinct
  inserted-here x t xs r d out =
      let apart : x ≢ t = ground arith in
      (
        inserted-at x t,
        rw (inserted-next x t apart) (
            link-Runs (link t (next x) next) x (some t) (next x) xs none (ground arith)
              (link-Runs next t (next x) (next x) xs none (ground arith) r)),
      )

  inserted-later :
      (it x t y : ℕ) (ys : List ℕ)
      → next x ≡ some y
      → member it (y ∷ ys) ≡ true
      → distinct (x ∷ y ∷ ys) ≡ true
      → member t (x ∷ y ∷ ys) ≡ false
      → insert_after it t next x ≡ some y
  unfolding member distinct
  inserted-later it x t y ys e here d out =
      let far : x ≢ it = member-differs x it (y ∷ ys) (ground arith) here in
      let apart : x ≢ t = ground arith in
      ground
        (arith, e, link-value it (some t) (link t (next it) next) x, link-value t (next it) next x)

  pub advance-insert :
      (fuel x t : ℕ) (xs : List ℕ)
      → length xs ≤ fuel
      → Runs next (next x) xs none
      → distinct (x ∷ xs) ≡ true
      → member t (x ∷ xs) ≡ false
      → let next' = insert_after (advance fuel next pass x) t next in
        Runs next' (next' x) (insert_while pass t xs) none
  unfolding Runs insert_while member distinct
  advance-insert fuel x t [] le r d out = rw (advance-last fuel x r) (inserted-here x t [] r d out)
  advance-insert zero x t (y ∷ ys) le (e, r) d out = absurd (omega arith)
  advance-insert (suc fuel) x t (y ∷ ys) le (e, r) d out = elim (Bool-cases (pass y)) [
    | inl c ↦
        let it = advance fuel next pass y in
        rw (advance-stops fuel x y e, c)
          (
            inserted-later it x t y ys e (advance-member fuel y ys r) d out,
            advance-insert fuel y t ys (omega arith) r (ground arith) (ground arith),
          )
    | inr c ↦ rw (advance-stops fuel x y e, c) (inserted-here x t (y ∷ ys) (e, r) d out)
  ]
