-- ===== src/Vma/Insert.antt =====
-- `vma_insert` and `vma_remove`.
use unidos.Base.{
  ℕ, ◌≤◌, ◌<◌, ◌≡◌, ◌≢◌, refl, Bool, true, false, ◌==◌, ltb, inl, inr, none, some, List, [], ◌∷◌,
  arith, Bool-cases,
}
use unidos.Chain.{
  link, link-at, link-Runs, member, distinct, Runs, advance, insert_after, insert_while, remove,
  cut_from,
}
use unidos.Chain.Insert.{advance-insert}
use unidos.Chain.Unlink.{cut_from-Runs}
use unidos.Chain.Order.{
  below, length-below, insert_while-distinct, insert_while-below, remove-distinct, remove-below,
}
use unidos.Vma.{Space, start_of, end_of, links_of, set_links, vma_insert, vma_remove}
use unidos.Vma.Areas.{HasAreas, areas_ordered, clear_of, areas_ordered-insert, areas_ordered-remove}

-- The list with the area `t` behind those that start before it.
abbrev pub with_area : Space → ℕ → List ℕ → List ℕ
with_area m t vs = insert_while (λ n. ltb (start_of m n) (start_of m t)) t vs

module _ (m : Space) (t : ℕ) where
  abbrev place : ℕ → ℕ
  place h = advance m.vma_pool_count (links_of m) (λ n. ltb (start_of m n) (start_of m t)) h

  insert-alone :
      m.vma_head ≡ none
      → vma_insert t m ≡ record (set_links (link t m.vma_head (links_of m)) m) { vma_head = some t }
  unfolding vma_insert
  insert-alone e = ground (arith, e)

  insert-front :
      (h : ℕ)
      → m.vma_head ≡ some h
      → start_of m t < start_of m h
      → vma_insert t m ≡ record (set_links (link t m.vma_head (links_of m)) m) { vma_head = some t }
  unfolding vma_insert
  insert-front h e c = ground (arith, e)

  insert-behind :
      (h : ℕ)
      → m.vma_head ≡ some h
      → start_of m h ≤ start_of m t
      → vma_insert t m ≡ set_links (insert_after (place h) t (links_of m)) m
  unfolding vma_insert
  insert-behind h e c = ground (arith, e)

  front-linked :
      (vs : List ℕ)
      → Runs (links_of m) m.vma_head vs none
      → member t vs ≡ false
      → let next = link t m.vma_head (links_of m) in Runs next (some t) (t ∷ vs) none
  unfolding Runs
  front-linked vs r out = (
    refl,
    rw (link-at t m.vma_head (links_of m))
        (link-Runs (links_of m) t m.vma_head m.vma_head vs none out r),
  )

  behind-linked :
      (h : ℕ) (hs : List ℕ)
      → Runs (links_of m) (links_of m h) hs none
      → distinct (h ∷ hs) ≡ true
      → below m.vma_pool_count (h ∷ hs) ≡ true
      → member t (h ∷ hs) ≡ false
      → let next = insert_after (place h) t (links_of m) in
        Runs next (some h) (h ∷ with_area m t hs) none
  unfolding Runs
  behind-linked h hs r d b out =
      let short = length-below m.vma_pool_count (h ∷ hs) d b in
      (
        refl,
        advance-insert (links_of m) (λ n. ltb (start_of m n) (start_of m t)) m.vma_pool_count h t hs
            (omega (arith, short)) r d out,
      )

  insert-linked :
      (vs : List ℕ)
      → HasAreas m vs
      → member t vs ≡ false
      → start_of m t < end_of m t
      → clear_of (start_of m) (end_of m) (start_of m t) (end_of m t) vs ≡ true
      → let m' = vma_insert t m in Runs (links_of m') m'.vma_head (with_area m t vs) none
  unfolding Runs insert_while areas_ordered clear_of
  insert-linked [] q out lt c = rw (insert-alone q.linked) (front-linked [] q.linked out)
  insert-linked (h ∷ hs) q out lt c =
      let (e, r) = q.linked in
      elim (Bool-cases (ltb (start_of m h) (start_of m t))) [
        | inl b ↦
            let le : start_of m h ≤ start_of m t = ground arith in
            rw (insert-behind h e le, b, e) (behind-linked h hs r q.apart q.inside out)
        | inr b ↦
            let gt : start_of m t < start_of m h = ground (arith, q.ordered) in
            rw (insert-front h e gt, b) (front-linked (h ∷ hs) q.linked out)
      ]

  insert-keeps :
      (vs : List ℕ)
      → HasAreas m vs
      → member t vs ≡ false
      → let m' = vma_insert t m in
        (start_of m' ≡ start_of m) × (end_of m' ≡ end_of m) × (m'.vma_pool_count ≡ m.vma_pool_count)
  unfolding Runs
  insert-keeps [] q out = rw (insert-alone q.linked) (refl, refl, refl)
  insert-keeps (h ∷ hs) q out = elim (Bool-cases (ltb (start_of m t) (start_of m h))) [
    | inl b ↦ rw (insert-front h q.linked.0 (ground arith)) (refl, refl, refl)
    | inr b ↦ rw (insert-behind h q.linked.0 (ground arith)) (refl, refl, refl)
  ]

  -- In a well-formed space `vma_insert` of a new area that is not empty and meets no other puts it
  -- in the list behind those that start before it; the list stays in the order of the addresses and
  -- without overlap.
  pub vma_insert-HasAreas :
      (vs : List ℕ)
      → HasAreas m vs
      → t < m.vma_pool_count
      → member t vs ≡ false
      → start_of m t < end_of m t
      → clear_of (start_of m) (end_of m) (start_of m t) (end_of m t) vs ≡ true
      → HasAreas (vma_insert t m) (with_area m t vs)
  vma_insert-HasAreas vs q slot out lt c =
      let pass : ℕ → Bool = λ n. ltb (start_of m n) (start_of m t) in
      let (starts, ends, count) = insert-keeps vs q out in
      record {
        linked = insert-linked vs q out lt c;
        apart = insert_while-distinct pass t vs q.apart out;
        inside = rw count (insert_while-below m.vma_pool_count pass t vs q.inside slot);
        ordered =
            rw (starts, ends) (areas_ordered-insert (start_of m) (end_of m) t vs q.ordered lt c);
      }

  remove-head : m.vma_head ≡ some t → vma_remove t m ≡ record m { vma_head = links_of m t }
  unfolding vma_remove
  remove-head e = ground (arith, e)

  remove-behind :
      (h : ℕ)
      → m.vma_head ≡ some h
      → h ≢ t
      → vma_remove t m ≡ set_links (cut_from m.vma_pool_count h t (links_of m)) m
  unfolding vma_remove
  remove-behind h e d = ground (arith, e)

  remove-none : m.vma_head ≡ none → vma_remove t m ≡ m
  unfolding vma_remove
  remove-none e = ground (arith, e)

  -- In a well-formed space `vma_remove` takes the area out of the list, if it is there; the others
  -- keep their places.
  pub vma_remove-HasAreas : (vs : List ℕ) → HasAreas m vs → HasAreas (vma_remove t m) (remove t vs)
  unfolding Runs remove
  vma_remove-HasAreas [] q = rw (remove-none q.linked) q
  vma_remove-HasAreas (h ∷ hs) q =
      let (e, r) = q.linked in
      let apart_rest = remove-distinct t (h ∷ hs) q.apart in
      let below_rest = remove-below m.vma_pool_count t (h ∷ hs) q.inside in
      let ordered_rest = areas_ordered-remove (start_of m) (end_of m) t (h ∷ hs) q.ordered in
      let short = length-below m.vma_pool_count (h ∷ hs) q.apart q.inside in
      elim (Bool-cases (h == t)) [
        | inl c ↦
            let same : h ≡ t = ground arith in
            rw (remove-head (ground (arith, e)), c)
              (record {
                linked = rw same at r;
                apart = rw c at apart_rest;
                inside = rw c at below_rest;
                ordered = rw c at ordered_rest;
              })
        | inr c ↦
            rw (remove-behind h e (ground arith), c, e)
              (record {
                linked = (
                  refl,
                  cut_from-Runs (links_of m) m.vma_pool_count h t hs (omega (arith, short)) r
                      q.apart (ground arith),
                );
                apart = rw c at apart_rest;
                inside = rw c at below_rest;
                ordered = rw c at ordered_rest;
              })
      ]
