-- ===== src/Sched/Family/Children.antt =====
-- The list of the children of a process.
use unidos.Base.{
  ℕ, zero, suc, ◌≤◌, ◌<◌, ◌≡◌, ◌≢◌, refl, fun_ext, ◌∙◌, true, false, ◌==◌, inl, inr, Option-cases,
  none, some, List, [], ◌∷◌, ◌++◌, arith, Bool-cases, length,
}
use unidos.Chain.{
  Links, link, link-value, member, distinct, Runs, advance, insert_after, insert_while, remove,
  cut_from,
}
use unidos.Chain.Insert.{advance-insert, advance-stops, advance-last}
use unidos.Chain.Unlink.{cut_from-Runs}
use unidos.Chain.Order.{
  below, length-below, remove-distinct, remove-below, insert_while-distinct, insert_while-below,
}
use unidos.Sched.{Sched}
use unidos.Sched.Family.{
  sibling_links, children_of, set_sibling_links, set_children, set_parent, append_child,
  proc_add_child, unlink_child, proc_remove_child,
}

-- The children of the process `p`, each once.
pub record HasChildren (s : Sched) (p : ℕ) (cs : List ℕ) : Type 0 where
  pub linked : Runs (sibling_links s) (children_of s p) cs none
  pub apart : distinct cs ≡ true
  pub inside : below s.process_pool_count cs ≡ true

insert_while-append : (t : ℕ) (xs : List ℕ) → insert_while (λ n. true) t xs ≡ xs ++ t ∷ []
unfolding insert_while
insert_while-append t [] = refl
insert_while-append t (x ∷ xs) = rw (insert_while-append t xs) refl

advance-tail :
    (next : Links) (fuel x : ℕ) (xs : List ℕ)
    → Runs next (next x) xs none
    → length xs ≤ fuel
    → next (advance fuel next (λ n. true) x) ≡ none
unfolding Runs
advance-tail next fuel x [] r le = rw (advance-last next (λ n. true) fuel x r) r
advance-tail next zero x (y ∷ ys) r le = absurd (omega arith)
advance-tail next (suc fuel) x (y ∷ ys) (e, r) le =
    rw (advance-stops next (λ n. true) fuel x y e) (advance-tail next fuel y ys r (omega arith))

-- Behind the last node, a node without a successor is linked by one write.
link-tail :
    (next : Links) (it t : ℕ)
    → next it ≡ none
    → next t ≡ none
    → link it (some t) next ≡ insert_after it t next
link-tail next it t e n = fun_ext (λ q. ground (
  arith,
  e,
  n,
  link-value it (some t) next q,
  link-value it (some t) (link t (next it) next) q,
  link-value t (next it) next q,
))

module _ (s : Sched) (p c : ℕ) where
  abbrev last : ℕ → ℕ
  last f = advance s.process_pool_count (sibling_links s) (λ n. true) f

  append-first : children_of s p ≡ none → append_child p c s ≡ set_children p (some c) s
  unfolding append_child
  append-first e = ground (arith, e)

  append-behind :
      (f : ℕ)
      → children_of s p ≡ some f
      → append_child p c s ≡ set_sibling_links (link (last f) (some c) (sibling_links s)) s
  unfolding append_child
  append-behind f e = ground (arith, e)

  behind-linked :
      (f : ℕ) (fs : List ℕ)
      → Runs (sibling_links s) (sibling_links s f) fs none
      → length fs ≤ s.process_pool_count
      → distinct (f ∷ fs) ≡ true
      → member c (f ∷ fs) ≡ false
      → sibling_links s c ≡ none
      → let next = link (last f) (some c) (sibling_links s) in
        Runs next (next f) (fs ++ c ∷ []) none
  behind-linked f fs r le d out n =
      let tail = advance-tail (sibling_links s) s.process_pool_count f fs r le in
      rw (link-tail (sibling_links s) (last f) c tail n, ← insert_while-append c fs)
        (advance-insert (sibling_links s) (λ n. true) s.process_pool_count f c fs le r d out)

  append_child-HasChildren :
      (cs : List ℕ)
      → HasChildren s p cs
      → c < s.process_pool_count
      → member c cs ≡ false
      → sibling_links s c ≡ none
      → HasChildren (append_child p c s) p (cs ++ c ∷ [])
  unfolding Runs distinct below member
  append_child-HasChildren [] w lt out n =
      rw (append-first w.linked)
        (record { linked = (ground arith, n); apart = refl; inside = ground arith })
  append_child-HasChildren (f ∷ fs) w lt out n =
      let (e, r) = w.linked in
      let short = length-below s.process_pool_count (f ∷ fs) w.apart w.inside in
      let le : length fs ≤ s.process_pool_count = omega (arith, short) in
      let whole = insert_while-append c (f ∷ fs) in
      rw (append-behind f e) (record {
        linked = (e, behind-linked f fs r le w.apart out n);
        apart = rw whole at (insert_while-distinct (λ n. true) c (f ∷ fs) w.apart out);
        inside =
            rw whole at
              (insert_while-below s.process_pool_count (λ n. true) c (f ∷ fs) w.inside lt);
      })

  append-keeps :
      (q : ℕ)
      → (((append_child p c s).process_pool q).parent ≡ (s.process_pool q).parent)
        × (((append_child p c s).process_pool q).ppid ≡ (s.process_pool q).ppid)
  append-keeps q = elim (Option-cases (children_of s p)) [
    | inl e ↦ rw (append-first e) (refl, refl)
    | inr (f, e) ↦ rw (append-behind f e) (refl, refl)
  ]

  unlink-none : children_of s p ≡ none → unlink_child p c s ≡ s
  unfolding unlink_child
  unlink-none e = ground (arith, e)

  unlink-head : children_of s p ≡ some c → unlink_child p c s ≡ set_children p (sibling_links s c) s
  unfolding unlink_child
  unlink-head e = ground (arith, e)

  unlink-behind :
      (f : ℕ)
      → children_of s p ≡ some f
      → f ≢ c
      → unlink_child p c s
        ≡ set_sibling_links (cut_from s.process_pool_count f c (sibling_links s)) s
  unfolding unlink_child
  unlink-behind f e d = ground (arith, e)

  unlink_child-HasChildren :
      (cs : List ℕ) → HasChildren s p cs → HasChildren (unlink_child p c s) p (remove c cs)
  unfolding Runs remove
  unlink_child-HasChildren [] w = rw (unlink-none w.linked) w
  unlink_child-HasChildren (f ∷ fs) w =
      let (e, r) = w.linked in
      let apart_rest = remove-distinct c (f ∷ fs) w.apart in
      let below_rest = remove-below s.process_pool_count c (f ∷ fs) w.inside in
      let short = length-below s.process_pool_count (f ∷ fs) w.apart w.inside in
      elim (Bool-cases (f == c)) [
        | inl b ↦
            let same : f ≡ c = ground arith in
            let self : (p == p) ≡ true = ground arith in
            rw (unlink-head (ground (arith, e)), b)
              (record {
                linked = rw self (rw same at r);
                apart = rw b at apart_rest;
                inside = rw b at below_rest;
              })
        | inr b ↦
            rw (unlink-behind f e (ground arith), b)
              (record {
                linked = rw e (
                  refl,
                  cut_from-Runs (sibling_links s) s.process_pool_count f c fs (omega (arith, short))
                      r w.apart (ground arith),
                );
                apart = rw b at apart_rest;
                inside = rw b at below_rest;
              })
      ]

  -- `proc_remove_child` takes a process out of the list of the children, where the others keep
  -- their places, and leaves it without a parent.
  pub remove_child-HasChildren :
      (cs : List ℕ)
      → HasChildren s p cs
      → let s' = proc_remove_child p c s in
        HasChildren s' p (remove c cs) × ((s'.process_pool c).parent ≡ none)
  unfolding proc_remove_child
  remove_child-HasChildren cs w =
      let cut = unlink_child-HasChildren cs w in
      (record { linked = cut.linked; apart = cut.apart; inside = cut.inside }, ground arith)

module _ (s : Sched) (p c : ℕ) where
  -- `proc_add_child` of a process that is in no list of children and has no sibling puts it, when
  -- the list of the parent is well formed, behind the children of the parent, and makes that its
  -- parent.
  pub add_child-HasChildren :
      (cs : List ℕ)
      → HasChildren s p cs
      → c < s.process_pool_count
      → member c cs ≡ false
      → sibling_links s c ≡ none
      → let s' = proc_add_child p c s in
        HasChildren s' p (cs ++ c ∷ [])
        × ((s'.process_pool c).parent ≡ some p)
        × ((s'.process_pool c).ppid ≡ (s.process_pool p).pid)
  unfolding proc_add_child
  add_child-HasChildren cs w lt out n =
      let adopted = set_parent c (some p) (s.process_pool p).pid s in
      let list : HasChildren adopted p cs = record {
        linked = w.linked;
        apart = w.apart;
        inside = w.inside;
      } in
      let (parents, ppids) = append-keeps adopted p c c in
      (
        append_child-HasChildren adopted p c cs list lt out n,
        parents ∙ ground arith,
        ppids ∙ ground arith,
      )
