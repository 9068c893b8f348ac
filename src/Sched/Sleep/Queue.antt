-- ===== src/Sched/Sleep/Queue.antt =====
-- The sleep queue is a list in the order of the wake-up ticks.
use unidos.Base.{
  ℕ, ◌<◌, ◌≡◌, ◌≢◌, refl, Bool, true, false, ◌==◌, leb, inl, inr, Option-cases, none, some, List,
  [], ◌∷◌, arith, Bool-cases,
}
use unidos.Chain.{
  Links, link, link-value, link-at, link-Runs, member, distinct, Runs, advance, insert_after,
  insert_while, remove, unlink_from,
}
use unidos.Chain.Insert.{advance-insert}
use unidos.Chain.Unlink.{unlink_from-Runs}
use unidos.Chain.Order.{
  below, ordered, length-below, insert_while-distinct, insert_while-below, insert_while-ordered,
  remove-distinct, remove-below, remove-ordered,
}
use unidos.Sched.{Sched, state_of, wake_of, sleep_links, set_sleep_links}
use unidos.Sched.Sleep.{sleepq_insert, sleepq_remove}

-- The threads of the list are those of the queue, in its order: each once, and none wakes before
-- one that stands further to the front.
pub record IsQueue (s : Sched) (ts : List ℕ) : Type 0 where
  pub linked : Runs (sleep_links s) s.thread_sleep_head ts none
  pub apart : distinct ts ≡ true
  pub inside : below s.thread_pool_count ts ≡ true
  pub in_order : ordered (wake_of s) ts ≡ true

-- The queue with `t` put in its place, behind those that wake no later.
abbrev pub with_sleeper : Sched → ℕ → List ℕ → List ℕ
with_sleeper s t ts = insert_while (λ n. leb (wake_of s n) (wake_of s t)) t ts

module _ (s : Sched) (t : ℕ) where
  abbrev cleared : Links
  cleared = link t none (sleep_links s)

  abbrev place : ℕ → ℕ
  place h = advance s.thread_pool_count cleared (λ n. leb (wake_of s n) (wake_of s t)) h

  insert-front :
      (h : ℕ)
      → s.thread_sleep_head ≡ some h
      → leb (wake_of s h) (wake_of s t) ≡ false
      → sleepq_insert t s ≡ record (set_sleep_links (link t s.thread_sleep_head cleared) s) {
        thread_sleep_head = some t;
      }
  unfolding sleepq_insert
  insert-front h e c = ground (arith, e)

  insert-behind :
      (h : ℕ)
      → s.thread_sleep_head ≡ some h
      → leb (wake_of s h) (wake_of s t) ≡ true
      → sleepq_insert t s ≡ set_sleep_links (insert_after (place h) t cleared) s
  unfolding sleepq_insert
  insert-behind h e c = ground (arith, e)

  cleared-Runs :
      (h : ℕ) (hs : List ℕ)
      → Runs (sleep_links s) (sleep_links s h) hs none
      → member t (h ∷ hs) ≡ false
      → Runs cleared (cleared h) hs none
  unfolding member
  cleared-Runs h hs r out =
      let same : cleared h ≡ sleep_links s h =
        ground (arith, link-value t none (sleep_links s) h) in
      rw same (link-Runs (sleep_links s) t none (sleep_links s h) hs none (ground arith) r)

  front-linked :
      (h : ℕ) (hs : List ℕ)
      → s.thread_sleep_head ≡ some h
      → Runs (sleep_links s) (sleep_links s h) hs none
      → member t (h ∷ hs) ≡ false
      → let next = link t s.thread_sleep_head cleared in Runs next (some t) (t ∷ h ∷ hs) none
  unfolding Runs member
  front-linked h hs e r out =
      let next = link t s.thread_sleep_head cleared in
      let at : next t ≡ some h = ground (arith, e, link-at t s.thread_sleep_head cleared) in
      let same : next h ≡ cleared h = ground (arith, link-value t s.thread_sleep_head cleared h) in
      (
        refl,
        (
          at,
          rw same (
              link-Runs cleared t s.thread_sleep_head (cleared h) hs none (ground arith)
                (cleared-Runs h hs r out)),
        ),
      )

  insert-alone :
      s.thread_sleep_head ≡ none
      → sleepq_insert t s ≡ record (set_sleep_links (link t s.thread_sleep_head cleared) s) {
        thread_sleep_head = some t;
      }
  unfolding sleepq_insert
  insert-alone e = ground (arith, e)

  alone-linked :
      s.thread_sleep_head ≡ none
      → let next = link t s.thread_sleep_head cleared in Runs next (some t) (t ∷ []) none
  unfolding Runs
  alone-linked e = (refl, rw (link-at t s.thread_sleep_head cleared) e)

  behind-linked :
      (h : ℕ) (hs : List ℕ)
      → Runs (sleep_links s) (sleep_links s h) hs none
      → distinct (h ∷ hs) ≡ true
      → below s.thread_pool_count (h ∷ hs) ≡ true
      → member t (h ∷ hs) ≡ false
      → let next = insert_after (place h) t cleared in
        Runs next (some h) (h ∷ with_sleeper s t hs) none
  unfolding Runs
  behind-linked h hs r d b out =
      let short = length-below s.thread_pool_count (h ∷ hs) d b in
      (
        refl,
        advance-insert cleared (λ n. leb (wake_of s n) (wake_of s t)) s.thread_pool_count h t hs
            (omega (arith, short)) (cleared-Runs h hs r out) d out,
      )

  insert-linked :
      (ts : List ℕ)
      → IsQueue s ts
      → member t ts ≡ false
      → let s' = sleepq_insert t s in
        Runs (sleep_links s') s'.thread_sleep_head (with_sleeper s t ts) none
  unfolding Runs insert_while
  insert-linked [] q out = rw (insert-alone q.linked) (alone-linked q.linked)
  insert-linked (h ∷ hs) q out =
      let (e, r) = q.linked in
      elim (Bool-cases (leb (wake_of s h) (wake_of s t))) [
        | inr c ↦ rw (insert-front h e c, c) (front-linked h hs e r out)
        | inl c ↦ rw (insert-behind h e c, c, e) (behind-linked h hs r q.apart q.inside out)
      ]

  pub insert-keeps :
      let s' = sleepq_insert t s in
      (wake_of s' ≡ wake_of s)
      × (s'.thread_pool_count ≡ s.thread_pool_count)
      × (state_of s' ≡ state_of s)
  insert-keeps = elim (Option-cases s.thread_sleep_head) [
    | inl e ↦ rw (insert-alone e) (refl, refl, refl)
    | inr (h, e) ↦ elim (Bool-cases (leb (wake_of s h) (wake_of s t))) [
      | inr c ↦ rw (insert-front h e c) (refl, refl, refl)
      | inl c ↦ rw (insert-behind h e c) (refl, refl, refl)
    ]
  ]

  -- In a well-formed sleep queue `sleepq_insert` puts a thread that is not in the sleep queue
  -- behind those that wake no later, and in front of those that wake later; the others keep their
  -- places.
  pub sleepq_insert-IsQueue :
      (ts : List ℕ)
      → IsQueue s ts
      → t < s.thread_pool_count
      → member t ts ≡ false
      → IsQueue (sleepq_insert t s) (with_sleeper s t ts)
  sleepq_insert-IsQueue ts q lt out =
      let pass : ℕ → Bool = λ n. leb (wake_of s n) (wake_of s t) in
      record {
        linked = insert-linked ts q out;
        apart = insert_while-distinct pass t ts q.apart out;
        inside = rw insert-keeps.1 (insert_while-below s.thread_pool_count pass t ts q.inside lt);
        in_order = rw insert-keeps.0 (insert_while-ordered (wake_of s) t ts q.in_order);
      }

  remove-head :
      s.thread_sleep_head ≡ some t
      → sleepq_remove t s
        ≡ record (set_sleep_links cleared s) { thread_sleep_head = sleep_links s t }
  unfolding sleepq_remove
  remove-head e = ground (arith, e)

  remove-behind :
      (h : ℕ)
      → s.thread_sleep_head ≡ some h
      → h ≢ t
      → sleepq_remove t s ≡ set_sleep_links (unlink_from s.thread_pool_count h t (sleep_links s)) s
  unfolding sleepq_remove
  remove-behind h e d = ground (arith, e)

  remove-none : s.thread_sleep_head ≡ none → sleepq_remove t s ≡ s
  unfolding sleepq_remove
  remove-none e = ground (arith, e)

  -- `sleepq_remove` takes the thread out of a well-formed sleep queue, if it is there; the others
  -- keep their places.
  pub sleepq_remove-IsQueue :
      (ts : List ℕ) → IsQueue s ts → IsQueue (sleepq_remove t s) (remove t ts)
  unfolding Runs remove distinct below ordered
  sleepq_remove-IsQueue [] q = rw (remove-none q.linked) q
  sleepq_remove-IsQueue (h ∷ hs) q =
      let (e, r) = q.linked in
      let distinct_rest = remove-distinct t (h ∷ hs) q.apart in
      let below_rest = remove-below s.thread_pool_count t (h ∷ hs) q.inside in
      let ordered_rest = remove-ordered (wake_of s) t (h ∷ hs) q.in_order in
      let short = length-below s.thread_pool_count (h ∷ hs) q.apart q.inside in
      elim (Bool-cases (h == t)) [
        | inl c ↦
            let same : h ≡ t = ground arith in
            rw (remove-head (ground (arith, e)), c)
              (record {
                linked =
                    link-Runs (sleep_links s) t none (sleep_links s t) hs none
                      (ground (arith, q.apart)) (rw same at r);
                apart = ground (arith, q.apart);
                inside = ground (arith, q.inside);
                in_order = ground (arith, q.in_order);
              })
        | inr c ↦
            rw (remove-behind h e (ground arith), c, e)
              (record {
                linked = (
                  refl,
                  unlink_from-Runs (sleep_links s) s.thread_pool_count h t hs (omega (arith, short))
                      r q.apart (ground arith),
                );
                apart = rw c at distinct_rest;
                inside = rw c at below_rest;
                in_order = rw c at ordered_rest;
              })
      ]
