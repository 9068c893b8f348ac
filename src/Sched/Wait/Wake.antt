-- ===== src/Sched/Wait/Wake.antt =====
-- `sched_wake_thread` and `wake_parent_waiter`.
use unidos.Base.{
  ℕ, zero, suc, ◌≤◌, ◌≡◌, ◌≢◌, refl, true, false, ◌==◌, if◌then◌else◌, inl, inr, ◌⊎◌, Option,
  Option-cases, none, some, List, [], ◌∷◌, arith, Bool-cases, length,
}
use unidos.Chain.{link-Runs, member, Runs, remove, cut_from}
use unidos.Chain.Unlink.{cut_from-Runs}
use unidos.Chain.Order.{length-below, remove-distinct, remove-below, remove-member}
use unidos.Sched.{
  Sched, thread_runnable, is_blocked, state_of, wait_links, set_wait_links, waiters_of, set_waiters,
  set_state,
}
use unidos.Sched.Wait.{
  matches, waiter_loop, wake_parent_waiter, unlink_waiter, clear_wait, sched_wake_thread,
}
use unidos.Sched.Wait.Waiters.{HasWaiters}

module _ (t p : ℕ) (s : Sched) (own : (s.thread_pool t).wait_owner ≡ some p) where
  unlink-none : waiters_of s p ≡ none → unlink_waiter t s ≡ s
  unfolding unlink_waiter
  unlink-none e = ground (arith, own, e)

  unlink-head : waiters_of s p ≡ some t → unlink_waiter t s ≡ set_waiters p (wait_links s t) s
  unfolding unlink_waiter
  unlink-head e = ground (arith, own, e)

  unlink-behind :
      (h : ℕ)
      → waiters_of s p ≡ some h
      → h ≢ t
      → unlink_waiter t s ≡ set_wait_links (cut_from s.thread_pool_count h t (wait_links s)) s
  unfolding unlink_waiter
  unlink-behind h e d = ground (arith, own, e)

  unlink_waiter-HasWaiters :
      (ts : List ℕ) → HasWaiters s p ts → HasWaiters (unlink_waiter t s) p (remove t ts)
  unfolding Runs remove
  unlink_waiter-HasWaiters [] w = rw (unlink-none w.linked) w
  unlink_waiter-HasWaiters (h ∷ hs) w =
      let (e, r) = w.linked in
      let apart_rest = remove-distinct t (h ∷ hs) w.apart in
      let below_rest = remove-below s.thread_pool_count t (h ∷ hs) w.inside in
      let short = length-below s.thread_pool_count (h ∷ hs) w.apart w.inside in
      elim (Bool-cases (h == t)) [
        | inl c ↦
            let same : h ≡ t = ground arith in
            let self : (p == p) ≡ true = ground arith in
            rw (unlink-head (ground (arith, e)), c)
              (record {
                linked = rw self (rw same at r);
                apart = rw c at apart_rest;
                inside = rw c at below_rest;
              })
        | inr c ↦
            rw (unlink-behind h e (ground arith), c)
              (record {
                linked = rw e (
                  refl,
                  cut_from-Runs (wait_links s) s.thread_pool_count h t hs (omega (arith, short)) r
                      w.apart (ground arith),
                );
                apart = rw c at apart_rest;
                inside = rw c at below_rest;
              })
      ]

clear_wait-HasWaiters :
    (t p : ℕ) (ts : List ℕ) (s : Sched)
    → member t ts ≡ false
    → HasWaiters s p ts
    → HasWaiters (clear_wait t s) p ts
unfolding clear_wait
clear_wait-HasWaiters t p ts s out w = record {
  linked = link-Runs (wait_links s) t none (waiters_of s p) ts none out w.linked;
  apart = w.apart;
  inside = w.inside;
}

unlink_waiter-state :
    (t p q : ℕ) (s : Sched)
    → (s.thread_pool t).wait_owner ≡ some p
    → state_of (unlink_waiter t s) q ≡ state_of s q
unlink_waiter-state t p q s own = elim (Option-cases (waiters_of s p)) [
  | inl e ↦ rw (unlink-none t p s own e) refl
  | inr (h, e) ↦ elim (Bool-cases (h == t)) [
    | inl c ↦ rw (unlink-head t p s own (ground (arith, e))) refl
    | inr c ↦ rw (unlink-behind t p s own h e (ground arith)) refl
  ]
]

-- The threads of the list are blocked, on the process `p`.
abbrev pub AreBlocked : Sched → ℕ → List ℕ → Type 0
AreBlocked s p ts =
    (t : ℕ)
    → member t ts ≡ true
    → (is_blocked (state_of s t) ≡ true) × ((s.thread_pool t).wait_owner ≡ some p)

-- The thread `t` has left the list of `p`, and no other thread has changed its state.
pub record Wakes (s : Sched) (p t : ℕ) (ts : List ℕ) (s' : Sched) : Type 0 where
  pub waiters : HasWaiters s' p (remove t ts)
  pub states : (q : ℕ) → state_of s' q ≡ (if q == t then thread_runnable else state_of s q)
  pub owner : (s'.thread_pool t).wait_owner ≡ none

module _ (s : Sched) (p t : ℕ) (ts : List ℕ) where
  wake-blocked :
      is_blocked (state_of s t) ≡ true
      → sched_wake_thread t s ≡ clear_wait t (unlink_waiter t (set_state t thread_runnable s))
  unfolding sched_wake_thread
  wake-blocked b = ground (arith, b)

  -- With a well-formed list of waiting threads, `sched_wake_thread` of a blocked thread makes it
  -- runnable and takes it out of the list of the process it waits for; no other thread changes its
  -- state.
  pub wake_thread-Wakes :
      HasWaiters s p ts
      → is_blocked (state_of s t) ≡ true
      → (s.thread_pool t).wait_owner ≡ some p
      → Wakes s p t ts (sched_wake_thread t s)
  unfolding clear_wait
  wake_thread-Wakes w b own =
      let ready = set_state t thread_runnable s in
      let ready_list : HasWaiters ready p ts = record {
        linked = w.linked;
        apart = w.apart;
        inside = w.inside;
      } in
      let gone : member t (remove t ts) ≡ false = ground (arith, remove-member t t ts w.apart) in
      rw (wake-blocked b) (record {
        waiters =
            clear_wait-HasWaiters t p (remove t ts) (unlink_waiter t ready) gone
              (unlink_waiter-HasWaiters t p ready own ts ready_list);
        states = λ q. unlink_waiter-state t p q ready own;
        owner = ground arith;
      })

-- The first thread of the list that waits for the child with this process number, or for any.
unfoldable pub first_match : Sched → ℕ → List ℕ → Option ℕ
first_match s pid [] = none
first_match s pid (t ∷ ts) =
    let rest = first_match s pid ts in if matches s pid t then some t else rest

abbrev wake_if : Sched → Option ℕ → Sched
wake_if s none = s
wake_if s (some t) = sched_wake_thread t s

waiter_loop-first :
    (fuel pid : ℕ) (it : Option ℕ) (ts : List ℕ) (s : Sched)
    → Runs (wait_links s) it ts none
    → length ts ≤ fuel
    → waiter_loop fuel pid it s ≡ wake_if s (first_match s pid ts)
unfolding Runs waiter_loop first_match
waiter_loop-first zero pid it [] s r le = refl
waiter_loop-first zero pid it (t ∷ ts) s r le = absurd (omega arith)
waiter_loop-first (suc fuel) pid it [] s r le = ground (arith, r)
waiter_loop-first (suc fuel) pid it (t ∷ ts) s (e, r) le =
    ground (arith, e, waiter_loop-first fuel pid (wait_links s t) ts s r)

first_match-member :
    (s : Sched) (pid t : ℕ) (ts : List ℕ) → first_match s pid ts ≡ some t → member t ts ≡ true
unfolding first_match member
first_match-member s pid t [] e = absurd cc
first_match-member s pid t (q ∷ qs) e = ground (arith, first_match-member s pid t qs)

module _ (s : Sched) (child p : ℕ) (ts : List ℕ) (w : HasWaiters s p ts) where
  wake_parent-first :
      (s.process_pool child).parent ≡ some p
      → wake_parent_waiter child s ≡ wake_if s (first_match s (s.process_pool child).pid ts)
  unfolding wake_parent_waiter
  wake_parent-first e =
      let loop =
        waiter_loop-first s.thread_pool_count (s.process_pool child).pid (waiters_of s p) ts s
          w.linked (length-below s.thread_pool_count ts w.apart w.inside) in
      ground (arith, e, loop)

  -- With a well-formed list of blocked threads for the parent, `wake_parent_waiter` wakes the first
  -- thread that waits, for the parent, for this child or for any: it becomes runnable and leaves
  -- the list, and no other thread changes its state. If no thread waits so, nothing changes.
  pub wake_parent_waiter-Wakes :
      (s.process_pool child).parent ≡ some p
      → AreBlocked s p ts
      → let next = first_match s (s.process_pool child).pid ts in
        let s' = wake_parent_waiter child s in
        ((next ≡ none) × (s' ≡ s)) ⊎ ((t : ℕ) × (next ≡ some t) × Wakes s p t ts s')
  wake_parent_waiter-Wakes e all =
      elim (Option-cases (first_match s (s.process_pool child).pid ts)) [
        | inl q ↦ inl (q, rw (wake_parent-first e, q) refl)
        | inr (t, q) ↦
            let (b, own) = all t (first_match-member s (s.process_pool child).pid t ts q) in
            inr (t, q, rw (wake_parent-first e, q) (wake_thread-Wakes s p t ts w b own))
      ]
