-- ===== src/Sched/Sleep/Tick.antt =====
-- Which threads `sched_on_tick` wakes, and that `sched_thread_sleep` and the tick keep the queue.
use unidos.Base.{
  ℕ, zero, suc, ◌+◌, ◌-◌, ◌^◌, ◌≤◌, ◌<◌, ◌≡◌, ◌≢◌, refl, ap, ◌∙◌, Bool, true, false, ◌&&◌, ◌||◌,
  ◌==◌, leb, if◌then◌else◌, inl, inr, none, some, List, [], ◌∷◌, arith, Bool-cases, length, u32,
}
use unidos.Chain.{link, link-Runs, member, distinct, Runs}
use unidos.Chain.Order.{below, ordered, at_least, at_least-member, length-below}
use unidos.Sched.{Sched, ThreadState, thread_runnable, is_sleeping, state_of, wake_of, sleep_links}
use unidos.Sched.Sleep.{wake_first, wake_loop, count_down, sched_on_tick}
use unidos.Sched.Sleep.Queue.{IsQueue}

-- The queue without the threads that are due.
unfoldable pub not_due : (ℕ → ℕ) → ℕ → List ℕ → List ℕ
not_due wake now [] = []
not_due wake now (t ∷ ts) =
    if leb (wake t) now then not_due wake now ts else t ∷ not_due wake now ts

-- What the tick at `now` makes of the state of the thread `t` of a queue.
abbrev pub state_after : Sched → ℕ → List ℕ → ℕ → ThreadState
state_after s now ts t =
    if (member t ts && leb (wake_of s t) now)
      && ((s.thread_pool t).slot_inuse && is_sleeping (state_of s t))
    then thread_runnable
    else state_of s t

pub record Wakes (s : Sched) (now : ℕ) (ts : List ℕ) (s' : Sched) : Type 0 where
  pub queue : IsQueue s' (not_due (wake_of s) now ts)
  pub states : (t : ℕ) → state_of s' t ≡ state_after s now ts t
  pub same_count : s'.thread_pool_count ≡ s.thread_pool_count
  pub same_ticks : s'.rr_ticks_left ≡ s.rr_ticks_left

module _ (now : ℕ) where
  wake_loop-empty :
      (fuel : ℕ) (s : Sched) → s.thread_sleep_head ≡ none → wake_loop fuel now s ≡ (false, s)
  unfolding wake_loop
  wake_loop-empty zero s e = refl
  wake_loop-empty (suc fuel) s e = ground (arith, e)

  wake_loop-due :
      (fuel t : ℕ) (s : Sched)
      → s.thread_sleep_head ≡ some t
      → leb (wake_of s t) now ≡ true
      → (wake_loop (suc fuel) now s).1 ≡ (wake_loop fuel now (wake_first t s)).1
  unfolding wake_loop
  wake_loop-due fuel t s e c = ground (arith, e)

  wake_loop-early :
      (fuel t : ℕ) (s : Sched)
      → s.thread_sleep_head ≡ some t
      → leb (wake_of s t) now ≡ false
      → wake_loop (suc fuel) now s ≡ (false, s)
  unfolding wake_loop
  wake_loop-early fuel t s e c = ground (arith, e)

  wake_first-keeps :
      (t : ℕ) (s : Sched)
      → let s' = wake_first t s in
        (wake_of s' ≡ wake_of s)
        × (s'.thread_pool_count ≡ s.thread_pool_count)
        × (s'.rr_ticks_left ≡ s.rr_ticks_left)
        × (s'.thread_sleep_head ≡ sleep_links s t)
        × (sleep_links s' ≡ link t none (sleep_links s))
  unfolding wake_first
  wake_first-keeps t s =
      elim (Bool-cases ((s.thread_pool t).slot_inuse && is_sleeping (state_of s t))) [
        | inl c ↦ rw c (refl, refl, refl, refl, refl)
        | inr c ↦ rw c (refl, refl, refl, refl, refl)
      ]

  wake_first-state :
      (t p : ℕ) (s : Sched)
      → state_of (wake_first t s) p ≡ (
          if p == t && ((s.thread_pool t).slot_inuse && is_sleeping (state_of s t))
          then thread_runnable
          else state_of s p)
  unfolding wake_first
  wake_first-state t p s = ground arith

  wake_first-IsQueue :
      (t : ℕ) (ts : List ℕ) (s : Sched) → IsQueue s (t ∷ ts) → IsQueue (wake_first t s) ts
  unfolding Runs distinct below ordered
  wake_first-IsQueue t ts s q =
      let (wakes, count, ticks, head, links) = wake_first-keeps t s in
      record {
        linked =
            rw (links, head)
              (link-Runs (sleep_links s) t none (sleep_links s t) ts none (ground (arith, q.apart))
                q.linked.1);
        apart = ground (arith, q.apart);
        inside = rw count (ground (arith, q.inside));
        in_order = rw wakes (ground (arith, q.in_order));
      }

  wake_first-in_use :
      (t p : ℕ) (s : Sched)
      → ((wake_first t s).thread_pool p).slot_inuse ≡ (s.thread_pool p).slot_inuse
  unfolding wake_first
  wake_first-in_use t p s = ground arith

  not_due-early :
      (wake : ℕ → ℕ) (k : ℕ) (ts : List ℕ)
      → at_least wake k ts ≡ true
      → now < k
      → not_due wake now ts ≡ ts
  unfolding not_due at_least
  not_due-early wake k [] a lt = refl
  not_due-early wake k (t ∷ ts) a lt = ground (arith, not_due-early wake k ts)

  none_asleep : (s : Sched) → IsQueue s [] → Wakes s now [] s
  unfolding not_due member
  none_asleep s q = record { queue = q; states = λ p. refl; same_count = refl; same_ticks = refl }

  none_due :
      (s : Sched) (t : ℕ) (ts : List ℕ)
      → IsQueue s (t ∷ ts)
      → leb (wake_of s t) now ≡ false
      → Wakes s now (t ∷ ts) s
  unfolding not_due ordered member
  none_due s t ts q c =
      let later : at_least (wake_of s) (wake_of s t) ts ≡ true = ground (arith, q.in_order) in
      record {
        queue = rw (c, not_due-early (wake_of s) (wake_of s t) ts later (ground arith)) q;
        states = λ p. ground (arith, at_least-member (wake_of s) (wake_of s t) p ts later);
        same_count = refl;
        same_ticks = refl;
      }

  one_due :
      (s s' : Sched) (t : ℕ) (ts : List ℕ)
      → IsQueue s (t ∷ ts)
      → leb (wake_of s t) now ≡ true
      → Wakes (wake_first t s) now ts s'
      → Wakes s now (t ∷ ts) s'
  unfolding not_due member distinct
  one_due s s' t ts q c w =
      let (wakes, count, ticks, head, links) = wake_first-keeps t s in
      record {
        queue = rw c (rw wakes at w.queue);
        states = λ p. ground (
          arith,
          q.apart,
          c,
          w.states p,
          ap (λ (f : ℕ → ℕ). f p) wakes,
          wake_first-state t p s,
          wake_first-in_use t p s,
        );
        same_count = w.same_count ∙ count;
        same_ticks = w.same_ticks ∙ ticks;
      }

  wake_loop-Wakes :
      (fuel : ℕ) (ts : List ℕ) (s : Sched)
      → IsQueue s ts
      → length ts ≤ fuel
      → Wakes s now ts (wake_loop fuel now s).1
  unfolding Runs
  wake_loop-Wakes fuel [] s q le = rw (wake_loop-empty fuel s q.linked) (none_asleep s q)
  wake_loop-Wakes zero (t ∷ ts) s q le = absurd (omega arith)
  wake_loop-Wakes (suc fuel) (t ∷ ts) s q le = elim (Bool-cases (leb (wake_of s t) now)) [
    | inl c ↦ rw (wake_loop-due fuel t s q.linked.0 c) (
        one_due s (wake_loop fuel now (wake_first t s)).1 t ts q c
          (wake_loop-Wakes fuel ts (wake_first t s) (wake_first-IsQueue t ts s q) (omega arith)))
    | inr c ↦ rw (wake_loop-early fuel t s q.linked.0 c) (none_due s t ts q c)
  ]

recount-IsQueue :
    (left : ℕ) (pending : Bool) (ts : List ℕ) (s : Sched)
    → IsQueue s ts
    → IsQueue (record s { rr_ticks_left = left; sched_pending = pending }) ts
recount-IsQueue left pending ts s q = record {
  linked = q.linked;
  apart = q.apart;
  inside = q.inside;
  in_order = q.in_order;
}

count_down-IsQueue :
    (w : Bool) (ts : List ℕ) (s : Sched) → IsQueue s ts → IsQueue (count_down w s) ts
unfolding count_down
count_down-IsQueue w ts s q = elim (Bool-cases (u32 (s.rr_ticks_left + (2 ^ 32 - 1)) == 0)) [
  | inl c ↦ rw c (recount-IsQueue 10 true ts s q)
  | inr c ↦
      rw c (recount-IsQueue (u32 (s.rr_ticks_left + (2 ^ 32 - 1))) (w || s.sched_pending) ts s q)
]

count_down-state : (w : Bool) (s : Sched) (t : ℕ) → state_of (count_down w s) t ≡ state_of s t
unfolding count_down
count_down-state w s t = ground arith

-- The threads that are due have left the queue, the others keep their places; those that left are
-- runnable if they slept, and no other thread changes its state. The scheduler is asked to run when
-- the count of the round ends.
pub record MeetsTick (s : Sched) (now : ℕ) (ts : List ℕ) (s' : Sched) : Type 0 where
  pub queue : IsQueue s' (not_due (wake_of s) now ts)
  pub states : (t : ℕ) → state_of s' t ≡ state_after s now ts t
  pub round_over : s.rr_ticks_left ≡ 1 → (s'.rr_ticks_left ≡ 10) × (s'.sched_pending ≡ true)
  pub round_goes_on :
      s.rr_ticks_left ≢ 1
      → 0 < s.rr_ticks_left
      → s.rr_ticks_left < 2 ^ 32
      → s'.rr_ticks_left + 1 ≡ s.rr_ticks_left

-- `sched_on_tick`, whose sleep queue is well formed, wakes exactly the threads of the queue whose
-- tick has come, whose slot is in use and which are asleep; the queue keeps the threads that are not
-- due, in their order; and the count of the round goes down by one, or starts anew with a request
-- to schedule.
pub on_tick-MeetsTick :
    (s : Sched) (now : ℕ) (ts : List ℕ) → IsQueue s ts → MeetsTick s now ts (sched_on_tick now s)
unfolding sched_on_tick count_down
on_tick-MeetsTick s now ts q =
    let (woke, s') = wake_loop s.thread_pool_count now s in
    let w =
      wake_loop-Wakes now s.thread_pool_count ts s q
        (length-below s.thread_pool_count ts q.apart q.inside) in
    record {
      queue = count_down-IsQueue woke (not_due (wake_of s) now ts) s' w.queue;
      states = λ t. count_down-state woke s' t ∙ w.states t;
      round_over = λ e. ground (arith, w.same_ticks);
      round_goes_on = λ d p lt. ground (arith, w.same_ticks);
    }
