-- ===== src/Sched/Sleep/Asleep.antt =====
-- `sched_thread_sleep`.
use unidos.Base.{
  ℕ, ◌+◌, ◌<◌, ◌≡◌, refl, ap, true, false, ◌==◌, if◌then◌else◌, some, List, [], ◌∷◌, arith, u32,
}
use unidos.Chain.{member}
use unidos.Chain.Order.{at_least, ordered}
use unidos.Sched.{Sched, thread_sleeping, state_of, wake_of}
use unidos.Sched.Sleep.{sleepq_insert, sched_thread_sleep}
use unidos.Sched.Sleep.Queue.{IsQueue, with_sleeper, insert-keeps, sleepq_insert-IsQueue}

at_least-elsewhere :
    (key : ℕ → ℕ) (k t w : ℕ) (ts : List ℕ)
    → member t ts ≡ false
    → at_least key k ts ≡ true
    → at_least (λ p. if p == t then w else key p) k ts ≡ true
unfolding at_least member
at_least-elsewhere key k t w [] out a = refl
at_least-elsewhere key k t w (q ∷ qs) out a = ground (arith, at_least-elsewhere key k t w qs)

ordered-elsewhere :
    (key : ℕ → ℕ) (t w : ℕ) (ts : List ℕ)
    → member t ts ≡ false
    → ordered key ts ≡ true
    → ordered (λ p. if p == t then w else key p) ts ≡ true
unfolding ordered member
ordered-elsewhere key t w [] out o = refl
ordered-elsewhere key t w (q ∷ qs) out o =
    ground (arith, ordered-elsewhere key t w qs, at_least-elsewhere key (key q) t w qs)

module _ (s : Sched) (now ticks t : ℕ) where
  -- The thread, with its state and its tick, before it enters the queue.
  abbrev pub asleep : Sched
  asleep = record s {
    thread_pool = λ p. record (s.thread_pool p) {
      wake_tick = if p == t then u32 (now + ticks) else wake_of s p;
      state = if p == t then thread_sleeping else state_of s p;
    };
  }

  thread_sleep-asleep :
      s.thread_current ≡ some t
      → sched_thread_sleep now ticks s ≡ record (sleepq_insert t asleep) { sched_pending = true }
  unfolding sched_thread_sleep
  thread_sleep-asleep e = ground (arith, e)

  -- `sched_thread_sleep` puts the current thread, which is not in the well-formed sleep queue, into
  -- it behind the threads that wake no later than `now + ticks` (as 32 bits), and before the
  -- others; it changes the state of that thread alone, to sleeping, and asks for the scheduler.
  pub thread_sleep-IsQueue :
      (ts : List ℕ)
      → s.thread_current ≡ some t
      → t < s.thread_pool_count
      → IsQueue s ts
      → member t ts ≡ false
      → let s' = sched_thread_sleep now ticks s in
        IsQueue s' (with_sleeper asleep t ts)
        × ((p : ℕ) → state_of s' p ≡ (if p == t then thread_sleeping else state_of s p))
        × (s'.sched_pending ≡ true)
  thread_sleep-IsQueue ts e lt q out =
      let ready : IsQueue asleep ts = record {
        linked = q.linked;
        apart = q.apart;
        inside = q.inside;
        in_order = ordered-elsewhere (wake_of s) t (u32 (now + ticks)) ts out q.in_order;
      } in
      let inserted = sleepq_insert-IsQueue asleep t ts ready lt out in
      rw (thread_sleep-asleep e) (
        record {
          linked = inserted.linked;
          apart = inserted.apart;
          inside = inserted.inside;
          in_order = inserted.in_order;
        },
        λ p. ap (λ f. f p) (insert-keeps asleep t).2,
        refl,
      )
