-- ===== src/Sched/Sleep.antt =====
-- The sleep queue, the tick, and the calls that put a thread to sleep and wake it.
pub mod Queue
pub mod Tick
pub mod Asleep
use unidos.Base.{
  ℕ, zero, suc, ◌+◌, ◌-◌, ◌^◌, Bool, true, false, not, ◌&&◌, ◌||◌, ◌==◌, leb, ltb, if◌then◌else◌,
  Option, none, some, u32,
}
use unidos.Chain.{Links, link, advance, insert_after, points, unlink_after, unlink_from}
use unidos.Sched.{
  Sched, ThreadState, thread_runnable, thread_sleeping, is_sleeping, state_of, wake_of, sleep_links,
  set_sleep_links, set_state, rr_scheduler_cadence,
}

-- The queue is walked with as many rounds as there are threads.
unfoldable pub sleepq_insert : ℕ → Sched → Sched
sleepq_insert t s =
    let links = link t none (sleep_links s) in
    let in_front = record (set_sleep_links (link t s.thread_sleep_head links) s) {
      thread_sleep_head = some t;
    } in
    elim s.thread_sleep_head [
      | none ↦ in_front
      | some h ↦
          if ltb (wake_of s t) (wake_of s h)
          then in_front
          else let it =
              advance s.thread_pool_count links (λ n. leb (wake_of s n) (wake_of s t)) h in
            set_sleep_links (insert_after it t links) s
    ]

unfoldable pub sleepq_remove : ℕ → Sched → Sched
sleepq_remove t s = elim s.thread_sleep_head [
  | none ↦ s
  | some h ↦
      if h == t
      then record (set_sleep_links (link t none (sleep_links s)) s) {
        thread_sleep_head = sleep_links s t;
      }
      else set_sleep_links (unlink_from s.thread_pool_count h t (sleep_links s)) s
]

-- One round of the loop of `sched_on_tick`: the first thread `t` of the queue leaves it, and wakes.
unfoldable pub wake_first : ℕ → Sched → Sched
wake_first t s =
    let s' = record (set_sleep_links (link t none (sleep_links s)) s) {
      thread_sleep_head = sleep_links s t;
    } in
    if (s.thread_pool t).slot_inuse && is_sleeping (state_of s t)
    then set_state t thread_runnable s'
    else s'

-- The loop; the Boolean is `woke_any`.
unfoldable pub wake_loop : ℕ → ℕ → Sched → Bool × Sched
wake_loop zero now s = (false, s)
wake_loop (suc fuel) now s = elim s.thread_sleep_head [
  | none ↦ (false, s)
  | some t ↦
      let rest = wake_loop fuel now (wake_first t s) in
      if leb (wake_of s t) now
      then (((s.thread_pool t).slot_inuse && is_sleeping (state_of s t)) || rest.0, rest.1)
      else (false, s)
]

-- The end of `sched_on_tick`. The counter of the round is 32 bits wide.
unfoldable pub count_down : Bool → Sched → Sched
count_down woke_any s =
    let left = u32 (s.rr_ticks_left + (2 ^ 32 - 1)) in
    if left == 0
    then record s { rr_ticks_left = rr_scheduler_cadence; sched_pending = true }
    else record s { rr_ticks_left = left; sched_pending = woke_any || s.sched_pending }

-- `now` is `get_ticks()`.
unfoldable pub sched_on_tick : ℕ → Sched → Sched
sched_on_tick now s =
    let (woke_any, s') = wake_loop s.thread_pool_count now s in count_down woke_any s'

-- `sched_thread_sleep` up to its yield. `wake_tick` is 32 bits wide.
unfoldable pub sched_thread_sleep : ℕ → ℕ → Sched → Sched
sched_thread_sleep now ticks s = elim s.thread_current [
  | none ↦ s
  | some t ↦
      let s' = record s {
        thread_pool = λ p. record (s.thread_pool p) {
          wake_tick = if p == t then u32 (now + ticks) else wake_of s p;
          state = if p == t then thread_sleeping else state_of s p;
        };
      } in
      record (sleepq_insert t s') { sched_pending = true }
]
