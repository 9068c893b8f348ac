-- ===== src/Sched/Wait/Waiters.antt =====
-- The list of the threads that wait for a process.
use unidos.Base.{ℕ, ◌<◌, ◌≡◌, refl, true, false, ◌==◌, if◌then◌else◌, none, some, List, ◌∷◌, arith}
use unidos.Chain.{link-at, link-Runs, member, distinct, Runs}
use unidos.Chain.Order.{below}
use unidos.Sched.{Sched, WaitKind, thread_blocked, state_of, wait_links, waiters_of}
use unidos.Sched.Wait.{block_thread, sched_block_current_locked}

-- The list of the process `p`: each thread once.
pub record HasWaiters (s : Sched) (p : ℕ) (ts : List ℕ) : Type 0 where
  pub linked : Runs (wait_links s) (waiters_of s p) ts none
  pub apart : distinct ts ≡ true
  pub inside : below s.thread_pool_count ts ≡ true

module _ (s : Sched) (p t : ℕ) where
  block_thread-HasWaiters :
      (kind : WaitKind) (target : ℕ) (ts : List ℕ)
      → HasWaiters s p ts
      → t < s.thread_pool_count
      → member t ts ≡ false
      → HasWaiters (block_thread kind target p t s) p (t ∷ ts)
  unfolding block_thread Runs distinct below
  block_thread-HasWaiters kind target ts w lt out = record {
    linked = (
      ground arith,
      rw (link-at t (waiters_of s p) (wait_links s))
          (link-Runs (wait_links s) t (waiters_of s p) (waiters_of s p) ts none out w.linked),
    );
    apart = ground (arith, w.apart);
    inside = ground (arith, w.inside);
  }

  block_current-block_thread :
      (kind : WaitKind) (target : ℕ)
      → s.thread_current ≡ some t
      → (s.thread_pool t).proc ≡ p
      → sched_block_current_locked kind target s ≡ block_thread kind target p t s
  unfolding sched_block_current_locked
  block_current-block_thread kind target e own = ground (arith, e, own)

  -- `sched_block_current_locked` blocks the current thread alone, which is not in the well-formed
  -- list of its process, and puts it in front of the list of the threads that wait for its process,
  -- with what it waits for.
  pub block_current-HasWaiters :
      (kind : WaitKind) (target : ℕ) (ts : List ℕ)
      → s.thread_current ≡ some t
      → (s.thread_pool t).proc ≡ p
      → HasWaiters s p ts
      → t < s.thread_pool_count
      → member t ts ≡ false
      → let s' = sched_block_current_locked kind target s in
        HasWaiters s' p (t ∷ ts)
        × ((q : ℕ) → state_of s' q ≡ (if q == t then thread_blocked else state_of s q))
        × ((s'.thread_pool t).wait_owner ≡ some p)
        × ((s'.thread_pool t).wait_kind ≡ kind)
        × ((s'.thread_pool t).wait_target_pid ≡ target)
  unfolding block_thread
  block_current-HasWaiters kind target ts e own w lt out =
      rw (block_current-block_thread kind target e own) (
        block_thread-HasWaiters kind target ts w lt out,
        λ q. refl,
        ground arith,
        ground arith,
        ground arith,
      )
