-- ===== src/Sched/Run/Ring.antt =====
-- `next_runnable` on a run queue that is a ring.
use unidos.Base.{
  ℕ, zero, suc, ◌<◌, ◌≡◌, true, false, if◌then◌else◌, Option, none, some, List, [], ◌∷◌, arith,
  length,
}
use unidos.Chain.{member, distinct, Runs}
use unidos.Chain.Order.{below, length-below}
use unidos.Sched.{Sched, is_runnable, state_of, rq_links}
use unidos.Sched.Run.{run_loop, next_runnable}

-- The ring of the run queue, read from the thread `begin` on.
pub record IsRing (s : Sched) (begin : ℕ) (rest : List ℕ) : Type 0 where
  pub linked : Runs (rq_links s) (rq_links s begin) rest (some begin)
  pub apart : distinct (begin ∷ rest) ≡ true
  pub inside : below s.thread_pool_count (begin ∷ rest) ≡ true

unfoldable pub first_runnable : Sched → List ℕ → Option ℕ
first_runnable s [] = none
first_runnable s (t ∷ ts) =
    let rest = first_runnable s ts in if is_runnable (state_of s t) then some t else rest

module _ (s : Sched) (begin : ℕ) where
  run_loop-first :
      (fuel t : ℕ) (ts : List ℕ)
      → Runs (rq_links s) (rq_links s t) ts (some begin)
      → member begin ts ≡ false
      → length ts < fuel
      → run_loop fuel s begin t ≡ first_runnable s (t ∷ ts)
  unfolding Runs member run_loop first_runnable
  run_loop-first zero t ts r out lt = absurd (omega arith)
  run_loop-first (suc fuel) t [] r out lt = ground (arith, r)
  run_loop-first (suc fuel) t (u ∷ us) (e, r) out lt = ground (arith, e, run_loop-first fuel u us r)

  -- `next_runnable` from a thread of the ring answers the first runnable thread that it meets on
  -- the way around, or none if there is none.
  pub next_runnable-first :
      (head : ℕ) (rest : List ℕ)
      → s.thread_head ≡ some head
      → IsRing s begin rest
      → next_runnable s (some begin) ≡ first_runnable s (begin ∷ rest)
  unfolding next_runnable distinct
  next_runnable-first head rest e ring =
      let short = length-below s.thread_pool_count (begin ∷ rest) ring.apart ring.inside in
      let once =
        run_loop-first s.thread_pool_count begin rest ring.linked (ground (arith, ring.apart))
          (omega (arith, short)) in
      ground (arith, e, once)
