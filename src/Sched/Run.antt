-- ===== src/Sched/Run.antt =====
-- The run queue, a ring of threads, and the switch to the next one.
pub mod Ring
pub mod Switch
pub mod Turn
pub mod Rounds
use unidos.Base.{
  ℕ, zero, suc, Bool, true, false, ◌==◌, if◌then◌else◌, Option, none, some, List, [], ◌∷◌,
}
use unidos.Chain.{Links}
use unidos.Sched.{
  Sched, thread_runnable, thread_running, is_runnable, is_running, state_of, rq_links, set_state,
}

-- The `do` loop of `next_runnable`: once around the ring at most.
unfoldable pub run_loop : ℕ → Sched → ℕ → ℕ → Option ℕ
run_loop zero s begin t = none
run_loop (suc fuel) s begin t = if is_runnable (state_of s t) then some t else elim (rq_links s t) [
  | none ↦ none
  | some n ↦ let rest = run_loop fuel s begin n in if n == begin then none else rest
]

unfoldable pub next_runnable : Sched → Option ℕ → Option ℕ
next_runnable s start = elim s.thread_head [
  | none ↦ none
  | some head ↦ elim start [
    | none ↦ run_loop s.thread_pool_count s head head
    | some t ↦ run_loop s.thread_pool_count s t t
  ]
]

-- The thread `t` becomes the current one: its state, its kernel stack and its address space, which
-- is left as it is where there is none.
unfoldable pub switch_to : ℕ → Sched → Sched
switch_to t s =
    let space = (s.process_pool (s.thread_pool t).proc).addr_space in
    record (set_state t thread_running s) {
      tss_esp0 = (s.thread_pool t).kstack_top;
      loaded_space = elim space [ none ↦ s.loaded_space | some m ↦ some m ];
    }

-- `thread_current = next; if (thread_current) { ... }`
unfoldable pub resume : ℕ → Option ℕ → Sched → ℕ × Sched
resume old_esp next s = elim next [
  | none ↦ (old_esp, record s { thread_current = none })
  | some t ↦ ((s.thread_pool t).saved_esp, switch_to t (record s { thread_current = some t }))
]

-- The current thread `c` is set aside: it is runnable if it was running.
unfoldable pub set_aside : ℕ → ℕ → Sched → Sched
set_aside old_esp c s = record s {
  thread_pool = λ t. record (s.thread_pool t) {
    saved_esp = if t == c then old_esp else (s.thread_pool t).saved_esp;
    state =
        if t == c
        then if is_running (state_of s c) then thread_runnable else state_of s c
        else state_of s t;
  };
}

-- The stack pointer to go on with, and the new state.
unfoldable pub sched_do_switch : ℕ → Sched → ℕ × Sched
sched_do_switch old_esp s = elim s.thread_current [
  | none ↦ elim s.thread_head [
    | none ↦ (old_esp, record s { sched_pending = false })
    | some head ↦ resume old_esp (next_runnable s (some head)) (record s { sched_pending = false })
  ]
  | some c ↦
      let aside = set_aside old_esp c (record s { sched_pending = false }) in
      elim s.thread_head [
        | none ↦ (old_esp, aside)
        | some head ↦ resume old_esp (next_runnable aside (rq_links aside c)) aside
      ]
]
