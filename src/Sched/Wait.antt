-- ===== src/Sched/Wait.antt =====
-- The threads that wait for a process: blocking the current thread, and waking one.
pub mod Waiters
pub mod Wake
use unidos.Base.{
  ℕ, zero, suc, Bool, true, false, ◌&&◌, ◌||◌, ◌==◌, if◌then◌else◌, Option, none, some,
}
use unidos.Chain.{Links, link, cut_from}
use unidos.Sched.{
  Sched, WaitKind, wait_none, wait_any, wait_child, thread_runnable, thread_blocked, is_sleeping,
  is_blocked, state_of, wait_links, set_wait_links, waiters_of, set_waiters, set_state,
}
use unidos.Sched.Sleep.{sleepq_remove}

-- `sched_block_current_locked`, for the current thread `t` of the process `p`.
unfoldable pub block_thread : WaitKind → ℕ → ℕ → ℕ → Sched → Sched
block_thread kind target p t s = set_waiters p (some t) (record s {
  thread_pool = λ q. record (s.thread_pool q) {
    state = if q == t then thread_blocked else state_of s q;
    wait_kind = if q == t then kind else (s.thread_pool q).wait_kind;
    wait_target_pid = if q == t then target else (s.thread_pool q).wait_target_pid;
    wait_owner = if q == t then some p else (s.thread_pool q).wait_owner;
    wait_next = link t (waiters_of s p) (wait_links s) q;
  };
})

unfoldable pub sched_block_current_locked : WaitKind → ℕ → Sched → Sched
sched_block_current_locked kind target s = elim s.thread_current [
  | none ↦ s
  | some t ↦ block_thread kind target (s.thread_pool t).proc t s
]

-- The thread leaves the list of the process it waits for.
unfoldable pub unlink_waiter : ℕ → Sched → Sched
unlink_waiter t s = elim (s.thread_pool t).wait_owner [
  | none ↦ s
  | some p ↦ elim (waiters_of s p) [
    | none ↦ s
    | some h ↦
        if h == t
        then set_waiters p (wait_links s t) s
        else set_wait_links (cut_from s.thread_pool_count h t (wait_links s)) s
  ]
]

unfoldable pub clear_wait : ℕ → Sched → Sched
clear_wait t s = record s {
  thread_pool = λ q. record (s.thread_pool q) {
    wait_kind = if q == t then wait_none else (s.thread_pool q).wait_kind;
    wait_target_pid = if q == t then 0 else (s.thread_pool q).wait_target_pid;
    wait_owner = if q == t then none else (s.thread_pool q).wait_owner;
    wait_next = link t none (wait_links s) q;
  };
}

unfoldable pub sched_wake_thread : ℕ → Sched → Sched
sched_wake_thread t s =
    if is_sleeping (state_of s t)
    then sleepq_remove t (set_state t thread_runnable s)
    else if is_blocked (state_of s t)
    then clear_wait t (unlink_waiter t (set_state t thread_runnable s))
    else s

abbrev pub is_any : WaitKind → Bool
is_any wait_any = true
is_any _ = false

abbrev pub is_child : WaitKind → Bool
is_child wait_child = true
is_child _ = false

-- `match_any || match_pid`, for a waiting thread and the process number of a child.
abbrev pub matches : Sched → ℕ → ℕ → Bool
matches s pid t =
    is_any (s.thread_pool t).wait_kind
    || (is_child (s.thread_pool t).wait_kind && (s.thread_pool t).wait_target_pid == pid)

unfoldable pub waiter_loop : ℕ → ℕ → Option ℕ → Sched → Sched
waiter_loop zero pid it s = s
waiter_loop (suc fuel) pid it s = elim it [
  | none ↦ s
  | some t ↦
      let rest = waiter_loop fuel pid (wait_links s t) s in
      if matches s pid t then sched_wake_thread t s else rest
]

unfoldable pub wake_parent_waiter : ℕ → Sched → Sched
wake_parent_waiter child s = elim (s.process_pool child).parent [
  | none ↦ s
  | some p ↦ waiter_loop s.thread_pool_count (s.process_pool child).pid (waiters_of s p) s
]
