-- ===== src/Sched.antt =====
-- The state of `kernel/sched.c`: threads, processes, and the queues that run through them.
mod Sleep
mod Slots
mod Run
mod Wait
mod Family
mod Examples
use unidos.Base.{
  ℕ, zero, suc, ◌+◌, ◌%◌, ◌^◌, Bool, true, false, not, ◌&&◌, ◌==◌, leb, ltb, if◌then◌else◌, Option,
  none, some, u32,
}
use unidos.Chain.{Links, link, advance, insert_after, points, unlink_after, unlink_from}

pub data ThreadState : Type 0 where
  thread_unused : ThreadState
  thread_runnable : ThreadState
  thread_running : ThreadState
  thread_sleeping : ThreadState
  thread_blocked : ThreadState
  thread_zombie : ThreadState

abbrev pub is_runnable : ThreadState → Bool
is_runnable thread_runnable = true
is_runnable _ = false

abbrev pub is_running : ThreadState → Bool
is_running thread_running = true
is_running _ = false

abbrev pub is_blocked : ThreadState → Bool
is_blocked thread_blocked = true
is_blocked _ = false

abbrev pub is_sleeping : ThreadState → Bool
is_sleeping thread_sleeping = true
is_sleeping _ = false

pub data ProcessState : Type 0 where
  proc_unused : ProcessState
  proc_alive : ProcessState
  proc_zombie : ProcessState
  proc_reaped : ProcessState

abbrev pub is_zombie : ProcessState → Bool
is_zombie proc_zombie = true
is_zombie _ = false

pub data WaitKind : Type 0 where
  wait_none : WaitKind
  wait_any : WaitKind
  wait_child : WaitKind
  wait_sleep : WaitKind
  wait_io : WaitKind

-- A pointer to a thread or a process is the index of its slot; `none` is `NULL`. Of a thread's
-- fields, those that the queues, the states and the switch use.
pub record Thread : Type 0 where
  pub slot_inuse : Bool
  pub state : ThreadState
  pub proc : ℕ
  pub saved_esp : ℕ
  pub kstack_top : ℕ
  pub wake_tick : ℕ
  pub exit_code : ℕ
  pub wait_kind : WaitKind
  pub wait_target_pid : ℕ
  pub wait_owner : Option ℕ
  pub wait_next : Option ℕ
  pub rq_next : Option ℕ
  pub sleep_next : Option ℕ

pub record Process : Type 0 where
  pub slot_inuse : Bool
  pub pid : ℕ
  pub ppid : ℕ
  pub state : ProcessState
  pub exit_code : ℕ
  pub parent : Option ℕ
  pub first_child : Option ℕ
  pub next_sibling : Option ℕ
  pub waiters : Option ℕ
  pub addr_space : Option ℕ

-- `tss_esp0` is the field of the task state segment, and `loaded_space` the address space that the
-- last call of `mm_switch` has loaded.
pub record Sched : Type 0 where
  pub thread_pool : ℕ → Thread
  pub thread_pool_count : ℕ
  pub process_pool : ℕ → Process
  pub process_pool_count : ℕ
  pub thread_head : Option ℕ
  pub thread_current : Option ℕ
  pub thread_sleep_head : Option ℕ
  pub rr_ticks_left : ℕ
  pub sched_pending : Bool
  pub next_tid : ℕ
  pub tss_esp0 : ℕ
  pub loaded_space : Option ℕ

abbrev pub rr_scheduler_cadence : ℕ
rr_scheduler_cadence = 10

abbrev pub state_of : Sched → ℕ → ThreadState
state_of s t = (s.thread_pool t).state

abbrev pub wake_of : Sched → ℕ → ℕ
wake_of s t = (s.thread_pool t).wake_tick

abbrev pub rq_links : Sched → Links
rq_links s t = (s.thread_pool t).rq_next

abbrev pub sleep_links : Sched → Links
sleep_links s t = (s.thread_pool t).sleep_next

abbrev pub wait_links : Sched → Links
wait_links s t = (s.thread_pool t).wait_next

-- Writes of one field, for the threads where it changes.
abbrev pub set_sleep_links : Links → Sched → Sched
set_sleep_links links s = record s {
  thread_pool = λ t. record (s.thread_pool t) { sleep_next = links t };
}

abbrev pub set_wait_links : Links → Sched → Sched
set_wait_links links s = record s {
  thread_pool = λ t. record (s.thread_pool t) { wait_next = links t };
}

abbrev pub waiters_of : Sched → ℕ → Option ℕ
waiters_of s p = (s.process_pool p).waiters

abbrev pub set_waiters : ℕ → Option ℕ → Sched → Sched
set_waiters p v s = record s {
  process_pool = λ q. record (s.process_pool q) { waiters = if q == p then v else waiters_of s q };
}

abbrev pub set_rq_links : Links → Sched → Sched
set_rq_links links s = record s {
  thread_pool = λ t. record (s.thread_pool t) { rq_next = links t };
}

abbrev pub set_state : ℕ → ThreadState → Sched → Sched
set_state t v s = record s {
  thread_pool = λ p. record (s.thread_pool p) { state = if p == t then v else state_of s p };
}
