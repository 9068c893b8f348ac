-- ===== src/Sched/Examples.antt =====
-- The theorems on `kernel/sched.c` at four threads.
use unidos.Base.{
  take, ◌≤◌, ℕ, ◌⊎◌, ◌+◌, ◌%◌, ◌≡◌, refl, true, false, ◌==◌, if◌then◌else◌, none, some, List, [],
  ◌∷◌, arith,
}
use unidos.Chain.{member, distinct, Runs}
use unidos.Chain.Order.{below, ordered, at_least}
use unidos.Sched.{
  Sched, Thread, thread_running, thread_runnable, thread_sleeping, thread_blocked, proc_alive,
  proc_zombie, wait_none, wait_any, wait_child, state_of,
}
use unidos.Sched.Sleep.{sched_on_tick, sched_thread_sleep}
use unidos.Sched.Sleep.Asleep.{asleep, thread_sleep-IsQueue}
use unidos.Sched.Sleep.Queue.{IsQueue, with_sleeper}
use unidos.Sched.Sleep.Tick.{MeetsTick, on_tick-MeetsTick}
use unidos.Sched.Wait.{wake_parent_waiter}
use unidos.Sched.Wait.Waiters.{HasWaiters}
use unidos.Sched.Wait.Wake.{AreBlocked, Wakes, first_match, wake_parent_waiter-Wakes}
use unidos.Sched.Run.{sched_do_switch}
use unidos.Sched.Run.Rounds.{switches, switches-reach}
use unidos.Sched.Run.Ring.{IsRing, first_runnable}
use unidos.Sched.Run.Switch.{Continues, SetsAside, aside, do_switch-first}

-- Thread 0 runs, 1 can run, 2 and 3 sleep until the ticks 5 and 9; all four are in the ring.
abbrev four : ℕ → Thread
four t = record {
  slot_inuse = true;
  state = if t == 0 then thread_running else if t == 1 then thread_runnable else thread_sleeping;
  proc = 0;
  saved_esp = 1000 + t;
  kstack_top = 2000 + t;
  wake_tick = if t == 2 then 5 else if t == 3 then 9 else 0;
  exit_code = 0;
  wait_kind = wait_none;
  wait_target_pid = 0;
  wait_owner = none;
  wait_next = none;
  rq_next = some ((t + 1) % 4);
  sleep_next = if t == 2 then some 3 else none;
}

abbrev busy : Sched
busy = record {
  thread_pool = four;
  thread_pool_count = 4;
  process_pool_count = 8;
  process_pool = λ p. record {
    slot_inuse = true;
    pid = p;
    ppid = 0;
    state = proc_alive;
    exit_code = 0;
    parent = none;
    first_child = none;
    next_sibling = none;
    waiters = none;
    addr_space = none;
  };
  thread_head = some 0;
  thread_current = some 0;
  thread_sleep_head = some 2;
  rr_ticks_left = 10;
  sched_pending = false;
  next_tid = 3;
  tss_esp0 = 2000;
  loaded_space = none;
}

abbrev sleepers : List ℕ
sleepers = 2 ∷ 3 ∷ []

busy-IsQueue : IsQueue busy sleepers
unfolding Runs distinct member below ordered at_least
busy-IsQueue = record {
  linked = (refl, (refl, refl));
  apart = refl;
  inside = refl;
  in_order = refl;
}

zero_awake : member 0 sleepers ≡ false
unfolding member
zero_awake = refl

busy-IsRing : IsRing busy 1 (2 ∷ 3 ∷ 0 ∷ [])
unfolding Runs distinct member below
busy-IsRing = record { linked = (refl, (refl, (refl, refl))); apart = refl; inside = refl }

on_tick-MeetsTick_example : MeetsTick busy 7 sleepers (sched_on_tick 7 busy)
on_tick-MeetsTick_example = on_tick-MeetsTick busy 7 sleepers busy-IsQueue

thread_sleep-IsQueue_example :
    let s' = sched_thread_sleep 7 100 busy in
    IsQueue s' (with_sleeper (asleep busy 7 100 0) 0 sleepers)
    × ((p : ℕ) → state_of s' p ≡ (if p == 0 then thread_sleeping else state_of busy p))
    × (s'.sched_pending ≡ true)
thread_sleep-IsQueue_example =
    thread_sleep-IsQueue busy 7 100 0 sleepers refl (omega arith) busy-IsQueue zero_awake

do_switch-first_example :
    SetsAside 77 0 busy (aside 77 busy 0)
    × Continues 77
        (aside 77 busy 0)
        (first_runnable (aside 77 busy 0) (1 ∷ 2 ∷ 3 ∷ 0 ∷ []))
        (sched_do_switch 77 busy)
    × (((sched_do_switch 77 busy).1.thread_pool 0).saved_esp ≡ 77)
do_switch-first_example = do_switch-first 77 busy 0 0 1 (2 ∷ 3 ∷ 0 ∷ []) refl refl refl busy-IsRing

-- All four threads want to run.
abbrev eager : Sched
eager = record busy {
  thread_pool = λ t. record (four t) { state = if t == 0 then thread_running else thread_runnable };
}

eager-IsRing : IsRing eager 0 (1 ∷ 2 ∷ 3 ∷ [])
unfolding Runs distinct member below
eager-IsRing = record { linked = (refl, (refl, (refl, refl))); apart = refl; inside = refl }

switches-reach_example :
    (k : ℕ) × (k ≤ 3) × ((switches (take k (10 ∷ 20 ∷ 30 ∷ 40 ∷ [])) eager).thread_current ≡ some 3)
switches-reach_example =
    switches-reach (10 ∷ 20 ∷ 30 ∷ 40 ∷ []) eager 0 0 3 (1 ∷ 2 ∷ []) [] refl refl eager-IsRing refl
      (omega arith)

-- Threads 2 and 3 wait for process 1: for child 4 and for any child. Thread 0 runs. The children of
-- process 1 are 4 and 5, and 5 is a zombie.
abbrev waiting : ℕ → Thread
waiting t = record {
  slot_inuse = true;
  state = if t == 0 then thread_running else thread_blocked;
  proc = 1;
  saved_esp = 1000 + t;
  kstack_top = 2000 + t;
  wake_tick = 0;
  exit_code = 0;
  wait_kind = if t == 2 then wait_child else wait_any;
  wait_target_pid = if t == 2 then 4 else 0;
  wait_owner = some 1;
  wait_next = if t == 2 then some 3 else none;
  rq_next = some ((t + 1) % 4);
  sleep_next = none;
}

abbrev held : Sched
held = record {
  thread_pool = waiting;
  thread_pool_count = 4;
  process_pool_count = 8;
  process_pool = λ p. record {
    slot_inuse = true;
    pid = p;
    ppid = 1;
    state = if p == 5 then proc_zombie else proc_alive;
    exit_code = 0;
    parent = some 1;
    first_child = if p == 1 then some 4 else none;
    next_sibling = if p == 4 then some 5 else none;
    waiters = if p == 1 then some 2 else none;
    addr_space = none;
  };
  thread_head = some 0;
  thread_current = some 0;
  thread_sleep_head = none;
  rr_ticks_left = 10;
  sched_pending = false;
  next_tid = 0;
  tss_esp0 = 2000;
  loaded_space = none;
}

held-HasWaiters : HasWaiters held 1 sleepers
unfolding Runs distinct member below
held-HasWaiters = record { linked = (refl, (refl, refl)); apart = refl; inside = refl }

held-AreBlocked : AreBlocked held 1 sleepers
unfolding member
held-AreBlocked = λ t here. (ground arith, refl)

-- The child 5 exits: thread 3 waits for any.
wake_parent_waiter-Wakes_example :
    let next = first_match held 5 sleepers in
    let s' = wake_parent_waiter 5 held in
    ((next ≡ none) × (s' ≡ held)) ⊎ ((t : ℕ) × (next ≡ some t) × Wakes held 1 t sleepers s')
wake_parent_waiter-Wakes_example =
    wake_parent_waiter-Wakes held 5 1 sleepers held-HasWaiters refl held-AreBlocked
