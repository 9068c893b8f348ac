-- ===== src/Sched/Run/Switch.antt =====
-- `sched_do_switch`.
use unidos.Base.{
  ℕ, ◌≡◌, refl, ◌∙◌, ◌&&◌, true, false, ◌==◌, if◌then◌else◌, inl, inr, Option, Option-cases, none,
  some, List, ◌∷◌, arith,
}
use unidos.Sched.{Sched, thread_running, thread_runnable, is_running, state_of, rq_links}
use unidos.Sched.Run.{next_runnable, switch_to, resume, set_aside, sched_do_switch}
use unidos.Sched.Run.Ring.{IsRing, first_runnable, next_runnable-first}

-- No thread but the current one is running.
abbrev pub OneRunning : Sched → Type 0
OneRunning s = (t : ℕ) → is_running (state_of s t) ≡ true → s.thread_current ≡ some t

abbrev NoneRunning : Sched → Type 0
NoneRunning s = (t : ℕ) → is_running (state_of s t) ≡ false

switch_to-state :
    (t : ℕ) (s : Sched) (u : ℕ)
    → state_of (switch_to t s) u ≡ (if u == t then thread_running else state_of s u)
unfolding switch_to
switch_to-state t s u = refl

resume-OneRunning :
    (old_esp : ℕ) (next : Option ℕ) (s : Sched)
    → NoneRunning s
    → OneRunning (resume old_esp next s).1
unfolding resume switch_to
resume-OneRunning old_esp none s quiet = λ t r. absurd (ground (arith, quiet t))
resume-OneRunning old_esp (some n) s quiet = λ t r. ground (arith, quiet t)

module _ (old_esp : ℕ) (s : Sched) where
  abbrev pending_off : Sched
  pending_off = record s { sched_pending = false }

  -- The current thread has been set aside.
  abbrev pub aside : ℕ → Sched
  aside c = set_aside old_esp c pending_off

  switch-first_time :
      (head : ℕ)
      → s.thread_current ≡ none
      → s.thread_head ≡ some head
      → sched_do_switch old_esp s ≡ resume old_esp (next_runnable s (some head)) pending_off
  unfolding sched_do_switch
  switch-first_time head e h = ground (arith, e, h)

  switch-idle :
      s.thread_current ≡ none
      → s.thread_head ≡ none
      → sched_do_switch old_esp s ≡ (old_esp, pending_off)
  unfolding sched_do_switch
  switch-idle e h = ground (arith, e, h)

  switch-empty :
      (c : ℕ)
      → s.thread_current ≡ some c
      → s.thread_head ≡ none
      → sched_do_switch old_esp s ≡ (old_esp, aside c)
  unfolding sched_do_switch
  switch-empty c e h = ground (arith, e, h)

  pub switch-next :
      (c head : ℕ)
      → s.thread_current ≡ some c
      → s.thread_head ≡ some head
      → sched_do_switch old_esp s
        ≡ resume old_esp (next_runnable (aside c) (rq_links s c)) (aside c)
  unfolding sched_do_switch set_aside
  switch-next c head e h = ground (arith, e, h)

  -- `sched_do_switch` leaves no thread running but the current one, if it was so before.
  pub do_switch-OneRunning : OneRunning s → OneRunning (sched_do_switch old_esp s).1
  unfolding set_aside
  do_switch-OneRunning one = elim (Option-cases s.thread_current) [
    | inl e ↦
        let quiet : NoneRunning pending_off = λ t. ground (arith, one t) in
        elim (Option-cases s.thread_head) [
          | inl h ↦ rw (switch-idle e h) one
          | inr (head, h) ↦
              rw (switch-first_time head e h)
                (resume-OneRunning old_esp (next_runnable s (some head)) pending_off quiet)
        ]
    | inr (c, e) ↦
        let quiet : NoneRunning (aside c) = λ t. ground (arith, one t) in
        elim (Option-cases s.thread_head) [
          | inl h ↦ rw (switch-empty c e h) (λ t r. absurd (ground (arith, quiet t)))
          | inr (head, h) ↦
              rw (switch-next c head e h)
                (resume-OneRunning old_esp (next_runnable (aside c) (rq_links s c)) (aside c) quiet)
        ]
  ]

-- The thread that goes on, if there is one; without one the stack stays as it is.
pub record Continues (old_esp : ℕ) (aside : Sched) (next : Option ℕ) (out : ℕ × Sched)
    : Type 0 where
  pub current : out.1.thread_current ≡ next
  pub stack : out.0 ≡ elim next [ none ↦ old_esp | some t ↦ (aside.thread_pool t).saved_esp ]
  pub kernel_stack :
      out.1.tss_esp0
      ≡ elim next [ none ↦ aside.tss_esp0 | some t ↦ (aside.thread_pool t).kstack_top ]
  pub states :
      (t : ℕ)
      → state_of out.1 t ≡ elim next [
        | none ↦ state_of aside t
        | some n ↦ if t == n then thread_running else state_of aside t
      ]

resume-Continues :
    (old_esp : ℕ) (next : Option ℕ) (s : Sched) → Continues old_esp s next (resume old_esp next s)
unfolding resume switch_to
resume-Continues old_esp none s = record {
  current = refl;
  stack = refl;
  kernel_stack = refl;
  states = λ t. refl;
}
resume-Continues old_esp (some n) s = record {
  current = refl;
  stack = refl;
  kernel_stack = refl;
  states = λ t. refl;
}

resume-saved_esp :
    (old_esp : ℕ) (next : Option ℕ) (s : Sched) (t : ℕ)
    → ((resume old_esp next s).1.thread_pool t).saved_esp ≡ (s.thread_pool t).saved_esp
unfolding resume switch_to
resume-saved_esp old_esp none s t = refl
resume-saved_esp old_esp (some n) s t = refl

-- The current thread `c` has been set aside: it is runnable if it was running, and its stack pointer
-- is saved; the rest is as it was.
pub record SetsAside (old_esp c : ℕ) (s aside : Sched) : Type 0 where
  pub stack_of :
      (t : ℕ)
      → (aside.thread_pool t).saved_esp ≡ (if t == c then old_esp else (s.thread_pool t).saved_esp)
  pub state_then :
      (t : ℕ)
      → state_of aside t
        ≡ (if t == c && is_running (state_of s c) then thread_runnable else state_of s t)

module _ (old_esp : ℕ) (s : Sched) (c head n : ℕ) (rest : List ℕ) where
  -- When the run queue is a ring, `sched_do_switch` sets the current thread aside, runnable if it was
  -- running, with its stack pointer saved, and goes on with the first runnable thread behind it in
  -- the ring, itself the last; that thread is running, the stack pointers are its own, and no other
  -- thread changes its state. Without a runnable thread it goes on with the stack it has.
  pub do_switch-first :
      s.thread_current ≡ some c
      → s.thread_head ≡ some head
      → rq_links s c ≡ some n
      → IsRing s n rest
      → SetsAside old_esp c s (aside old_esp s c)
        × Continues old_esp
            (aside old_esp s c)
            (first_runnable (aside old_esp s c) (n ∷ rest))
            (sched_do_switch old_esp s)
        × (((sched_do_switch old_esp s).1.thread_pool c).saved_esp ≡ old_esp)
  unfolding set_aside
  do_switch-first e h l ring =
      let set_ring : IsRing (aside old_esp s c) n rest = record {
        linked = ring.linked;
        apart = ring.apart;
        inside = ring.inside;
      } in
      let found = next_runnable-first (aside old_esp s c) n head rest h set_ring in
      let next = first_runnable (aside old_esp s c) (n ∷ rest) in
      rw (switch-next old_esp s c head e h, l, found)
        (
          record { stack_of = λ t. refl; state_then = λ t. ground arith },
          resume-Continues old_esp next (aside old_esp s c),
          resume-saved_esp old_esp next (aside old_esp s c) c ∙ ground arith,
        )
