-- ===== src/Sched/Run/Rounds.antt =====
-- Switches in a row, by `sched_do_switch` of `kernel/sched.c`, on a run queue that is a ring.
use unidos.Base.{
  ℕ, suc, ◌+◌, ◌≤◌, ◌<◌, ◌≡◌, ◌⊎◌, refl, ap, ◌∙◌, ◌==◌, true, false, inl, inr, Bool-cases, some,
  List, [], ◌∷◌, ◌++◌, arith, length, take, append_assoc,
}
use unidos.Chain.{Runs}
use unidos.Sched.{Sched, is_runnable, state_of, rq_links}
use unidos.Sched.Run.{sched_do_switch, set_aside, resume, switch_to}
use unidos.Sched.Run.Ring.{IsRing, first_runnable, next_runnable-first}
use unidos.Sched.Run.Switch.{aside, switch-next}
use unidos.Sched.Run.Turn.{IsRing-turn, Ahead, ahead}

-- The switches with the stack pointers of the list, one after the other.
unfoldable pub switches : List ℕ → Sched → Sched
switches [] s = s
switches (old_esp ∷ esps) s = switches esps (sched_do_switch old_esp s).1

resume-IsRing :
    (e u : ℕ) (s : Sched) (b : ℕ) (ps : List ℕ)
    → IsRing s b ps
    → IsRing (resume e (some u) s).1 b ps
unfolding resume switch_to
resume-IsRing e u s b ps ring = record {
  linked = ring.linked;
  apart = ring.apart;
  inside = ring.inside;
}

aside-IsRing :
    (e c : ℕ) (s : Sched) (b : ℕ) (ps : List ℕ) → IsRing s b ps → IsRing (aside e s c) b ps
unfolding set_aside
aside-IsRing e c s b ps ring = record {
  linked = ring.linked;
  apart = ring.apart;
  inside = ring.inside;
}

aside-runnable :
    (e c : ℕ) (s : Sched) (t : ℕ)
    → is_runnable (state_of s t) ≡ true
    → is_runnable (state_of (aside e s c) t) ≡ true
unfolding set_aside
aside-runnable e c s t run = ground arith

-- One switch: the next thread `u`.
module _ (e : ℕ) (s : Sched) (c head : ℕ) (current : s.thread_current ≡ some c)
    (h : s.thread_head ≡ some head) where
  abbrev set : Sched
  set = aside e s c

  switch-found :
      (n u : ℕ) (rest : List ℕ)
      → rq_links s c ≡ some n
      → IsRing set n rest
      → first_runnable set (n ∷ rest) ≡ some u
      → sched_do_switch e s ≡ resume e (some u) set
  unfolding set_aside
  switch-found n u rest l ring f =
      rw (switch-next e s c head current h, l, next_runnable-first set n head rest h ring, f) refl

  -- What the switch to `u` has done for `t`, which is runnable behind `before`.
  abbrev Steps : ℕ → List ℕ → Type 0
  Steps t before =
      (u : ℕ) × (sched_do_switch e s ≡ resume e (some u) set)
      × ((u ≡ t) ⊎ Ahead set t (length before) u)

  switch-Steps :
      (t : ℕ) (before after : List ℕ)
      → IsRing s c (before ++ t ∷ after)
      → is_runnable (state_of s t) ≡ true
      → Steps t before
  unfolding Runs first_runnable
  switch-Steps t [] after ring run =
      let turned = aside-IsRing e c s t (after ++ c ∷ []) (IsRing-turn s c t after ring) in
      let now = aside-runnable e c s t run in
      (t, switch-found t t (after ++ c ∷ []) (ring.linked.0) turned (rw now refl), inl refl)
  switch-Steps t (x ∷ bs) after ring run =
      let turned =
        aside-IsRing e c s x ((bs ++ t ∷ after) ++ c ∷ [])
          (IsRing-turn s c x (bs ++ t ∷ after) ring) in
      let ring_x = rw (append_assoc bs (t ∷ after) (c ∷ [])) at turned in
      let (u, f, w) = ahead set t x bs (after ++ c ∷ []) (aside-runnable e c s t run) ring_x in
      (
        u,
        switch-found x u (bs ++ t ∷ (after ++ c ∷ [])) (ring.linked.0) ring_x (f (after ++ c ∷ [])),
        w,
      )

resume-current : (e u : ℕ) (s : Sched) → (resume e (some u) s).1.thread_current ≡ some u
unfolding resume switch_to
resume-current e u s = refl

resume-head : (e u : ℕ) (s : Sched) → (resume e (some u) s).1.thread_head ≡ s.thread_head
unfolding resume switch_to
resume-head e u s = refl

resume-runnable :
    (e u : ℕ) (s : Sched) (t : ℕ)
    → (u == t) ≡ false
    → is_runnable (state_of s t) ≡ true
    → is_runnable (state_of (resume e (some u) s).1 t) ≡ true
unfolding resume switch_to
resume-runnable e u s t d run = ground arith

aside-head : (e c : ℕ) (s : Sched) → (aside e s c).thread_head ≡ s.thread_head
unfolding set_aside
aside-head e c s = refl

abbrev RunsWithin : Sched → ℕ → List ℕ → ℕ → Type 0
RunsWithin s t esps bound =
    (k : ℕ) × (k ≤ bound) × ((switches (take k esps) s).thread_current ≡ some t)

after-one :
    (e : ℕ) (esps : List ℕ) (s : Sched) (t bound : ℕ)
    → 0 < bound
    → (sched_do_switch e s).1.thread_current ≡ some t
    → RunsWithin s t (e ∷ esps) bound
unfolding switches
after-one e esps s t bound pos now = (1, omega arith, now)

after-more :
    (e : ℕ) (esps : List ℕ) (s : Sched) (t m bound : ℕ)
    → m < bound
    → RunsWithin (sched_do_switch e s).1 t esps m
    → RunsWithin s t (e ∷ esps) bound
unfolding switches
after-more e esps s t m bound less (k, le, now) = (suc k, omega arith, now)

-- When the run queue is a ring, every runnable thread in it comes to run: in a row of switches, with
-- any stack pointers, it is the current thread after at most as many as it has threads before it,
-- counted from the current one, and one.
pub switches-reach :
    (esps : List ℕ) (s : Sched) (c head t : ℕ) (before after : List ℕ)
    → s.thread_current ≡ some c
    → s.thread_head ≡ some head
    → IsRing s c (before ++ t ∷ after)
    → is_runnable (state_of s t) ≡ true
    → length before < length esps
    → RunsWithin s t esps (length before + 1)
switches-reach [] s c head t before after current h ring run enough = absurd (omega arith)
switches-reach (e ∷ esps) s c head t before after current h ring run enough =
    let (u, is, w) = switch-Steps e s c head current h t before after ring run in
    let set = aside e s c in
    let current_u : (sched_do_switch e s).1.thread_current ≡ some u =
      rw is (resume-current e u set) in
    elim w [
      | inl same ↦
          after-one e esps s t (length before + 1) (omega arith) (current_u ∙ ap (λ x. some x) same)
      | inr a ↦ elim (Bool-cases (u == t)) [
        | inl c ↦
            after-one e esps s t (length before + 1) (omega arith) (ground (arith, current_u, c))
        | inr d ↦
            let r = a.ring in
            after-more e esps s t (length a.before + 1) (length before + 1)
              (omega (arith, a.nearer))
              (switches-reach esps (sched_do_switch e s).1 u head t a.before a.after current_u
                (rw is (resume-head e u set ∙ (aside-head e c s ∙ h)))
                (rw is (resume-IsRing e u set u (a.before ++ t ∷ a.after) a.ring))
                (rw is (resume-runnable e u set t d (aside-runnable e c s t run)))
                (omega (arith, a.nearer)))
      ]
    ]
