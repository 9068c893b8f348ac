-- ===== src/Sched/Run/Turn.antt =====
-- The run queue as a ring that is read from any of its threads, and the way to a runnable thread.
use unidos.Base.{
  ℕ, suc, ◌<◌, ◌≡◌, ◌⊎◌, refl, sym, true, inl, inr, Bool-cases, Option, some, List, [], ◌∷◌, ◌++◌,
  arith, length, append_assoc,
}
use unidos.Chain.{Links, Runs, member, distinct}
use unidos.Chain.Append.{append-member, append-distinct}
use unidos.Chain.Order.{below}
use unidos.Sched.{Sched, is_runnable, state_of, rq_links}
use unidos.Sched.Run.Ring.{IsRing, first_runnable}

-- The ring read from one thread further on.
append-Runs :
    (f : Links) (a : Option ℕ) (ps : List ℕ) (b : ℕ)
    → Runs f a ps (some b)
    → Runs f a (ps ++ b ∷ []) (f b)
unfolding Runs
append-Runs f a [] b r = (r, refl)
append-Runs f a (p ∷ ps) b (e, r) = (e, append-Runs f (f p) ps b r)

append-below : (n b : ℕ) (ps : List ℕ) → below n (b ∷ ps) ≡ true → below n (ps ++ b ∷ []) ≡ true
unfolding below
append-below n b [] e = e
append-below n b (p ∷ ps) e = ground (arith, append-below n b ps)

pub IsRing-turn :
    (s : Sched) (b n : ℕ) (ps : List ℕ) → IsRing s b (n ∷ ps) → IsRing s n (ps ++ b ∷ [])
unfolding Runs distinct member below
IsRing-turn s b n ps ring =
    let (e, r) = ring.linked in
    record {
      linked = rw (sym e) (append-Runs (rq_links s) (rq_links s n) ps b r);
      apart = ground (arith, ring.apart, append-member n b ps, append-distinct b ps);
      inside = ground (arith, ring.inside, append-below s.thread_pool_count b ps);
    }

-- The first runnable thread `u` from `b` on is `t`, or it lies before `t`, and fewer threads than
-- `bound` lie between it and `t`.
pub record Ahead (s : Sched) (t bound u : ℕ) : Type 0 where
  pub before : List ℕ
  pub after : List ℕ
  pub nearer : length before < bound
  pub ring : IsRing s u (before ++ t ∷ after)

abbrev pub Finds : Sched → ℕ → ℕ → List ℕ → Type 0
Finds s t b before =
    (u : ℕ) × ((z : List ℕ) → first_runnable s (b ∷ before ++ t ∷ z) ≡ some u)
    × ((u ≡ t) ⊎ Ahead s t (suc (length before)) u)

pub ahead :
    (s : Sched) (t b : ℕ) (before after : List ℕ)
    → is_runnable (state_of s t) ≡ true
    → IsRing s b (before ++ t ∷ after)
    → Finds s t b before
unfolding first_runnable
ahead s t b [] after run ring = elim (Bool-cases (is_runnable (state_of s b))) [
  | inl c ↦ (
    b,
    λ z. rw c refl,
    inr (record { before = []; after = after; nearer = omega arith; ring = ring }),
  )
  | inr c ↦ (t, λ z. rw c (rw run refl), inl refl)
]
ahead s t b (x ∷ bs) after run ring = elim (Bool-cases (is_runnable (state_of s b))) [
  | inl c ↦ (
    b,
    λ z. rw c refl,
    inr (record { before = x ∷ bs; after = after; nearer = omega arith; ring = ring }),
  )
  | inr c ↦
      let turned = IsRing-turn s b x (bs ++ t ∷ after) ring in
      let (u, f, w) =
        ahead s t x bs (after ++ b ∷ []) run
          (rw (append_assoc bs (t ∷ after) (b ∷ [])) at turned) in
      (
        u,
        λ z. rw c (f z),
        elim w [
          | inl e ↦ inl e
          | inr a ↦ inr (record {
            before = a.before;
            after = a.after;
            nearer = omega (arith, a.nearer);
            ring = a.ring;
          })
        ],
      )
]
