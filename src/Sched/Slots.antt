-- ===== src/Sched/Slots.antt =====
-- The search for a free slot of the thread pool.
use unidos.Base.{
  ℕ, ◌+◌, ◌%◌, ◌<◌, ◌≡◌, refl, Bool, true, false, not, ◌==◌, if◌then◌else◌, inl, inr, ◌⊎◌, Option,
  Option-cases, none, some, arith, Bool-cases,
}
use unidos.Circular.{
  find_from, find_from-passes, find_from-lt, find_from-covers, find_from-first, round_of,
}
use unidos.Sched.{Sched}

abbrev pub is_free_slot : Sched → ℕ → Bool
is_free_slot s i = not (s.thread_pool i).slot_inuse

-- The slot, if there is one, is named by its index.
unfoldable pub alloc_thread_slot : Sched → Option ℕ × Sched
alloc_thread_slot s =
    let count = s.thread_pool_count in
    if count == 0
    then (none, s)
    else elim (find_from (is_free_slot s) count count (s.next_tid % count)) [
      | none ↦ (none, s)
      | some i ↦ (some i, record s { next_tid = (i + 1) % count })
    ]

-- Slot `i` was free, every slot that the search passes before it is in use, and the next search
-- begins behind it.
pub record Finds (s : Sched) (i : ℕ) (s' : Sched) : Type 0 where
  pub in_pool : i < s.thread_pool_count
  pub free : (s.thread_pool i).slot_inuse ≡ false
  pub first :
      (j : ℕ)
      → j < s.thread_pool_count
      → let start = s.next_tid % s.thread_pool_count in
        round_of s.thread_pool_count start j < round_of s.thread_pool_count start i
        → (s.thread_pool j).slot_inuse ≡ true
  pub next : s'.next_tid ≡ (i + 1) % s.thread_pool_count
  pub same_pool : s'.thread_pool ≡ s.thread_pool

abbrev pub MeetsSlots : Sched → Option ℕ × Sched → Type 0
MeetsSlots s (o, s') =
    ((i : ℕ) × (o ≡ some i) × Finds s i s')
    ⊎ ((o ≡ none)
        × (s' ≡ s)
        × ((j : ℕ) → j < s.thread_pool_count → (s.thread_pool j).slot_inuse ≡ true))

module _ (s : Sched) where
  abbrev start : ℕ
  start = s.next_tid % s.thread_pool_count

  abbrev found : Option ℕ
  found = find_from (is_free_slot s) s.thread_pool_count s.thread_pool_count start

  slot-found :
      (i : ℕ)
      → 0 < s.thread_pool_count
      → found ≡ some i
      → alloc_thread_slot s ≡ (some i, record s { next_tid = (i + 1) % s.thread_pool_count })
  unfolding alloc_thread_slot
  slot-found i pos e = ground (arith, e)

  slot-none : (s.thread_pool_count ≡ 0) ⊎ (found ≡ none) → alloc_thread_slot s ≡ (none, s)
  unfolding alloc_thread_slot
  slot-none c = ground (arith, c)

  -- `alloc_thread_slot` finds the first free slot of the pool in circular order from `next_tid`, and
  -- lets the next search begin behind it; or every slot is in use, and nothing changes.
  pub alloc_thread_slot-MeetsSlots : MeetsSlots s (alloc_thread_slot s)
  alloc_thread_slot-MeetsSlots = elim (Bool-cases (s.thread_pool_count == 0)) [
    | inl c ↦ rw (slot-none (inl (ground arith))) (inr (refl, refl, λ j lt. absurd (ground arith)))
    | inr c ↦
        let pos : 0 < s.thread_pool_count = ground arith in
        let lt : start < s.thread_pool_count = omega arith in
        elim (Option-cases found) [
          | inl e ↦ rw (slot-none (inr e)) (
              inr (
                refl,
                refl,
                λ j lj.
                    ground (
                      arith,
                      find_from-covers (is_free_slot s) s.thread_pool_count start j lt lj e,
                    ),
              ))
          | inr (i, e) ↦ rw (slot-found i pos e) (
              inl (
                i,
                refl,
                record {
                  in_pool =
                      find_from-lt (is_free_slot s) s.thread_pool_count s.thread_pool_count start i
                        lt e;
                  free = ground (
                    arith,
                    find_from-passes (is_free_slot s) s.thread_pool_count s.thread_pool_count start
                        i e,
                  );
                  first = λ j lj r. ground (
                    arith,
                    find_from-first (is_free_slot s) s.thread_pool_count s.thread_pool_count start i
                        j lt lj e r,
                  );
                  next = refl;
                  same_pool = refl;
                },
              ))
        ]
  ]
