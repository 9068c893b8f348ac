-- ===== src/Circular.antt =====
-- The circular search of the frame and thread allocators: from a hint, through every index once.
use unidos.Base.{
  ℕ, zero, suc, ◌+◌, ◌-◌, ◌<◌, ◌≡◌, Bool, true, false, Option, none, some, arith, leb,
  if◌then◌else◌, Bool-cases, inl, inr,
}

-- `f = (f+1 >= n) ? 0 : f+1`
abbrev pub next_index : ℕ → ℕ → ℕ
next_index n f = if leb n (f + 1) then 0 else f + 1

-- `k` rounds from `f`: the first index that passes the test.
unfoldable pub find_from : (ℕ → Bool) → ℕ → ℕ → ℕ → Option ℕ
find_from test n zero f = none
find_from test n (suc k) f =
    let rest = find_from test n k (next_index n f) in if test f then some f else rest

-- The round, counted from 0, in which a search from `f` reaches `g`.
abbrev pub round_of : ℕ → ℕ → ℕ → ℕ
round_of n f g = if leb f g then g - f else g + n - f

module _ (test : ℕ → Bool) (n : ℕ) where
  pub find_from-passes : (k f g : ℕ) → find_from test n k f ≡ some g → test g ≡ true
  unfolding find_from
  find_from-passes zero f g e = ground arith
  find_from-passes (suc k) f g e = ground (arith, find_from-passes k (next_index n f) g)

  pub find_from-lt : (k f g : ℕ) → f < n → find_from test n k f ≡ some g → g < n
  unfolding find_from
  find_from-lt zero f g lt e = ground arith
  find_from-lt (suc k) f g lt e = ground (arith, find_from-lt k (next_index n f) g)

  -- What the search passes over before its answer fails the test.
  pub find_from-first :
      (k f g h : ℕ)
      → f < n
      → h < n
      → find_from test n k f ≡ some g
      → round_of n f h < round_of n f g
      → test h ≡ false
  unfolding find_from
  find_from-first zero f g h lf lh e r = ground arith
  find_from-first (suc k) f g h lf lh e r = elim (Bool-cases (test f)) [
    | inl hit ↦ ground arith
    | inr miss ↦
        ground (arith, find_from-lt k (next_index n f) g, find_from-first k (next_index n f) g h)
  ]

  -- A search that finds nothing has seen every index that it had rounds for.
  pub find_from-none :
      (k f h : ℕ)
      → f < n
      → h < n
      → find_from test n k f ≡ none
      → round_of n f h < k
      → test h ≡ false
  unfolding find_from
  find_from-none zero f h lf lh e r = elim r [ ]
  find_from-none (suc k) f h lf lh e r = ground (arith, find_from-none k (next_index n f) h)

  -- `n` rounds are enough.
  pub find_from-covers : (f h : ℕ) → f < n → h < n → find_from test n n f ≡ none → test h ≡ false
  find_from-covers f h lf lh e = find_from-none n f h lf lh e (ground arith)
