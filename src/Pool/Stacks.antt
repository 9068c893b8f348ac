-- ===== src/Pool/Stacks.antt =====
-- The kernel stacks that `pool_get_kstack` of `kernel/pool.c` hands out.
use unidos.Base.{none, ◌⊎◌, refl, ℕ, ◌+◌, ◌*◌, ◌^◌, ◌≤◌, ◌<◌, ◌≡◌, arith, some, leb, true, false}
use unidos.Pool.{pool_get_kstack}

module _ (base slots : ℕ) (room : base + slots * 12288 < 2 ^ 32) where
  get_kstack-value :
      (i : ℕ)
      → i < slots
      → pool_get_kstack base slots i ≡ some (base + i * 12288 + 4096, base + i * 12288 + 12288)
  unfolding pool_get_kstack
  get_kstack-value i lt =
      let below : leb slots i ≡ false = ground arith in rw below (ground (arith, room, lt))

  get_kstack-none : (k : ℕ) → slots ≤ k → pool_get_kstack base slots k ≡ none
  unfolding pool_get_kstack
  get_kstack-none k le = let above : leb slots k ≡ true = ground arith in rw above refl

  -- Two pages of stack in the region, with the guard page of the slot below them.
  pub record HasStack (i bottom top : ℕ) : Type 0 where
    pub is : pool_get_kstack base slots i ≡ some (bottom, top)
    pub two_pages : top ≡ bottom + 8192
    pub above_guard : base + 4096 ≤ bottom
    pub inside : top ≤ base + slots * 12288

  slot-HasStack :
      (i : ℕ) → i < slots → HasStack i (base + i * 12288 + 4096) (base + i * 12288 + 12288)
  slot-HasStack i lt = record {
    is = get_kstack-value i lt;
    two_pages = omega arith;
    above_guard = omega arith;
    inside = omega arith;
  }

  -- `pool_get_kstack` of a region that holds `slots` stacks below `2 ^ 32` gives every slot two pages
  -- of stack in the region, and panics for any other number. Between the stacks of two different slots
  -- there lies a whole page, the guard page of the upper one.
  pub get_kstack-apart :
      (i j k : ℕ)
      → i < slots
      → j < slots
      → slots ≤ k
      → (pool_get_kstack base slots k ≡ none)
        × ((bottom_i : ℕ) × (top_i : ℕ) × (bottom_j : ℕ) × (top_j : ℕ) × HasStack i bottom_i top_i
            × HasStack j bottom_j top_j
            × ((i ≡ j) ⊎ ((top_i + 4096 ≤ bottom_j) ⊎ (top_j + 4096 ≤ bottom_i))))
  get_kstack-apart i j k li lj lk = (
    get_kstack-none k lk,
    (
      base + i * 12288 + 4096,
      base + i * 12288 + 12288,
      base + j * 12288 + 4096,
      base + j * 12288 + 12288,
      slot-HasStack i li,
      slot-HasStack j lj,
      ground arith,
    ),
  )
