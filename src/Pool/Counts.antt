-- ===== src/Pool/Counts.antt =====
-- The sizes that `pool_init` of `kernel/pool.c` computes.
use unidos.Base.{
  refl, ap, ℕ, zero, suc, ◌+◌, ◌*◌, ◌/◌, ◌%◌, ◌≤◌, ◌<◌, ◌≡◌, arith, false, Bool-cases, inl, inr,
  ltb, u32,
}
use native.Mathlib.Nat.{mul-le-mul, div-lt_iff_lt-mul, suc-mul}
use unidos.Pool.{goes_on, max_scalar, scale, scalar_of, Sizes, pool_sizes}

scale-stops :
    (fuel m s : ℕ)
    → 1 ≤ s
    → s ≤ max_scalar
    → max_scalar ≤ s + fuel
    → (goes_on (scale fuel m s).0 (scale fuel m s).1 ≡ false)
      × ((1 ≤ (scale fuel m s).1) × ((scale fuel m s).1 ≤ max_scalar))
unfolding scale
scale-stops zero m s low high enough = (ground arith, (low, high))
scale-stops (suc fuel) m s low high enough = elim (Bool-cases (goes_on m s)) [
  | inl c ↦ rw c (scale-stops fuel (m / 2) (s + 1) (omega arith) (ground arith) (omega arith))
  | inr c ↦ rw c (c, (low, high))
]

-- The loop has ended by its own test, with a scalar from 1 to 4.
scalar_of-range :
    (kib : ℕ)
    → (goes_on (scale max_scalar (kib / 1024) 1).0 (scalar_of kib) ≡ false)
      × ((1 ≤ scalar_of kib) × (scalar_of kib ≤ max_scalar))
unfolding scalar_of
scalar_of-range kib =
    scale-stops max_scalar (kib / 1024) 1 (omega arith) (omega arith) (omega arith)

-- The loop for the scalar has ended with 1 to 4, no size has wrapped around, the regions are whole
-- pages and at most 18 MiB together, the region of threads has room for one thread for each stack but
-- for less than a page, and every slot of a thread has its own kernel stack.
pub record Fits (thread_size process_size kib : ℕ) (z : Sizes) : Type 0 where
  pub ended : goes_on (scale max_scalar (kib / 1024) 1).0 (scalar_of kib) ≡ false
  pub scalar : (1 ≤ scalar_of kib) × (scalar_of kib ≤ 4)
  pub stacks : z.kstack_slots ≡ 256 * scalar_of kib
  pub stack_pages : z.kstack_pages ≡ 3 * z.kstack_slots
  pub processes : z.processpool_size ≡ 128 * 4096 * scalar_of kib
  pub threads : z.kstack_slots * thread_size < z.threadpool_size + 4096
  pub thread_slots : z.thread_slots ≡ z.threadpool_size / thread_size
  pub process_slots : z.process_slots ≡ z.processpool_size / process_size
  pub has_stack : z.thread_slots ≤ z.kstack_slots
  pub thread_pages : z.threadpool_size % 4096 ≡ 0
  pub process_pages : z.processpool_size % 4096 ≡ 0
  pub together : z.threadpool_size + z.processpool_size + z.kstack_pages * 4096 ≤ 18 * 1024 * 1024

module _ (thread_size process_size kib : ℕ) (some_bytes : 0 < thread_size)
    (page_at_most : thread_size ≤ 4096) where
  abbrev z : Sizes
  z = pool_sizes thread_size process_size kib

  abbrev s : ℕ
  s = scalar_of kib

  sizes-stacks : (z.kstack_slots ≡ 256 * s) × (z.kstack_pages ≡ 3 * z.kstack_slots)
  unfolding pool_sizes
  sizes-stacks = let r = scalar_of-range kib in (omega (arith, r), omega (arith, r))

  sizes-process : (z.processpool_size ≡ 128 * 4096 * s)
  unfolding pool_sizes
  sizes-process = let r = scalar_of-range kib in omega (arith, r)

  -- The stacks, and the bytes that as many threads take.
  abbrev st : ℕ
  st = u32 (256 * 3 * s) / 3

  abbrev full : ℕ
  full = u32 (256 * 4096 * s)

  thread-bytes : st * thread_size ≤ st * 4096
  thread-bytes =
      mul-le-mul {n₁ = st} {m₁ = thread_size} {n₂ = st} {m₂ = 4096} (omega arith) page_at_most

  sizes-thread : (z.threadpool_size % 4096 ≡ 0) × (z.threadpool_size ≤ 256 * 4096 * s)
  unfolding pool_sizes
  sizes-thread =
      let r = scalar_of-range kib in
      let b = thread-bytes in
      elim (Bool-cases (ltb st (full / thread_size))) [
        | inl c ↦ rw c (omega arith, omega (arith, r, b))
        | inr c ↦ rw c (omega (arith, r), omega (arith, r))
      ]

  few : (x : ℕ) → x ≤ st * thread_size → x / thread_size ≤ st
  few x le =
      let lt =
        (div-lt_iff_lt-mul {k = thread_size} {x = x} {y = suc st} some_bytes).1
          (omega (arith, suc-mul st thread_size)) in
      omega (arith, lt)

  sizes-slots : z.thread_slots ≤ z.kstack_slots
  unfolding pool_sizes
  sizes-slots = elim (Bool-cases (ltb st (full / thread_size))) [
    | inl c ↦ rw c (few (u32 (st * thread_size) / 4096 * 4096) (omega arith))
    | inr c ↦ rw c (ground (arith, c))
  ]

  sizes-room : st * thread_size < z.threadpool_size + 4096
  unfolding pool_sizes
  sizes-room =
      let r = scalar_of-range kib in
      let b = thread-bytes in
      elim (Bool-cases (ltb st (full / thread_size))) [
        | inl c ↦ rw c (omega (arith, r, b))
        | inr c ↦ rw c (omega (arith, r, b))
      ]

  slots-of :
      (z.thread_slots ≡ z.threadpool_size / thread_size)
      × (z.process_slots ≡ z.processpool_size / process_size)
  unfolding pool_sizes
  slots-of = (refl, refl)

  -- `pool_init` computes, for a `thread_t` of 1 byte to a page, sizes that do not wrap around. The loop
  -- for the scalar has ended with 1 to 4; for each of it there are 256 stacks of three pages and 512 KiB
  -- of processes; the region of threads has room for a thread for each stack, but for less than a page.
  -- The numbers of slots are those that the regions hold, and there are at most as many threads as
  -- stacks, so that every slot of a thread has its own. The regions of threads and processes are whole
  -- pages, and all three together take at most 18 MiB.
  pub pool_sizes-Fits : Fits thread_size process_size kib z
  pool_sizes-Fits =
      let r = scalar_of-range kib in
      let same : st ≡ z.kstack_slots = omega (arith, r, sizes-stacks) in
      record {
        ended = r.0;
        scalar = r.1;
        stacks = sizes-stacks.0;
        stack_pages = sizes-stacks.1;
        processes = sizes-process;
        threads = omega (arith, sizes-room, ap (λ x. x * thread_size) same);
        thread_slots = slots-of.0;
        process_slots = slots-of.1;
        has_stack = sizes-slots;
        thread_pages = sizes-thread.0;
        process_pages = omega (arith, sizes-process);
        together = omega (arith, r, sizes-stacks, sizes-process, sizes-thread);
      }
