-- ===== src/Pool/Examples.antt =====
-- The theorems on `kernel/pool.c` at a machine with 128 MiB.
use unidos.Base.{ℕ, ◌+◌, ◌*◌, ◌≤◌, ◌≡◌, arith, none, ◌⊎◌}
use unidos.Pool.{pool_sizes, pool_get_kstack}
use unidos.Pool.Counts.{Fits, pool_sizes-Fits}
use unidos.Pool.Stacks.{HasStack, get_kstack-apart}

pool_sizes-Fits_example : Fits 120 200 (128 * 1024) (pool_sizes 120 200 (128 * 1024))
pool_sizes-Fits_example = pool_sizes-Fits 120 200 (128 * 1024) (omega arith) (omega arith)

get_kstack-apart_example :
    (pool_get_kstack 0xc1000000 256 256 ≡ none)
    × ((bottom_i : ℕ) × (top_i : ℕ) × (bottom_j : ℕ) × (top_j : ℕ) × HasStack 0xc1000000 256
          (omega arith)
          3
          bottom_i
          top_i
        × HasStack 0xc1000000 256 (omega arith) 255 bottom_j top_j
        × ((◌≡◌ {A = ℕ} 3 255) ⊎ ((top_i + 4096 ≤ bottom_j) ⊎ (top_j + 4096 ≤ bottom_i))))
get_kstack-apart_example =
    get_kstack-apart 0xc1000000 256 (omega arith) 3 255 256 (omega arith) (omega arith)
      (omega arith)
