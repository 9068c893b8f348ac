-- ===== src/Pool.antt =====
-- `kernel/pool.c`: the sizes of the pools of threads, processes and kernel stacks, their regions, and
-- the stack of a slot.
mod Counts
mod Stacks
mod Examples
use unidos.Base.{
  ℕ, zero, suc, ◌+◌, ◌-◌, ◌*◌, ◌/◌, ◌%◌, Bool, true, false, not, ◌&&◌, ◌==◌, leb, ltb,
  if◌then◌else◌, Option, none, some, List, [], ◌∷◌, u32,
}
use unidos.Pmm.Reserve.{paging_ok}
use unidos.Paging.{Paging, paging_set_flags}
use unidos.Kva.{Kva, Name, chars, kva_register_region, kva_map_region}

abbrev pub pool_pages : ℕ
pool_pages = 256

abbrev pub max_scalar : ℕ
max_scalar = 4

-- Two pages of stack above one guard page.
abbrev pub kstack_stride_pages : ℕ
kstack_stride_pages = 3

abbrev pub goes_on : ℕ → ℕ → Bool
goes_on memory_mb scalar = not (memory_mb / 2 == 0) && (ltb 16 memory_mb && ltb scalar max_scalar)

-- The loop that finds the scalar, with at most `fuel` rounds; the memory and the scalar at its end.
unfoldable pub scale : ℕ → ℕ → ℕ → ℕ × ℕ
scale zero memory_mb scalar = (memory_mb, scalar)
scale (suc fuel) memory_mb scalar =
    let rest = scale fuel (memory_mb / 2) (scalar + 1) in
    if goes_on memory_mb scalar then rest else (memory_mb, scalar)

-- The scalar starts at 1 and grows in each round up to 4.
unfoldable pub scalar_of : ℕ → ℕ
scalar_of avail_memory_kib = (scale max_scalar (avail_memory_kib / 1024) 1).1

-- The sizes of the regions and the numbers of slots.
pub record Sizes : Type 0 where
  pub processpool_size : ℕ
  pub threadpool_size : ℕ
  pub kstack_pages : ℕ
  pub thread_slots : ℕ
  pub process_slots : ℕ
  pub kstack_slots : ℕ

-- `thread_size` and `process_size` are the sizes of `thread_t` and `process_t`.
unfoldable pub pool_sizes : ℕ → ℕ → ℕ → Sizes
pool_sizes thread_size process_size avail_memory_kib =
    let scalar = scalar_of avail_memory_kib in
    let process_bytes = u32 (pool_pages / 2 * 4096 * scalar) in
    let pages = u32 (pool_pages / 1 * kstack_stride_pages * scalar) in
    let full = u32 (pool_pages / 1 * 4096 * scalar) in
    let thread_bytes =
      if ltb (pages / kstack_stride_pages) (full / thread_size)
      then u32 (pages / kstack_stride_pages * thread_size) / 4096 * 4096
      else full in
    record {
      processpool_size = process_bytes;
      threadpool_size = thread_bytes;
      kstack_pages = pages;
      thread_slots = thread_bytes / thread_size;
      process_slots = process_bytes / process_size;
      kstack_slots = pages / kstack_stride_pages;
    }

-- The bottom and the top of the stack of a slot; `none` for a panic.
unfoldable pub pool_get_kstack : ℕ → ℕ → ℕ → Option (ℕ × ℕ)
pool_get_kstack kstack_pool_base kstack_slots slot =
    let kstack_virt = u32 (kstack_pool_base + u32 (slot * kstack_stride_pages * 4096)) in
    if leb kstack_slots slot
    then none
    else some (u32 (kstack_virt + 4096), u32 (kstack_virt + kstack_stride_pages * 4096))

-- `threadpool`, `processpool` and `kstacks`
abbrev pub threadpool : Name
threadpool = chars (116 ∷ 104 ∷ 114 ∷ 101 ∷ 97 ∷ 100 ∷ 112 ∷ 111 ∷ 111 ∷ 108 ∷ [])

abbrev pub processpool : Name
processpool = chars (112 ∷ 114 ∷ 111 ∷ 99 ∷ 101 ∷ 115 ∷ 115 ∷ 112 ∷ 111 ∷ 111 ∷ 108 ∷ [])

abbrev pub kstacks : Name
kstacks = chars (107 ∷ 115 ∷ 116 ∷ 97 ∷ 99 ∷ 107 ∷ 115 ∷ [])

-- The loop over the guard pages, with `n` stacks left from page `i` on; `none` for a panic.
unfoldable pub guard_pages : ℕ → ℕ → ℕ → Paging → Option Paging
guard_pages zero base i p = some p
guard_pages (suc n) base i p =
    let (res, q) = paging_set_flags (u32 (base + i * 4096)) 1 p in
    elim res [ paging_ok ↦ guard_pages n base (i + kstack_stride_pages) q | _ ↦ none ]

pub record Pools : Type 0 where
  pub thread_pool_base : ℕ
  pub process_pool_base : ℕ
  pub kstack_pool_base : ℕ
  pub sizes : Sizes

abbrev pub and_then {ℓ} : {A B : Type ℓ} → Option A → (A → Option B) → Option B
and_then none f = none
and_then (some a) f = f a

abbrev pub map_or_panic : Name → Kva × Paging → Option (Kva × Paging)
map_or_panic name (k, p) = elim (kva_map_region (some name) k p) [
  | none ↦ none
  | some (mapped, k', p') ↦ if mapped then some (k', p') else none
]

-- The whole of it: the bases of the regions, and the states of the areas and of the paging.
unfoldable pub pool_init : ℕ → ℕ → ℕ → ℕ → Kva → Paging → Option (Pools × Kva × Paging)
pool_init image_size thread_size process_size avail_memory_kib k p =
    let z = pool_sizes thread_size process_size avail_memory_kib in
    and_then (kva_register_region image_size threadpool z.threadpool_size k) (λ t.
      and_then (kva_register_region image_size processpool z.processpool_size t.1) (λ c.
        and_then (kva_register_region image_size kstacks (u32 (z.kstack_pages * 4096)) c.1) (λ s.
          and_then (map_or_panic threadpool (s.1, p)) (λ m1.
            and_then (map_or_panic processpool m1) (λ m2. and_then (map_or_panic kstacks m2) (λ m3.
              and_then (guard_pages z.kstack_slots s.0 0 m3.1) (λ q. some (
                record {
                  thread_pool_base = t.0;
                  process_pool_base = c.0;
                  kstack_pool_base = s.0;
                  sizes = z;
                },
                m3.0,
                q,
              ))))))))
