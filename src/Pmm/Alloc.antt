-- ===== src/Pmm/Alloc.antt =====
-- Transient allocation in `kernel/kmem.c`.
pub mod Block
pub mod Specific
use unidos.Base.{ℕ, zero, suc, ◌+◌, ◌/◌, ◌%◌, ◌*◌, Bool, true, false, not, ◌==◌, leb, if◌then◌else◌}
use unidos.Bitmap.Bits.{test_bit}
use unidos.Circular.{next_index}
use unidos.Pmm.State.{
  Pmm, PmmAllocResult, alloc_success, alloc_oom, no_pages_initialized, bitmap_not_initialized,
  bitmap_inconsistent_reserved, already_allocated, alloc_reserved, out_of_bounds, unaligned_addr,
  already_free, bm_set, bm_clear, frame_address, frame_reserved, pmm_query_bitmap,
}

-- A status, a physical address (0 on failure) and the new state.
abbrev pub Allocated : Type 0
Allocated = PmmAllocResult × ℕ × Pmm

-- `bm_set(f); frame_hint = (f + 1) % frame_count; return f << 12;`
unfoldable pub take_frame : Pmm → ℕ → Allocated
unfolding bm_set
take_frame s f =
    (alloc_success, frame_address f, record (bm_set f s) { frame_hint = (f + 1) % s.frame_count })

-- The loop of `pmm_alloc_frame`: the rounds left, and the frame `f`.
unfoldable pub alloc_frame_loop : Pmm → ℕ → ℕ → Allocated
alloc_frame_loop s zero f = (alloc_oom, 0, s)
alloc_frame_loop s (suc k) f =
    let rest = alloc_frame_loop s k (next_index s.frame_count f) in
    if s.pagebitmap (f / 8) == 0
    then take_frame s f
    else if not (test_bit s.pagebitmap f)
    then take_frame s f
    else rest

unfoldable pub pmm_alloc_frame : Pmm → Allocated
unfolding alloc_frame_loop
pmm_alloc_frame s =
    if s.frame_count == 0
    then (no_pages_initialized, 0, s)
    else alloc_frame_loop s s.frame_count s.frame_hint

-- A candidate of `pmm_get_next_available_block`, with its check of the reserved regions.
unfoldable pub take_block : Pmm → ℕ → Allocated
unfolding take_frame
take_block s f =
    if frame_reserved s (frame_address f)
    then (bitmap_inconsistent_reserved, 0, s)
    else take_frame s f

unfoldable pub next_block_loop : Pmm → ℕ → ℕ → Allocated
next_block_loop s zero f = (alloc_oom, 0, s)
next_block_loop s (suc k) f =
    let rest = next_block_loop s k (next_index s.frame_count f) in
    if s.pagebitmap (f / 8) == 0
    then take_block s f
    else if not (test_bit s.pagebitmap f)
    then take_block s f
    else rest

unfoldable pub pmm_get_next_available_block : Pmm → Allocated
unfolding next_block_loop
pmm_get_next_available_block s =
    if s.frame_count == 0
    then (no_pages_initialized, 0, s)
    else if not s.bitmap_ready
    then (bitmap_not_initialized, 0, s)
    else next_block_loop s s.frame_count s.frame_hint

unfoldable pub pmm_alloc_specific_block : Pmm → ℕ → PmmAllocResult × Pmm
unfolding bm_set pmm_query_bitmap
pmm_alloc_specific_block s address =
    if not (address % 4096 == 0)
    then (unaligned_addr, s)
    else if leb s.frame_count (address / 4096)
    then (out_of_bounds, s)
    else if frame_reserved s address
    then (alloc_reserved, s)
    else if pmm_query_bitmap s address
    then (already_allocated, s)
    else (alloc_success, bm_set (address / 4096) s)

unfoldable pub pmm_dealloc_specific_block : Pmm → ℕ → PmmAllocResult × Pmm
unfolding bm_clear pmm_query_bitmap
pmm_dealloc_specific_block s address =
    if not (address % 4096 == 0)
    then (unaligned_addr, s)
    else if s.frame_count == 0
    then (no_pages_initialized, s)
    else if not s.bitmap_ready
    then (bitmap_not_initialized, s)
    else if leb s.frame_count (address / 4096)
    then (out_of_bounds, s)
    else if frame_reserved s address
    then (alloc_reserved, s)
    else if not (pmm_query_bitmap s address)
    then (already_free, s)
    else (alloc_success, bm_clear (address / 4096) (record s { frame_hint = address / 4096 }))
