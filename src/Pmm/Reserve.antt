-- ===== src/Pmm/Reserve.antt =====
-- Permanent reservation in `kernel/kmem.c`, the ranges of the bitmap, and initialisation.
pub mod Frames
pub mod Guard
pub mod Pageframe
mod Touched
pub mod Sequence
use unidos.Base.{
  ℕ, zero, suc, ◌+◌, ◌-◌, ◌/◌, ◌%◌, ◌*◌, ◌^◌, min, Bool, true, false, not, ◌&&◌, ◌||◌, ◌==◌, leb,
  ltb, if◌then◌else◌, Option, none, some, List, [], ◌∷◌, u32,
}
use unidos.Bitmap.Bits.{test_bit}
use unidos.Circular.{find_from}
use unidos.Pmm.Regions.{
  MemRegion, is_reserved, PmmReserveResult, reserve_success, updated_existing_region, reserve_table,
}
use unidos.Pmm.State.{Pmm, bm_set, bm_clear, frame_address, frame_reserved, pmm_query_bitmap}

-- The loops `for (f = start; f < start + n; ++f)` over one bit each.
unfoldable pub set_frames : ℕ → ℕ → Pmm → Pmm
unfolding bm_set
set_frames zero f s = s
set_frames (suc n) f s = set_frames n (f + 1) (bm_set f s)

unfoldable pub clear_frames : ℕ → ℕ → Pmm → Pmm
unfolding bm_clear
clear_frames zero f s = s
clear_frames (suc n) f s = clear_frames n (f + 1) (bm_clear f s)

-- The sums are 64 bits wide.
unfoldable pub bm_set_range_touched : ℕ → ℕ → Pmm → Pmm
unfolding set_frames
bm_set_range_touched base len s =
    if len == 0
    then s
    else set_frames (min ((base + len + 0xfff) / 4096) s.frame_count - base / 4096) (base / 4096) s

unfoldable pub bm_clear_range_full_pages : ℕ → ℕ → Pmm → Pmm
unfolding clear_frames
bm_clear_range_full_pages base len s =
    if ltb len 4096
    then s
    else if leb ((base + len) / 4096) ((base + 0xfff) / 4096)
    then s
    else clear_frames (min ((base + len) / 4096) s.frame_count - (base + 0xfff) / 4096)
        ((base + 0xfff) / 4096) s

unfoldable pub pmm_init_single : MemRegion → Pmm → Pmm
unfolding bm_set_range_touched
pmm_init_single r s =
    if not s.bitmap_ready || s.frame_count == 0
    then s
    else if is_reserved r.type
    then bm_set_range_touched r.base r.length s
    else s

-- The bitmap is marked for the entry that `reserve_table` reports; the compaction does not read it.
unfoldable pub pmm_reserve_range : ℕ → ℕ → Bool → Pmm → PmmReserveResult × Pmm
pmm_reserve_range base len init s =
    let out = reserve_table base len s.mem_regions in
    let s' = record s { mem_regions = out.table } in
    (out.result, elim out.entry [ none ↦ s' | some r ↦ if init then pmm_init_single r s' else s' ])

-- The status codes of `kernel/include/paging.h`.
pub data PagingStatus : Type 0 where
  paging_ok : PagingStatus
  err_align : PagingStatus
  err_nomem : PagingStatus
  err_not_mapped : PagingStatus
  err_already_mapped : PagingStatus
  err_not_mapped_or_already_mapped : PagingStatus
  err_init_reserve_failed : PagingStatus
  err_frame_reserve_failed : PagingStatus
  err_not_present : PagingStatus
  err_out_of_bounds : PagingStatus
  err_failed_retrieve_pt : PagingStatus
  err_not_initialized : PagingStatus
  err_excess_pages_requested : PagingStatus
  err_invalid : PagingStatus
  err_pt_user_flag_mismatch : PagingStatus
  err_user_flag_in_kernel_space : PagingStatus
  err_kernel_flag_in_user_space : PagingStatus

-- The page at a physical address, set to 0. The address is taken to lie in the window, where
-- `PHYS_TO_VIRT` does not panic.
unfoldable pub zero_page : ℕ → (ℕ → ℕ) → ℕ → ℕ
zero_page address memory i = if i / 1024 == address / 4096 then 0 else memory i

abbrev pub clear_page : Bool → ℕ → Pmm → Pmm
clear_page clear address s = if clear then record s { memory = zero_page address s.memory } else s

-- Neither in a reserved region nor taken in the bitmap.
unfoldable pub can_reserve : Pmm → ℕ → Bool
can_reserve s f =
    not (frame_reserved s (frame_address f)) && not (pmm_query_bitmap s (frame_address f))

abbrev pub is_reservation : PmmReserveResult → Bool
is_reservation reserve_success = true
is_reservation updated_existing_region = true
is_reservation _ = false

-- `bm_set(ret_frame)`, the hint behind it, and the page cleared on request.
unfoldable pub mark_reserved : Bool → ℕ → Pmm → Pmm
mark_reserved clear f s =
    clear_page clear (frame_address f)
      (record (bm_set f s) { frame_hint = (f + 1) % s.frame_count })

-- `ret_frame` has been found: reserve it and mark it. The address is `*out_phys_addr`, 0 where the
-- source leaves it alone.
unfoldable pub reserve_found : Bool → ℕ → Pmm → PagingStatus × ℕ × Pmm
reserve_found clear f s =
    let (r, s') = pmm_reserve_range (frame_address f) 4096 true s in
    if is_reservation r
    then (paging_ok, frame_address f, mark_reserved clear f s')
    else (err_frame_reserve_failed, 0, s')

unfoldable pub pmm_reserve_pageframe : Bool → Pmm → PagingStatus × ℕ × Pmm
pmm_reserve_pageframe clear s =
    elim (find_from (can_reserve s) s.frame_count s.frame_count s.frame_hint) [
      | none ↦ (err_nomem, 0, s)
      | some f ↦ reserve_found clear f s
    ]

-- Step 1 of `pmm_reserve_pageframe_seq`, `for (i = requested; i > 0; i--)`: the loop stops at the
-- first frame, from the end of the window, that cannot be reserved.
unfoldable pub window_loop : Pmm → ℕ → ℕ → ℕ → ℕ
window_loop s cur requested zero = requested
window_loop s cur requested (suc i) =
    let rest = window_loop s cur requested i in
    if leb s.frame_count (cur + i)
    then i
    else if frame_reserved s (frame_address (cur + i))
    then i
    else if pmm_query_bitmap s (frame_address (cur + i))
    then i
    else rest

clear_pages : ℕ → ℕ → Pmm → Pmm
unfolding zero_page
clear_pages zero f s = s
clear_pages (suc n) f s = clear_pages n (f + 1) (clear_page true (frame_address f) s)

-- The frames `f`, `f + 1`, …, as the addresses that are written to `out_reserved`.
unfoldable pub addresses : ℕ → ℕ → List ℕ
addresses zero f = []
addresses (suc n) f = frame_address f ∷ addresses n (f + 1)

-- A status, the addresses in `out_reserved` (`*out_count` of them), and the new state.
unfoldable pub pmm_reserve_pageframe_seq : ℕ → Bool → Pmm → PagingStatus × List ℕ × Pmm
unfolding clear_pages addresses
pmm_reserve_pageframe_seq requested clear s =
    if requested == 0
    then (err_invalid, [], s)
    else elim (find_from (can_reserve s) s.frame_count s.frame_count s.frame_hint) [
      | none ↦ (err_nomem, [], s)
      | some cur ↦
          let count = window_loop s cur requested requested in
          let (r, s') = pmm_reserve_range (frame_address cur) (u32 (count * 4096)) true s in
          if is_reservation r
          then (
            paging_ok,
            addresses count cur,
            let s'' = record (set_frames count cur s') {
              frame_hint = (cur + count) % s.frame_count;
            } in
                if clear then clear_pages count cur s'' else s'',
          )
          else (err_frame_reserve_failed, [], s')
    ]

-- `regions` is the table itself, which is what the only caller passes.
set_regions : List MemRegion → Pmm → Pmm
unfolding bm_set_range_touched
set_regions [] s = s
set_regions (r ∷ rs) s =
    set_regions rs (if is_reserved r.type then bm_set_range_touched r.base r.length s else s)

-- `none` is HALT_FOREVER. `kernel_end` is the address of `__kernel_end`.
unfoldable pub pmm_init : (kernel_end avail_memory_kib : ℕ) → Pmm → Option Pmm
unfolding set_regions bm_set_range_touched bm_clear_range_full_pages
pmm_init kernel_end avail_memory_kib s =
    let top = min (avail_memory_kib * 1024) (2 ^ 32) in
    let frames = u32 (top / 4096) in
    let size = (frames + 7) / 8 in
    let loc = (kernel_end + 0xfff) / 4096 * 4096 in
    if ltb top (loc + size)
    then none
    else let full = record s {
      frame_count = frames;
      pagebitmap_size_bytes = size;
      available_frames = 0;
      pagebitmap_phys = u32 loc;
      bitmap_ready = not (u32 loc == 0);
      pagebitmap = λ i. if ltb i size then 0xff else s.pagebitmap i;
    } in
      let usable =
        if ltb 0x100000 top
        then bm_clear_range_full_pages 0x100000 (min (top - 0x100000) 0xffff_ffff) full
        else full in
      some (bm_set_range_touched (u32 loc) size (set_regions s.mem_regions usable))

-- Only the pointer changes, from the physical address to its alias in the window.
unfoldable pub pmm_switch_to_phys_window_alias : Pmm → Pmm
pmm_switch_to_phys_window_alias s =
    if s.pagebitmap_phys == 0
    then s
    else record s { bitmap_ready = true; use_phys_window_alias = true }
