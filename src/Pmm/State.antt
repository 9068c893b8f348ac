-- ===== src/Pmm/State.antt =====
-- The state of `kernel/kmem.c` and its helpers on the frame bitmap.
pub mod Invariant
use unidos.Base.{
  ℕ, ◌+◌, ◌-◌, ◌*◌, ◌/◌, ◌%◌, Bool, true, false, not, Option, List, ◌==◌, leb, if◌then◌else◌, u32,
  u64, sub64, is_some,
}
use unidos.Bitmap.Bits.{Bytes, set_bit, clear_bit, test_bit}
use unidos.Pmm.Regions.{MemRegion, pmm_is_region_reserved}

-- `bitmap_ready` is `pagebitmap != NULL`. `memory` is physical memory by 32-bit words: the word at
-- address `4 * i` is `memory i`. The bitmap, which lies in memory too, is kept apart.
pub record Pmm : Type 0 where
  pub bitmap_ready : Bool
  pub pagebitmap : Bytes
  pub pagebitmap_phys : ℕ
  pub pagebitmap_size_bytes : ℕ
  pub frame_count : ℕ
  pub frame_hint : ℕ
  pub available_frames : ℕ
  pub use_phys_window_alias : Bool
  pub mem_regions : List MemRegion
  pub memory : ℕ → ℕ

pub data PmmAllocResult : Type 0 where
  alloc_success : PmmAllocResult
  alloc_oom : PmmAllocResult
  no_pages_initialized : PmmAllocResult
  bitmap_not_initialized : PmmAllocResult
  bitmap_inconsistent_reserved : PmmAllocResult
  already_allocated : PmmAllocResult
  alloc_reserved : PmmAllocResult
  out_of_bounds : PmmAllocResult
  unaligned_addr : PmmAllocResult
  already_free : PmmAllocResult

unfoldable pub bm_set : ℕ → Pmm → Pmm
bm_set f s =
    let bytes = set_bit s.pagebitmap f in
    let available =
      if bytes (f / 8) == s.pagebitmap (f / 8)
      then s.available_frames
      else sub64 s.available_frames 1 in
    record s { pagebitmap = bytes; available_frames = available }

unfoldable pub bm_clear : ℕ → Pmm → Pmm
bm_clear f s =
    let bytes = clear_bit s.pagebitmap f in
    let available =
      if bytes (f / 8) == s.pagebitmap (f / 8)
      then s.available_frames
      else u64 (s.available_frames + 1) in
    record s { pagebitmap = bytes; available_frames = available }

-- `f << 12`
abbrev pub frame_address : ℕ → ℕ
frame_address f = u32 (f * 4096)

-- `pmm_is_region_reserved(address, 4096, NULL)`
abbrev pub frame_reserved : Pmm → ℕ → Bool
frame_reserved s address = is_some (pmm_is_region_reserved s.mem_regions address 4096)

unfoldable pub pmm_query_bitmap : Pmm → ℕ → Bool
pmm_query_bitmap s address =
    if address % 4096 == 0
    then if leb s.frame_count (address / 4096)
      then false
      else test_bit s.pagebitmap (address / 4096)
    else false

unfoldable pub get_estimated_available_frames : Pmm → ℕ
get_estimated_available_frames s = s.available_frames
