-- ===== src/Pmm/Examples.antt =====
-- The theorems on the physical memory manager at one small machine, and tests.
use unidos.Base.{
  ℕ, ◌+◌, ◌*◌, ◌≡◌, ◌≢◌, refl, sym, true, false, not, ◌||◌, arith, ◌==◌, if◌then◌else◌, List, [],
  ◌∷◌, some, none, all_below, all_below_sound,
}
use unidos.Bitmap.Bits.{Bytes, test_bit}
use unidos.Bitmap.Byte.{byte_test}
use unidos.Bitmap.Count.{count_clear}
use unidos.Circular.{find_from}
use unidos.Pmm.Regions.{
  MemRegion, overlaps, region, reserved, reserve_table, no_more_region_slots,
  pmm_is_region_reserved, merge, can_merge, merge_loop,
}
use unidos.Pmm.Regions.Covers.{covers, covered_by}
use unidos.Pmm.Regions.Settles.{Settled, merge_loop-Settled}
use unidos.Pmm.Regions.Table.{in_range, reserve_table-covers}
use unidos.Pmm.Regions.Apart.{reserve_table-PairwiseApart}
use unidos.Pmm.Regions.Pairs.{PairwiseApart}
use unidos.Pmm.State.{Pmm, alloc_success, frame_reserved, frame_address, pmm_query_bitmap}
use unidos.Pmm.State.Invariant.{IsValid}
use unidos.Pmm.Alloc.{pmm_get_next_available_block, pmm_dealloc_specific_block, take_block}
use unidos.Pmm.Alloc.Block.{
  get_next_available_block-MeetsSpec, get_next_available_block-first,
  alloc_frame-get_next_available_block, Grants,
}
use unidos.Pmm.Alloc.Block
use unidos.Pmm.Alloc.Specific.{dealloc-get_next_available_block}
use unidos.Pmm.Reserve.{
  pmm_reserve_range, pmm_reserve_pageframe, pmm_reserve_pageframe_seq, can_reserve, addresses,
  window_loop,
}
use unidos.Pmm.Reserve.Guard.{reserve_range-IsValid}
use unidos.Pmm.Reserve.Pageframe
use unidos.Pmm.Reserve.Pageframe.{reserve_pageframe-MeetsSpec}

-- Sixteen frames: 0 to 8, 11 and 13 are taken, and the first eight are reserved for good.
abbrev bitmap : Bytes
bitmap i = if i == 0 then 0xff else if i == 1 then 0b0010_1001 else 0xff

abbrev regions : List MemRegion
regions = region 0 0x8000 reserved ∷ []

abbrev pub machine : Pmm
machine = record {
  bitmap_ready = true;
  pagebitmap = bitmap;
  pagebitmap_phys = 0x1000;
  pagebitmap_size_bytes = 2;
  frame_count = 16;
  frame_hint = 7;
  available_frames = 5;
  use_phys_window_alias = true;
  mem_regions = regions;
  memory = λ _. 7;
}

machine_guard :
    all_below 16 (λ f. not (frame_reserved machine (frame_address f)) || test_bit bitmap f) ≡ true
unfolding all_below pmm_is_region_reserved overlaps test_bit byte_test
machine_guard = refl

machine_count : count_clear bitmap 16 ≡ 5
unfolding count_clear test_bit byte_test
machine_count = refl

pub machine-IsValid : IsValid machine
machine-IsValid = record {
  ready = refl;
  bytes = λ i. ground arith;
  small = omega arith;
  hint = omega arith;
  counted = sym machine_count;
  below = omega arith;
  guarded = λ f lt r. ground (
    arith,
    all_below_sound 16 (λ g. not (frame_reserved machine (frame_address g)) || test_bit bitmap g) f
        machine_guard lt,
  );
}

get_next_available_block-MeetsSpec_example :
    Block.MeetsSpec machine (pmm_get_next_available_block machine)
get_next_available_block-MeetsSpec_example =
    get_next_available_block-MeetsSpec machine machine-IsValid

-- From the hint, 7, the first free frame is 9.
first_grant : (pmm_get_next_available_block machine).1 ≡ 9 * 4096
unfolding pmm_get_next_available_block take_block pmm_is_region_reserved overlaps test_bit byte_test
first_grant = refl

first_status : (pmm_get_next_available_block machine).0 ≡ alloc_success
unfolding pmm_get_next_available_block take_block pmm_is_region_reserved overlaps test_bit byte_test
first_status = refl

dealloc-get_next_available_block_example :
    let (r, s') = pmm_dealloc_specific_block (pmm_get_next_available_block machine).2 (9 * 4096) in
    (r ≡ alloc_success)
    × ((g : ℕ) → test_bit s'.pagebitmap g ≡ test_bit bitmap g)
    × (s'.available_frames ≡ 5)
    × IsValid s'
dealloc-get_next_available_block_example =
    dealloc-get_next_available_block machine 9 machine-IsValid first_status first_grant

room : (reserve_table 0x8000 4096 regions).result ≢ no_more_region_slots
unfolding reserve_table can_merge
room e = cc

free_beyond : covers 0x20000 regions ≡ false
unfolding covers covered_by
free_beyond = refl

reserve_table-covers_example :
    covers 0x8abc (reserve_table 0x8000 4096 regions).table
    ≡ (covers 0x8abc regions || in_range 0x8abc 0x8000 4096)
reserve_table-covers_example =
    reserve_table-covers 0x8000 4096 regions 0x20000 0x8abc (omega arith) (omega arith)
      (omega arith) (omega arith) free_beyond refl room

reserve_table-PairwiseApart_example : PairwiseApart (reserve_table 0x8000 4096 regions).table
reserve_table-PairwiseApart_example =
    reserve_table-PairwiseApart 0x8000 4096 regions 0x20000 (omega arith) (omega arith)
      (omega arith) (omega arith) free_beyond refl (tt, tt)

merge_loop-Settled_example : Settled (merge_loop (2 + 1) (merge 0x8000 0x9000 none false) regions)
merge_loop-Settled_example =
    merge_loop-Settled (merge 0x8000 0x9000 none false) regions (omega arith)
      ((λ e. absurd (ground arith)), tt)

reserve_range-IsValid_example : IsValid (pmm_reserve_range 0x9800 0x1000 true machine).1
reserve_range-IsValid_example =
    reserve_range-IsValid 0x9800 0x1000 0x20000 machine machine-IsValid (omega arith) (omega arith)
      (omega arith) free_beyond refl

reserve_pageframe-MeetsSpec_example :
    Pageframe.MeetsSpec machine (pmm_reserve_pageframe true machine)
reserve_pageframe-MeetsSpec_example =
    reserve_pageframe-MeetsSpec true 0x20000 machine machine-IsValid (omega arith) (omega arith)
      free_beyond

first_reservable : find_from (can_reserve machine) 16 16 7 ≡ some 9
unfolding find_from can_reserve pmm_is_region_reserved overlaps pmm_query_bitmap test_bit byte_test
first_reservable = refl

-- Frame 13, the last of the five, is taken, and so is frame 11: four frames, 9 to 12, are handed out.
handed_out : (pmm_reserve_pageframe_seq 5 true machine).1 ≡ addresses 4 9
unfolding pmm_reserve_pageframe_seq window_loop can_reserve pmm_query_bitmap pmm_reserve_range
    reserve_table can_merge pmm_is_region_reserved overlaps test_bit byte_test find_from
handed_out = refl
