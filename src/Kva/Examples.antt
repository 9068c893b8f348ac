-- ===== src/Kva/Examples.antt =====
-- The theorems on `kernel/kva.c` at one registration in the state after the start.
use unidos.Base.{ℕ, ◌≡◌, refl, arith, false, true, none, some, [], ◌∷◌}
use unidos.Bitmap.Byte.{byte_test, byte_set}
use unidos.Bitmap.Bits.{test_bit, set_bit}
use unidos.Pmm.Regions.{pmm_is_region_reserved, overlaps}
use unidos.Pmm.Alloc.{pmm_get_next_available_block, take_block}
use unidos.Pmm.Examples.{machine}
use unidos.Paging.{
  Paging, paging_map_page, flag_error, ensure_table, new_table, install_table, store, map_entry,
  pt_ptr_from_pdi,
}
use unidos.Dpage.Examples.{on_machine, heap-IsWellFormed}
use unidos.Kva.{
  Kva, Name, chars, lazy_init, strncpy_from, same_name_from, find_region, kva_region_exists,
  kva_register_region, kva_get_region_base, kva_get_region_size, kva_map_region, map_found,
  map_pages, the_region, kva_region_base,
}
use unidos.Kva.Layout.{IsLayout, register_region-IsLayout}
use unidos.Kva.Register.{get_region-register}
use unidos.Kva.Mapping.{MapsAll, map_region-MapsAll}
use unidos.Kva.Leak.{Leaks, map_region-Leaks}

abbrev at_start : Kva
at_start = record {
  kva_regions = λ _. record { name = λ _. 0; base = 0; size = 0; mapped = false };
  kva_region_count = 0;
  kva_next_free = kva_region_base;
  kva_initialized = false;
}

at_start-IsLayout : IsLayout at_start
at_start-IsLayout = record {
  fresh = λ _. refl;
  count = omega arith;
  aligned = refl;
  low = omega arith;
  high = omega arith;
  page = λ i lt. absurd (omega arith);
  above = λ i lt. absurd (omega arith);
  within = λ i lt. absurd (omega arith);
  nonempty = λ i lt. absurd (omega arith);
  ordered = λ i j ij lt. absurd (omega arith);
}

-- `heap`
abbrev heap_name : Name
heap_name = chars (104 ∷ 101 ∷ 97 ∷ 112 ∷ [])

abbrev with_heap : Kva
with_heap = elim (kva_register_region 0x100000 heap_name 4096 at_start) [
  | none ↦ at_start
  | some (base, k) ↦ k
]

heap_registered :
    kva_register_region 0x100000 heap_name 4096 at_start ≡ some (0xc1000000, with_heap)
unfolding kva_register_region lazy_init kva_region_exists find_region same_name_from strncpy_from
heap_registered = refl

register_region-IsLayout_example : IsLayout with_heap
register_region-IsLayout_example =
    register_region-IsLayout 0x100000 heap_name 4096 0xc1000000 at_start with_heap at_start-IsLayout
      (omega arith) heap_registered

get_region-register_example :
    (kva_get_region_base (some heap_name) with_heap ≡ some 0xc1000000)
    × (kva_get_region_size (some heap_name) with_heap ≡ some 4096)
get_region-register_example =
    get_region-register 0x100000 heap_name 4096 0xc1000000 at_start with_heap at_start-IsLayout
      (omega arith) heap_registered

found : the_region heap_name with_heap ≡ some 0
unfolding kva_register_region lazy_init kva_region_exists find_region same_name_from strncpy_from
found = refl

abbrev with_pages : Kva × Paging
with_pages = elim (kva_map_region (some heap_name) with_heap (on_machine machine)) [
  | none ↦ (with_heap, on_machine machine)
  | some (all, k, p) ↦ (k, p)
]

heap_mapped :
    kva_map_region (some heap_name) with_heap (on_machine machine)
    ≡ some (true, with_pages.0, with_pages.1)
unfolding kva_map_region map_found map_pages kva_register_region lazy_init kva_region_exists
    find_region same_name_from strncpy_from paging_map_page flag_error ensure_table map_entry
    pt_ptr_from_pdi new_table install_table store pmm_get_next_available_block take_block
    pmm_is_region_reserved overlaps test_bit byte_test set_bit byte_set
heap_mapped = refl

map_region-MapsAll_example :
    ((with_heap.kva_regions 0).mapped ≡ false)
    × ((with_pages.0.kva_regions 0).mapped ≡ true)
    × MapsAll 1 0xc1000000 (on_machine machine) with_pages.1
unfolding kva_register_region lazy_init kva_region_exists find_region same_name_from strncpy_from
map_region-MapsAll_example =
    map_region-MapsAll heap_name with_heap with_pages.0 (on_machine machine) with_pages.1 0 found
      heap_mapped heap-IsWellFormed refl refl (omega arith)

-- The page at 0xE4000000 is mapped already.
abbrev stale_window : Kva
stale_window = record with_heap {
  kva_regions = λ j. record (with_heap.kva_regions j) { base = 0xe4000000 };
}

stale_found : the_region heap_name stale_window ≡ some 0
unfolding kva_register_region lazy_init kva_region_exists find_region same_name_from strncpy_from
stale_found = refl

map_region-Leaks_example :
    (q : Paging) × (f : ℕ) × (kva_map_region (some heap_name) stale_window (on_machine machine)
      ≡ some (false, stale_window, q))
    × Leaks f (on_machine machine) q
unfolding kva_register_region lazy_init kva_region_exists find_region same_name_from strncpy_from
map_region-Leaks_example =
    map_region-Leaks heap_name stale_window (on_machine machine) 0 stale_found heap-IsWellFormed
      refl refl (omega arith) (omega arith) (omega arith) refl (omega arith)
