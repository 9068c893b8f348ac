-- ===== src/Dpage/Examples.antt =====
-- The theorems on `kernel/dpage.c` at a small machine and a pool of 128 slots of 48 bytes.
use unidos.Base.{
  ℕ, ◌+◌, ◌*◌, ◌%◌, ◌<◌, ◌≡◌, refl, true, arith, ◌==◌, if◌then◌else◌, none, some, sym, ◌∙◌, ltb,
}
use unidos.Bitmap.Byte.{byte_test, byte_set, byte_test-full}
use unidos.Bitmap.Bits.{test_bit, set_bit, Bytes, AreBytes}
use unidos.Bitmap.Count.{count_clear-full}
use unidos.Pmm.Regions.{pmm_is_region_reserved, overlaps}
use unidos.Pmm.State.{Pmm}
use unidos.Pmm.State.Invariant.{IsValid}
use unidos.Pmm.Alloc.{pmm_get_next_available_block, take_block}
use unidos.Pmm.Examples.{machine, machine-IsValid}
use unidos.Paging.{
  Paging, is_present, pde, paging_map_page, flag_error, ensure_table, new_table, install_table,
  store, map_entry, pt_ptr_from_pdi,
}
use unidos.Paging.Tables.{IsWellFormed, entry_at, memory-IsValid}
use unidos.Dpage.{
  Pool, Heap, pmm_init_failed, dpage_alloc, dpage_init, find_slot, commit_pages, page_round,
  demand_map, need_map, settle, second_round, dpage_bm_set, dpage_bm_slot_to_vaddr,
}
use unidos.Dpage.Slot.{MeetsSlots, dpage_alloc-MeetsSlots}
use unidos.Dpage.Backs.{Fits, Backs, dpage_alloc-Backs}
use unidos.Dpage.Rollback.{dpage_alloc-unmaps}
use unidos.Dpage.Init.{Ready, dpage_init-Ready}

-- The directory in frame 8 has a page table in frame 11 for 4 MiB from 0xE4000000 on, of which the
-- first page is mapped to frame 13.
abbrev pub contents : ℕ → ℕ
contents i =
    if i == 8 * 1024 + 912 then 11 * 4096 + 3 else if i == 11 * 1024 then 13 * 4096 + 3 else 0

abbrev pub on_machine : Pmm → Paging
on_machine m = record {
  page_directory_loc_phys = 8 * 4096;
  page_tables_loc_phys = λ i. if i == 912 then 11 * 4096 else 0;
  page_table_count = 1;
  cr3 = 8 * 4096;
  pmm = record m { memory = contents };
}

abbrev slots : Pool
slots = record { vaddr_base = 0xe4000000; element_size = 48; bitmap_size_bytes = 16 }

slots-Fits : Fits slots
slots-Fits = record {
  some_bytes = omega arith;
  page_at_most = omega arith;
  room = λ s lt. omega (arith, lt);
}

-- The slots up to 84 are taken; slot 85 lies on two pages.
abbrev taken_slots : Bytes
taken_slots i = if ltb i 10 then 255 else if i == 10 then 31 else 0

taken_slots-AreBytes : AreBytes taken_slots
taken_slots-AreBytes i = ground arith

abbrev heap : Heap
heap = record { bitmap = taken_slots; paging = on_machine machine }

eleven_taken : test_bit machine.pagebitmap 11 ≡ true
unfolding test_bit byte_test
eleven_taken = refl

eight_taken : test_bit machine.pagebitmap 8 ≡ true
unfolding test_bit byte_test
eight_taken = refl

zero_taken : test_bit machine.pagebitmap 0 ≡ true
unfolding test_bit byte_test
zero_taken = refl

one_table : (m : Pmm) (i : ℕ) → i < 1024 → is_present (pde (on_machine m) i) ≡ true → i ≡ 912
one_table m i li q = ground arith

on_machine-IsWellFormed :
    (m : Pmm)
    → IsValid m
    → test_bit m.pagebitmap 0 ≡ true
    → test_bit m.pagebitmap 8 ≡ true
    → test_bit m.pagebitmap 11 ≡ true
    → IsWellFormed (on_machine m)
on_machine-IsWellFormed m v t0 t8 t11 = record {
  initialized = λ e. absurd (omega (arith, e));
  aligned = refl;
  memory = memory-IsValid m contents v;
  first_taken = t0;
  directory_taken = t8;
  tables = λ i li q.
      let one : i ≡ 912 = one_table m i li q in
      rw one (record {
        located = refl;
        nonzero = λ e. absurd (omega (arith, e));
        apart = λ e. absurd (omega (arith, e));
        taken = t11;
      });
  distinct = λ i j li lj d qi qj. absurd (d (one_table m i li qi ∙ sym (one_table m j lj qj)));
}

pub heap-IsWellFormed : IsWellFormed heap.paging
heap-IsWellFormed =
    on_machine-IsWellFormed machine machine-IsValid zero_taken eight_taken eleven_taken

dpage_alloc-MeetsSlots_example : MeetsSlots slots heap (dpage_alloc slots heap)
dpage_alloc-MeetsSlots_example = dpage_alloc-MeetsSlots slots heap taken_slots-AreBytes

crossing_ok : (dpage_alloc slots heap).1 ≡ some 0xe4000ff0
unfolding dpage_alloc find_slot commit_pages page_round demand_map need_map settle second_round
    dpage_bm_set dpage_bm_slot_to_vaddr paging_map_page flag_error ensure_table map_entry
    pt_ptr_from_pdi store pmm_get_next_available_block take_block pmm_is_region_reserved overlaps
    test_bit byte_test
crossing_ok = refl

dpage_alloc-Backs_example : Backs slots 0xe4000ff0 heap.paging (dpage_alloc slots heap).2.paging
dpage_alloc-Backs_example =
    dpage_alloc-Backs slots heap 0xe4000ff0 slots-Fits heap-IsWellFormed crossing_ok

-- The same machine with every frame taken.
abbrev full_machine : Pmm
full_machine = record machine { pagebitmap = λ _. 255; available_frames = 0 }

full_bit : (f : ℕ) → test_bit full_machine.pagebitmap f ≡ true
unfolding test_bit
full_bit f = byte_test-full (f % 8) (omega arith)

full_machine-IsValid : IsValid full_machine
full_machine-IsValid = record {
  ready = refl;
  bytes = λ i. omega arith;
  small = omega arith;
  hint = omega arith;
  counted = sym (count_clear-full full_machine.pagebitmap 16 (λ f lt. full_bit f));
  below = omega arith;
  guarded = λ f lt r. full_bit f;
}

abbrev full_heap : Heap
full_heap = record { bitmap = taken_slots; paging = on_machine full_machine }

slot_85 : find_slot taken_slots 128 0 ≡ some 85
unfolding find_slot test_bit byte_test
slot_85 = refl

dpage_alloc-unmaps_example :
    let (st, o, h') = dpage_alloc slots full_heap in
    (st ≡ pmm_init_failed) × ((o ≡ none) × (entry_at h'.paging 0xe4000000 ≡ 0))
unfolding dpage_bm_slot_to_vaddr
dpage_alloc-unmaps_example =
    dpage_alloc-unmaps slots full_heap 85
      (on_machine-IsWellFormed full_machine full_machine-IsValid (full_bit 0) (full_bit 8)
        (full_bit 11))
      slot_85 refl (omega arith) (λ e. absurd (omega (arith, e))) refl refl

init_ok : (dpage_init 0xe3fff000 0xe4001000 heap).0 ≡ true
unfolding dpage_init demand_map paging_map_page flag_error ensure_table map_entry pt_ptr_from_pdi
    new_table install_table store pmm_get_next_available_block take_block pmm_is_region_reserved
    overlaps test_bit byte_test set_bit byte_set
init_ok = refl

dpage_init-Ready_example : Ready 0xe3fff000 0xe4001000 (dpage_init 0xe3fff000 0xe4001000 heap).1
dpage_init-Ready_example =
    dpage_init-Ready 0xe3fff000 0xe4001000 heap heap-IsWellFormed (omega arith) (omega arith)
      (λ e. absurd (omega (arith, e))) init_ok
