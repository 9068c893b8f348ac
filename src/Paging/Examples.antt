-- ===== src/Paging/Examples.antt =====
-- The theorems on `kernel/paging.c` at a small machine.
use unidos.Base.{
  ℕ, ◌+◌, ◌*◌, ◌/◌, ◌^◌, ◌<◌, ◌≡◌, ◌≢◌, refl, true, arith, ◌==◌, if◌then◌else◌, ◌⊎◌, sym, ◌∙◌,
}
use unidos.Bitmap.Byte.{byte_test}
use unidos.Bitmap.Bits.{test_bit}
use unidos.Pmm.Regions.{pmm_is_region_reserved, overlaps}
use unidos.Pmm.Alloc.{pmm_get_next_available_block, take_block}
use unidos.Pmm.Examples.{machine, machine-IsValid}
use unidos.Pmm.Reserve.{paging_ok, err_not_mapped}
use unidos.Paging.{
  Paging, no_result, is_present, pde_index, pde, paging_map_page, flag_error, ensure_table,
  new_table, install_table, store, map_entry, pt_ptr_from_pdi, paging_query_page, paging_unmap_page,
}
use unidos.Paging.Map.{map_page-IsWellFormed, map_page-query, map_page-stale}
use unidos.Paging.Change.{unmap_page-query}
use unidos.Paging.RoundTrip.{unmap_page-map_page}
use unidos.Paging.Tables.{IsWellFormed, decode, memory-IsValid}

-- The directory is in frame 8 and has one page table, for addresses from 4 MiB on, in frame 11. Its
-- page 3 is mapped to frame 13. The free frame 9 holds something that looks like an entry.
abbrev contents : ℕ → ℕ
contents i =
    if i == 8 * 1024 + 1
    then 11 * 4096 + 7
    else if i == 11 * 1024 + 3
    then 13 * 4096 + 7
    else if i == 9 * 1024 + 5
    then 3 * 4096 + 7
    else 0

abbrev pub paged : Paging
paged = record {
  page_directory_loc_phys = 8 * 4096;
  page_tables_loc_phys = λ i. if i == 1 then 11 * 4096 else 0;
  page_table_count = 1;
  cr3 = 8 * 4096;
  pmm = record machine { memory = contents };
}

paged-IsTable : (i : ℕ) → i < 1024 → is_present (pde paged i) ≡ true → i ≡ 1
paged-IsTable i li q = ground arith

eleven_taken : test_bit machine.pagebitmap 11 ≡ true
unfolding test_bit byte_test
eleven_taken = refl

eight_taken : test_bit machine.pagebitmap 8 ≡ true
unfolding test_bit byte_test
eight_taken = refl

zero_taken : test_bit machine.pagebitmap 0 ≡ true
unfolding test_bit byte_test
zero_taken = refl

paged-IsWellFormed : IsWellFormed paged
paged-IsWellFormed = record {
  initialized = λ e. absurd (omega (arith, e));
  aligned = refl;
  memory = memory-IsValid machine contents machine-IsValid;
  first_taken = zero_taken;
  directory_taken = eight_taken;
  tables = λ i li q.
      let one : i ≡ 1 = paged-IsTable i li q in
      rw one (record {
        located = refl;
        nonzero = λ e. absurd (omega (arith, e));
        apart = λ e. absurd (omega (arith, e));
        taken = eleven_taken;
      });
  distinct = λ i j li lj d qi qj. absurd (d (paged-IsTable i li qi ∙ sym (paged-IsTable j lj qj)));
}

-- Page 0 of the table that is there, and page 0 of one that is not.
near_ok : (paging_map_page 0x400000 0xd000 7 paged).0 ≡ paging_ok
unfolding paging_map_page flag_error ensure_table map_entry pt_ptr_from_pdi
near_ok = refl

far_ok : (paging_map_page 0x800000 0xd000 7 paged).0 ≡ paging_ok
unfolding paging_map_page flag_error ensure_table map_entry pt_ptr_from_pdi new_table install_table
    store pmm_get_next_available_block take_block pmm_is_region_reserved overlaps test_bit byte_test
far_ok = refl

unmap_ok : (paging_unmap_page 0x403000 paged).0 ≡ paging_ok
unfolding paging_unmap_page pt_ptr_from_pdi
unmap_ok = refl

map_page-IsWellFormed_example : IsWellFormed (paging_map_page 0x800000 0xd000 7 paged).1
map_page-IsWellFormed_example =
    map_page-IsWellFormed 0x800000 0xd000 7 paged paged-IsWellFormed (omega arith)

map_page-query_example :
    paging_query_page (paging_map_page 0x400000 0xd000 7 paged).1 0x400000
    ≡ (paging_ok, record { mapped = true; phys_addr = 0xd000; flags = 7 })
map_page-query_example =
    map_page-query 0x400000 0xd000 7 paged paged-IsWellFormed (omega arith) near_ok refl

-- Page 5 of the new table was never mapped.
map_page-stale_example :
    paging_query_page (paging_map_page 0x800000 0xd000 7 paged).1 0x805000
    ≡ decode (contents ((pmm_get_next_available_block paged.pmm).1 / 4 + 5))
map_page-stale_example =
    map_page-stale 0x800000 0xd000 7 paged paged-IsWellFormed (omega arith) far_ok refl 0x805000
      (omega arith) (λ e. absurd (omega (arith, e))) refl refl

-- It answers as if it were mapped to frame 3.
stale_page :
    decode (contents ((pmm_get_next_available_block paged.pmm).1 / 4 + 5))
    ≡ (paging_ok, record { mapped = true; phys_addr = 0x3000; flags = 7 })
unfolding pmm_get_next_available_block take_block pmm_is_region_reserved overlaps test_bit byte_test
stale_page = refl

unmap_page-query_example :
    let (r, phys, p') = paging_unmap_page 0x403000 paged in
    (phys ≡ (paging_query_page paged 0x403000).1.phys_addr)
    × (paging_query_page p' 0x403000 ≡ (err_not_mapped, no_result))
    × ((u : ℕ)
        → u < 2 ^ 32
        → u / 4096 ≢ 0x403000 / 4096
        → paging_query_page p' u ≡ paging_query_page paged u)
unmap_page-query_example =
    unmap_page-query paged 0x403000 paged-IsWellFormed (omega arith) refl unmap_ok

unmap_page-map_page_example :
    let (r, phys, q) = paging_unmap_page 0x400000 (paging_map_page 0x400000 0xd000 7 paged).1 in
    (r ≡ paging_ok)
    × (phys ≡ 0xd000)
    × ((u : ℕ)
        → u < 2 ^ 32
        → u / 4096 ≢ 0x400000 / 4096
        → (pde_index u ≢ pde_index 0x400000) ⊎ (is_present (pde paged (pde_index 0x400000)) ≡ true)
        → paging_query_page q u ≡ paging_query_page paged u)
unmap_page-map_page_example =
    unmap_page-map_page 0x400000 0xd000 7 paged paged-IsWellFormed (omega arith) near_ok refl
