-- ===== src/Paging.antt =====
-- `kernel/paging.c`: mapping, querying, unmapping and the flags of single pages.
pub mod Tables
mod Install
pub mod Map
pub mod Change
mod RoundTrip
pub mod Examples
use unidos.Base.{
  ℕ, suc, ◌+◌, ◌-◌, ◌/◌, ◌%◌, ◌*◌, ◌^◌, Bool, true, false, not, ◌&&◌, ◌||◌, ◌==◌, leb, ltb,
  if◌then◌else◌, Option, none, some, List, [], ◌∷◌, u32, is_some,
}
use unidos.Pmm.State.{Pmm, PmmAllocResult, alloc_success}
use unidos.Pmm.Alloc.{pmm_get_next_available_block, pmm_dealloc_specific_block}
use unidos.Pmm.Reserve.{
  PagingStatus, paging_ok, err_align, err_nomem, err_not_mapped, err_already_mapped,
  err_failed_retrieve_pt, err_not_initialized, err_pt_user_flag_mismatch,
  err_user_flag_in_kernel_space, err_kernel_flag_in_user_space,
}

-- The file's variables, the register `cr3`, and the physical memory with its manager. A physical
-- address is read through the window at `PHYS_WINDOW_BASE`, which is memory itself; that it is below
-- 0x30000000, where `PHYS_TO_VIRT` does not panic, is taken to hold.
pub record Paging : Type 0 where
  pub page_directory_loc_phys : ℕ
  pub page_tables_loc_phys : ℕ → ℕ
  pub page_table_count : ℕ
  pub cr3 : ℕ
  pub pmm : Pmm

abbrev pub pt_max : ℕ
pt_max = 1024

abbrev pub kernel_virtual_base : ℕ
kernel_virtual_base = 0xc0000000

-- Bits 0 and 2 of an entry or of flags.
abbrev pub is_present : ℕ → Bool
is_present e = e % 2 == 1

abbrev pub is_user : ℕ → Bool
is_user e = e / 4 % 2 == 1

-- `(v >> 22) & 0x3FF`, `(v >> 12) & 0x3FF` and `v & 0xFFFFF000`
abbrev pub pde_index : ℕ → ℕ
pde_index v = v / 2 ^ 22 % 1024

abbrev pub pte_index : ℕ → ℕ
pte_index v = v / 2 ^ 12 % 1024

abbrev pub page_of : ℕ → ℕ
page_of v = v / 4096 * 4096

-- `(phys & 0xFFFFF000) | (flags & 0xFFF) | PG_PRESENT`
abbrev pub encode : ℕ → ℕ → ℕ
encode phys flags = page_of phys + (flags % 4096 / 2 * 2 + 1)

-- The word at index `i` of the table at physical address `table`.
abbrev pub entry : Paging → ℕ → ℕ → ℕ
entry p table i = p.pmm.memory (table / 4 + i)

unfoldable pub store : ℕ → ℕ → ℕ → Paging → Paging
store table i w p = record p {
  pmm = record p.pmm { memory = λ j. if j == table / 4 + i then w else p.pmm.memory j };
}

abbrev pub pde : Paging → ℕ → ℕ
pde p pdi = entry p p.page_directory_loc_phys pdi

-- `none` is `NULL`; the table is named by its physical address.
unfoldable pub pt_ptr_from_pdi : Paging → ℕ → Option ℕ
pt_ptr_from_pdi p pdi =
    if ltb 0x3ff pdi || p.page_tables_loc_phys pdi == 0
    then none
    else if not (is_present (pde p pdi))
    then none
    else some (p.page_tables_loc_phys pdi)

pub record QueryResult : Type 0 where
  pub mapped : Bool
  pub phys_addr : ℕ
  pub flags : ℕ

abbrev pub no_result : QueryResult
no_result = record { mapped = false; phys_addr = 0; flags = 0 }

-- The walk of the directory in `cr3`. The result is `*out_result`; before initialisation the source
-- leaves it alone.
unfoldable pub paging_query_page : Paging → ℕ → PagingStatus × QueryResult
paging_query_page p virt_addr =
    let pd_entry = entry p (page_of p.cr3) (pde_index virt_addr) in
    let pt_entry = entry p (page_of pd_entry) (pte_index virt_addr) in
    if p.page_directory_loc_phys == 0
    then (err_not_initialized, no_result)
    else if not (is_present pd_entry)
    then (err_not_mapped, no_result)
    else if not (is_present pt_entry)
    then (err_not_mapped, no_result)
    else (
      paging_ok,
      record { mapped = true; phys_addr = page_of pt_entry; flags = pt_entry % 4096 },
    )

-- The checks that `paging_map_page` and `paging_set_flags` make of the flags.
unfoldable pub flag_error : ℕ → ℕ → Option PagingStatus
flag_error virt_addr flags =
    if leb kernel_virtual_base virt_addr && is_user flags
    then some err_user_flag_in_kernel_space
    else if ltb virt_addr kernel_virtual_base && not (is_user flags)
    then some err_kernel_flag_in_user_space
    else none

-- The entry for a new page table at `pt`, an aligned address:
-- `pt | (flags & PG_USER) | PG_PRESENT | PG_RW`
abbrev pub table_entry : ℕ → ℕ → ℕ
table_entry pt flags = pt + ((if is_user flags then 4 else 0) + 3)

unfoldable pub install_table : ℕ → ℕ → ℕ → Paging → Paging
install_table pdi pt flags p =
    record (store p.page_directory_loc_phys pdi (table_entry pt flags) p) {
      page_tables_loc_phys = λ i. if i == pdi then pt else p.page_tables_loc_phys i;
      page_table_count = p.page_table_count + 1;
    }

-- A free frame becomes the page table. It is not cleared.
unfoldable pub new_table : ℕ → ℕ → Paging → Option PagingStatus × Paging
new_table pdi flags p =
    let (res, pt, m) = pmm_get_next_available_block p.pmm in
    let p' = record p { pmm = m } in
    elim res [ alloc_success ↦ (none, install_table pdi pt flags p') | _ ↦ (some err_nomem, p') ]

-- The part of `paging_map_page` that sees to it that there is a page table: an error, or none.
unfoldable pub ensure_table : ℕ → ℕ → Paging → Option PagingStatus × Paging
ensure_table pdi flags p =
    if not (is_present (pde p pdi))
    then if leb pt_max p.page_table_count then (some err_nomem, p) else new_table pdi flags p
    else if is_user flags && not (is_user (pde p pdi))
    then (some err_pt_user_flag_mismatch, p)
    else (none, p)

-- Its last part: the entry of the page.
unfoldable pub map_entry : ℕ → ℕ → ℕ → Paging → PagingStatus × Paging
map_entry virt_addr phys_addr flags p = elim (pt_ptr_from_pdi p (pde_index virt_addr)) [
  | none ↦ (err_failed_retrieve_pt, p)
  | some pt ↦
      if is_present (entry p pt (pte_index virt_addr))
      then (err_already_mapped, p)
      else (paging_ok, store pt (pte_index virt_addr) (encode phys_addr flags) p)
]

-- `*out_addr` is `phys_addr` on success.
unfoldable pub paging_map_page : ℕ → ℕ → ℕ → Paging → PagingStatus × Paging
paging_map_page virt_addr phys_addr flags p =
    if p.page_directory_loc_phys == 0
    then (err_not_initialized, p)
    else if not (virt_addr % 4096 == 0) || not (phys_addr % 4096 == 0)
    then (err_align, p)
    else elim (flag_error virt_addr flags) [
      | some e ↦ (e, p)
      | none ↦
          let (bad, p') = ensure_table (pde_index virt_addr) flags p in
          elim bad [ some e ↦ (e, p') | none ↦ map_entry virt_addr phys_addr flags p' ]
    ]

-- A status, `*out_phys_addr` and the new state.
unfoldable pub paging_unmap_page : ℕ → Paging → PagingStatus × ℕ × Paging
paging_unmap_page virt_addr p =
    if p.page_directory_loc_phys == 0
    then (err_not_initialized, 0, p)
    else if not (virt_addr % 4096 == 0)
    then (err_align, 0, p)
    else if not (is_present (pde p (pde_index virt_addr)))
    then (err_not_mapped, 0, p)
    else elim (pt_ptr_from_pdi p (pde_index virt_addr)) [
      | none ↦ (err_failed_retrieve_pt, 0, p)
      | some pt ↦
          let e = entry p pt (pte_index virt_addr) in
          if not (is_present e)
          then (err_not_mapped, 0, p)
          else (paging_ok, page_of e, store pt (pte_index virt_addr) 0 p)
    ]

-- The result of `pmm_dealloc_specific_block` is not looked at.
unfoldable pub paging_unmap_and_free_page : ℕ → Paging → PagingStatus × Paging
paging_unmap_and_free_page virt_addr p =
    let (res, phys, p') = paging_unmap_page virt_addr p in
    elim res [
      | paging_ok ↦
          if phys == 0
          then (err_not_mapped, p')
          else (paging_ok, record p' { pmm = (pmm_dealloc_specific_block p'.pmm phys).1 })
      | e ↦ (e, p')
    ]

unfoldable pub paging_set_flags : ℕ → ℕ → Paging → PagingStatus × Paging
paging_set_flags virt_addr flags p =
    let pd_entry = pde p (pde_index virt_addr) in
    if p.page_directory_loc_phys == 0
    then (err_not_initialized, p)
    else if not (virt_addr % 4096 == 0)
    then (err_align, p)
    else elim (flag_error virt_addr flags) [
      | some e ↦ (e, p)
      | none ↦
          if not (is_present pd_entry)
          then (err_not_mapped, p)
          else if is_user flags && not (is_user pd_entry)
          then (err_pt_user_flag_mismatch, p)
          else elim (pt_ptr_from_pdi p (pde_index virt_addr)) [
            | none ↦ (err_failed_retrieve_pt, p)
            | some pt ↦
                let e = entry p pt (pte_index virt_addr) in
                if not (is_present e)
                then (err_not_mapped, p)
                else (paging_ok, store pt (pte_index virt_addr) (encode e flags) p)
          ]
    ]
