-- ===== src/Paging/RoundTrip.antt =====
-- `paging_unmap_page` after `paging_map_page`.
use unidos.Base.{ℕ, ◌/◌, ◌%◌, ◌^◌, ◌<◌, ◌≡◌, ◌≢◌, true, arith, ◌⊎◌, sym, ◌∙◌}
use unidos.Pmm.Reserve.{paging_ok}
use unidos.Paging.{
  Paging, is_present, pde_index, page_of, encode, pde, paging_map_page, paging_query_page,
  paging_unmap_page,
}
use unidos.Paging.Map.{map_page-Maps, map_page-aligned, map_page-query_others}
use unidos.Paging.Change.{unmap_page-entry_at, unmap_page-query}
use unidos.Paging.Tables.{IsWellFormed}

module _ (virt_addr phys_addr flags : ℕ) (p : Paging) (w : IsWellFormed p)
    (word : virt_addr < 2 ^ 32)
    (ok : (paging_map_page virt_addr phys_addr flags p).0 ≡ paging_ok) where
  abbrev with_page : Paging
  with_page = (paging_map_page virt_addr phys_addr flags p).1

  unmap_page-ready :
      ((paging_unmap_page virt_addr with_page).0 ≡ paging_ok)
      × ((paging_unmap_page virt_addr with_page).1 ≡ phys_addr)
  unmap_page-ready =
      let m = map_page-Maps virt_addr phys_addr flags p w word ok in
      let (av, aligned) = map_page-aligned virt_addr phys_addr flags p w word ok in
      let one : encode phys_addr flags % 2 ≡ 1 = omega arith in
      let frame : page_of (encode phys_addr flags) ≡ phys_addr = omega arith in
      ground (arith, unmap_page-entry_at with_page virt_addr m.well_formed word, m.hit, one, frame)

  -- In a well-formed state with the kernel's directory loaded, a page that `paging_map_page` has
  -- mapped can be unmapped by `paging_unmap_page`, which returns the physical address it was mapped
  -- to; every other page, unless it lies in a page table that had to be made, answers a query as
  -- before the two calls.
  pub unmap_page-map_page :
      p.cr3 ≡ p.page_directory_loc_phys
      → let (r, phys, q) = paging_unmap_page virt_addr with_page in
        (r ≡ paging_ok)
        × (phys ≡ phys_addr)
        × ((u : ℕ)
            → u < 2 ^ 32
            → u / 4096 ≢ virt_addr / 4096
            → (pde_index u ≢ pde_index virt_addr)
              ⊎ (is_present (pde p (pde_index virt_addr)) ≡ true)
            → paging_query_page q u ≡ paging_query_page p u)
  unmap_page-map_page loaded =
      let m = map_page-Maps virt_addr phys_addr flags p w word ok in
      let still = m.same_cr3 ∙ loaded ∙ sym m.same_directory in
      (
        unmap_page-ready.0,
        unmap_page-ready.1,
        λ u wu d c.
            (unmap_page-query with_page virt_addr m.well_formed word still unmap_page-ready.0).2 u
              wu d
            ∙ map_page-query_others virt_addr phys_addr flags p w word ok loaded u wu d c,
      )
