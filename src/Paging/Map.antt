-- ===== src/Paging/Map.antt =====
-- `paging_map_page`.
use unidos.Base.{
  ℕ, ◌+◌, ◌*◌, ◌/◌, ◌%◌, ◌^◌, ◌<◌, ◌≡◌, ◌≢◌, refl, true, false, arith, ◌==◌, if◌then◌else◌, inl,
  inr, ◌⊎◌, ◌&&◌, Option-cases, none, some, sym, ap, ◌∙◌, Bool-cases,
}
use unidos.Pmm.Alloc.{pmm_get_next_available_block}
use unidos.Pmm.Reserve.{PagingStatus, paging_ok, err_already_mapped}
use unidos.Paging.{
  Paging, is_present, pde_index, pte_index, page_of, encode, flag_error, pde, store, ensure_table,
  map_entry, paging_map_page, paging_query_page,
}
use unidos.Paging.Install.{HasTable, ensure_table-Ensured}
use unidos.Paging.Tables.{
  IsWellFormed, entry_at, decode, pt_ptr_from_pdi-present, write-IsWellFormed, write-entry_at,
  write-entry_at_others, query_page-entry_at,
}

pub decode-encode :
    (phys flags : ℕ)
    → decode (encode phys flags) ≡ (
      paging_ok,
      record { mapped = true; phys_addr = page_of phys; flags = flags % 4096 / 2 * 2 + 1 },
    )
decode-encode phys flags =
    let one : encode phys flags % 2 ≡ 1 = omega arith in
    let frame : page_of (encode phys flags) ≡ page_of phys = omega arith in
    let low : encode phys flags % 4096 ≡ flags % 4096 / 2 * 2 + 1 = omega arith in
    rw (one, frame, low) refl

-- On success the entry of the address is written. On failure there may be a new page table.
pub record Maps (virt_addr phys_addr flags : ℕ) (p p' : Paging) : Type 0 where
  pub well_formed : IsWellFormed p'
  pub same_cr3 : p'.cr3 ≡ p.cr3
  pub same_directory : p'.page_directory_loc_phys ≡ p.page_directory_loc_phys
  pub hit : entry_at p' virt_addr ≡ encode phys_addr flags
  pub kept :
      (v : ℕ)
      → v < 2 ^ 32
      → v / 4096 ≢ virt_addr / 4096
      → (pde_index v ≢ pde_index virt_addr) ⊎ (is_present (pde p (pde_index virt_addr)) ≡ true)
      → entry_at p' v ≡ entry_at p v
  pub stale :
      (v : ℕ)
      → v < 2 ^ 32
      → v / 4096 ≢ virt_addr / 4096
      → pde_index v ≡ pde_index virt_addr
      → is_present (pde p (pde_index virt_addr)) ≡ false
      → entry_at p' v ≡ p.pmm.memory ((pmm_get_next_available_block p.pmm).1 / 4 + pte_index v)

module _ (virt_addr phys_addr flags : ℕ) (p : Paging) (w : IsWellFormed p)
    (word : virt_addr < 2 ^ 32) where
  rewritten-Maps :
      (q : Paging)
      → HasTable (pde_index virt_addr) p q
      → Maps virt_addr phys_addr flags p (
          store
            (page_of (pde q (pde_index virt_addr)))
            (pte_index virt_addr)
            (encode phys_addr flags)
            q)
  unfolding store
  rewritten-Maps q h =
      let e = encode phys_addr flags in
      record {
        well_formed =
            write-IsWellFormed q (pde_index virt_addr) (pte_index virt_addr) e h.well_formed
              (omega arith) (omega arith) h.present;
        same_cr3 = h.same_cr3;
        same_directory = h.same_directory;
        hit = write-entry_at q virt_addr e h.well_formed word h.present;
        kept = λ v wv d c.
            write-entry_at_others q virt_addr e h.well_formed word h.present v wv d ∙ h.kept v c;
        stale = λ v wv d s c.
            write-entry_at_others q virt_addr e h.well_formed word h.present v wv d ∙ h.stale v s c;
      }

  -- The page table that the code finds is the one of the directory.
  map_entry-found :
      (q : Paging)
      → HasTable (pde_index virt_addr) p q
      → map_entry virt_addr phys_addr flags q ≡ (
          if is_present (entry_at q virt_addr) then (err_already_mapped, q) else (
            paging_ok,
            store
                (page_of (pde q (pde_index virt_addr)))
                (pte_index virt_addr)
                (encode phys_addr flags)
                q,
          ))
  unfolding map_entry
  map_entry-found q h = ground (
    arith,
    pt_ptr_from_pdi-present q (pde_index virt_addr) (omega arith) h.well_formed h.present,
    h.present,
  )

  -- Success, or an error with the mappings as they were where a page table was there.
  abbrev Outcome : PagingStatus × Paging → Type 0
  Outcome (r, p') =
      ((r ≡ paging_ok) × Maps virt_addr phys_addr flags p p')
      ⊎ ((r ≢ paging_ok) × ((p' ≡ p) ⊎ HasTable (pde_index virt_addr) p p'))

  map_entry-Outcome :
      (q : Paging)
      → HasTable (pde_index virt_addr) p q
      → Outcome (map_entry virt_addr phys_addr flags q)
  map_entry-Outcome q h =
      rw (map_entry-found q h) (elim (Bool-cases (is_present (entry_at q virt_addr))) [
        | inl there ↦ rw there (inr (λ e. cc, inr h))
        | inr free ↦ rw free (inl (refl, rewritten-Maps q h))
      ])

  map_page-ready :
      virt_addr % 4096 ≡ 0
      → phys_addr % 4096 ≡ 0
      → flag_error virt_addr flags ≡ none
      → (ensure_table (pde_index virt_addr) flags p).0 ≡ none
      → paging_map_page virt_addr phys_addr flags p
        ≡ map_entry virt_addr phys_addr flags (ensure_table (pde_index virt_addr) flags p).1
  unfolding paging_map_page
  map_page-ready av ap_ fe et = ground (arith, w.initialized, fe, et)

  map_page-fails :
      let (r, p') = paging_map_page virt_addr phys_addr flags p in
      (virt_addr % 4096 ≢ 0) ⊎ ((phys_addr % 4096 ≢ 0) ⊎ (flag_error virt_addr flags ≢ none))
      → (r ≢ paging_ok) × (p' ≡ p)
  unfolding paging_map_page flag_error
  map_page-fails c = ground (arith, w.initialized)

  map_page-no_table :
      let (r, p') = paging_map_page virt_addr phys_addr flags p in
      let (bad, q) = ensure_table (pde_index virt_addr) flags p in
      bad ≢ none → bad ≢ some paging_ok → q ≡ p → (r ≢ paging_ok) × (p' ≡ p)
  unfolding paging_map_page flag_error
  map_page-no_table b c d = ground (arith, w.initialized)

  checks-cases :
      ((virt_addr % 4096 ≢ 0) ⊎ ((phys_addr % 4096 ≢ 0) ⊎ (flag_error virt_addr flags ≢ none)))
      ⊎ ((virt_addr % 4096 ≡ 0) × (phys_addr % 4096 ≡ 0) × (flag_error virt_addr flags ≡ none))
  checks-cases = elim (Bool-cases (virt_addr % 4096 == 0 && phys_addr % 4096 == 0)) [
    | inr c ↦ inl (ground arith)
    | inl c ↦ elim (Option-cases (flag_error virt_addr flags)) [
      | inl e ↦ inr (ground arith, ground arith, e)
      | inr (e, q) ↦ inl (inr (inr (λ r. cc)))
    ]
  ]

  map_page-Outcome : Outcome (paging_map_page virt_addr phys_addr flags p)
  map_page-Outcome = elim checks-cases [
    | inl c ↦ let f = map_page-fails c in inr (f.0, inl f.1)
    | inr (av, ap_, fe) ↦
        elim (ensure_table-Ensured p (pde_index virt_addr) flags w (omega arith)) [
          | inl (done, h) ↦
              rw (map_page-ready av ap_ fe done)
                (map_entry-Outcome (ensure_table (pde_index virt_addr) flags p).1 h)
          | inr (b, c, d) ↦ let f = map_page-no_table b c d in inr (f.0, inl f.1)
        ]
  ]

  pub map_page-Maps :
      (paging_map_page virt_addr phys_addr flags p).0 ≡ paging_ok
      → Maps virt_addr phys_addr flags p (paging_map_page virt_addr phys_addr flags p).1
  map_page-Maps ok = elim map_page-Outcome [ inl (q, m) ↦ m | inr (d, c) ↦ absurd (d ok) ]

  pub map_page-aligned :
      (paging_map_page virt_addr phys_addr flags p).0 ≡ paging_ok
      → (virt_addr % 4096 ≡ 0) × (phys_addr % 4096 ≡ 0)
  map_page-aligned ok = elim checks-cases [
    | inl c ↦ absurd ((map_page-fails c).0 ok)
    | inr (av, ap_, fe) ↦ (av, ap_)
  ]

  -- `paging_map_page` keeps a well-formed directory and its page tables well formed, whatever it
  -- answers.
  pub map_page-IsWellFormed : IsWellFormed (paging_map_page virt_addr phys_addr flags p).1
  map_page-IsWellFormed = elim map_page-Outcome [
    | inl (q, m) ↦ m.well_formed
    | inr (d, c) ↦ elim c [ inl same ↦ rw same w | inr h ↦ h.well_formed ]
  ]

  module _ (ok : (paging_map_page virt_addr phys_addr flags p).0 ≡ paging_ok)
      (loaded : p.cr3 ≡ p.page_directory_loc_phys) where
    query_after :
        (v : ℕ)
        → paging_query_page (paging_map_page virt_addr phys_addr flags p).1 v
          ≡ decode (entry_at (paging_map_page virt_addr phys_addr flags p).1 v)
    query_after v =
        let m = map_page-Maps ok in
        query_page-entry_at (paging_map_page virt_addr phys_addr flags p).1 v m.well_formed
          (m.same_cr3 ∙ loaded ∙ sym m.same_directory)

    -- In a well-formed state with the kernel's directory loaded, a page that `paging_map_page` has
    -- mapped is found by `paging_query_page`, with the page's physical address, and with the flags
    -- that were asked for and the bit that says it is present.
    pub map_page-query :
        paging_query_page (paging_map_page virt_addr phys_addr flags p).1 virt_addr ≡ (
          paging_ok,
          record { mapped = true; phys_addr = page_of phys_addr; flags = flags % 4096 / 2 * 2 + 1 },
        )
    map_page-query =
        query_after virt_addr ∙ rw (map_page-Maps ok).hit (decode-encode phys_addr flags)

    -- In a well-formed state with the kernel's directory loaded, a successful `paging_map_page`
    -- changes what a query of any other page answers at most if that page shares a directory entry
    -- with the new one, and that entry had no page table.
    pub map_page-query_others :
        (v : ℕ)
        → v < 2 ^ 32
        → v / 4096 ≢ virt_addr / 4096
        → (pde_index v ≢ pde_index virt_addr) ⊎ (is_present (pde p (pde_index virt_addr)) ≡ true)
        → paging_query_page (paging_map_page virt_addr phys_addr flags p).1 v
          ≡ paging_query_page p v
    map_page-query_others v wv d c =
        query_after v
        ∙ ap decode ((map_page-Maps ok).kept v wv d c)
        ∙ sym (query_page-entry_at p v w loaded)

    -- In a well-formed state with the kernel's directory loaded, when `paging_map_page` has taken a
    -- new page table, a query of another page of that table answers what the frame happened to hold
    -- before: the frame is not cleared.
    pub map_page-stale :
        (v : ℕ)
        → v < 2 ^ 32
        → v / 4096 ≢ virt_addr / 4096
        → pde_index v ≡ pde_index virt_addr
        → is_present (pde p (pde_index virt_addr)) ≡ false
        → paging_query_page (paging_map_page virt_addr phys_addr flags p).1 v
          ≡ decode (p.pmm.memory ((pmm_get_next_available_block p.pmm).1 / 4 + pte_index v))
    map_page-stale v wv d s c = query_after v ∙ ap decode ((map_page-Maps ok).stale v wv d s c)
