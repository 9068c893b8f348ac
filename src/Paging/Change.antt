-- ===== src/Paging/Change.antt =====
-- `paging_unmap_page`, `paging_unmap_and_free_page` and `paging_set_flags`.
use unidos.Base.{
  ℕ, ◌+◌, ◌*◌, ◌/◌, ◌%◌, ◌^◌, ◌<◌, ◌≡◌, ◌≢◌, refl, true, false, not, arith, ◌==◌, if◌then◌else◌,
  inl, inr, sym, ap, ◌∙◌, Bool-cases, ◌↔◌,
}
use unidos.Bitmap.Bits.{test_bit}
use unidos.Pmm.State.{frame_reserved}
use unidos.Pmm.Alloc.{pmm_dealloc_specific_block}
use unidos.Pmm.Alloc.Specific.{
  Returns, dealloc_specific_block-success, dealloc_specific_block-effect,
}
use unidos.Pmm.Reserve.{paging_ok, err_align, err_not_mapped}
use unidos.Paging.{
  Paging, no_result, is_present, pde_index, pte_index, page_of, encode, flag_error, pde, store,
  paging_query_page, paging_unmap_page, paging_unmap_and_free_page, paging_set_flags,
}
use unidos.Paging.Map.{decode-encode}
use unidos.Paging.Tables.{
  IsWellFormed, entry_at, decode, pt_ptr_from_pdi-present, write-IsWellFormed, write-entry_at,
  write-entry_at_others, query_page-entry_at,
}

module _ (p : Paging) (v : ℕ) (w : IsWellFormed p) (word : v < 2 ^ 32) where
  mapped-present : is_present (entry_at p v) ≡ true → is_present (pde p (pde_index v)) ≡ true
  mapped-present e = ground arith

  -- The entry of the address `v`, which is mapped, becomes `e`.
  abbrev replaced : ℕ → Paging
  replaced e = store (page_of (pde p (pde_index v))) (pte_index v) e p

  -- Unmapping by the map of entries alone.
  pub unmap_page-entry_at : paging_unmap_page v p ≡ (
      if not (v % 4096 == 0)
      then (err_align, 0, p)
      else if not (is_present (entry_at p v))
      then (err_not_mapped, 0, p)
      else (paging_ok, page_of (entry_at p v), replaced 0))
  unfolding paging_unmap_page
  unmap_page-entry_at =
      ground (arith, w.initialized, pt_ptr_from_pdi-present p (pde_index v) (omega arith) w)

  unmap_page-done :
      (paging_unmap_page v p).0 ≡ paging_ok
      → (is_present (entry_at p v) ≡ true)
        × (v % 4096 ≡ 0)
        × (paging_unmap_page v p ≡ (paging_ok, page_of (entry_at p v), replaced 0))
  unmap_page-done ok = ground (arith, unmap_page-entry_at)

  set_flags-entry_at :
      (flags : ℕ)
      → (paging_set_flags v flags p).0 ≡ paging_ok
      → (is_present (entry_at p v) ≡ true)
        × (paging_set_flags v flags p ≡ (paging_ok, replaced (encode (entry_at p v) flags)))
  unfolding paging_set_flags flag_error
  set_flags-entry_at flags ok =
      ground (arith, w.initialized, pt_ptr_from_pdi-present p (pde_index v) (omega arith) w)

  replaced-IsWellFormed : (e : ℕ) → is_present (entry_at p v) ≡ true → IsWellFormed (replaced e)
  replaced-IsWellFormed e here =
      write-IsWellFormed p (pde_index v) (pte_index v) e w (omega arith) (omega arith)
        (mapped-present here)

  module _ (here : is_present (entry_at p v) ≡ true)
      (loaded : p.cr3 ≡ p.page_directory_loc_phys) where
    replaced-query : (e u : ℕ) → paging_query_page (replaced e) u ≡ decode (entry_at (replaced e) u)
    unfolding store
    replaced-query e u = query_page-entry_at (replaced e) u (replaced-IsWellFormed e here) loaded

    replaced-query_self : (e : ℕ) → paging_query_page (replaced e) v ≡ decode e
    replaced-query_self e =
        replaced-query e v ∙ ap decode (write-entry_at p v e w word (mapped-present here))

    replaced-query_others :
        (e u : ℕ)
        → u < 2 ^ 32
        → u / 4096 ≢ v / 4096
        → paging_query_page (replaced e) u ≡ paging_query_page p u
    replaced-query_others e u wu d =
        replaced-query e u
        ∙ ap decode (write-entry_at_others p v e w word (mapped-present here) u wu d)
        ∙ sym (query_page-entry_at p u w loaded)

  -- `paging_unmap_page` keeps a well-formed directory and its page tables well formed, whatever it
  -- answers.
  pub unmap_page-IsWellFormed : IsWellFormed (paging_unmap_page v p).2
  unmap_page-IsWellFormed = rw unmap_page-entry_at (elim (Bool-cases (v % 4096 == 0)) [
    | inr c ↦ rw c w
    | inl c ↦ rw c (elim (Bool-cases (is_present (entry_at p v))) [
      | inl here ↦ rw here (replaced-IsWellFormed 0 here)
      | inr free ↦ rw free w
    ])
  ])

  -- `paging_set_flags` keeps the directory and the page tables well formed when it succeeds.
  pub set_flags-IsWellFormed :
      (flags : ℕ)
      → (paging_set_flags v flags p).0 ≡ paging_ok
      → IsWellFormed (paging_set_flags v flags p).1
  set_flags-IsWellFormed flags ok =
      let done = set_flags-entry_at flags ok in
      rw done.1 (replaced-IsWellFormed (encode (entry_at p v) flags) done.0)

  module _ (loaded : p.cr3 ≡ p.page_directory_loc_phys) where
    -- In a well-formed state with the kernel's directory loaded, `paging_unmap_page` succeeds
    -- exactly when the address is aligned and a query finds it mapped.
    pub unmap_page-success :
        ((paging_unmap_page v p).0 ≡ paging_ok)
        ↔ ((v % 4096 ≡ 0) × ((paging_query_page p v).0 ≡ paging_ok))
    unmap_page-success = ground (arith, unmap_page-entry_at, query_page-entry_at p v w loaded)

    -- In a well-formed state with the kernel's directory loaded, a successful `paging_unmap_page`
    -- returns the physical address that a query found before; then a query finds the page unmapped,
    -- and answers for every other page as before.
    pub unmap_page-query :
        (paging_unmap_page v p).0 ≡ paging_ok
        → let (r, phys, p') = paging_unmap_page v p in
          (phys ≡ (paging_query_page p v).1.phys_addr)
          × (paging_query_page p' v ≡ (err_not_mapped, no_result))
          × ((u : ℕ)
              → u < 2 ^ 32
              → u / 4096 ≢ v / 4096
              → paging_query_page p' u ≡ paging_query_page p u)
    unmap_page-query ok =
        let (here, aligned, done) = unmap_page-done ok in
        rw done (
          rw (query_page-entry_at p v w loaded, here) refl,
          replaced-query_self here loaded 0,
          replaced-query_others here loaded 0,
        )

    -- In a well-formed state with the kernel's directory loaded, after a successful
    -- `paging_set_flags` a query finds the page at the physical address of before with the new
    -- flags and the bit that says it is present, and answers for every other page as before.
    pub set_flags-query :
        (flags : ℕ)
        → (paging_set_flags v flags p).0 ≡ paging_ok
        → let p' = (paging_set_flags v flags p).1 in
          (paging_query_page p' v ≡ (
            paging_ok,
            record {
              mapped = true;
              phys_addr = (paging_query_page p v).1.phys_addr;
              flags = flags % 4096 / 2 * 2 + 1;
            },
          ))
          × ((u : ℕ)
              → u < 2 ^ 32
              → u / 4096 ≢ v / 4096
              → paging_query_page p' u ≡ paging_query_page p u)
    set_flags-query flags ok =
        let (here, done) = set_flags-entry_at flags ok in
        rw done (
          replaced-query_self here loaded (encode (entry_at p v) flags)
              ∙ decode-encode (entry_at p v) flags
              ∙ rw (query_page-entry_at p v w loaded, here) refl,
          replaced-query_others here loaded (encode (entry_at p v) flags),
        )

  unmap_and_free_page-frees :
      (e : ℕ)
      → paging_unmap_page v p ≡ (paging_ok, page_of e, replaced 0)
      → page_of e ≢ 0
      → paging_unmap_and_free_page v p ≡ (
        paging_ok,
        record (replaced 0) { pmm = (pmm_dealloc_specific_block (replaced 0).pmm (page_of e)).1 },
      )
  unfolding paging_unmap_and_free_page
  unmap_and_free_page-frees e done some_frame =
      let status : (paging_unmap_page v p).0 ≡ paging_ok = ap (λ r. r.0) done in
      let phys : (paging_unmap_page v p).1 ≡ page_of e = ap (λ r. r.1) done in
      let state : (paging_unmap_page v p).2 ≡ replaced 0 = ap (λ r. r.2) done in
      ground (arith, status, phys, state)

  replaced-Returns :
      (e : ℕ)
      → is_present (entry_at p v) ≡ true
      → e / 4096 < p.pmm.frame_count
      → frame_reserved p.pmm (page_of e) ≡ false
      → test_bit p.pmm.pagebitmap (e / 4096) ≡ true
      → Returns
          (e / 4096)
          (replaced 0).pmm
          (pmm_dealloc_specific_block (replaced 0).pmm (page_of e)).1
  unfolding store
  replaced-Returns e here lt out was =
      let valid = (replaced-IsWellFormed 0 here).memory in
      let index : page_of e / 4096 ≡ e / 4096 = omega arith in
      let address : page_of e < 2 ^ 32 = omega (arith, valid.small, lt) in
      let ok =
        (dealloc_specific_block-success (replaced 0).pmm (page_of e) valid address).1
          (omega arith, rw index lt, out, rw index was) in
      elim (dealloc_specific_block-effect (replaced 0).pmm (page_of e) valid address) [
        | inl (done, back) ↦ rw index at back
        | inr (failed, same) ↦ absurd (failed ok)
      ]

  -- In a well-formed state, when the frame of a mapped page is taken, is not frame 0 and lies in no
  -- reserved region, `paging_unmap_and_free_page` succeeds and gives that frame, and no other, back
  -- to the physical memory manager.
  pub unmap_and_free_page-Returns :
      (paging_unmap_page v p).0 ≡ paging_ok
      → let f = entry_at p v / 4096 in
        f < p.pmm.frame_count
        → f ≢ 0
        → frame_reserved p.pmm (f * 4096) ≡ false
        → test_bit p.pmm.pagebitmap f ≡ true
        → let (r, p') = paging_unmap_and_free_page v p in
          (r ≡ paging_ok) × Returns f (paging_unmap_page v p).2.pmm p'.pmm
  unmap_and_free_page-Returns ok lt some_frame out was =
      let (here, aligned, done) = unmap_page-done ok in
      let nonzero : page_of (entry_at p v) ≢ 0 = omega arith in
      rw (unmap_and_free_page-frees (entry_at p v) done nonzero, done)
        (refl, replaced-Returns (entry_at p v) here lt out was)
