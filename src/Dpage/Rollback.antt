-- ===== src/Dpage/Rollback.antt =====
-- What `dpage_alloc` of `kernel/dpage.c` undoes when there is no frame for the second page of a slot.
use unidos.Base.{
  ℕ, ◌+◌, ◌-◌, ◌/◌, ◌%◌, ◌^◌, ◌<◌, ◌≡◌, ◌≢◌, refl, ◌∙◌, ap, arith, true, false, not, ◌==◌,
  if◌then◌else◌, none, some, inl, inr, u32,
}
use unidos.Pmm.State.{Pmm, bm_clear}
use unidos.Pmm.Alloc.{pmm_dealloc_specific_block}
use unidos.Pmm.Alloc.Block.{get_next_available_block-MeetsSpec}
use unidos.Paging.{Paging, is_present, page_of, pde, pde_index, pte_index, paging_unmap_page}
use unidos.Paging.Tables.{IsWellFormed, entry_at, write-entry_at}
use unidos.Paging.Change.{unmap_page-entry_at}
use unidos.Dpage.Slot.{alloc-found}
use unidos.Dpage.Commit.{needs-map}
use unidos.Dpage.{
  dpage_success, pmm_init_failed, Pool, Heap, Round, demand_map, page_round, second_round,
  commit_pages, kept_as_is, release_page, give_back, dpage_alloc, settle, find_slot, slot_count,
  dpage_bm_slot_to_vaddr,
}

dealloc-memory : (s : Pmm) (a : ℕ) → (pmm_dealloc_specific_block s a).1.memory ≡ s.memory
unfolding pmm_dealloc_specific_block bm_clear
dealloc-memory s a = ground arith

module _ (p : Paging) (w : IsWellFormed p) (page : ℕ) (word : page < 2 ^ 32) where
  abbrev reads : ℕ → ℕ → (ℕ → ℕ) → ℕ
  reads directory v m =
      let e = m (directory / 4 + pde_index v) in
      if is_present e then m (page_of e / 4 + pte_index v) else 0

  give_back-entry_at : (q : Paging) (phys v : ℕ) → entry_at (give_back phys q) v ≡ entry_at q v
  give_back-entry_at q phys v = ap (reads q.page_directory_loc_phys v) (dealloc-memory q.pmm phys)

  -- A mapped page is not mapped after it has been released.
  release_page-entry_at :
      page % 4096 ≡ 0
      → is_present (entry_at p page) ≡ true
      → entry_at (release_page page p) page ≡ 0
  unfolding release_page
  release_page-entry_at aligned on =
      let (res, phys, q) = paging_unmap_page page p in
      let cleared : entry_at (paging_unmap_page page p).2 page ≡ 0 =
        let e = unmap_page-entry_at p page w word in
        let table : is_present (pde p (pde_index page)) ≡ true = ground arith in
        rw e (rw aligned (rw on (write-entry_at p page 0 w word table))) in
      give_back-entry_at q phys page ∙ cleared

  demand_map-full :
      (undo_oom undo_map : Paging → Paging)
      → p.pmm.available_frames ≡ 0
      → demand_map undo_oom undo_map page p
        ≡ record { status = pmm_init_failed; mapped = false; paging = undo_oom p }
  unfolding demand_map
  demand_map-full u v full = elim (get_next_available_block-MeetsSpec p.pmm w.memory) [
    | inl (f, done, address, g) ↦ absurd (omega (arith, g.fewer))
    | inr (none_left, a, same, z) ↦ ground (arith, none_left, same)
  ]

module _ (k : Pool) (h : Heap) (s : ℕ) (w : IsWellFormed h.paging)
    (found : find_slot h.bitmap (slot_count k) 0 ≡ some s)
    (full : h.paging.pmm.available_frames ≡ 0) where
  abbrev pub address : ℕ
  address = dpage_bm_slot_to_vaddr s k.vaddr_base k.element_size

  abbrev pub first_page : ℕ
  first_page = page_of address

  abbrev pub last_page : ℕ
  last_page = page_of (u32 (address + k.element_size - 1))

  abbrev untouched : Round
  untouched = record { status = dpage_success; mapped = false; paging = h.paging }

  abbrev unmapped : Round
  unmapped = record {
    status = pmm_init_failed;
    mapped = false;
    paging = release_page first_page h.paging;
  }

  round-on :
      (u v : Paging → Paging) (page : ℕ)
      → page < 2 ^ 32
      → is_present (entry_at h.paging page) ≡ true
      → page_round u v page h.paging
        ≡ record { status = dpage_success; mapped = false; paging = h.paging }
  unfolding page_round
  round-on u v page word on = rw (needs-map page word h.paging ∙ ap not on) refl

  round-off :
      (u v : Paging → Paging) (page : ℕ)
      → page < 2 ^ 32
      → is_present (entry_at h.paging page) ≡ false
      → page_round u v page h.paging
        ≡ record { status = pmm_init_failed; mapped = false; paging = u h.paging }
  unfolding page_round
  round-off u v page word off =
      rw (needs-map page word h.paging ∙ ap not off) (demand_map-full h.paging w page word u v full)

  -- Where the slot crosses into a page that is not mapped, and the page it begins in is mapped for
  -- the slots before it, `dpage_alloc` without a frame left fails with `DPAGE_PMM_INIT_FAILED`, and
  -- the page it begins in is mapped no longer: the error path does not ask whether this call has
  -- mapped it.
  pub dpage_alloc-unmaps :
      address < 2 ^ 32
      → last_page ≢ first_page
      → is_present (entry_at h.paging first_page) ≡ true
      → is_present (entry_at h.paging last_page) ≡ false
      → let (st, o, h') = dpage_alloc k h in
        (st ≡ pmm_init_failed) × ((o ≡ none) × (entry_at h'.paging first_page ≡ 0))
  unfolding commit_pages settle second_round
  dpage_alloc-unmaps word crosses on off =
      let one = round-on kept_as_is kept_as_is first_page (omega arith) on in
      let two = round-off (release_page first_page) kept_as_is last_page (omega arith) off in
      let apart : (last_page == first_page) ≡ false = ground arith in
      rw (alloc-found k h s found) (
        rw apart (
          rw one (
            rw two (
              refl,
              (refl, release_page-entry_at h.paging w first_page (omega arith) (omega arith) on),
            ))))
