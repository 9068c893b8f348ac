-- ===== src/Kva/Leak.antt =====
-- What `kva_map_region` of `kernel/kva.c` leaves behind where its first page is mapped already.
use unidos.Base.{
  ℕ, suc, ◌+◌, ◌-◌, ◌*◌, ◌/◌, ◌%◌, ◌^◌, ◌≤◌, ◌<◌, ◌≡◌, ap, ◌∙◌, arith, true, false, some, [], inl,
  inr,
}
use unidos.Bitmap.Bits.{test_bit}
use unidos.Pmm.State.{alloc_success}
use unidos.Pmm.Alloc.{pmm_get_next_available_block}
use unidos.Pmm.Alloc.Block.{get_next_available_block-MeetsSpec, Grants}
use unidos.Pmm.Reserve.{err_already_mapped}
use unidos.Paging.{
  Paging, is_present, pde, pde_index, paging_map_page, flag_error, ensure_table, map_entry,
  kernel_virtual_base,
}
use unidos.Paging.Tables.{IsWellFormed, entry_at, pt_ptr_from_pdi-present}
use unidos.Dpage.Commit.{with_grant, grant-IsWellFormed, grant-entry_at}
use unidos.Kva.{Kva, Region, Name, map_pages, map_found, rewind, kva_map_region, the_region}

module _ (virt phys : ℕ) (q : Paging) (w : IsWellFormed q) (word : virt < 2 ^ 32)
    (page : virt % 4096 ≡ 0) (frame : phys % 4096 ≡ 0) (high : kernel_virtual_base ≤ virt)
    (there : is_present (entry_at q virt) ≡ true) where
  table : is_present (pde q (pde_index virt)) ≡ true
  table = ground (arith, there)

  -- A page that is mapped is not mapped again, and nothing changes.
  map_page-again : paging_map_page virt phys 3 q ≡ (err_already_mapped, q)
  unfolding paging_map_page flag_error ensure_table map_entry
  map_page-again =
      let pt = pt_ptr_from_pdi-present q (pde_index virt) (omega arith) w table in
      ground (arith, w.initialized, page, frame, high, table, pt, there)

module _ (virt : ℕ) (p : Paging) (w : IsWellFormed p) (word : virt < 2 ^ 32)
    (page : virt % 4096 ≡ 0) (high : kernel_virtual_base ≤ virt)
    (there : is_present (entry_at p virt) ≡ true) where
  pages-refused :
      (n f : ℕ)
      → (pmm_get_next_available_block p.pmm).0 ≡ alloc_success
      → (pmm_get_next_available_block p.pmm).1 ≡ f * 4096
      → (g : Grants f p.pmm (pmm_get_next_available_block p.pmm).2)
      → map_pages (suc n) virt [] p
        ≡ (false, with_grant p w f (pmm_get_next_available_block p.pmm).2 g)
  unfolding map_pages rewind
  pages-refused n f got address g =
      let q = with_grant p w f (pmm_get_next_available_block p.pmm).2 g in
      let same = grant-entry_at p w f (pmm_get_next_available_block p.pmm).2 g virt in
      let again =
        map_page-again virt (pmm_get_next_available_block p.pmm).1 q
          (grant-IsWellFormed p w f (pmm_get_next_available_block p.pmm).2 g) word page
          (omega (arith, address)) high (rw same there) in
      ground (arith, got, ap (λ r. r.0) again, ap (λ r. r.1) again)

-- Frame `f`, free until then, is taken, and every address is mapped as before.
pub record Leaks (f : ℕ) (p q : Paging) : Type 0 where
  pub was_free : test_bit p.pmm.pagebitmap f ≡ false
  pub taken : test_bit q.pmm.pagebitmap f ≡ true
  pub fewer : q.pmm.available_frames + 1 ≡ p.pmm.available_frames
  pub as_before : (v : ℕ) → entry_at q v ≡ entry_at p v

module _ (name : Name) (k : Kva) (p : Paging) (i : ℕ) (found : the_region name k ≡ some i) where
  abbrev r : Region
  r = k.kva_regions i

  region-refused :
      (q : Paging)
      → r.mapped ≡ false
      → map_pages (r.size / 4096) r.base [] p ≡ (false, q)
      → kva_map_region (some name) k p ≡ some (false, k, q)
  unfolding kva_map_region map_found
  region-refused q off e = ground (arith, found, off, ap (λ x. x.0) e, ap (λ x. x.1) e)

  -- Where the first page of a region is mapped already, although the region does not count as mapped,
  -- `kva_map_region` answers `false` and loses a frame: in a well-formed state with a frame left, one
  -- that was free is taken afterwards, but every address is mapped as before and so nothing refers to
  -- it. The region has at least a page and lies in whole pages of the kernel's half.
  pub map_region-Leaks :
      IsWellFormed p
      → r.mapped ≡ false
      → r.base % 4096 ≡ 0
      → kernel_virtual_base ≤ r.base
      → r.base < 2 ^ 32
      → 4096 ≤ r.size
      → is_present (entry_at p r.base) ≡ true
      → 0 < p.pmm.available_frames
      → (q : Paging) × (f : ℕ) × (kva_map_region (some name) k p ≡ some (false, k, q)) × Leaks f p q
  map_region-Leaks w off page high word size there left =
      elim (get_next_available_block-MeetsSpec p.pmm w.memory) [
        | inr (full, a, b, c) ↦ absurd (omega (arith, c, left))
        | inl (f, got, address, g) ↦
            let m = (pmm_get_next_available_block p.pmm).2 in
            let q = with_grant p w f m g in
            let n = r.size / 4096 - 1 in
            let pages : r.size / 4096 ≡ suc n = omega (arith, size) in
            (
              q,
              f,
              region-refused q off (
                  ap (λ c. map_pages c r.base [] p) pages
                  ∙ pages-refused r.base p w word page high there n f got address g),
              record {
                was_free = g.was_free;
                taken = ground (arith, g.taken f);
                fewer = g.fewer;
                as_before = grant-entry_at p w f m g;
              },
            )
      ]
