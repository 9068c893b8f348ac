-- ===== src/Kva/Mapping.antt =====
-- The pages of a region that `kva_map_region` of `kernel/kva.c` has mapped.
use unidos.Base.{
  ℕ, zero, suc, ◌+◌, ◌*◌, ◌/◌, ◌%◌, ◌^◌, ◌≤◌, ◌<◌, ◌≡◌, ◌⊎◌, refl, sym, ◌∙◌, ap, arith, Bool, true,
  false, ltb, if◌then◌else◌, some, Bool-cases, if_none-some, some_inj, inl, inr, List, [], ◌∷◌,
  ◌++◌, u32,
}
use unidos.Pmm.State.{alloc_success}
use unidos.Pmm.Alloc.{pmm_get_next_available_block}
use unidos.Pmm.Reserve.{paging_ok}
use unidos.Paging.{Paging, is_present, paging_map_page}
use unidos.Paging.Tables.{IsWellFormed, entry_at}
use unidos.Dpage.{dpage_success, demand_map, kept_as_is}
use unidos.Dpage.Commit.{Covers, demand_map-Covers, entry_at-page}
use unidos.Kva.{Kva, Region, Name, map_pages, kva_map_region, the_region, set_region, map_found}

-- The `n` pages from `virt` on are mapped, and every address outside that was mapped is as before.
pub record MapsAll (n virt : ℕ) (p q : Paging) : Type 0 where
  pub well_formed : IsWellFormed q
  pub all_mapped : (v : ℕ) → virt ≤ v → v < virt + n * 4096 → is_present (entry_at q v) ≡ true
  pub kept :
      (v : ℕ)
      → v < 2 ^ 32
      → (v < virt) ⊎ (virt + n * 4096 ≤ v)
      → is_present (entry_at p v) ≡ true
      → entry_at q v ≡ entry_at p v

module _ (virt : ℕ) (p : Paging) where
  abbrev with_block : Paging
  with_block = record p { pmm = (pmm_get_next_available_block p.pmm).2 }

  abbrev mapping : Paging
  mapping = (paging_map_page virt (pmm_get_next_available_block p.pmm).1 3 with_block).1

  -- A round that maps its page is the demand-mapping of `kernel/dpage.c`.
  round-demand :
      (pmm_get_next_available_block p.pmm).0 ≡ alloc_success
      → (paging_map_page virt (pmm_get_next_available_block p.pmm).1 3 with_block).0 ≡ paging_ok
      → demand_map kept_as_is kept_as_is virt p
        ≡ record { status = dpage_success; mapped = true; paging = mapping }
  unfolding demand_map
  round-demand got ok = ground (arith, got, ok)

  round-Covers :
      IsWellFormed p
      → virt < 2 ^ 32
      → (pmm_get_next_available_block p.pmm).0 ≡ alloc_success
      → (paging_map_page virt (pmm_get_next_available_block p.pmm).1 3 with_block).0 ≡ paging_ok
      → Covers virt p mapping
  round-Covers w word got ok =
      let e = round-demand got ok in
      rw e at (demand_map-Covers kept_as_is kept_as_is virt word p w (ap (λ r. r.status) e))

  pages-success :
      (n : ℕ) (done : List (ℕ × ℕ))
      → (map_pages (suc n) virt done p).0 ≡ true
      → ((pmm_get_next_available_block p.pmm).0 ≡ alloc_success)
        × (((paging_map_page virt (pmm_get_next_available_block p.pmm).1 3 with_block).0
              ≡ paging_ok)
            × (map_pages (suc n) virt done p
                ≡ map_pages n
                    (u32 (virt + 4096))
                    (done ++ (virt, (pmm_get_next_available_block p.pmm).1) ∷ [])
                    mapping))
  unfolding map_pages
  pages-success n done ok = ground arith

pages-zero : (virt : ℕ) (done : List (ℕ × ℕ)) (p : Paging) → map_pages 0 virt done p ≡ (true, p)
unfolding map_pages
pages-zero virt done p = refl

map_pages-MapsAll :
    (n virt : ℕ) (done : List (ℕ × ℕ)) (p : Paging)
    → IsWellFormed p
    → virt % 4096 ≡ 0
    → virt + n * 4096 < 2 ^ 32
    → (map_pages n virt done p).0 ≡ true
    → MapsAll n virt p (map_pages n virt done p).1
map_pages-MapsAll zero virt done p w a room ok = rw (pages-zero virt done p) (record {
  well_formed = w;
  all_mapped = λ v le lt. absurd (omega arith);
  kept = λ v lv out on. refl;
})
map_pages-MapsAll (suc n) virt done p w a room ok =
    let (got, (fine, is)) = pages-success virt p n done ok in
    let c = round-Covers virt p w (omega arith) got fine in
    let next : u32 (virt + 4096) ≡ virt + 4096 = omega arith in
    let rest =
      map_pages-MapsAll n (u32 (virt + 4096))
        (done ++ (virt, (pmm_get_next_available_block p.pmm).1) ∷ []) (mapping virt p) c.well_formed
        (omega arith) (omega arith) (sym (ap (λ r. r.0) is) ∙ ok) in
    rw is (record {
      well_formed = rest.well_formed;
      all_mapped = λ v le lt. elim (Bool-cases (ltb v (virt + 4096))) [
        | inr far ↦ rest.all_mapped v (ground (arith, next)) (ground (arith, next))
        | inl near ↦
            let on : is_present (entry_at (mapping virt p) v) ≡ true =
              rw (entry_at-page (mapping virt p) v virt (ground arith)) c.present in
            rw (rest.kept v (ground arith) (inl (ground (arith, next))) on) on
      ];
      kept = λ v lv out on.
          let first = c.kept v lv (omega (arith, out)) on in
          rest.kept v lv (omega (arith, out, next)) (rw first on) ∙ first;
    })

module _ (name : Name) (k k' : Kva) (p q : Paging) (i : ℕ) (found : the_region name k ≡ some i)
    (done : kva_map_region (some name) k p ≡ some (true, k', q)) where
  abbrev r : Region
  r = k.kva_regions i

  abbrev pages : Bool × Paging
  pages = map_pages (r.size / 4096) r.base [] p

  map_region-found : kva_map_region (some name) k p ≡ map_found i k p
  unfolding kva_map_region
  map_region-found = ground (arith, found)

  abbrev marked : Kva
  marked = set_region i (record r { mapped = true }) k

  abbrev outcome : Bool → Bool × Kva × Paging
  outcome true = (true, marked, pages.1)
  outcome false = (false, k, pages.1)

  found-all :
      (all : Bool)
      → (if all then some (outcome true) else some (outcome false)) ≡ some (true, k', q)
      → (all ≡ true) × ((k' ≡ marked) × (q ≡ pages.1))
  found-all true e =
      let same = some_inj (outcome true) (true, k', q) e in
      (refl, (sym (ap (λ x. x.1) same), sym (ap (λ x. x.2) same)))
  found-all false e =
      let same = some_inj (outcome false) (true, k', q) e in
      absurd (ground (arith, ap (λ x. x.0) same))

  found-done :
      map_found i k p ≡ some (true, k', q)
      → (r.mapped ≡ false) × ((pages.0 ≡ true) × ((k' ≡ marked) × (q ≡ pages.1)))
  unfolding map_found
  found-done e = let (off, rest) = if_none-some _ _ (true, k', q) e in (off, found-all pages.0 rest)

  map_region-done :
      (r.mapped ≡ false)
      × ((pages.0 ≡ true) × ((k' ≡ set_region i (record r { mapped = true }) k) × (q ≡ pages.1)))
  map_region-done = found-done (sym map_region-found ∙ done)

  -- When `kva_map_region` of a region of whole pages below `2 ^ 32` answers `true` in a well-formed
  -- state, the region was not mapped, every byte of it lies in a mapped page now, it counts as mapped,
  -- and what was mapped outside is mapped as before.
  pub map_region-MapsAll :
      IsWellFormed p
      → r.base % 4096 ≡ 0
      → r.size % 4096 ≡ 0
      → r.base + r.size < 2 ^ 32
      → (r.mapped ≡ false) × ((k'.kva_regions i).mapped ≡ true) × MapsAll (r.size / 4096) r.base p q
  map_region-MapsAll w aligned whole room =
      let (off, (all, (ks, qs))) = map_region-done in
      (
        off,
        ap (λ (x : Kva). (x.kva_regions i).mapped) ks ∙ ground arith,
        rw qs (map_pages-MapsAll (r.size / 4096) r.base [] p w aligned (omega arith) all),
      )
