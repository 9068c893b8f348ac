-- ===== src/Dpage/Commit.antt =====
-- The pages under a slot that `dpage_alloc` of `kernel/dpage.c` hands out.
use unidos.Base.{
  ℕ, ◌+◌, ◌/◌, ◌^◌, ◌<◌, ◌≡◌, ◌≢◌, refl, ◌∙◌, ap, arith, true, false, not, ◌==◌, if◌then◌else◌,
  Bool-cases, inl, inr,
}
use unidos.Pmm.State.{Pmm, alloc_success}
use unidos.Pmm.Alloc.{pmm_get_next_available_block}
use unidos.Pmm.Alloc.Block.{Grants, get_next_available_block-MeetsSpec}
use unidos.Pmm.Reserve.{paging_ok}
use unidos.Paging.{Paging, is_present, pde_index, pte_index, page_of, entry, pde, paging_map_page}
use unidos.Paging.Map.{Maps, map_page-Maps}
use unidos.Paging.Tables.{IsWellFormed, IsTable, entry_at}
use unidos.Dpage.{dpage_success, need_map, demand_map, page_round, present_rw}

-- The page is mapped, and every other that was is mapped to the frame and with the flags it had.
pub record Covers (page : ℕ) (p q : Paging) : Type 0 where
  pub well_formed : IsWellFormed q
  pub present : is_present (entry_at q page) ≡ true
  pub kept :
      (v : ℕ)
      → v < 2 ^ 32
      → v / 4096 ≢ page / 4096
      → is_present (entry_at p v) ≡ true
      → entry_at q v ≡ entry_at p v

-- The page is mapped, and so is every page that was, to the frame and with the flags it had.
pub record Commits (page : ℕ) (p q : Paging) : Type 0 where
  pub well_formed : IsWellFormed q
  pub present : is_present (entry_at q page) ≡ true
  pub kept : (v : ℕ) → v < 2 ^ 32 → is_present (entry_at p v) ≡ true → entry_at q v ≡ entry_at p v

module _ (p : Paging) (w : IsWellFormed p) (f : ℕ) (m : Pmm) (g : Grants f p.pmm m) where
  abbrev pub with_grant : Paging
  with_grant = record p { pmm = m }

  grant-entry : (table i : ℕ) → entry with_grant table i ≡ entry p table i
  grant-entry table i = ap (λ (r : ℕ → ℕ). r (table / 4 + i)) g.memory

  pub grant-entry_at : (v : ℕ) → entry_at with_grant v ≡ entry_at p v
  grant-entry_at v =
      rw (grant-entry p.page_directory_loc_phys (pde_index v))
        (rw (grant-entry (page_of (pde p (pde_index v))) (pte_index v)) refl)

  grant-pde : (i : ℕ) → pde with_grant i ≡ pde p i
  grant-pde i = grant-entry p.page_directory_loc_phys i

  grant-IsTable : (i : ℕ) → IsTable p i → IsTable with_grant i
  grant-IsTable i t = record {
    located = rw (grant-pde i) t.located;
    nonzero = rw (grant-pde i) t.nonzero;
    apart = rw (grant-pde i) t.apart;
    taken = rw (grant-pde i) (ground (arith, g.taken (pde p i / 4096), t.taken));
  }

  pub grant-IsWellFormed : IsWellFormed with_grant
  grant-IsWellFormed = record {
    initialized = w.initialized;
    aligned = w.aligned;
    memory = g.valid;
    first_taken = ground (arith, g.taken 0, w.first_taken);
    directory_taken = ground (arith, g.taken (p.page_directory_loc_phys / 4096), w.directory_taken);
    tables = λ i li q. grant-IsTable i (w.tables i li (rw (← grant-pde i) q));
    distinct = λ i j li lj d qi qj.
        rw (grant-pde i, grant-pde j)
          (w.distinct i j li lj d (rw (← grant-pde i) qi) (rw (← grant-pde j) qj));
  }

module _ (p : Paging) where
  abbrev at_index : ℕ → ℕ → ℕ
  at_index i j = if is_present (pde p i) then entry p (page_of (pde p i)) j else 0

  -- The addresses of a page share its entry.
  pub entry_at-page : (v u : ℕ) → v / 4096 ≡ u / 4096 → entry_at p v ≡ entry_at p u
  entry_at-page v u same =
      let i : pde_index v ≡ pde_index u = omega arith in
      let j : pte_index v ≡ pte_index u = omega arith in
      ap (λ x. at_index x (pte_index v)) i ∙ ap (at_index (pde_index u)) j

module _ (page : ℕ) (word : page < 2 ^ 32) (p : Paging) where
  pub needs-map : need_map p page ≡ not (is_present (entry_at p page))
  unfolding need_map
  needs-map = ground arith

  here-Commits : IsWellFormed p → is_present (entry_at p page) ≡ true → Commits page p p
  here-Commits w e = record { well_formed = w; present = e; kept = λ v lv q. refl }

  has_table : (v : ℕ) → is_present (entry_at p v) ≡ true → is_present (pde p (pde_index v)) ≡ true
  has_table v on = ground arith

  -- An address that was mapped lies in another page than one that was not, and has a page table.
  apart :
      (v : ℕ)
      → is_present (entry_at p page) ≡ false
      → is_present (entry_at p v) ≡ true
      → v / 4096 ≢ page / 4096
  apart v off on same = absurd (ground (arith, entry_at-page p v page same, off, on))

  map_page-Covers : (phys : ℕ) (q : Paging) → Maps page phys present_rw p q → Covers page p q
  map_page-Covers phys q m = record {
    well_formed = m.well_formed;
    present = rw m.hit (ground arith);
    kept = λ v lv other on. m.kept v lv other (elim (Bool-cases (pde_index v == pde_index page)) [
      | inl c ↦
          let i : pde_index v ≡ pde_index page = ground arith in inr (rw (← i) (has_table v on))
      | inr c ↦ inl (ground arith)
    ]);
  }

  pub covered-Commits :
      (q : Paging) → is_present (entry_at p page) ≡ false → Covers page p q → Commits page p q
  covered-Commits q off c = record {
    well_formed = c.well_formed;
    present = c.present;
    kept = λ v lv on. c.kept v lv (apart v off on) on;
  }

module _ (undo_oom undo_map : Paging → Paging) (page : ℕ) (word : page < 2 ^ 32) (p : Paging)
    (w : IsWellFormed p) where
  abbrev granted : Pmm
  granted = (pmm_get_next_available_block p.pmm).2

  abbrev phys_of : ℕ
  phys_of = (pmm_get_next_available_block p.pmm).1

  abbrev mapping : Paging
  mapping = (paging_map_page page phys_of present_rw (record p { pmm = granted })).1

  demand_map-success :
      (demand_map undo_oom undo_map page p).status ≡ dpage_success
      → ((pmm_get_next_available_block p.pmm).0 ≡ alloc_success)
        × ((paging_map_page page phys_of present_rw (record p { pmm = granted })).0 ≡ paging_ok)
        × ((demand_map undo_oom undo_map page p).paging ≡ mapping)
  unfolding demand_map
  demand_map-success ok = ground arith

  pub demand_map-Covers :
      (demand_map undo_oom undo_map page p).status ≡ dpage_success
      → Covers page p (demand_map undo_oom undo_map page p).paging
  demand_map-Covers ok =
      let (got, mapped, is) = demand_map-success ok in
      elim (get_next_available_block-MeetsSpec p.pmm w.memory) [
        | inr (full, a, b, c) ↦ absurd cc
        | inl (f, done, address, g) ↦
            let q = with_grant p w f granted g in
            let m =
              map_page-Maps page phys_of present_rw q (grant-IsWellFormed p w f granted g) word
                mapped in
            let same = grant-entry_at p w f granted g in
            let c = map_page-Covers page word q phys_of mapping m in
            rw is (record {
              well_formed = c.well_formed;
              present = c.present;
              kept = λ v lv other on. c.kept v lv other (rw (same v) on) ∙ same v;
            })
      ]

  pub page_round-Commits :
      (page_round undo_oom undo_map page p).status ≡ dpage_success
      → Commits page p (page_round undo_oom undo_map page p).paging
  unfolding page_round
  page_round-Commits ok = elim (Bool-cases (is_present (entry_at p page))) [
    | inl on ↦ rw (needs-map page word p ∙ ap not on) (here-Commits page word p w on)
    | inr off ↦
        let e = needs-map page word p ∙ ap not off in
        rw e (covered-Commits page word p _ off (demand_map-Covers (rw e at ok)))
  ]
