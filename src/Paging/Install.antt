-- ===== src/Paging/Install.antt =====
-- The page table that `paging_map_page` takes from the physical memory manager.
use unidos.Base.{
  ℕ, ◌+◌, ◌*◌, ◌/◌, ◌%◌, ◌<◌, ◌≡◌, ◌≢◌, refl, true, false, not, arith, ◌==◌, if◌then◌else◌, inl,
  inr, ◌⊎◌, ◌&&◌, leb, Option, none, some, ap, Bool-cases,
}
use unidos.Bitmap.Bits.{test_bit}
use unidos.Pmm.State.{Pmm, alloc_success, alloc_oom}
use unidos.Pmm.Alloc.{pmm_get_next_available_block}
use unidos.Pmm.Alloc.Block.{Grants, get_next_available_block-MeetsSpec}
use unidos.Pmm.Reserve.{PagingStatus, paging_ok, err_nomem}
use unidos.Paging.{
  Paging, is_present, is_user, pde_index, pte_index, page_of, entry, pde, store, table_entry,
  install_table, new_table, ensure_table,
}
use unidos.Paging.Tables.{IsTable, IsWellFormed, entry_at, memory-IsValid}

-- A granted frame `f` becomes the page table `i`, which was absent.
module _ (p : Paging) (i f flags : ℕ) (m : Pmm) (w : IsWellFormed p) (li : i < 1024)
    (absent : is_present (pde p i) ≡ false) (g : Grants f p.pmm m) where
  abbrev pub installed : Paging
  installed = install_table i (f * 4096) flags (record p { pmm = m })

  installed-pde :
      (j : ℕ) → pde installed j ≡ (if j == i then table_entry (f * 4096) flags else pde p j)
  unfolding install_table store
  installed-pde j =
      ground (arith, ap (λ (r : ℕ → ℕ). r (p.page_directory_loc_phys / 4 + j)) g.memory)

  installed-word :
      (u j : ℕ)
      → j < 1024
      → u % 4096 ≡ 0
      → u / 4096 ≢ p.page_directory_loc_phys / 4096
      → entry installed u j ≡ entry p u j
  unfolding install_table store
  installed-word u j lj au d = ground (arith, w.aligned, ap (λ (r : ℕ → ℕ). r (u / 4 + j)) g.memory)

  fresh : (j : ℕ) → test_bit p.pmm.pagebitmap j ≡ true → f ≢ j
  fresh j t = ground (arith, g.was_free)

  kept_taken : (j : ℕ) → test_bit p.pmm.pagebitmap j ≡ true → test_bit m.pagebitmap j ≡ true
  kept_taken j t = ground (arith, g.taken j)

  frame_of_entry : table_entry (f * 4096) flags / 4096 ≡ f
  frame_of_entry = ground arith

  installed-IsTable : IsTable installed i
  unfolding install_table store
  installed-IsTable =
      let here : pde installed i ≡ table_entry (f * 4096) flags = ground (arith, installed-pde i) in
      record {
        located = rw here (ground arith);
        nonzero = rw (here, frame_of_entry) (fresh 0 w.first_taken);
        apart =
            rw (here, frame_of_entry) (fresh (p.page_directory_loc_phys / 4096) w.directory_taken);
        taken = rw (here, frame_of_entry) (ground (arith, g.taken f));
      }

  other-pde : (j : ℕ) → j ≢ i → pde installed j ≡ pde p j
  other-pde j d = ground (arith, installed-pde j)

  installed-IsTable_others :
      (j : ℕ) → j < 1024 → j ≢ i → is_present (pde p j) ≡ true → IsTable installed j
  unfolding install_table store
  installed-IsTable_others j lj d q =
      let t = w.tables j lj q in
      record {
        located = rw (other-pde j d) (ground (arith, t.located));
        nonzero = rw (other-pde j d) t.nonzero;
        apart = rw (other-pde j d) t.apart;
        taken = rw (other-pde j d) (kept_taken (pde p j / 4096) t.taken);
      }

  new_table-distinct : (j : ℕ) → j < 1024 → j ≢ i → is_present (pde p j) ≡ true → f ≢ pde p j / 4096
  new_table-distinct j lj d q = fresh (pde p j / 4096) (w.tables j lj q).taken

  install_table-IsWellFormed : IsWellFormed installed
  unfolding install_table store
  install_table-IsWellFormed = record {
    initialized = w.initialized;
    aligned = w.aligned;
    memory = memory-IsValid m installed.pmm.memory g.valid;
    first_taken = kept_taken 0 w.first_taken;
    directory_taken = kept_taken (p.page_directory_loc_phys / 4096) w.directory_taken;
    tables = λ j lj q. elim (Bool-cases (j == i)) [
      | inl r ↦ let same : j ≡ i = ground arith in rw same installed-IsTable
      | inr r ↦
          let d : j ≢ i = ground arith in installed-IsTable_others j lj d (rw (← other-pde j d) q)
    ];
    distinct = λ j k lj lk d qj qk. ground (
      arith,
      installed-pde j,
      installed-pde k,
      frame_of_entry,
      new_table-distinct j lj,
      new_table-distinct k lk,
      w.distinct j k lj lk d,
    );
  }

  install_table-present : is_present (pde installed i) ≡ true
  install_table-present = rw (installed-pde i) (ground arith)

  -- The table is not cleared: it says what the frame held before.
  install_table-entry_at :
      (v : ℕ) → pde_index v ≡ i → entry_at installed v ≡ entry p (f * 4096) (pte_index v)
  install_table-entry_at v q =
      let here : pde installed i ≡ table_entry (f * 4096) flags = ground (arith, installed-pde i) in
      let start : page_of (table_entry (f * 4096) flags) ≡ f * 4096 = ground arith in
      rw (q, install_table-present, here, start)
        (installed-word (f * 4096) (pte_index v) (omega arith) (omega arith)
          (omega (arith, fresh (p.page_directory_loc_phys / 4096) w.directory_taken)))

  install_table-others : (v : ℕ) → pde_index v ≢ i → entry_at installed v ≡ entry_at p v
  install_table-others v d =
      rw (other-pde (pde_index v) d) (elim (Bool-cases (is_present (pde p (pde_index v)))) [
        | inl q ↦ rw q (
            installed-word (page_of (pde p (pde_index v))) (pte_index v) (omega arith) (omega arith)
              (omega (arith, (w.tables (pde_index v) (omega arith) q).apart)))
        | inr q ↦ rw q
      ])

-- A page table for directory entry `i` is there, and the addresses that had one keep their entry.
pub record HasTable (i : ℕ) (p p' : Paging) : Type 0 where
  pub well_formed : IsWellFormed p'
  pub present : is_present (pde p' i) ≡ true
  pub same_cr3 : p'.cr3 ≡ p.cr3
  pub same_directory : p'.page_directory_loc_phys ≡ p.page_directory_loc_phys
  pub kept :
      (v : ℕ) → (pde_index v ≢ i) ⊎ (is_present (pde p i) ≡ true) → entry_at p' v ≡ entry_at p v
  pub stale :
      (v : ℕ)
      → pde_index v ≡ i
      → is_present (pde p i) ≡ false
      → entry_at p' v ≡ p.pmm.memory ((pmm_get_next_available_block p.pmm).1 / 4 + pte_index v)

module _ (p : Paging) (i flags f : ℕ) (w : IsWellFormed p) (li : i < 1024)
    (absent : is_present (pde p i) ≡ false)
    (ok : (pmm_get_next_available_block p.pmm).0 ≡ alloc_success)
    (address : (pmm_get_next_available_block p.pmm).1 ≡ f * 4096)
    (g : Grants f p.pmm (pmm_get_next_available_block p.pmm).2) where
  abbrev granted : Pmm
  granted = (pmm_get_next_available_block p.pmm).2

  new_table-installed : new_table i flags p ≡ (none, installed p i f flags granted w li absent g)
  unfolding new_table
  new_table-installed = ground (arith, ok, address)

  installed-HasTable : HasTable i p (installed p i f flags granted w li absent g)
  unfolding install_table store
  installed-HasTable = record {
    well_formed = install_table-IsWellFormed p i f flags granted w li absent g;
    present = install_table-present p i f flags granted w li absent g;
    same_cr3 = refl;
    same_directory = refl;
    kept = λ v c. elim c [
      | inl d ↦ install_table-others p i f flags granted w li absent g v d
      | inr q ↦ absurd (ground (arith, absent))
    ];
    stale = λ v q c.
        let start : (pmm_get_next_available_block p.pmm).1 / 4 ≡ f * 4096 / 4 =
          ap (λ x. x / 4) address in
        rw start (install_table-entry_at p i f flags granted w li absent g v q);
  }

self-HasTable : (p : Paging) (i : ℕ) → IsWellFormed p → is_present (pde p i) ≡ true → HasTable i p p
self-HasTable p i w q = record {
  well_formed = w;
  present = q;
  same_cr3 = refl;
  same_directory = refl;
  kept = λ v c. refl;
  stale = λ v s c. absurd (ground (arith, q));
}

-- A table is there, or nothing has changed and the first component is an error.
abbrev pub Ensured : ℕ → Paging → Option PagingStatus × Paging → Type 0
Ensured i p (bad, p') =
    ((bad ≡ none) × HasTable i p p') ⊎ ((bad ≢ none) × (bad ≢ some paging_ok) × (p' ≡ p))

module _ (p : Paging) (i flags : ℕ) (w : IsWellFormed p) (li : i < 1024) where
  new_table-full :
      (pmm_get_next_available_block p.pmm).0 ≡ alloc_oom
      → (pmm_get_next_available_block p.pmm).2 ≡ p.pmm
      → new_table i flags p ≡ (some err_nomem, p)
  unfolding new_table
  new_table-full full same = ground (arith, full, same)

  new_table-Ensured : is_present (pde p i) ≡ false → Ensured i p (new_table i flags p)
  new_table-Ensured absent = elim (get_next_available_block-MeetsSpec p.pmm w.memory) [
    | inl (f, ok, address, g) ↦
        rw (new_table-installed p i flags f w li absent ok address g)
          (inl (refl, installed-HasTable p i flags f w li absent ok address g))
    | inr (full, a, same, b) ↦ rw (new_table-full full same) (inr (λ e. cc, λ e. cc, refl))
  ]

  pub ensure_table-Ensured : Ensured i p (ensure_table i flags p)
  unfolding ensure_table
  ensure_table-Ensured = elim (Bool-cases (is_present (pde p i))) [
    | inl here ↦ rw here (elim (Bool-cases (is_user flags && not (is_user (pde p i)))) [
      | inl c ↦ rw c (inr (λ e. cc, λ e. cc, refl))
      | inr c ↦ rw c (inl (refl, self-HasTable p i w here))
    ])
    | inr absent ↦ rw absent (elim (Bool-cases (leb 1024 p.page_table_count)) [
      | inl c ↦ rw c (inr (λ e. cc, λ e. cc, refl))
      | inr c ↦ rw c (new_table-Ensured absent)
    ])
  ]
